-- ===== src/Jobs/Success.antt =====
-- What `OnSuccess` of job_completion.go leaves behind.
use notification_server.Base.{
  ℕ, String, ◌≡◌, ◌≢◌, refl, some, none, List, ◌∷◌, nat_eq, arith, eq_iff, nat_beq_iff, All,
}
use notification_server.Domain.Entities.{Job}
use notification_server.Domain.Errors.{Error}
use notification_server.Domain.Action.{err}
use notification_server.Store.Tables.{Status, StoryJobRow}
use notification_server.Store.Rows.{update_where-All}
use notification_server.Store.Broker.{Broker}
use notification_server.Store.World.{World, call, query, answered, dropped, Outcome}
use notification_server.Queue.Codec.{Codec, payload_of}
use notification_server.Queue.Task.{add, ack, delete}
use notification_server.Queue.Task.Laws.{Stored, xadd-Stored}
use notification_server.Jobs.Completion.{StoryStreams, story_on_success}
use notification_server.Jobs.Exhausted.{closed, closed_other}
use notification_server.Store.World.{online}
use notification_server.Repository.Stories.{update_story_job, job_of_story, with_status}

closed_gone :
    (B : Broker) (s : StoryStreams) (i : ℕ) (r : B.State)
    → B.entry (closed B s i r) s.story_stream i ≡ none
closed_gone B s i r = ground (
  arith,
  B.entry-xdel s.story_stream i (B.xack s.story_stream s.group i r) s.story_stream i,
  eq_iff s.story_stream s.story_stream,
  nat_beq_iff i i,
)

-- Where the codec takes the job, the story stream is not the email stream, and the network answers
-- two commands of `OnSuccess` and drops the third, which hands a finished story over: the message is
-- gone from the story stream, the email stream and the tables are as they were, and the call returns
-- an error.
pub notification_lost :
    (B : Broker) (C : Codec) {H : Type 0} (s : StoryStreams) (job : Job) (i : ℕ) (v : String)
    (w : World B.State H) (rest : List Outcome)
    → C.marshal (payload_of job) ≡ some v
    → s.story_stream ≢ s.notification_stream
    → w.link ≡ answered ∷ answered ∷ dropped ∷ rest
    → let (r, w') = story_on_success B C s job i w in
      ((e : Error) × (r ≡ err e))
      × (B.entry w'.broker s.story_stream i ≡ none)
      × ((j : ℕ)
          → B.entry w'.broker s.notification_stream j ≡ B.entry w.broker s.notification_stream j)
      × (w'.db ≡ w.db)
unfolding story_on_success add ack delete call
notification_lost B C s job i v w rest enc apart faults =
    rw (faults, enc)
      (
        (_, refl),
        closed_gone B s i w.broker,
        λ j. closed_other B s i s.notification_stream j w.broker apart,
        refl,
      )

moved_gone :
    (B : Broker) (s : StoryStreams) (i : ℕ) (v : String) (r : B.State)
    → s.story_stream ≢ s.notification_stream
    → B.entry (B.xadd s.notification_stream v (closed B s i r)).1 s.story_stream i ≡ none
moved_gone B s i v r apart = ground (
  arith,
  B.entry-xadd s.notification_stream v (closed B s i r) s.story_stream i,
  closed_gone B s i r,
  eq_iff s.notification_stream s.story_stream,
)

-- Where the codec takes the job, the story stream is not the email stream, and the network answers
-- every command: after `OnSuccess` the message has left the story stream, its job stands in the
-- email stream, and every job row of the story reads completed.
pub story_success :
    (B : Broker) (C : Codec) {H : Type 0} (s : StoryStreams) (job : Job) (i : ℕ) (v : String)
    (w : World B.State H)
    → C.marshal (payload_of job) ≡ some v
    → s.story_stream ≢ s.notification_stream
    → let w' = (story_on_success B C s job i (online w)).1 in
      (B.entry w'.broker s.story_stream i ≡ none)
      × Stored B s.notification_stream v w'.broker
      × All
          (λ (j : StoryJobRow). j.story_id ≡ job.story_id → j.status ≡ Status.completed)
          w'.db.story_jobs.rows
unfolding story_on_success add ack delete update_story_job query call
story_success B C s job i v w enc apart = rw enc (
  moved_gone B s i v w.broker apart,
  xadd-Stored B s.notification_stream v (closed B s i w.broker),
  update_where-All (job_of_story job.story_id) (with_status Status.completed)
      (λ j. j.story_id ≡ job.story_id) (λ j. j.status ≡ Status.completed) w.db.story_jobs.rows
      (λ j e. (nat_beq_iff j.story_id job.story_id).1 e) (λ j. refl),
)
