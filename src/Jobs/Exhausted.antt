-- ===== src/Jobs/Exhausted.antt =====
-- What streams_consumers.go and job_completion.go do with a story job that used up its retries, on a
-- network that answers every command.
use notification_server.Base.{
  ℕ, String, ◌+◌, ◌/◌, ◌<◌, ◌≡◌, ◌≢◌, refl, ap, ◌∙◌, some, [], inl, ◌==◌, nat_eq, false, arith,
  eq_iff, nat_beq_iff,
}
use notification_server.Domain.Entities.{Job, JobMessage}
use notification_server.Domain.Errors.{Variable, Message, Error}
use notification_server.Domain.Action.{ok, err, forget, ignore_error, ◌>>◌}
use notification_server.Store.Broker.{Broker}
use notification_server.Store.World.{World, online, call, query, scan_error}
use notification_server.Store.Tables.{Reply, row, no_rows, refused}
use notification_server.Queue.Backoff.{calculate_backoff_delay}
use notification_server.Queue.Codec.{Codec, payload_of}
use notification_server.Queue.Task.{add, ack, delete, schedule_retry, retry_queue, nanoseconds}
use notification_server.Queue.Task.Laws.{
  Stored, Scheduled, xadd-Stored, xdel-Entry, zadd_self, zadd-entries,
}
use notification_server.Queue.Worker.{process, settle}
use notification_server.Jobs.Completion.{StoryStreams, retried, story_on_failure, story_send_to_dql}
use notification_server.Jobs.Handlers.{story_handler}
use notification_server.Jobs.Executer.{execute_story}
use notification_server.Repository.Stories.{update_story_job}

-- The stream once the message is acknowledged and deleted.
abbrev pub closed : (B : Broker) → StoryStreams → ℕ → B.State → B.State
closed B s i r = B.xdel s.story_stream i (B.xack s.story_stream s.group i r)

module _ (B : Broker) where
  closed-Stored :
      (s : StoryStreams) (i : ℕ) (d v : String) (r : B.State)
      → s.story_stream ≢ d
      → Stored B d v r
      → Stored B d v (closed B s i r)
  closed-Stored s i d v r ne (j, h) = (
    j,
    xdel-Entry B s.story_stream i _ d j v (inl ne) (rw (B.entry-xack s.story_stream s.group i r) h),
  )

  closed-Scheduled :
      (s : StoryStreams) (i : ℕ) (q m : String) (r : B.State)
      → Scheduled B q m r
      → Scheduled B q m (closed B s i r)
  closed-Scheduled s i q m r h =
      rw (B.score-xdel s.story_stream i _, B.score-xack s.story_stream s.group i r) h

pub closed_other :
    (B : Broker) (s : StoryStreams) (i : ℕ) (d : String) (j : ℕ) (r : B.State)
    → s.story_stream ≢ d
    → B.entry (closed B s i r) d j ≡ B.entry r d j
closed_other B s i d j r ne = rw (← B.entry-xack s.story_stream s.group i r) (
    ground (
      arith,
      B.entry-xdel s.story_stream i (B.xack s.story_stream s.group i r) d j,
      eq_iff s.story_stream d,
    ))

past_limit : (max count : ℕ) → max < count → (count == max) ≡ false
past_limit max count h = ground arith

forget-scan : {A : Type 0} (v : Variable) (y : Reply A) → forget (scan_error v y) ≡ ok tt
forget-scan v (row a) = refl
forget-scan v no_rows = refl
forget-scan v refused = refl

module _ (B : Broker) (C : Codec) {H : Type 0} where
  pub online_send_to_dql :
      (s : StoryStreams) (job : Job) (i : ℕ) (v : String) (w : World B.State H)
      → C.marshal (payload_of job) ≡ some v
      → ((story_send_to_dql B C s job i (online w)).1.broker
          ≡ closed B s i (B.xadd s.dead_letter_queue_stream v w.broker).1)
        × ((story_send_to_dql B C s job i (online w)).1.link ≡ [])
        × (forget (story_send_to_dql B C s job i (online w)).0 ≡ ok tt)
  unfolding story_send_to_dql add ack delete update_story_job query call
  online_send_to_dql s job i v w enc = rw enc (refl, refl, forget-scan _ _)

  online_on_failure :
      (rand : ℕ → ℕ) (now : ℕ) (s : StoryStreams) (job : Job) (i delay : ℕ) (v' : String)
      (w : World B.State H)
      → C.marshal (payload_of (retried job)) ≡ some v'
      → calculate_backoff_delay rand (job.retry_counts + 1) ≡ ok delay
      → (story_on_failure B C rand now s job i (online w)).1.broker
        ≡ closed B s i
            (B.zadd (retry_queue s.story_stream) ((now + delay) / nanoseconds) v' w.broker)
  unfolding story_on_failure schedule_retry ack delete update_story_job query call
  online_on_failure rand now s job i delay v' w enc' backoff = rw (backoff, enc')

  -- A network that was made to answer stays so.
  pub stays_online : (y : World B.State H) → y.link ≡ [] → y ≡ online y
  stays_online y p = λ i. record y { link = p i }

  online_both :
      (rand : ℕ → ℕ) (now : ℕ) (s : StoryStreams) (job : Job) (i delay : ℕ) (v v' : String)
      (w : World B.State H)
      → C.marshal (payload_of job) ≡ some v
      → C.marshal (payload_of (retried job)) ≡ some v'
      → calculate_backoff_delay rand (job.retry_counts + 1) ≡ ok delay
      → ((do
        ignore_error (story_send_to_dql B C s job i)
        ignore_error (story_on_failure B C rand now s job i))
          (online w)).1.broker
        ≡ closed B s i (
            B.zadd
              (retry_queue s.story_stream)
              ((now + delay) / nanoseconds)
              v'
              (closed B s i (B.xadd s.dead_letter_queue_stream v w.broker).1))
  online_both rand now s job i delay v v' w enc enc' backoff =
      let (streams, link, quiet) = online_send_to_dql s job i v w enc in
      rw quiet (
        rw (stays_online (story_send_to_dql B C s job i (online w)).1 link) (
          online_on_failure rand now s job i delay v' (story_send_to_dql B C s job i (online w)).1
            enc' backoff
          ∙ ap
              (λ r.
                closed B s i
                  (B.zadd (retry_queue s.story_stream) ((now + delay) / nanoseconds) v' r))
              streams))

  module _ (model : Message → String) (rand : ℕ → ℕ) (now : ℕ) (s : StoryStreams)
      (apart : s.story_stream ≢ s.dead_letter_queue_stream) (msg : JobMessage) (delay : ℕ)
      (v v' : String) (enc : C.marshal (payload_of msg.payload) ≡ some v)
      (enc' : C.marshal (payload_of (retried msg.payload)) ≡ some v')
      (backoff : calculate_backoff_delay rand (msg.payload.retry_counts + 1) ≡ ok delay) (e : Error)
      (w x : World B.State H) (failed : execute_story model msg.payload w ≡ (err e, online x)) where
    -- Where the story stream is not its own dead letter queue, the codec takes the job, the back-off
    -- gives a delay, and the network answers all commands after the execution failed: a story job
    -- with its retry count at the limit stands in the dead letter queue, and is scheduled for one
    -- more retry as well.
    pub exhausted_retried_too :
        let h = story_handler B C {H = H} model rand now s in
        let r = (process h msg.payload.retry_counts msg w).1.broker in
        Stored B s.dead_letter_queue_stream v r × Scheduled B (retry_queue s.story_stream) v' r
    unfolding process settle story_handler
    exhausted_retried_too =
        rw (failed, (nat_beq_iff msg.payload.retry_counts msg.payload.retry_counts).1 refl)
          (rw (online_both rand now s msg.payload msg.message_id delay v v' x enc enc' backoff) (
            closed-Stored B s msg.message_id s.dead_letter_queue_stream v _ apart (
                zadd-entries B (λ f. (i : ℕ) × (f s.dead_letter_queue_stream i ≡ some v)) _ _ _ _
                  (closed-Stored B s msg.message_id s.dead_letter_queue_stream v _ apart
                    (xadd-Stored B s.dead_letter_queue_stream v x.broker))),
            closed-Scheduled B s msg.message_id (retry_queue s.story_stream) v' _
                (zadd_self B (retry_queue s.story_stream) _ v' _),
          ))

    -- Where the story stream is not its own dead letter queue, the codec takes the job, the back-off
    -- gives a delay, and the network answers all commands after the execution failed: a story job
    -- with its retry count past the limit is scheduled for a retry again, and the dead letter queue
    -- is left as it was.
    pub overdue_never_buried :
        (max : ℕ)
        → max < msg.payload.retry_counts
        → let h = story_handler B C {H = H} model rand now s in
          let r = (process h max msg w).1.broker in
          Scheduled B (retry_queue s.story_stream) v' r
          × ((j : ℕ)
              → B.entry r s.dead_letter_queue_stream j
                ≡ B.entry x.broker s.dead_letter_queue_stream j)
    unfolding process settle story_handler
    overdue_never_buried max past =
        rw (failed, past_limit max msg.payload.retry_counts past)
          (rw (online_on_failure rand now s msg.payload msg.message_id delay v' x enc' backoff) (
            closed-Scheduled B s msg.message_id (retry_queue s.story_stream) v' _
                (zadd_self B (retry_queue s.story_stream) _ v' _),
            λ j.
                closed_other B s msg.message_id s.dead_letter_queue_stream j _ apart
                ∙ zadd-entries B
                    (λ f.
                      f s.dead_letter_queue_stream j
                      ≡ B.entry x.broker s.dead_letter_queue_stream j)
                    _ _ _ _ refl,
          ))
