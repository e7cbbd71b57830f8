-- ===== src/Jobs/Statuses.antt =====
-- What the tables say of a story job that was given up, on a network that answers every command.
use notification_server.Base.{ℕ, String, ◌+◌, ◌≡◌, refl, some, nat_eq, nat_beq_iff, All}
use notification_server.Domain.Entities.{Job, JobMessage}
use notification_server.Domain.Errors.{Message, Error}
use notification_server.Domain.Action.{ok, err}
use notification_server.Store.Broker.{Broker}
use notification_server.Store.Rows.{update_where-All}
use notification_server.Store.Tables.{Db, Status, StoryJobRow}
use notification_server.Store.World.{World, online, call, query}
use notification_server.Queue.Backoff.{calculate_backoff_delay}
use notification_server.Queue.Codec.{Codec, payload_of}
use notification_server.Queue.Task.{ack, delete, schedule_retry}
use notification_server.Queue.Worker.{process, settle}
use notification_server.Jobs.Completion.{StoryStreams, retried, story_on_failure, story_send_to_dql}
use notification_server.Jobs.Exhausted.{online_send_to_dql, stays_online}
use notification_server.Jobs.Handlers.{story_handler}
use notification_server.Jobs.Executer.{execute_story}
use notification_server.Repository.Stories.{update_story_job, job_of_story, with_status}

-- Every job row of the story has that status.
abbrev pub AllHave : ℕ → Status → Db → Type 0
AllHave story status d =
    All (λ (j : StoryJobRow). j.story_id ≡ story → j.status ≡ status) d.story_jobs.rows

module _ (B : Broker) (C : Codec) {H : Type 0} (rand : ℕ → ℕ) (now : ℕ) (s : StoryStreams) where
  failure_reads_processing :
      (job : Job) (i delay : ℕ) (v' : String) (w : World B.State H)
      → C.marshal (payload_of (retried job)) ≡ some v'
      → calculate_backoff_delay rand (job.retry_counts + 1) ≡ ok delay
      → AllHave job.story_id Status.processing
          (story_on_failure B C rand now s job i (online w)).1.db
  unfolding story_on_failure schedule_retry ack delete update_story_job query call
  failure_reads_processing job i delay v' w enc' backoff =
      rw (backoff, enc')
        (update_where-All (job_of_story job.story_id) (with_status Status.processing)
          (λ j. j.story_id ≡ job.story_id) (λ j. j.status ≡ Status.processing) w.db.story_jobs.rows
          (λ j e. (nat_beq_iff j.story_id job.story_id).1 e) (λ j. refl))

  -- Where the codec takes the job, the back-off gives a delay, and the network answers all commands
  -- after the execution failed: a story job with its retry count at the limit, which goes to the dead
  -- letter queue, leaves every job row of its story with the status processing, and not failed.
  pub exhausted_reads_processing :
      (model : Message → String) (msg : JobMessage) (delay : ℕ) (v v' : String)
      → C.marshal (payload_of msg.payload) ≡ some v
      → C.marshal (payload_of (retried msg.payload)) ≡ some v'
      → calculate_backoff_delay rand (msg.payload.retry_counts + 1) ≡ ok delay
      → (e : Error) (w x : World B.State H) → execute_story model msg.payload w ≡ (err e, online x)
      → AllHave msg.payload.story_id Status.processing
          (process (story_handler B C model rand now s) msg.payload.retry_counts msg w).1.db
  unfolding process settle story_handler
  exhausted_reads_processing model msg delay v v' enc enc' backoff e w x failed =
      let y = (story_send_to_dql B C s msg.payload msg.message_id (online x)).1 in
      let (streams, link, quiet) = online_send_to_dql B C s msg.payload msg.message_id v x enc in
      rw (failed, (nat_beq_iff msg.payload.retry_counts msg.payload.retry_counts).1 refl)
        (rw quiet (
          rw (stays_online B C y link)
            (failure_reads_processing msg.payload msg.message_id delay v' y enc' backoff)))
