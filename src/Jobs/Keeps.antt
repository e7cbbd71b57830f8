-- ===== src/Jobs/Keeps.antt =====
-- What the completion handlers of job_completion.go promise about the jobs of their stream.
use notification_server.Base.{ℕ, String, ◌≡◌, ◌≢◌, inl, inr, some, refl}
use notification_server.Domain.Entities.{Job, JobMessage}
use notification_server.Domain.Errors.{Message}
use notification_server.Domain.Action.{ok, Action, ◌>>◌}
use notification_server.Store.Broker.{Broker}
use notification_server.Store.World.{World}
use notification_server.Store.Triple.{
  Triple, Triple-bind, Triple-query, Triple-elsewhere, Triple-or, Triple-return, conseq,
}
use notification_server.Queue.Codec.{Codec, payload_of}
use notification_server.Queue.Task.{add, ack, delete, schedule_retry, retry_queue}
use notification_server.Queue.Task.Laws.{
  Entry, Stored, Scheduled, ack-Triple, delete-Scheduled, delete-Stored, add-Stored,
  schedule_retry-Scheduled, schedule_retry-Stored, schedule_retry_keeps-Scheduled,
}
use notification_server.Queue.Worker.{process}
use notification_server.Queue.Delivery.{IsKept, xadd-IsKept, Delivers, process_keeps}
use notification_server.Jobs.Executer.{
  generate_story, execute_story, execute_email, send_notification_email,
}
use notification_server.Jobs.Completion.{
  StoryStreams, EmailStreams, retried, story_on_failure, story_send_to_dql, email_on_failure,
  email_send_to_dql,
}
use notification_server.Jobs.Handlers.{story_handler, email_handler}
use notification_server.Repository.Stories.{
  upload_story, save_email_job, update_story_job, update_email_job,
}

module _ (B : Broker) (C : Codec) {H : Type 0} where
  -- The three calls that close a job whose copy is safe in `P`.
  close_keeps :
      (P : B.State → Type 0) (g k : String) (i : ℕ) (rest : Action (World B.State H) (Unit {0}))
      → Triple {H = H} P (ack B C g i k) (λ _. P) P
      → Triple {H = H} P (delete B C i k) (λ _. P) P
      → Triple P rest (λ _. P) P
      → Triple P (do ack B C g i k; delete B C i k; rest) (λ _. P) P
  close_keeps P g k i rest a x r = Triple-bind a λ _. Triple-bind x λ _. r

  module _ (g k d : String) (i : ℕ) (v v' : String) where
    close-Scheduled :
        (rest : Action (World B.State H) (Unit {0}))
        → ((P : B.State → Type 0) → Triple P rest (λ _. P) P)
        → Triple
            (Scheduled B (retry_queue k) v')
            (do ack B C g i k; delete B C i k; rest)
            (λ _. IsKept B k d i v v')
            (IsKept B k d i v v')
    close-Scheduled rest r =
        conseq (λ b h. h) (λ _ b h. inr (inr h)) (λ b h. inr (inr h))
          (close_keeps (Scheduled B (retry_queue k) v') g k i rest
            (ack-Triple B C (λ _ f. (t : ℕ) × (f (retry_queue k) v' ≡ some t)) g i k)
            (delete-Scheduled B C i k (retry_queue k) v') (r _))

    close-Stored :
        (rest : Action (World B.State H) (Unit {0}))
        → k ≢ d
        → ((P : B.State → Type 0) → Triple P rest (λ _. P) P)
        → Triple
            (Stored B d v)
            (do ack B C g i k; delete B C i k; rest)
            (λ _. IsKept B k d i v v')
            (IsKept B k d i v v')
    close-Stored rest ne r =
        conseq (λ b h. h) (λ _ b h. inr (inl h)) (λ b h. inr (inl h))
          (close_keeps (Stored B d v) g k i rest
            (ack-Triple B C (λ f _. (j : ℕ) × (f d j ≡ some v)) g i k)
            (delete-Stored B C i k d v ne) (r _))

    -- `OnFailure`: schedule first, then close.
    retry_keeps :
        (rand : ℕ → ℕ) (now : ℕ) (job' : Job) (rest : Action (World B.State H) (Unit {0}))
        → k ≢ d
        → C.marshal (payload_of job') ≡ some v'
        → ((P : B.State → Type 0) → Triple P rest (λ _. P) P)
        → Triple
            (IsKept B k d i v v')
            (do schedule_retry B C rand now job' k; ack B C g i k; delete B C i k; rest)
            (λ _. IsKept B k d i v v')
            (IsKept B k d i v v')
    retry_keeps rand now job' rest ne enc r =
        Triple-or
          (Triple-bind
            (conseq (λ b h. h) (λ _ b h. h) (λ b h. inl h)
              (schedule_retry-Scheduled B C rand now job' k v' (λ f. f k i ≡ some v) enc))
            λ _. close-Scheduled rest r)
          (Triple-or
            (Triple-bind
              (conseq (λ b h. h) (λ _ b h. h) (λ b h. inr (inl h))
                (schedule_retry-Stored B C rand now job' k d v))
              λ _. close-Stored rest ne r)
            (Triple-bind
              (conseq (λ b h. h) (λ _ b h. h) (λ b h. inr (inr h))
                (schedule_retry_keeps-Scheduled B C rand now job' k (retry_queue k) v'))
              λ _. close-Scheduled rest r))

    -- `SendToDQL`: add to the dead letter queue first, then close.
    bury_keeps :
        (job : Job) (rest : Action (World B.State H) (Unit {0}))
        → k ≢ d
        → C.marshal (payload_of job) ≡ some v
        → ((P : B.State → Type 0) → Triple P rest (λ _. P) P)
        → Triple
            (IsKept B k d i v v')
            (do add B C job d; ack B C g i k; delete B C i k; rest)
            (λ _. IsKept B k d i v v')
            (IsKept B k d i v v')
    bury_keeps job rest ne enc r =
        Triple-bind
          (add-Stored B C (IsKept B k d i v v') job d v enc (xadd-IsKept B k d i v v' d v))
          λ _. close-Stored rest ne r

  story_on_failure_keeps :
      (rand : ℕ → ℕ) (now : ℕ) (s : StoryStreams) (job : Job) (i : ℕ) (v v' : String)
      → s.story_stream ≢ s.dead_letter_queue_stream
      → C.marshal (payload_of (retried job)) ≡ some v'
      → Triple {H = H}
          (IsKept B s.story_stream s.dead_letter_queue_stream i v v')
          (story_on_failure B C rand now s job i)
          (λ _. IsKept B s.story_stream s.dead_letter_queue_stream i v v')
          (IsKept B s.story_stream s.dead_letter_queue_stream i v v')
  unfolding story_on_failure update_story_job
  story_on_failure_keeps rand now s job i v v' ne enc' =
      retry_keeps s.group s.story_stream s.dead_letter_queue_stream i v v' rand now (retried job) _
        ne enc' (λ P. Triple-query _ _)

  story_send_to_dql_keeps :
      (s : StoryStreams) (job : Job) (i : ℕ) (v v' : String)
      → s.story_stream ≢ s.dead_letter_queue_stream
      → C.marshal (payload_of job) ≡ some v
      → Triple {H = H}
          (IsKept B s.story_stream s.dead_letter_queue_stream i v v')
          (story_send_to_dql B C s job i)
          (λ _. IsKept B s.story_stream s.dead_letter_queue_stream i v v')
          (IsKept B s.story_stream s.dead_letter_queue_stream i v v')
  unfolding story_send_to_dql update_story_job
  story_send_to_dql_keeps s job i v v' ne enc =
      bury_keeps s.group s.story_stream s.dead_letter_queue_stream i v v' job _ ne enc
        (λ P. Triple-query _ _)

  email_on_failure_keeps :
      (rand : ℕ → ℕ) (now : ℕ) (s : EmailStreams) (job : Job) (i : ℕ) (v v' : String)
      → s.email_stream ≢ s.dead_letter_queue_stream
      → C.marshal (payload_of (retried job)) ≡ some v'
      → Triple {H = H}
          (IsKept B s.email_stream s.dead_letter_queue_stream i v v')
          (email_on_failure B C rand now s job i)
          (λ _. IsKept B s.email_stream s.dead_letter_queue_stream i v v')
          (IsKept B s.email_stream s.dead_letter_queue_stream i v v')
  unfolding email_on_failure update_email_job
  email_on_failure_keeps rand now s job i v v' ne enc' =
      retry_keeps s.group s.email_stream s.dead_letter_queue_stream i v v' rand now (retried job) _
        ne enc' (λ P. Triple-query _ _)

  email_send_to_dql_keeps :
      (s : EmailStreams) (job : Job) (i : ℕ) (v v' : String)
      → s.email_stream ≢ s.dead_letter_queue_stream
      → C.marshal (payload_of job) ≡ some v
      → Triple {H = H}
          (IsKept B s.email_stream s.dead_letter_queue_stream i v v')
          (email_send_to_dql B C s job i)
          (λ _. IsKept B s.email_stream s.dead_letter_queue_stream i v v')
          (IsKept B s.email_stream s.dead_letter_queue_stream i v v')
  unfolding email_send_to_dql update_email_job
  email_send_to_dql_keeps s job i v v' ne enc =
      bury_keeps s.group s.email_stream s.dead_letter_queue_stream i v v' job _ ne enc
        (λ P. Triple-query _ _)

  -- The handlers keep their promises where a stream is not its own dead letter queue.
  pub story-Delivers :
      (model : Message → String) (rand : ℕ → ℕ) (now : ℕ) (s : StoryStreams)
      → s.story_stream ≢ s.dead_letter_queue_stream
      → Delivers B C {H = H} s.story_stream s.dead_letter_queue_stream
          (story_handler B C model rand now s)
  unfolding story_handler execute_story generate_story upload_story save_email_job
  story-Delivers model rand now s ne = record {
    execute_keeps = λ P job. Triple-bind (Triple-elsewhere _ _ (λ w. refl)) λ output.
        Triple-bind (Triple-query _ _) λ _. Triple-bind (Triple-query _ _) λ _. Triple-return tt;
    failure_keeps = λ job i v v' _ enc'. story_on_failure_keeps rand now s job i v v' ne enc';
    dql_keeps = λ job i v v' enc. story_send_to_dql_keeps s job i v v' ne enc;
  }

  pub email-Delivers :
      (rand : ℕ → ℕ) (now : ℕ) (e : EmailStreams)
      → e.email_stream ≢ e.dead_letter_queue_stream
      → Delivers B C {H = H} e.email_stream e.dead_letter_queue_stream
          (email_handler B C rand now e)
  unfolding email_handler execute_email send_notification_email
  email-Delivers rand now e ne = record {
    execute_keeps = λ P job. Triple-elsewhere _ _ (λ w. refl);
    failure_keeps = λ job i v v' _ enc'. email_on_failure_keeps rand now e job i v v' ne enc';
    dql_keeps = λ job i v v' enc. email_send_to_dql_keeps e job i v v' ne enc;
  }

module _ (B : Broker) (C : Codec) {H : Type 0} (rand : ℕ → ℕ) (now max : ℕ) (msg : JobMessage)
    (v v' : String) (w : World B.State H) (enc : C.marshal (payload_of msg.payload) ≡ some v)
    (enc' : C.marshal (payload_of (retried msg.payload)) ≡ some v') where
  -- Where the story stream is not its own dead letter queue and the codec takes the job, a story job
  -- of the stream whose execution failed or panicked is not lost: after the worker processed it, it
  -- is in the story stream still, or in the dead letter queue, or scheduled for a retry with its
  -- retry count one up, whatever the network does to the commands.
  story_job-IsKept :
      (model : Message → String) (s : StoryStreams)
      → s.story_stream ≢ s.dead_letter_queue_stream
      → Entry B s.story_stream msg.message_id v w.broker
      → (execute_story model msg.payload w).0 ≢ ok tt
      → IsKept B s.story_stream s.dead_letter_queue_stream msg.message_id v v'
          (process (story_handler B C model rand now s) max msg w).1.broker
  unfolding story_handler
  story_job-IsKept model s apart there failed =
      process_keeps B C s.story_stream s.dead_letter_queue_stream
        (story_handler B C model rand now s) (story-Delivers B C model rand now s apart) max msg v
        v' w enc enc' there failed

  -- Where the email stream is not its own dead letter queue and the codec takes the job, an email job
  -- of the stream whose execution failed or panicked is not lost: after the worker processed it, it
  -- is in the email stream still, or in the dead letter queue, or scheduled for a retry with its
  -- retry count one up, whatever the network does to the commands.
  email_job-IsKept :
      (e : EmailStreams)
      → e.email_stream ≢ e.dead_letter_queue_stream
      → Entry B e.email_stream msg.message_id v w.broker
      → (execute_email msg.payload w).0 ≢ ok tt
      → IsKept B e.email_stream e.dead_letter_queue_stream msg.message_id v v'
          (process (email_handler B C rand now e) max msg w).1.broker
  unfolding email_handler
  email_job-IsKept e apart there failed =
      process_keeps B C e.email_stream e.dead_letter_queue_stream (email_handler B C rand now e)
        (email-Delivers B C rand now e apart) max msg v v' w enc enc' there failed
