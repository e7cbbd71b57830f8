-- ===== src/System/Pools.antt =====
-- What the worker pools and their schedulers do to the tables: a property that the pools' statements
-- keep is kept by each round.
use notification_server.Base.{
  ℕ, String, Bool-cases, inl, inr, Option, none, some, List, [], ◌∷◌, ◌==◌, nat_eq,
}
use notification_server.Domain.Errors.{Error, Code, Message, str}
use notification_server.Domain.Entities.{Job, JobMessage, UploadStory}
use notification_server.Domain.Action.{Result, ok, err, panic}
use notification_server.Store.Broker.{Broker}
use notification_server.Store.Tables.{Db, Status}
use notification_server.Store.World.{World, call, on_broker}
use notification_server.Store.Holds.{
  On, Holds, Holds-bind, Holds-call, Holds-lift, Holds-return, Holds-ignore, Holds-attempt,
  Holds-query, Holds-broker,
}
use notification_server.Queue.Backoff.{calculate_backoff_delay}
use notification_server.Queue.Codec.{Codec, payload_of, job_of}
use notification_server.Queue.Task.{
  add, read, ack, delete, schedule_retry, re_enqueue, re_enqueue_all, job_failure, stream_failure,
  or_fail, raw_payload, no_message,
}
use notification_server.Queue.Worker.{JobHandler, settle, process, round}
use notification_server.Repository.Stories.{
  upload, insert_email_job, set_story_job, set_email_job, upload_story, save_email_job,
  update_story_job, update_email_job,
}
use notification_server.Jobs.Executer.{
  generate_story, execute_story, execute_email, send_notification_email, prompt,
}
use notification_server.Jobs.Completion.{
  StoryStreams, EmailStreams, retried, story_on_success, story_on_failure, story_send_to_dql,
  email_on_success, email_on_failure, email_send_to_dql,
}
use notification_server.Jobs.Handlers.{story_handler, email_handler}
use notification_server.System.Services.{add-Holds}

-- Each statement of a pool on the tables keeps `I`.
pub record Steady (I : Db → Type 0) : Type 0 where
  pub by_upload : (s : UploadStory) (d : Db) → I d → I (upload s d).1
  pub by_email_job :
      (story user : ℕ) (status : Status) (d : Db) → I d → I (insert_email_job story user status d).1
  pub by_story_status :
      (story : ℕ) (status : Status) (d : Db) → I d → I (set_story_job story status d).1
  pub by_email_status :
      (story user : ℕ) (status : Status) (d : Db) → I d → I (set_email_job story user status d).1

-- The handlers of a pool keep `I`.
pub record HandlerHolds {R H : Type 0} (I : Db → R → Type 0) (h : JobHandler (World R H))
    : Type 0 where
  pub by_read : (worker : ℕ) → Holds I (h.read worker)
  pub by_execute : (job : Job) → Holds I (h.execute job)
  pub by_success : (job : Job) (i : ℕ) → Holds I (h.on_success job i)
  pub by_failure : (job : Job) (i : ℕ) → Holds I (h.on_failure job i)
  pub by_dql : (job : Job) (i : ℕ) → Holds I (h.send_to_dql job i)

module _ {R H : Type 0} {I : Db → R → Type 0} (h : JobHandler (World R H))
    (holds : HandlerHolds I h) where
  settle-Holds : (max : ℕ) (msg : JobMessage) (e : Option Error) → Holds I (settle h max msg e)
  unfolding settle
  settle-Holds max msg none = Holds-ignore (holds.by_success msg.payload msg.message_id)
  settle-Holds max msg (some e) = elim (Bool-cases (msg.payload.retry_counts == max)) [
    | inl q ↦ rw q (
        Holds-bind (Holds-ignore (holds.by_dql msg.payload msg.message_id))
          λ _ _. Holds-ignore (holds.by_failure msg.payload msg.message_id))
    | inr q ↦ rw q (Holds-ignore (holds.by_failure msg.payload msg.message_id))
  ]

  pub round-Holds : (max worker : ℕ) → Holds I (round h max worker)
  unfolding round process
  round-Holds max worker = record {
    at = λ w k. go (h.read worker w).0 _ ((holds.by_read worker).at w k);
  }
    where
      go :
          (r : Result JobMessage) (x : World R H)
          → On I x
          → On I
              (elim r as (λ _. Result (Unit {0}) × World R H) [
                | ok msg ↦ process h max msg x
                | err e ↦ (ok tt, x)
                | panic t ↦ (panic t, x)
              ]).1
      go (ok msg) x k =
          (Holds-bind (Holds-attempt (holds.by_execute msg.payload))
              λ e _. settle-Holds max msg e).at
            x k
      go (err e) x k = k
      go (panic t) x k = k

module _ (B : Broker) (C : Codec) {H : Type 0} {I : Db → Type 0} where
  command-Holds :
      {A : Type 0} (e : Error) (f : B.State → A × B.State)
      → Holds {H = H} (λ d _. I d) (call e (on_broker f))
  command-Holds e f = Holds-broker e f (λ d r h. h)

  read-Holds :
      (group : String) (worker : ℕ) (stream : String)
      → Holds {H = H} (λ d _. I d) (read B C group worker stream)
  unfolding read
  read-Holds group worker stream =
      Holds-bind (command-Holds _ (B.xreadgroup stream group worker)) λ r _.
        Holds-bind (Holds-lift (raw_payload r)) λ p _.
          Holds-bind
            (Holds-lift (
              or_fail (stream_failure Code.internal "failed to unmarshal for %s" (str stream ∷ []))
                (C.unmarshal p.1)))
            λ payload _. Holds-return _

  ack-Holds :
      (group : String) (i : ℕ) (stream : String)
      → Holds {H = H} (λ d _. I d) (ack B C group i stream)
  unfolding ack
  ack-Holds group i stream = command-Holds _ _

  delete-Holds : (i : ℕ) (stream : String) → Holds {H = H} (λ d _. I d) (delete B C i stream)
  unfolding delete
  delete-Holds i stream = command-Holds _ _

  schedule_retry-Holds :
      (rand : ℕ → ℕ) (now : ℕ) (job : Job) (stream : String)
      → Holds {H = H} (λ d _. I d) (schedule_retry B C rand now job stream)
  unfolding schedule_retry
  schedule_retry-Holds rand now job stream =
      Holds-bind (Holds-lift (calculate_backoff_delay rand job.retry_counts)) λ delay _.
        Holds-bind
          (Holds-lift (
            or_fail
              (job_failure Code.internal
                "failed to marshal for %s stream and jobID %d, RequestID %s" stream job)
              (C.marshal (payload_of job))))
          λ bytes _. command-Holds _ _

  any_add-Holds : (job : Job) (stream : String) → Holds {H = H} (λ d _. I d) (add B C job stream)
  any_add-Holds job stream = add-Holds B C job stream (λ v d r h. h)

  re_enqueue_all-Holds :
      (queue stream : String) (due : List String)
      → Holds {H = H} (λ d _. I d) (re_enqueue_all B C queue stream due)
  unfolding re_enqueue_all
  re_enqueue_all-Holds queue stream [] = Holds-return _
  re_enqueue_all-Holds queue stream (bytes ∷ rest) =
      Holds-bind
        (Holds-lift (
          or_fail (stream_failure Code.internal "failed to unmarshal for %s queue" (str queue ∷ []))
            (C.unmarshal bytes)))
        λ payload _. Holds-bind (any_add-Holds (job_of payload) stream) λ _ _.
          Holds-bind (Holds-ignore (command-Holds _ _))
            λ _ _. re_enqueue_all-Holds queue stream rest

  pub re_enqueue-Holds :
      (now : ℕ) (queue stream : String)
      → Holds {H = H} (λ d _. I d) (re_enqueue B C now queue stream)
  unfolding re_enqueue
  re_enqueue-Holds now queue stream = Holds-bind (command-Holds _ _) λ payloads _.
      Holds-bind (Holds-lift (no_message payloads)) λ due _. re_enqueue_all-Holds queue stream due

module _ (B : Broker) (C : Codec) {H : Type 0} {I : Db → Type 0} (steady : Steady I) where
  pub story-HandlerHolds :
      (model : Message → String) (rand : ℕ → ℕ) (now : ℕ) (s : StoryStreams)
      → HandlerHolds {H = H} (λ d _. I d) (story_handler B C model rand now s)
  unfolding story_handler execute_story generate_story upload_story save_email_job story_on_success
      story_on_failure story_send_to_dql update_story_job
  story-HandlerHolds model rand now s = record {
    by_read = λ worker. read-Holds B C s.group worker s.story_stream;
    by_execute = λ job.
        Holds-bind (Holds-call _ (λ w. (model (prompt job.user_preferences), w)) (λ w h. h))
          λ output _. Holds-bind (Holds-query _ _ (λ d r. steady.by_upload _ d)) λ _ _.
            Holds-bind
              (Holds-query _ _
                (λ d r. steady.by_email_job job.story_id job.user_id Status.pending d))
              λ _ _. Holds-return tt;
    by_success = λ job i. Holds-bind (ack-Holds B C s.group i s.story_stream) λ _ _.
        Holds-bind (delete-Holds B C i s.story_stream) λ _ _.
          Holds-bind (any_add-Holds B C job s.notification_stream)
            λ _ _. Holds-query _ _ (λ d r. steady.by_story_status job.story_id Status.completed d);
    by_failure = λ job i.
        Holds-bind (schedule_retry-Holds B C rand now (retried job) s.story_stream) λ _ _.
          Holds-bind (ack-Holds B C s.group i s.story_stream) λ _ _.
            Holds-bind (delete-Holds B C i s.story_stream) λ _ _.
              Holds-query _ _ (λ d r. steady.by_story_status job.story_id Status.processing d);
    by_dql = λ job i. Holds-bind (any_add-Holds B C job s.dead_letter_queue_stream) λ _ _.
        Holds-bind (ack-Holds B C s.group i s.story_stream) λ _ _.
          Holds-bind (delete-Holds B C i s.story_stream)
            λ _ _. Holds-query _ _ (λ d r. steady.by_story_status job.story_id Status.failed d);
  }

  pub email-HandlerHolds :
      (rand : ℕ → ℕ) (now : ℕ) (s : EmailStreams)
      → HandlerHolds {H = H} (λ d _. I d) (email_handler B C rand now s)
  unfolding email_handler execute_email send_notification_email email_on_success email_on_failure
      email_send_to_dql update_email_job
  email-HandlerHolds rand now s = record {
    by_read = λ worker. read-Holds B C s.group worker s.email_stream;
    by_execute = λ job. Holds-call _ _ (λ w h. h);
    by_success = λ job i. Holds-bind (ack-Holds B C s.group i s.email_stream) λ _ _.
        Holds-bind (delete-Holds B C i s.email_stream) λ _ _.
          Holds-query _ _
            (λ d r. steady.by_email_status job.story_id job.user_id Status.completed d);
    by_failure = λ job i.
        Holds-bind (schedule_retry-Holds B C rand now (retried job) s.email_stream) λ _ _.
          Holds-bind (ack-Holds B C s.group i s.email_stream) λ _ _.
            Holds-bind (delete-Holds B C i s.email_stream) λ _ _.
              Holds-query _ _
                (λ d r. steady.by_email_status job.story_id job.user_id Status.processing d);
    by_dql = λ job i. Holds-bind (any_add-Holds B C job s.dead_letter_queue_stream) λ _ _.
        Holds-bind (ack-Holds B C s.group i s.email_stream) λ _ _.
          Holds-bind (delete-Holds B C i s.email_stream) λ _ _.
            Holds-query _ _
              (λ d r. steady.by_email_status job.story_id job.user_id Status.failed d);
  }
