-- ===== src/Jobs/Robust.antt =====
-- What a worker that handles one message leaves alone: other entries of its stream, the dead letter
-- queue, and what is scheduled. `g` is the group, `k` the stream and `i` the message.
use notification_server.Base.{
  ℕ, String, some, none, Option, ◌≡◌, ◌≢◌, ◌⊎◌, inl, inr, refl, Bool-cases, ◌==◌, nat_eq,
}
use notification_server.Domain.Entities.{Job, JobMessage}
use notification_server.Domain.Errors.{Error, Message}
use notification_server.Domain.Action.{Result, ok, err, panic, Action, ignore_error, ◌>>◌}
use notification_server.Store.Broker.{Broker}
use notification_server.Store.World.{World}
use notification_server.Store.Triple.{
  Triple, Triple-bind, Triple-broker, Triple-step, Triple-query, Triple-ignore, Triple-return, Post,
  Triple-elsewhere,
}
use notification_server.Queue.Backoff.{calculate_backoff_delay}
use notification_server.Queue.Codec.{Codec}
use notification_server.Queue.Task.{add, ack, delete, schedule_retry}
use notification_server.Queue.Task.Laws.{
  Entry, Stored, Scheduled, add_keeps, xadd-Entry, xadd-Scheduled, xdel-Entry, zadd-entries,
  zadd-Scheduled,
}
use notification_server.Queue.Worker.{JobHandler, settle, process, attempt, attempted}
use notification_server.Jobs.Completion.{
  StoryStreams, EmailStreams, retried, story_on_success, story_on_failure, story_send_to_dql,
  email_on_success, email_on_failure, email_send_to_dql,
}
use notification_server.Jobs.Handlers.{story_handler, email_handler}
use notification_server.Jobs.Executer.{
  execute_story, generate_story, execute_email, send_notification_email,
}
use notification_server.Repository.Stories.{
  upload_story, save_email_job, update_story_job, update_email_job,
}

module _ (B : Broker) (g k : String) (i : ℕ) where
  -- No command for that message, and no addition, spoils `P`.
  pub record Robust (P : B.State → Type 0) : Type 0 where
    pub by_add : (k' v : String) (r : B.State) → P r → P (B.xadd k' v r).1
    pub by_schedule : (q : String) (t : ℕ) (m : String) (r : B.State) → P r → P (B.zadd q t m r)
    pub by_ack : (r : B.State) → P r → P (B.xack k g i r)
    pub by_delete : (r : B.State) → P r → P (B.xdel k i r)

  pub Entry-Robust :
      (k' : String) (j : ℕ) (v : String) → (k ≢ k') ⊎ (i ≢ j) → Robust (Entry B k' j v)
  Entry-Robust k' j v ne = record {
    by_add = λ a b r h. xadd-Entry B a b r k' j v h;
    by_schedule = λ q t m r h. zadd-entries B (λ f. f k' j ≡ some v) q t m r h;
    by_ack = λ r h. rw (B.entry-xack k g i r) h;
    by_delete = λ r h. xdel-Entry B k i r k' j v ne h;
  }

  pub Stored-Robust : (d v : String) → k ≢ d → Robust (Stored B d v)
  Stored-Robust d v ne = record {
    by_add = λ a b r h. (h.0, xadd-Entry B a b r d h.0 v h.1);
    by_schedule = λ q t m r h. zadd-entries B (λ f. (j : ℕ) × (f d j ≡ some v)) q t m r h;
    by_ack = λ r h. (h.0, rw (B.entry-xack k g i r) h.1);
    by_delete = λ r h. (h.0, xdel-Entry B k i r d h.0 v (inl ne) h.1);
  }

  pub Scheduled-Robust : (q m : String) → Robust (Scheduled B q m)
  Scheduled-Robust q m = record {
    by_add = λ a b r h. xadd-Scheduled B a b r q m h;
    by_schedule = λ p t n r h. zadd-Scheduled B p t n r q m h;
    by_ack = λ r h. rw (B.score-xack k g i r) h;
    by_delete = λ r h. rw (B.score-xdel k i r) h;
  }

module _ (B : Broker) (C : Codec) {H : Type 0} (g k : String) (i : ℕ) (P : B.State → Type 0)
    (robust : Robust B g k i P) where
  abbrev Keeps : Action (World B.State H) (Unit {0}) → Type 0
  Keeps m = Triple {H = H} P m (λ _. P) P

  ack-Keeps : Keeps (ack B C g i k)
  unfolding ack
  ack-Keeps = Triple-broker _ _ robust.by_ack (λ r h. h) robust.by_ack

  delete-Keeps : Keeps (delete B C i k)
  unfolding delete
  delete-Keeps = Triple-broker _ _ robust.by_delete (λ r h. h) robust.by_delete

  add-Keeps : (job : Job) (k' : String) → Keeps (add B C job k')
  add-Keeps job k' = add_keeps B C P job k' (robust.by_add k')

  schedule_retry-Keeps :
      (rand : ℕ → ℕ) (now : ℕ) (job : Job) (k' : String)
      → Keeps (schedule_retry B C rand now job k')
  unfolding schedule_retry
  schedule_retry-Keeps rand now job k' =
      Triple-bind {A = ℕ} {Q = λ _. P} (Triple-step (calculate_backoff_delay rand job.retry_counts))
        λ delay. Triple-bind {Q = λ _. P} (Triple-step _) λ bytes.
          Triple-broker _ _ (robust.by_schedule _ _ bytes) (λ r h. h) (robust.by_schedule _ _ bytes)

  closing :
      (rest : Action (World B.State H) (Unit {0}))
      → Keeps rest
      → Keeps (do ack B C g i k; delete B C i k; rest)
  closing rest r = Triple-bind ack-Keeps λ _. Triple-bind delete-Keeps λ _. r

module _ (B : Broker) (C : Codec) {H : Type 0} (g k : String) where
  -- What `Delivers` leaves open: the other messages.
  pub record Spares (h : JobHandler (World B.State H)) : Type 1 where
    pub execute_spares : (P : B.State → Type 0) (job : Job) → Triple P (h.execute job) (λ _. P) P
    pub success_spares :
        (P : B.State → Type 0) (job : Job) (i : ℕ)
        → Robust B g k i P
        → Triple P (h.on_success job i) (λ _. P) P
    pub failure_spares :
        (P : B.State → Type 0) (job : Job) (i : ℕ)
        → Robust B g k i P
        → Triple P (h.on_failure job i) (λ _. P) P
    pub dql_spares :
        (P : B.State → Type 0) (job : Job) (i : ℕ)
        → Robust B g k i P
        → Triple P (h.send_to_dql job i) (λ _. P) P

  -- The whole of what follows a message.
  pub process_spares :
      (h : JobHandler (World B.State H)) (spares : Spares h) (P : B.State → Type 0) (max : ℕ)
      (msg : JobMessage)
      → Robust B g k msg.message_id P
      → Triple P (process h max msg) (λ _. P) P
  unfolding process settle
  process_spares h spares P max msg robust =
      Triple-bind {Q = λ _. P} (attempt_spares (spares.execute_spares P msg.payload)) settled
    where
      attempt_spares :
          {m : Action (World B.State H) (Unit {0})}
          → Triple P m (λ _. P) P
          → Triple P (attempt m) (λ _. P) P
      attempt_spares {m} t = record { at = λ w p. go (m w).0 (m w).1.broker (t.at w p) }
        where
          go :
              (r : Result (Unit {0})) (b : B.State)
              → Post (λ _. P) P r b
              → Post (λ _. P) P (attempted r) b
          go (ok a) b p = p
          go (err e) b p = p
          go (panic t) b p = p

      failed : Triple P (ignore_error (h.on_failure msg.payload msg.message_id)) (λ _. P) P
      failed = Triple-ignore (spares.failure_spares P msg.payload msg.message_id robust)

      settled : (o : Option Error) → Triple P (settle h max msg o) (λ _. P) P
      settled none = Triple-ignore (spares.success_spares P msg.payload msg.message_id robust)
      settled (some e) = elim (Bool-cases (msg.payload.retry_counts == max)) [
        | inl last ↦ rw last (
            Triple-bind (Triple-ignore (spares.dql_spares P msg.payload msg.message_id robust))
              λ _. failed)
        | inr more ↦ rw more failed
      ]

module _ (B : Broker) (C : Codec) {H : Type 0} where
  pub story-Spares :
      (model : Message → String) (rand : ℕ → ℕ) (now : ℕ) (s : StoryStreams)
      → Spares B C {H = H} s.group s.story_stream (story_handler B C model rand now s)
  unfolding story_handler execute_story generate_story upload_story save_email_job story_on_success
      story_on_failure story_send_to_dql update_story_job
  story-Spares model rand now s = record {
    execute_spares = λ P job. Triple-bind (Triple-elsewhere _ _ (λ w. refl)) λ output.
        Triple-bind (Triple-query _ _) λ _. Triple-bind (Triple-query _ _) λ _. Triple-return tt;
    success_spares = λ P job i robust. closing B C s.group s.story_stream i P robust _ (
        Triple-bind (add-Keeps B C s.group s.story_stream i P robust job s.notification_stream)
          λ _. Triple-query _ _);
    failure_spares = λ P job i robust.
        Triple-bind
          (schedule_retry-Keeps B C s.group s.story_stream i P robust rand now (retried job)
            s.story_stream)
          λ _. closing B C s.group s.story_stream i P robust _ (Triple-query _ _);
    dql_spares = λ P job i robust.
        Triple-bind (add-Keeps B C s.group s.story_stream i P robust job s.dead_letter_queue_stream)
          λ _. closing B C s.group s.story_stream i P robust _ (Triple-query _ _);
  }

  pub email-Spares :
      (rand : ℕ → ℕ) (now : ℕ) (e : EmailStreams)
      → Spares B C {H = H} e.group e.email_stream (email_handler B C rand now e)
  unfolding email_handler execute_email send_notification_email email_on_success email_on_failure
      email_send_to_dql update_email_job
  email-Spares rand now e = record {
    execute_spares = λ P job. Triple-elsewhere _ _ (λ w. refl);
    success_spares =
        λ P job i robust. closing B C e.group e.email_stream i P robust _ (Triple-query _ _);
    failure_spares = λ P job i robust.
        Triple-bind
          (schedule_retry-Keeps B C e.group e.email_stream i P robust rand now (retried job)
            e.email_stream)
          λ _. closing B C e.group e.email_stream i P robust _ (Triple-query _ _);
    dql_spares = λ P job i robust.
        Triple-bind (add-Keeps B C e.group e.email_stream i P robust job e.dead_letter_queue_stream)
          λ _. closing B C e.group e.email_stream i P robust _ (Triple-query _ _);
  }
