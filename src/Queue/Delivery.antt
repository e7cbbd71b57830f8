-- ===== src/Queue/Delivery.antt =====
-- What a pool's handler promises about the jobs of its stream, and what follows for a worker. `k` is
-- the stream, `d` its dead letter queue; `v` encodes the job and `v'` the job with one more retry.
use notification_server.Base.{
  ℕ, String, ◌≡◌, refl, ◌≢◌, ◌⊎◌, inl, inr, some, ◌==◌, nat_eq, Bool-cases,
}
use notification_server.Domain.Entities.{Job, JobMessage}
use notification_server.Domain.Errors.{Error}
use notification_server.Domain.Action.{Result, ok, err, panic, ignore_error, proceed}
use notification_server.Store.Broker.{Broker}
use notification_server.Store.World.{World}
use notification_server.Store.Triple.{Triple, Post, Triple-bind, Triple-ignore, Post-all}
use notification_server.Queue.Codec.{Codec, payload_of}
use notification_server.Queue.Task.{retry_queue}
use notification_server.Queue.Task.Laws.{Entry, Stored, Scheduled, xadd-Entry, xadd-Scheduled}
use notification_server.Queue.Worker.{JobHandler, settle, process, attempted}
use notification_server.Jobs.Completion.{retried}

module _ (B : Broker) where
  -- Past the stream: in the dead letter queue, or waiting for a retry.
  abbrev pub IsSettled : (k d v v' : String) → B.State → Type 0
  IsSettled k d v v' r = Stored B d v r ⊎ Scheduled B (retry_queue k) v' r

  abbrev pub IsKept : (k d : String) (i : ℕ) (v v' : String) → B.State → Type 0
  IsKept k d i v v' r = Entry B k i v r ⊎ IsSettled k d v v' r

  pub xadd-IsKept :
      (k d : String) (i : ℕ) (v v' k' b : String) (r : B.State)
      → IsKept k d i v v' r
      → IsKept k d i v v' (B.xadd k' b r).1
  xadd-IsKept k d i v v' k' b r (inl h) = inl (xadd-Entry B k' b r k i v h)
  xadd-IsKept k d i v v' k' b r (inr (inl (j, h))) = inr (inl (j, xadd-Entry B k' b r d j v h))
  xadd-IsKept k d i v v' k' b r (inr (inr h)) =
      inr (inr (xadd-Scheduled B k' b r (retry_queue k) v' h))

  pub record Delivers (C : Codec) {H : Type 0} (k d : String) (h : JobHandler (World B.State H))
      : Type 1 where
    -- executing a job touches no stream
    pub execute_keeps : (P : B.State → Type 0) (job : Job) → Triple P (h.execute job) (λ _. P) P
    pub failure_keeps :
        (job : Job) (i : ℕ) (v v' : String)
        → C.marshal (payload_of job) ≡ some v
        → C.marshal (payload_of (retried job)) ≡ some v'
        → Triple
            (IsKept k d i v v')
            (h.on_failure job i)
            (λ _. IsKept k d i v v')
            (IsKept k d i v v')
    pub dql_keeps :
        (job : Job) (i : ℕ) (v v' : String)
        → C.marshal (payload_of job) ≡ some v
        → Triple
            (IsKept k d i v v')
            (h.send_to_dql job i)
            (λ _. IsKept k d i v v')
            (IsKept k d i v v')

module _ (B : Broker) (C : Codec) {H : Type 0} (k d : String) (h : JobHandler (World B.State H))
    (laws : Delivers B C k d h) where
  settle_keeps :
      (max : ℕ) (msg : JobMessage) (e : Error) (v v' : String)
      → C.marshal (payload_of msg.payload) ≡ some v
      → C.marshal (payload_of (retried msg.payload)) ≡ some v'
      → Triple
          (IsKept B k d msg.message_id v v')
          (settle h max msg (some e))
          (λ _. IsKept B k d msg.message_id v v')
          (IsKept B k d msg.message_id v v')
  unfolding settle
  settle_keeps max msg e v v' enc enc' = elim (Bool-cases (msg.payload.retry_counts == max)) [
    | inl last ↦ rw last (Triple-bind dead λ _. again)
    | inr more ↦ rw more again
  ]
    where
      again :
          Triple
            (IsKept B k d msg.message_id v v')
            (ignore_error (h.on_failure msg.payload msg.message_id))
            (λ _. IsKept B k d msg.message_id v v')
            (IsKept B k d msg.message_id v v')
      again = Triple-ignore (laws.failure_keeps msg.payload msg.message_id v v' enc enc')

      dead :
          Triple
            (IsKept B k d msg.message_id v v')
            (ignore_error (h.send_to_dql msg.payload msg.message_id))
            (λ _. IsKept B k d msg.message_id v v')
            (IsKept B k d msg.message_id v v')
      dead = Triple-ignore (laws.dql_keeps msg.payload msg.message_id v v' enc)

  -- A job whose execution failed or panicked is still in the stream, or in the dead letter queue, or
  -- scheduled for a retry, whatever the network does to the commands that follow.
  pub process_keeps :
      (max : ℕ) (msg : JobMessage) (v v' : String) (w : World B.State H)
      → C.marshal (payload_of msg.payload) ≡ some v
      → C.marshal (payload_of (retried msg.payload)) ≡ some v'
      → Entry B k msg.message_id v w.broker
      → (h.execute msg.payload w).0 ≢ ok tt
      → IsKept B k d msg.message_id v v' (process h max msg w).1.broker
  unfolding process
  process_keeps max msg v v' w enc enc' there failed =
      go (h.execute msg.payload w).0 (h.execute msg.payload w).1
        ((laws.execute_keeps (Entry B k msg.message_id v) msg.payload).at w there) failed
    where
      go :
          (r : Result (Unit {0})) (x : World B.State H)
          → Post (λ _. Entry B k msg.message_id v) (Entry B k msg.message_id v) r x.broker
          → r ≢ ok tt
          → IsKept B k d msg.message_id v v' (proceed (attempted r) (settle h max msg) x).1.broker
      go (ok a) x p ne = absurd (ne refl)
      go (err e) x p ne =
          Post-all (IsKept B k d msg.message_id v v') (settle h max msg (some e) x).0
            (settle h max msg (some e) x).1.broker
            ((settle_keeps max msg e v v' enc enc').at x (inl p))
      go (panic t) x p ne = inl p
