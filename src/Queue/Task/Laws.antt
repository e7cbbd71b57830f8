-- ===== src/Queue/Task/Laws.antt =====
-- What each method of `Task` leaves in Redis, whatever the network does to its commands.
use notification_server.Base.{
  ℕ, String, ◌+◌, ◌/◌, ◌≡◌, ◌⊎◌, inl, inr, ◌≢◌, Option, some, arith, eq_iff, nat_eq, string_eq,
  nat_beq_iff, Option-cases,
}
use mathlib.Core.Path.{subst}
use notification_server.Domain.Errors.{Error}
use notification_server.Domain.Entities.{Job}
use notification_server.Domain.Action.{ok}
use notification_server.Store.Broker.{Broker}
use notification_server.Store.Triple.{
  Triple, Triple-broker, Triple-bind, Triple-lift, Triple-step, Triple-return,
}
use notification_server.Queue.Codec.{payload_of, Codec}
use notification_server.Queue.Backoff.{calculate_backoff_delay}
use notification_server.Queue.Task.{
  add, ack, delete, schedule_retry, retry_queue, or_fail, nanoseconds,
}

module _ (B : Broker) where
  -- The stream holds the entry; the stream holds the value under some id; the sorted set holds the
  -- member.
  abbrev pub Entry : String → ℕ → String → B.State → Type 0
  Entry k i v r = B.entry r k i ≡ some v

  abbrev pub Stored : String → String → B.State → Type 0
  Stored k v r = (i : ℕ) × (B.entry r k i ≡ some v)

  abbrev pub Scheduled : String → String → B.State → Type 0
  Scheduled q m r = (t : ℕ) × (B.score r q m ≡ some t)

  pub xadd-Entry :
      (k v : String) (r : B.State) (k' : String) (i : ℕ) (v' : String)
      → Entry k' i v' r
      → Entry k' i v' (B.xadd k v r).1
  xadd-Entry k v r k' i v' h = ground (
    arith,
    B.entry-xadd k v r k' i,
    B.xadd_fresh k v r,
    eq_iff k k',
    nat_beq_iff (B.xadd k v r).0 i,
  )

  pub xadd-Stored : (k v : String) (r : B.State) → Stored k v (B.xadd k v r).1
  xadd-Stored k v r = (
    (B.xadd k v r).0,
    ground (
      arith,
      B.entry-xadd k v r k (B.xadd k v r).0,
      eq_iff k k,
      nat_beq_iff (B.xadd k v r).0 (B.xadd k v r).0,
    ),
  )

  pub xdel-Entry :
      (k : String) (i : ℕ) (r : B.State) (k' : String) (i' : ℕ) (v : String)
      → (k ≢ k') ⊎ (i ≢ i')
      → Entry k' i' v r
      → Entry k' i' v (B.xdel k i r)
  xdel-Entry k i r k' i' v ne h =
      ground (arith, B.entry-xdel k i r k' i', eq_iff k k', nat_beq_iff i i')

  pub zadd-Scheduled :
      (q : String) (t : ℕ) (m : String) (r : B.State) (q' m' : String)
      → Scheduled q' m' r
      → Scheduled q' m' (B.zadd q t m r)
  zadd-Scheduled q t m r q' m' (u, h) = elim (Option-cases (B.score (B.zadd q t m r) q' m')) [
    | inl e ↦ absurd (ground (arith, B.score-zadd q t m r q' m'))
    | inr s ↦ s
  ]

  pub zadd_self : (q : String) (t : ℕ) (m : String) (r : B.State) → Scheduled q m (B.zadd q t m r)
  zadd_self q t m r = (t, ground (arith, B.score-zadd q t m r q m, eq_iff q q, eq_iff m m))

  pub xadd-Scheduled :
      (k v : String) (r : B.State) (q m : String) → Scheduled q m r → Scheduled q m (B.xadd k v r).1
  xadd-Scheduled k v r q m h = rw (B.score-xadd k v r) h

  -- Scheduling leaves the entries.
  pub zadd-entries :
      (E : (String → ℕ → Option String) → Type 0) (q : String) (t : ℕ) (m : String) (r : B.State)
      → E (B.entry r)
      → E (B.entry (B.zadd q t m r))
  zadd-entries E q t m r h = rw (B.entry-zadd q t m r) h

encoded :
    (C : Codec) (job : Job) (v : String)
    → C.marshal (payload_of job) ≡ some v
    → (e : Error) (bytes : String) → or_fail e (C.marshal (payload_of job)) ≡ ok bytes
    → v ≡ bytes
encoded C job v enc e bytes h = ground arith

module _ (B : Broker) (C : Codec) {H : Type 0} where
  -- Acknowledging changes no entry and no score.
  pub ack-Triple :
      (P : (String → ℕ → Option String) → (String → String → Option ℕ) → Type 0) (g : String)
      (i : ℕ) (k : String)
      → Triple {H = H}
          (λ r. P (B.entry r) (B.score r))
          (ack B C g i k)
          (λ _ r. P (B.entry r) (B.score r))
          (λ r. P (B.entry r) (B.score r))
  unfolding ack
  ack-Triple P g i k = Triple-broker _ _ moved (λ r h. h) moved
    where
      moved :
          (r : B.State)
          → P (B.entry r) (B.score r)
          → P (B.entry (B.xack k g i r)) (B.score (B.xack k g i r))
      moved r h = rw (B.entry-xack k g i r, B.score-xack k g i r) h

  -- Deleting keeps what is scheduled, and every other entry.
  pub delete-Scheduled :
      (i : ℕ) (k q m : String)
      → Triple {H = H} (Scheduled B q m) (delete B C i k) (λ _. Scheduled B q m) (Scheduled B q m)
  unfolding delete
  delete-Scheduled i k q m = Triple-broker _ _ moved (λ r h. h) moved
    where
      moved : (r : B.State) → Scheduled B q m r → Scheduled B q m (B.xdel k i r)
      moved r h = rw (B.score-xdel k i r) h

  pub delete-Entry :
      (i : ℕ) (k k' : String) (i' : ℕ) (v : String)
      → (k ≢ k') ⊎ (i ≢ i')
      → Triple {H = H} (Entry B k' i' v) (delete B C i k) (λ _. Entry B k' i' v) (Entry B k' i' v)
  unfolding delete
  delete-Entry i k k' i' v ne =
      Triple-broker _ _ (λ r. xdel-Entry B k i r k' i' v ne) (λ r h. h)
        (λ r. xdel-Entry B k i r k' i' v ne)

  pub delete-Stored :
      (i : ℕ) (k k' v : String)
      → k ≢ k'
      → Triple {H = H} (Stored B k' v) (delete B C i k) (λ _. Stored B k' v) (Stored B k' v)
  unfolding delete
  delete-Stored i k k' v ne = Triple-broker _ _ moved (λ r h. h) moved
    where
      moved : (r : B.State) → Stored B k' v r → Stored B k' v (B.xdel k i r)
      moved r (j, h) = (j, xdel-Entry B k i r k' j v (inl ne) h)

  -- Whatever a new entry cannot spoil outlives an addition.
  pub add_keeps :
      (E : B.State → Type 0) (job : Job) (k : String)
      → ((v : String) (r : B.State) → E r → E (B.xadd k v r).1)
      → Triple {H = H} E (add B C job k) (λ _. E) E
  unfolding add
  add_keeps E job k keep = Triple-bind (Triple-lift _) λ bytes.
      Triple-bind {Q = λ _. E}
        (Triple-broker _ _ (λ r h. keep bytes r h.0) (λ r h. h.0) (λ r h. keep bytes r h.0))
        λ _. Triple-return tt

  -- Go on with any condition that adding keeps.
  pub add-Stored :
      (E : B.State → Type 0) (job : Job) (k v : String)
      → C.marshal (payload_of job) ≡ some v
      → ((r : B.State) → E r → E (B.xadd k v r).1)
      → Triple {H = H} E (add B C job k) (λ _. Stored B k v) E
  unfolding add
  add-Stored E job k v enc keep = Triple-bind (Triple-lift _) λ bytes.
      Triple-bind {Q = λ _. Stored B k v}
        (Triple-broker _ _
          (λ r h.
            subst (λ b. Stored B k v (B.xadd k b r).1) (encoded C job v enc _ bytes h.1)
              (xadd-Stored B k v r))
          (λ r h. h.0)
          (λ r h. subst (λ b. E (B.xadd k b r).1) (encoded C job v enc _ bytes h.1) (keep r h.0)))
        λ _. Triple-return tt

  -- A retry that could not be scheduled left the entries as they were; after one that could, the job
  -- is in the sorted set.
  pub schedule_retry-Scheduled :
      (rand : ℕ → ℕ) (now : ℕ) (job : Job) (k v : String)
      (E : (String → ℕ → Option String) → Type 0)
      → C.marshal (payload_of job) ≡ some v
      → Triple {H = H}
          (λ r. E (B.entry r))
          (schedule_retry B C rand now job k)
          (λ _. Scheduled B (retry_queue k) v)
          (λ r. E (B.entry r))
  unfolding schedule_retry
  schedule_retry-Scheduled rand now job k v E enc =
      Triple-bind {A = ℕ} {Q = λ _ r. E (B.entry r)}
        (Triple-step (calculate_backoff_delay rand job.retry_counts))
        λ delay. Triple-bind (Triple-lift _) λ bytes.
          Triple-broker _ _
            (λ r h.
              subst
                (λ b.
                  Scheduled B (retry_queue k) v
                    (B.zadd (retry_queue k) ((now + delay) / nanoseconds) b r))
                (encoded C job v enc _ bytes h.1) (zadd_self B (retry_queue k) _ v r))
            (λ r h. h.0) (λ r h. zadd-entries B E (retry_queue k) _ bytes r h.0)

  pub schedule_retry-Stored :
      (rand : ℕ → ℕ) (now : ℕ) (job : Job) (k k' v : String)
      → Triple {H = H}
          (Stored B k' v)
          (schedule_retry B C rand now job k)
          (λ _. Stored B k' v)
          (Stored B k' v)
  unfolding schedule_retry
  schedule_retry-Stored rand now job k k' v =
      Triple-bind {A = ℕ} {Q = λ _. Stored B k' v}
        (Triple-step (calculate_backoff_delay rand job.retry_counts))
        λ delay. Triple-bind (Triple-lift _) λ bytes.
          Triple-broker _ _
            (λ r h. zadd-entries B (λ f. (i : ℕ) × (f k' i ≡ some v)) (retry_queue k) _ bytes r h.0)
            (λ r h. h.0)
            (λ r h. zadd-entries B (λ f. (i : ℕ) × (f k' i ≡ some v)) (retry_queue k) _ bytes r h.0)

  pub schedule_retry_keeps-Scheduled :
      (rand : ℕ → ℕ) (now : ℕ) (job : Job) (k q m : String)
      → Triple {H = H}
          (Scheduled B q m)
          (schedule_retry B C rand now job k)
          (λ _. Scheduled B q m)
          (Scheduled B q m)
  unfolding schedule_retry
  schedule_retry_keeps-Scheduled rand now job k q m =
      Triple-bind {A = ℕ} {Q = λ _. Scheduled B q m}
        (Triple-step (calculate_backoff_delay rand job.retry_counts))
        λ delay. Triple-bind (Triple-lift _) λ bytes.
          Triple-broker _ _
            (λ r h. zadd-Scheduled B (retry_queue k) ((now + delay) / nanoseconds) bytes r q m h.0)
            (λ r h. h.0)
            (λ r h. zadd-Scheduled B (retry_queue k) ((now + delay) / nanoseconds) bytes r q m h.0)
