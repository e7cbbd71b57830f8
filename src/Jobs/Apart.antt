-- ===== src/Jobs/Apart.antt =====
-- What the rounds of one pool leave alone of the jobs of another pool.
use notification_server.Base.{
  ℕ, String, ◌≡◌, ◌≢◌, inl, inr, some, ◌==◌, string_eq, eq_iff, arith, Bool-cases,
}
use notification_server.Domain.Entities.{Job, JobMessage}
use notification_server.Domain.Action.{Result, ok, err, panic}
use notification_server.Store.Broker.{Broker}
use notification_server.Store.World.{World}
use notification_server.Store.Triple.{Post, Post-all, Triple}
use notification_server.Queue.Codec.{Codec, payload_of}
use notification_server.Queue.Reading.{IsRead}
use notification_server.Queue.Worker.{JobHandler, process, round}
use notification_server.Jobs.Robust.{
  Robust, Spares, Stored-Robust, Scheduled-Robust, process_spares,
}
use notification_server.Jobs.Pool.{aged, Alive, Pool, xreadgroup-Alive, xadd-Alive}
use notification_server.Queue.Task.{retry_queue, re_enqueue}
use notification_server.Queue.Rounds.{re_enqueue_spares}
use notification_server.Jobs.Journey.{tick-Alive}

module _ (B : Broker) (k d : String) (job : Job) (enc : ℕ → String) where
  -- For a message of another stream.
  Alive-Robust : (g k' : String) (i : ℕ) → k' ≢ k → k' ≢ d → Robust B g k' i (Alive B k d job enc)
  Alive-Robust g k' i other other' = record {
    by_add = xadd-Alive B k d job enc;
    by_schedule = λ q t m r (n, a). (
      n,
      elim a [
        | inl s ↦ inl ((Stored-Robust B g k' i k (enc n) other).by_schedule q t m r s)
        | inr (inl s) ↦ inr (inl ((Stored-Robust B g k' i d (enc n) other').by_schedule q t m r s))
        | inr (inr s) ↦
            inr (inr ((Scheduled-Robust B g k' i (retry_queue k) (enc n)).by_schedule q t m r s))
      ],
    );
    by_ack = λ r a. rw (B.entry-xack k' g i r, B.score-xack k' g i r) a;
    by_delete = λ r (n, a). (
      n,
      elim a [
        | inl s ↦ inl ((Stored-Robust B g k' i k (enc n) other).by_delete r s)
        | inr (inl s) ↦ inr (inl ((Stored-Robust B g k' i d (enc n) other').by_delete r s))
        | inr (inr s) ↦
            inr (inr ((Scheduled-Robust B g k' i (retry_queue k) (enc n)).by_delete r s))
      ],
    );
  }

module _ (B : Broker) (C : Codec) {H : Type 0} (g k : String)
    (h : (ℕ → ℕ) → ℕ → JobHandler (World B.State H))
    (spares : (rand : ℕ → ℕ) (now : ℕ) → Spares B C g k (h rand now))
    (reads : (rand : ℕ → ℕ) (now worker : ℕ) (P : B.State → Type 0)
      → ((r : B.State) → P r → P (B.xreadgroup k g worker r).1)
      → Triple P ((h rand now).read worker) (λ msg r. P r × IsRead B C k msg r) P)
    (P : B.State → Type 0) (robust : (i : ℕ) → Robust B g k i P)
    (by_read : (c : ℕ) (r : B.State) → P r → P (B.xreadgroup k g c r).1) where
  round_spares :
      (worker max : ℕ) (rand : ℕ → ℕ) (now : ℕ) (w : World B.State H)
      → P w.broker
      → P (round (h rand now) max worker w).1.broker
  unfolding round
  round_spares worker max rand now w p =
      from ((h rand now).read worker w).0 ((reads rand now worker P (by_read worker)).at w p)
    where
      x : World B.State H
      x = ((h rand now).read worker w).1

      from :
          (r : Result JobMessage)
          → Post (λ msg b. P b × IsRead B C k msg b) P r x.broker
          → P
              (elim r as (λ _. Result (Unit {0}) × World B.State H) [
                | ok msg ↦ process (h rand now) max msg x
                | err e ↦ (ok tt, x)
                | panic t ↦ (panic t, x)
              ]).1.broker
      from (ok msg) (q, read) =
          Post-all P (process (h rand now) max msg x).0 (process (h rand now) max msg x).1.broker (
            (process_spares B C g k (h rand now) (spares rand now) P max msg
                (robust msg.message_id)).at
              x q)
      from (err e) q = q
      from (panic t) q = q

module _ (B : Broker) (C : Codec) {H : Type 0} (g k : String)
    (h : (ℕ → ℕ) → ℕ → JobHandler (World B.State H))
    (spares : (rand : ℕ → ℕ) (now : ℕ) → Spares B C g k (h rand now))
    (reads : (rand : ℕ → ℕ) (now worker : ℕ) (P : B.State → Type 0)
      → ((r : B.State) → P r → P (B.xreadgroup k g worker r).1)
      → Triple P ((h rand now).read worker) (λ msg r. P r × IsRead B C k msg r) P)
    (k' d' : String) (job : Job) (enc : ℕ → String) where
  -- A round of the pool of the stream `k` leaves the jobs of the stream `k'` alone.
  pub round-Alive :
      k ≢ k'
      → k ≢ d'
      → (worker max : ℕ) (rand : ℕ → ℕ) (now : ℕ) (w : World B.State H)
      → Alive B k' d' job enc w.broker
      → Alive B k' d' job enc (round (h rand now) max worker w).1.broker
  round-Alive other other' =
      round_spares B C g k h spares reads (Alive B k' d' job enc)
        (λ i. Alive-Robust B k' d' job enc g k i other other')
        (λ c. xreadgroup-Alive B k' d' job enc k g c)

module _ (B : Broker) (C : Codec) {H : Type 0} (g k d : String)
    (h : (ℕ → ℕ) → ℕ → JobHandler (World B.State H)) (pool : Pool B C g k d h) (apart : k ≢ d)
    (job : Job) (enc : ℕ → String)
    (encodes : (n : ℕ) → C.marshal (payload_of (aged job n)) ≡ some (enc n)) where
  removal-Alive :
      (q m : String) (r : B.State)
      → q ≢ retry_queue k
      → Alive B k d job enc r
      → Alive B k d job enc (B.zrem q m r)
  removal-Alive q m r other (n, inl s) = (n, inl (rw (B.entry-zrem q m r) s))
  removal-Alive q m r other (n, inr (inl s)) = (n, inr (inl (rw (B.entry-zrem q m r) s)))
  removal-Alive q m r other (n, inr (inr (t, s))) = (
    n,
    inr (
        inr (
          t,
          ground (arith, B.score-zrem q m r (retry_queue k) (enc n), eq_iff q (retry_queue k)),
        )),
  )

  -- A round of a scheduler that takes the retries of the stream `k` only to that stream.
  pub scheduler_round-Alive :
      (q stream : String) (now : ℕ) (w : World B.State H)
      → (q ≡ retry_queue k → stream ≡ k)
      → Alive B k d job enc w.broker
      → Alive B k d job enc (re_enqueue B C now q stream w).1.broker
  scheduler_round-Alive q stream now w back a = elim (Bool-cases (q == retry_queue k)) [
    | inl e ↦
        let same = (eq_iff q (retry_queue k)).0 e in
        rw (same, back same) (tick-Alive B C g k d h pool apart job enc encodes now w a)
    | inr e ↦
        re_enqueue_spares B C q stream (Alive B k d job enc) (xadd-Alive B k d job enc)
          (λ m r. removal-Alive q m r (λ s. cc (e, (eq_iff q (retry_queue k)).1 s))) now w a
  ]
