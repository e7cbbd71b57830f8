-- ===== src/Jobs/Journey.antt =====
-- The way of one job through a pool, over any interleaving of what its workers do, the rounds of its
-- scheduler, and other jobs that arrive: internal/infrastructure/queue with job_completion.go.
use notification_server.Base.{
  Bool-cases, ◌==◌, nat_eq, nat_beq_iff, ℕ, ◌+◌, String, ◌≡◌, ◌≢◌, ◌⊎◌, inl, inr, refl, sym, ap,
  ◌∙◌, some, List, [], ◌∷◌, arith,
}
use mathlib.Core.Path.{subst}
use notification_server.Domain.Entities.{Job, JobMessage}
use notification_server.Domain.Action.{Result, ok, err, panic}
use notification_server.Store.Broker.{Broker}
use notification_server.Store.World.{World}
use notification_server.Store.Triple.{Post, Post-all}
use notification_server.Queue.Codec.{Codec, Payload, payload_of, job_of}
use notification_server.Queue.Task.{add, re_enqueue, retry_queue}
use notification_server.Queue.Task.Laws.{Entry, Stored, Scheduled, add_keeps, xadd-Entry}
use notification_server.Queue.Worker.{JobHandler, process, round}
use notification_server.Queue.Delivery.{IsKept, process_keeps}
use notification_server.Queue.Reading.{IsRead}
use notification_server.Queue.Scheduler.{re_enqueue_keeps, IsWaiting}
use notification_server.Jobs.Completion.{retried}
use notification_server.Jobs.Robust.{
  Robust, Entry-Robust, Stored-Robust, Scheduled-Robust, process_spares,
}
use notification_server.Jobs.Pool.{
  aged, Event, work, tick, arrival, step, steps, Alive, DoneBy, Done, Pool, xadd-Alive,
  xreadgroup-Alive,
}
use notification_server.Queue.Rounds.{re_enqueue_spares}

module _ (B : Broker) (C : Codec) {H : Type 0} (g k d : String)
    (h : (ℕ → ℕ) → ℕ → JobHandler (World B.State H)) (pool : Pool B C g k d h) (apart : k ≢ d)
    (job : Job) (enc : ℕ → String)
    (encodes : (n : ℕ) → C.marshal (payload_of (aged job n)) ≡ some (enc n)) where
  abbrev A : B.State → Type 0
  A = Alive B k d job enc

  older :
      (j : Job) (n : ℕ) → j ≡ aged job n → C.marshal (payload_of (retried j)) ≡ some (enc (n + 1))
  older j n same = rw same (
      subst (λ r. C.marshal (payload_of (record job { retry_counts = r })) ≡ some (enc (n + 1)))
        (omega arith) (encodes (n + 1)))

  still : (n i : ℕ) (r : B.State) → IsKept B k d i (enc n) (enc (n + 1)) r → A r
  still n i r (inl e) = (n, inl (i, e))
  still n i r (inr (inl s)) = (n, inr (inl s))
  still n i r (inr (inr s)) = (n + 1, inr (inr s))

  -- The message is the job itself.
  own :
      (msg : JobMessage) (n : ℕ) (r : B.State)
      → Entry B k msg.message_id (enc n) r
      → IsRead B C k msg r
      → msg.payload ≡ aged job n
  own msg n r e (v, p, there, read, from) =
      from
      ∙ ap job_of (
          same_payload (enc n) v p (payload_of (aged job n)) (sym e ∙ there) read
            (C.unmarshal-marshal (payload_of (aged job n)) (enc n) (encodes n)))
    where
      same_payload :
          (a b : String) (p q : Payload)
          → some a ≡ some b
          → C.unmarshal b ≡ some p
          → C.unmarshal a ≡ some q
          → p ≡ q
      same_payload a b p q x y z = cc

  waiting : (n : ℕ) {r : B.State} → IsWaiting B (retry_queue k) k (enc n) r → A r
  waiting n (inl s) = (n, inr (inr s))
  waiting n (inr s) = (n, inl s)

  pub tick-Alive :
      (now : ℕ) (w : World B.State H)
      → A w.broker
      → A (re_enqueue B C now (retry_queue k) k w).1.broker
  tick-Alive now w (n, inl e) = waiting n (
      re_enqueue_keeps B C (retry_queue k) k (enc n) (payload_of (aged job n)) (encodes n) now w
        (inr e))
  tick-Alive now w (n, inr (inl (j, e))) = (
    n,
    inr (
        inl (
          re_enqueue_spares B C (retry_queue k) k (Stored B d (enc n))
            (λ a b r x. (x.0, xadd-Entry B a b r d x.0 (enc n) x.1))
            (λ b r x. (x.0, rw (B.entry-zrem (retry_queue k) b r) x.1)) now w (j, e))),
  )
  tick-Alive now w (n, inr (inr s)) = waiting n (
      re_enqueue_keeps B C (retry_queue k) k (enc n) (payload_of (aged job n)) (encodes n) now w
        (inl s))

  -- What one message does to the job, if it is another one and if it is its own.
  abbrev Outcome :
      (rand : ℕ → ℕ) (now : ℕ) → JobMessage → World B.State H → World B.State H → Type 0
  Outcome rand now msg x y =
      A y.broker
      ⊎ ((n : ℕ) × (msg.payload ≡ aged job n) × (((h rand now).execute msg.payload x).0 ≡ ok tt))

  spared :
      (rand : ℕ → ℕ) (now max : ℕ) (msg : JobMessage) (x : World B.State H) (P : B.State → Type 0)
      → Robust B g k msg.message_id P
      → P x.broker
      → P (process (h rand now) max msg x).1.broker
  spared rand now max msg x P robust q =
      Post-all P (process (h rand now) max msg x).0 (process (h rand now) max msg x).1.broker
        ((process_spares B C g k (h rand now) (pool.spares rand now) P max msg robust).at x q)

  processed :
      (worker max : ℕ) (rand : ℕ → ℕ) (now : ℕ) (msg : JobMessage) (x : World B.State H)
      → A x.broker
      → IsRead B C k msg x.broker
      → Outcome rand now msg x (process (h rand now) max msg x).1
  processed worker max rand now msg x (n, inl (j, e)) read =
      elim (Bool-cases (msg.message_id == j)) [
        | inl same ↦ mine ((nat_beq_iff msg.message_id j).0 same)
        | inr other ↦ inl (
          n,
          inl (
            j,
            spared rand now max msg x (Entry B k j (enc n))
                (Entry-Robust B g k msg.message_id k j (enc n)
                  (inr λ q. cc (other, (nat_beq_iff msg.message_id j).1 q)))
                e,
          ),
        )
      ]
    where
      kept :
          Entry B k msg.message_id (enc n) x.broker
          → msg.payload ≡ aged job n
          → ((h rand now).execute msg.payload x).0 ≢ ok tt
          → A (process (h rand now) max msg x).1.broker
      kept there eq bad = still n msg.message_id _ (
          process_keeps B C k d (h rand now) (pool.delivers rand now) max msg (enc n) (enc (n + 1))
            x (rw eq (encodes n)) (older msg.payload n eq) there bad)

      failing :
          (r : Result (Unit {0}))
          → ((h rand now).execute msg.payload x).0 ≡ r
          → Entry B k msg.message_id (enc n) x.broker
          → msg.payload ≡ aged job n
          → Outcome rand now msg x (process (h rand now) max msg x).1
      failing (ok a) c there eq = inr (n, eq, c)
      failing (err f) c there eq = inl (kept there eq λ q. cc (c, q))
      failing (panic t) c there eq = inl (kept there eq λ q. cc (c, q))

      mine : msg.message_id ≡ j → Outcome rand now msg x (process (h rand now) max msg x).1
      mine same =
          let there = subst (λ i. Entry B k i (enc n) x.broker) (sym same) e in
          failing ((h rand now).execute msg.payload x).0 refl there (own msg n x.broker there read)
  processed worker max rand now msg x (n, inr (inl s)) read = inl (
    n,
    inr (
        inl (
          spared rand now max msg x (Stored B d (enc n))
            (Stored-Robust B g k msg.message_id d (enc n) apart) s)),
  )
  processed worker max rand now msg x (n, inr (inr s)) read = inl (
    n,
    inr (
        inr (
          spared rand now max msg x (Scheduled B (retry_queue k) (enc n))
            (Scheduled-Robust B g k msg.message_id (retry_queue k) (enc n)) s)),
  )

  pub worked :
      (worker max : ℕ) (rand : ℕ → ℕ) (now : ℕ) (w : World B.State H)
      → A w.broker
      → A (round (h rand now) max worker w).1.broker
        ⊎ DoneBy B C k h job (work worker max rand now) w
  unfolding round
  worked worker max rand now w a =
      from ((h rand now).read worker w).0 refl
        ((pool.read_keeps rand now worker A (xreadgroup-Alive B k d job enc k g worker)).at w a)
    where
      from :
          (r : Result JobMessage)
          → ((h rand now).read worker w).0 ≡ r
          → Post (λ msg b. A b × IsRead B C k msg b) A r ((h rand now).read worker w).1.broker
          → A
              (elim r as (λ _. Result (Unit {0}) × World B.State H) [
                | ok msg ↦ process (h rand now) max msg ((h rand now).read worker w).1
                | err e ↦ (ok tt, ((h rand now).read worker w).1)
                | panic t ↦ (panic t, ((h rand now).read worker w).1)
              ]).1.broker
            ⊎ DoneBy B C k h job (work worker max rand now) w
      from (ok msg) c (b, read) =
          finish (processed worker max rand now msg ((h rand now).read worker w).1 b read)
        where
          finish :
              Outcome rand now msg
                ((h rand now).read worker w).1
                (process (h rand now) max msg ((h rand now).read worker w).1).1
              → A (process (h rand now) max msg ((h rand now).read worker w).1).1.broker
                ⊎ DoneBy B C k h job (work worker max rand now) w
          finish (inl b) = inl b
          finish (inr (n, eq, fine)) = inr (msg, n, c, eq, fine)
      from (err e) c b = inl b
      from (panic t) c b = inl b

  step_once :
      (e : Event) (w : World B.State H)
      → A w.broker
      → A (step B C k h e w).broker ⊎ DoneBy B C k h job e w
  unfolding step
  step_once (work worker max rand now) w a = worked worker max rand now w a
  step_once (tick now) w a = inl (tick-Alive now w a)
  step_once (arrival j) w a = inl (
      Post-all A (add B C j k w).0 (add B C j k w).1.broker
        ((add_keeps B C A j k (xadd-Alive B k d job enc k)).at w a))

  pub journey :
      (es : List Event) (w : World B.State H)
      → A w.broker
      → A (steps B C k h es w).broker ⊎ Done B C k h job es w
  unfolding steps
  journey [] w a = inl a
  journey (e ∷ es) w a = elim (step_once e w a) [
    | inl b ↦ elim (journey es (step B C k h e w) b) [ inl c ↦ inl c | inr c ↦ inr (inr c) ]
    | inr c ↦ inr (inl c)
  ]
