-- ===== src/Jobs/Pool.antt =====
-- A pool seen as a sequence of events: what its workers do, the rounds of its scheduler, and jobs
-- that other parts add to its stream, in any order (internal/infrastructure/queue with
-- internal/usecase/job_completion.go).
use notification_server.Base.{nat_eq, ℕ, ◌+◌, String, ◌≡◌, ◌⊎◌, inl, inr, List, [], ◌∷◌}
use notification_server.Domain.Entities.{Job, JobMessage}
use notification_server.Domain.Action.{ok}
use notification_server.Store.Broker.{Broker}
use notification_server.Store.World.{World}
use notification_server.Store.Triple.{Triple}
use notification_server.Queue.Codec.{Codec}
use notification_server.Queue.Task.{add, re_enqueue, retry_queue}
use notification_server.Queue.Task.Laws.{Stored, Scheduled, xadd-Entry, xadd-Scheduled}
use notification_server.Queue.Worker.{JobHandler, round}
use notification_server.Queue.Delivery.{Delivers}
use notification_server.Queue.Reading.{IsRead}
use notification_server.Jobs.Robust.{Spares}

-- The job after some more retries.
abbrev pub aged : Job → ℕ → Job
aged job n = record job { retry_counts = job.retry_counts + n }

-- One event of the pool: the number of a worker, the limit of retries, its source of randomness and
-- its clock; the scheduler's clock; a job that another component adds to the stream.
pub data Event : Type 0 where
  work : (worker max : ℕ) (rand : ℕ → ℕ) (now : ℕ) → Event
  tick : (now : ℕ) → Event
  arrival : Job → Event

module _ (B : Broker) (k d : String) (job : Job) (enc : ℕ → String) where
  -- In the stream, in the dead letter queue, or waiting for a retry, with some number of retries.
  abbrev pub Alive : B.State → Type 0
  Alive r =
      (n : ℕ) × (Stored B k (enc n) r
        ⊎ Stored B d (enc n) r
        ⊎ Scheduled B (retry_queue k) (enc n) r)

  pub xadd-Alive : (k' v : String) (r : B.State) → Alive r → Alive (B.xadd k' v r).1
  xadd-Alive k' v r (n, inl (j, e)) = (n, inl (j, xadd-Entry B k' v r k j (enc n) e))
  xadd-Alive k' v r (n, inr (inl (j, e))) = (n, inr (inl (j, xadd-Entry B k' v r d j (enc n) e)))
  xadd-Alive k' v r (n, inr (inr s)) =
      (n, inr (inr (xadd-Scheduled B k' v r (retry_queue k) (enc n) s)))

  pub xreadgroup-Alive :
      (k' g : String) (c : ℕ) (r : B.State) → Alive r → Alive (B.xreadgroup k' g c r).1
  xreadgroup-Alive k' g c r a = rw (B.entry-xreadgroup k' g c r, B.score-xreadgroup k' g c r) a

module _ (B : Broker) (C : Codec) {H : Type 0} (k : String)
    (h : (ℕ → ℕ) → ℕ → JobHandler (World B.State H)) where
  unfoldable pub step : Event → World B.State H → World B.State H
  step (work worker max rand now) w = (round (h rand now) max worker w).1
  step (tick now) w = (re_enqueue B C now (retry_queue k) k w).1
  step (arrival job) w = (add B C job k w).1

  unfoldable pub steps : List Event → World B.State H → World B.State H
  steps [] w = w
  steps (e ∷ es) w = steps es (step e w)

  module _ (job : Job) where
    -- A worker reads the job, whatever number of retries it has, and executes it without an error.
    abbrev pub DoneBy : Event → World B.State H → Type 0
    DoneBy (work worker max rand now) w =
        (msg : JobMessage) × (n : ℕ) × (((h rand now).read worker w).0 ≡ ok msg)
        × (msg.payload ≡ aged job n)
        × (((h rand now).execute msg.payload ((h rand now).read worker w).1).0 ≡ ok tt)
    DoneBy _ w = ⊥

    abbrev pub Done : List Event → World B.State H → Type 0
    Done [] w = ⊥
    Done (e ∷ es) w = DoneBy e w ⊎ Done es (step e w)

-- What a pool's handlers have to promise.
module _ (B : Broker) (C : Codec) {H : Type 0} where
  pub record Pool (g k d : String) (h : (ℕ → ℕ) → ℕ → JobHandler (World B.State H)) : Type 1 where
    pub delivers : (rand : ℕ → ℕ) (now : ℕ) → Delivers B C k d (h rand now)
    pub spares : (rand : ℕ → ℕ) (now : ℕ) → Spares B C g k (h rand now)
    pub read_keeps :
        (rand : ℕ → ℕ) (now worker : ℕ) (P : B.State → Type 0)
        → ((r : B.State) → P r → P (B.xreadgroup k g worker r).1)
        → Triple P ((h rand now).read worker) (λ msg r. P r × IsRead B C k msg r) P
