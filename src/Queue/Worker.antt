-- ===== src/Queue/Worker.antt =====
-- internal/infrastructure/queue/streams_consumers.go: a worker of `WorkerPool`. The executer and the
-- completion handler are the interfaces of internal/domain/jobs.go.
use notification_server.Base.{
  ℕ, zero, suc, Option, none, some, List, [], ◌∷◌, ◌==◌, nat_eq, if◌then◌else◌,
}
use notification_server.Domain.Errors.{Error}
use notification_server.Domain.Entities.{Job, JobMessage}
use notification_server.Domain.Action.{
  Result, ok, err, panic, Action, lift, ignore_error, ◌>>=◌, ◌>>◌,
}

-- `JobExecuter` and `JobComplettionHandler`, with `Read` of the pool's stream.
pub record JobHandler (S : Type 0) : Type 0 where
  pub read : ℕ → Action S JobMessage
  pub execute : Job → Action S (Unit {0})
  pub on_success : Job → ℕ → Action S (Unit {0})
  pub on_failure : Job → ℕ → Action S (Unit {0})
  pub send_to_dql : Job → ℕ → Action S (Unit {0})

-- `err := call()`: the error becomes a value.
abbrev pub attempted {ℓ} : {A : Type ℓ} → Result A → Result (Option Error)
attempted (ok a) = ok none
attempted (err e) = ok (some e)
attempted (panic t) = panic t

abbrev pub attempt : {S A : Type 0} → Action S A → Action S (Option Error)
attempt m s = let (r, s') = m s in (attempted r, s')

-- Where a goroutine of the pool is: at the head of a round it ends when the context is cancelled; it
-- ends where a call panics, by the deferred `recover`; and it waits in `Read`, which blocks without a
-- limit while the stream has nothing new, and which a later cancellation does not wake.
pub data Worker : Type 0 where
  running stopped paniced waiting : Worker

-- What a round finds: a cancelled context, an empty stream, or a `Read` that returns.
pub data Wake : Type 0 where
  cancelled blocked goes_on : Wake

pub after_round : Result (Unit {0}) → Worker
after_round (panic t) = paniced
after_round _ = running

-- The workers from a number on.
abbrev pub numbered : ℕ → ℕ → List ℕ
numbered i zero = []
numbered i (suc n) = i ∷ numbered (suc i) n

-- With no worker the error is never looked at.
abbrev pub started : Option Error → ℕ → Result (List ℕ)
started (some e) (suc n) = panic "CreateConsumerGroup"
started _ n = ok (numbered 1 n)

-- `Start`: the workers whose goroutines it starts, after the call of `CreateConsumerGroup`.
unfoldable pub start : {S : Type 0} → Action S (Unit {0}) → ℕ → Action S (List ℕ)
start create worker_counts = do failure ← attempt create; lift (started failure worker_counts)

module _ {S : Type 0} (h : JobHandler S) (max_job_retry : ℕ) where
  -- What follows `Execute`: at the last retry both `SendToDQL` and `OnFailure` are called.
  unfoldable pub settle : JobMessage → Option Error → Action S (Unit {0})
  settle msg none = ignore_error (h.on_success msg.payload msg.message_id)
  settle msg (some e) =
      if msg.payload.retry_counts == max_job_retry
      then (do
        ignore_error (h.send_to_dql msg.payload msg.message_id)
        ignore_error (h.on_failure msg.payload msg.message_id))
      else ignore_error (h.on_failure msg.payload msg.message_id)

  unfoldable pub process : JobMessage → Action S (Unit {0})
  unfolding settle
  process msg = do failure ← attempt (h.execute msg.payload); settle msg failure

  -- One round of the loop of `Run`; an error of `Read` goes on to the next round.
  unfoldable pub round : ℕ → Action S (Unit {0})
  unfolding process
  round worker s = elim (h.read worker s).0 [
    | ok msg ↦ process msg (h.read worker s).1
    | err e ↦ (ok tt, (h.read worker s).1)
    | panic t ↦ (panic t, (h.read worker s).1)
  ]

  -- `Run`, a round for each element of the list.
  unfoldable pub run : ℕ → List Wake → S → Worker × S
  unfolding round after_round
  run worker [] s = (running, s)
  run worker (cancelled ∷ rest) s = (stopped, s)
  run worker (blocked ∷ rest) s = (waiting, s)
  run worker (goes_on ∷ rest) s =
      let next = run worker rest (round worker s).1 in
      elim (after_round (round worker s).0) [ paniced ↦ (paniced, (round worker s).1) | _ ↦ next ]
