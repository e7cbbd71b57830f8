-- ===== src/App/Retries.antt =====
-- internal/application/app.go: the names of the retry queues that `Run` gives to the schedulers, beside
-- the one that `ScheduleRetry` of redis_job_queue.go writes to.
use notification_server.Base.{
  ℕ, ◌/◌, ◌≤◌, ◌<◌, String, ◌≡◌, ◌≢◌, sym, some, List, [], ◌∷◌, All, length, eq_iff, arith,
}
use mathlib.Core.Path.{subst}
use notification_server.Domain.Action.{ok}
use notification_server.Domain.Entities.{Job}
use notification_server.Store.Broker.{Broker}
use notification_server.Store.World.{World, online}
use notification_server.Store.Triple.{Post}
use notification_server.Queue.Codec.{Codec, payload_of}
use notification_server.Queue.Due.{IsReadable, IsMoved, due_now, due-IsMoved}
use notification_server.Queue.Task.{retry_queue, schedule_retry, nanoseconds, re_enqueue}
use notification_server.Queue.Task.Laws.{Scheduled, xadd-Scheduled, schedule_retry-Scheduled}
use notification_server.Queue.Rounds.{scheduler_spares}
use notification_server.Queue.Scheduler.{
  Event, Scheduler, running, stopped, paniced, tick, run, after_tick, unless_paniced,
}
use notification_server.App.{Config}

-- A round of a worker of one of the two `SchedulerWorkPool`s, and its time.
pub data Round : Type 0 where
  stories emails : ℕ → Round

module _ (B : Broker) (C : Codec) {H : Type 0} (cfg : Config) where
  unfoldable pub story_scheduler : List Event → World B.State H → Scheduler × World B.State H
  story_scheduler = run B C cfg.story_retry_stream cfg.story_generation_stream

  unfoldable pub email_scheduler : List Event → World B.State H → Scheduler × World B.State H
  email_scheduler = run B C cfg.email_retry_stream cfg.email_notification_stream

  -- The workers of both pools in any order.
  unfoldable pub schedulers : List Round → World B.State H → World B.State H
  unfolding story_scheduler email_scheduler
  schedulers [] w = w
  schedulers (stories now ∷ rest) w = schedulers rest (story_scheduler (tick now ∷ []) w).1
  schedulers (emails now ∷ rest) w = schedulers rest (email_scheduler (tick now ∷ []) w).1

  spares :
      (queue m q k : String)
      → q ≢ queue
      → (events : List Event) (w : World B.State H) → Scheduled B queue m w.broker
      → Scheduled B queue m (run B C q k events w).1.broker
  spares queue m q k ne =
      scheduler_spares B C q k (Scheduled B queue m) (λ a b r h. xadd-Scheduled B a b r queue m h)
        (λ b r h. (h.0, ground (arith, B.score-zrem q b r queue m, eq_iff q queue)))

  schedulers_spare :
      (queue m : String)
      → cfg.story_retry_stream ≢ queue
      → cfg.email_retry_stream ≢ queue
      → (rounds : List Round) (w : World B.State H) → Scheduled B queue m w.broker
      → Scheduled B queue m (schedulers rounds w).broker
  unfolding schedulers
  schedulers_spare queue m other other' [] w h = h
  schedulers_spare queue m other other' (stories now ∷ rest) w h =
      schedulers_spare queue m other other' rest _ (
        spares queue m cfg.story_retry_stream cfg.story_generation_stream other (tick now ∷ []) w h)
  schedulers_spare queue m other other' (emails now ∷ rest) w h =
      schedulers_spare queue m other other' rest _ (
        spares queue m cfg.email_retry_stream cfg.email_notification_stream other' (tick now ∷ []) w
          h)

  was_scheduled :
      (rand : ℕ → ℕ) (now : ℕ) (job : Job) (stream m : String) (w : World B.State H)
      → C.marshal (payload_of job) ≡ some m
      → (schedule_retry B C rand now job stream w).0 ≡ ok tt
      → Scheduled B (retry_queue stream) m (schedule_retry B C rand now job stream w).1.broker
  was_scheduled rand now job stream m w enc done =
      subst
        (λ r.
          Post (λ _. Scheduled B (retry_queue stream) m) (λ _. Unit {0}) r
            (schedule_retry B C rand now job stream w).1.broker)
        done ((schedule_retry-Scheduled B C rand now job stream m (λ _. Unit) enc).at w tt)

  -- The configured names of the retry queues have to be "retry_" before the names of the streams:
  -- where neither name is the one of the stories, a retry of a story that `ScheduleRetry` scheduled
  -- without an error stays scheduled under it, whatever rounds the two schedulers make and whatever
  -- the network does.
  pub misnamed_retry_stays :
      (rand : ℕ → ℕ) (now : ℕ) (job : Job) (m : String) (rounds : List Round) (w : World B.State H)
      → C.marshal (payload_of job) ≡ some m
      → cfg.story_retry_stream ≢ retry_queue cfg.story_generation_stream
      → cfg.email_retry_stream ≢ retry_queue cfg.story_generation_stream
      → let (r, y) = schedule_retry B C rand now job cfg.story_generation_stream w in
        r ≡ ok tt
        → Scheduled B (retry_queue cfg.story_generation_stream) m (schedulers rounds y).broker
  misnamed_retry_stays rand now job m rounds w enc other other' done =
      schedulers_spare (retry_queue cfg.story_generation_stream) m other other' rounds _
        (was_scheduled rand now job cfg.story_generation_stream m w enc done)

  one_round :
      (P : B.State → Type 0) (q k : String) (now : ℕ) (w : World B.State H)
      → P (re_enqueue B C now q k w).1.broker
      → P (run B C q k (tick now ∷ []) w).1.broker
  unfolding run
  one_round P q k now w h = go (after_tick (re_enqueue B C now q k w).0)
    where
      go :
          (a : Scheduler)
          → P
              (unless_paniced B C q k a
                (re_enqueue B C now q k w).1
                (running, (re_enqueue B C now q k w).1)).1.broker
      go running = h
      go stopped = h
      go paniced = h

  -- With the right name, the story scheduler takes what `ScheduleRetry` scheduled without an error:
  -- once its time is there, a round on a network that answers puts the job into the stream of the
  -- stories and takes it out of the queue, where fewer than ten members of the queue are due and the
  -- codec reads each of them.
  pub named_retry_taken :
      (rand : ℕ → ℕ) (now later u : ℕ) (job : Job) (m : String) (w : World B.State H)
      → C.marshal (payload_of job) ≡ some m
      → cfg.story_retry_stream ≡ retry_queue cfg.story_generation_stream
      → let (r, y) = schedule_retry B C rand now job cfg.story_generation_stream w in
        r ≡ ok tt
        → B.score y.broker (retry_queue cfg.story_generation_stream) m ≡ some u
        → u ≤ later / nanoseconds
        → length (due_now B C cfg.story_retry_stream cfg.story_generation_stream m later y) < 10
        → All
            (IsReadable C)
            (due_now B C cfg.story_retry_stream cfg.story_generation_stream m later y)
        → IsMoved B
            (retry_queue cfg.story_generation_stream)
            cfg.story_generation_stream
            m
            (story_scheduler (tick later ∷ []) (online y)).1.broker
  unfolding story_scheduler
  named_retry_taken rand now later u job m w enc name done scored ready few readable =
      let y = (schedule_retry B C rand now job cfg.story_generation_stream w).1 in
      let k = cfg.story_generation_stream in
      one_round (IsMoved B (retry_queue k) k m) cfg.story_retry_stream k later (online y) (
        subst
          (λ q. IsMoved B q k m (re_enqueue B C later cfg.story_retry_stream k (online y)).1.broker)
          name
          (due-IsMoved B C cfg.story_retry_stream k m later u (payload_of job) y enc
            (subst (λ q. B.score y.broker q m ≡ some u) (sym name) scored) ready few readable))
