-- ===== src/Queue/Scheduler.antt =====
-- internal/infrastructure/queue/scheduler_consumer.go: a worker of `SchedulerWorkPool`, which moves
-- due retries back to their stream. What a round does to a scheduled job stands below it.
use notification_server.Base.{
  ℕ, String, ◌≡◌, ◌≢◌, ◌⊎◌, inl, inr, some, List, [], ◌∷◌, ◌==◌, string_eq, Bool-cases, arith,
  eq_iff, nat_eq,
}
use notification_server.Domain.Errors.{Error, foreign}
use notification_server.Domain.Action.{Result, ok, panic, Action, ignore_error, ◌>>◌}
use notification_server.Store.Broker.{Broker}
use notification_server.Store.World.{World, call, on_broker}
use notification_server.Store.Triple.{
  Triple, Triple-bind, Triple-return, Triple-step, Triple-lift, Triple-broker, Triple-ignore,
  Triple-given, Post-all,
}
use notification_server.Queue.Codec.{Codec, Payload, payload_of, job_of}
use notification_server.Queue.Task.{add, re_enqueue, re_enqueue_all, or_fail, no_message}
use notification_server.Queue.Task.Laws.{
  Stored, Scheduled, add-Stored, add_keeps, xadd-Scheduled, xadd-Entry,
}

-- What the goroutine of `Run` meets in its `select`, one entry for each round.
pub data Event : Type 0 where
  done : Event
  tick : ℕ → Event

pub data Scheduler : Type 0 where
  running stopped paniced : Scheduler

-- An error of `ReEnqueue`, "no message found" or another, only logs.
pub after_tick : Result (Unit {0}) → Scheduler
after_tick (panic t) = paniced
after_tick _ = running

module _ (B : Broker) (C : Codec) {H : Type 0} (queue stream : String) where
  abbrev pub unless_paniced :
      Scheduler → World B.State H → Scheduler × World B.State H → Scheduler × World B.State H
  unless_paniced paniced x next = (paniced, x)
  unless_paniced _ x next = next

  unfoldable pub run : List Event → World B.State H → Scheduler × World B.State H
  unfolding after_tick
  run [] w = (running, w)
  run (done ∷ rest) w = (stopped, w)
  run (tick now ∷ rest) w =
      let next = run rest (re_enqueue B C now queue stream w).1 in
      unless_paniced (after_tick (re_enqueue B C now queue stream w).0)
        (re_enqueue B C now queue stream w).1 next

module _ (B : Broker) (queue stream m : String) where
  -- The retry is still scheduled, or its job is in the stream.
  abbrev pub IsWaiting : B.State → Type 0
  IsWaiting r = Scheduled B queue m r ⊎ Stored B stream m r

  zrem-other : (b : String) (r : B.State) → b ≢ m → IsWaiting r → IsWaiting (B.zrem queue b r)
  zrem-other b r ne (inl (t, h)) =
      inl (t, ground (arith, B.score-zrem queue b r queue m, eq_iff b m))
  zrem-other b r ne (inr h) = inr (rw (B.entry-zrem queue b r) h)

  zrem-Stored :
      (b : String) (r : B.State) → Stored B stream m r → Stored B stream m (B.zrem queue b r)
  zrem-Stored b r h = rw (B.entry-zrem queue b r) h

  xadd-IsWaiting : (v : String) (r : B.State) → IsWaiting r → IsWaiting (B.xadd stream v r).1
  xadd-IsWaiting v r (inl h) = inl (xadd-Scheduled B stream v r queue m h)
  xadd-IsWaiting v r (inr (i, h)) = inr (i, xadd-Entry B stream v r stream i m h)

decoded :
    (C : Codec) (m : String) (p : Payload)
    → C.marshal p ≡ some m
    → (b : String) (e : Error) (p' : Payload) → b ≡ m
    → or_fail e (C.unmarshal b) ≡ ok p'
    → C.marshal (payload_of (job_of p')) ≡ some m
decoded C m p enc b e p' same h = ground (arith, C.unmarshal-marshal p m enc)

module _ (B : Broker) (C : Codec) {H : Type 0} (queue stream m : String) (p : Payload)
    (enc : C.marshal p ≡ some m) where
  remove_keeps :
      (b : String) (Q : B.State → Type 0)
      → ((r : B.State) → Q r → IsWaiting B queue stream m (B.zrem queue b r))
      → ((r : B.State) → Q r → IsWaiting B queue stream m r)
      → Triple {H = H} Q
          (ignore_error (call (foreign "redis") (on_broker λ s. (tt, B.zrem queue b s))))
          (λ _. IsWaiting B queue stream m)
          (IsWaiting B queue stream m)
  remove_keeps b Q gone stays = Triple-ignore (Triple-broker _ _ gone stays gone)

  -- One payload of the loop: its own, or another one.
  payload_keeps :
      (b : String) (p' : Payload) (rest : Action (World B.State H) (Unit {0})) (e : Error)
      → or_fail e (C.unmarshal b) ≡ ok p'
      → Triple
          (IsWaiting B queue stream m)
          rest
          (λ _. IsWaiting B queue stream m)
          (IsWaiting B queue stream m)
      → Triple {H = H}
          (IsWaiting B queue stream m)
          (do
            add B C (job_of p') stream
            ignore_error (call (foreign "redis") (on_broker λ s. (tt, B.zrem queue b s)))
            rest)
          (λ _. IsWaiting B queue stream m)
          (IsWaiting B queue stream m)
  payload_keeps b p' rest e h r = elim (Bool-cases (b == m)) [
    | inl same ↦
        Triple-bind
          (add-Stored B C (IsWaiting B queue stream m) (job_of p') stream m
            (decoded C m p enc b e p' ((eq_iff b m).0 same) h) (xadd-IsWaiting B queue stream m m))
          λ _.
            Triple-bind
              (remove_keeps b (Stored B stream m) (λ x y. inr (zrem-Stored B queue stream m b x y))
                (λ x y. inr y))
              λ _. r
    | inr other ↦
        Triple-bind
          (add_keeps B C (IsWaiting B queue stream m) (job_of p') stream
            (xadd-IsWaiting B queue stream m))
          λ _.
            Triple-bind
              (remove_keeps b (IsWaiting B queue stream m)
                (λ x. zrem-other B queue stream m b x (λ q. cc (other, (eq_iff b m).1 q)))
                (λ x y. y))
              λ _. r
  ]

  loop_keeps :
      (due : List String)
      → Triple {H = H}
          (IsWaiting B queue stream m)
          (re_enqueue_all B C queue stream due)
          (λ _. IsWaiting B queue stream m)
          (IsWaiting B queue stream m)
  unfolding re_enqueue_all
  loop_keeps [] = Triple-return tt
  loop_keeps (b ∷ due) = Triple-bind (Triple-lift _) λ p'.
      Triple-given
        λ h. payload_keeps b p' (re_enqueue_all B C queue stream due) _ h (loop_keeps due)

  re_enqueue-Triple :
      (now : ℕ)
      → Triple {H = H}
          (IsWaiting B queue stream m)
          (re_enqueue B C now queue stream)
          (λ _. IsWaiting B queue stream m)
          (IsWaiting B queue stream m)
  unfolding re_enqueue
  re_enqueue-Triple now =
      Triple-bind
        (Triple-broker {Q = λ _. IsWaiting B queue stream m} _ _ (λ r h. h) (λ r h. h) (λ r h. h))
        λ due. Triple-bind (Triple-step (no_message due)) λ ps. loop_keeps ps

  -- A scheduled payload that the codec made is not lost on the way back: after a call of `ReEnqueue`
  -- it is scheduled still, or stands in the stream, whatever the network does to the commands and
  -- whatever else is due.
  pub re_enqueue_keeps :
      (now : ℕ) (w : World B.State H)
      → IsWaiting B queue stream m w.broker
      → IsWaiting B queue stream m (re_enqueue B C now queue stream w).1.broker
  re_enqueue_keeps now w h =
      Post-all (IsWaiting B queue stream m) (re_enqueue B C now queue stream w).0
        (re_enqueue B C now queue stream w).1.broker ((re_enqueue-Triple now).at w h)

module _ (B : Broker) (C : Codec) {H : Type 0} (queue stream m : String) (p : Payload)
    (enc : C.marshal p ≡ some m) where
  -- A scheduled payload that the codec made is scheduled still, or stands in the stream, after any
  -- number of rounds of the scheduler, until it is stopped or panics, whatever the network does to
  -- the commands.
  scheduler_keeps :
      (events : List Event) (w : World B.State H)
      → IsWaiting B queue stream m w.broker
      → IsWaiting B queue stream m (run B C queue stream events w).1.broker
  unfolding run
  scheduler_keeps [] w h = h
  scheduler_keeps (done ∷ rest) w h = h
  scheduler_keeps (tick now ∷ rest) w h =
      let x = (re_enqueue B C now queue stream w).1 in
      let k = re_enqueue_keeps B C queue stream m p enc now w h in
      step (after_tick (re_enqueue B C now queue stream w).0) (run B C queue stream rest x) x k
        (scheduler_keeps rest x k)
    where
      step :
          (a : Scheduler) (next : Scheduler × World B.State H) (x : World B.State H)
          → IsWaiting B queue stream m x.broker
          → IsWaiting B queue stream m next.1.broker
          → IsWaiting B queue stream m (unless_paniced B C queue stream a x next).1.broker
      step running next x k r = r
      step stopped next x k r = r
      step paniced next x k r = k
