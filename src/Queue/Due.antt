-- ===== src/Queue/Due.antt =====
-- That `ReEnqueue` of redis_job_queue.go moves a due retry to its stream.
use notification_server.Base.{
  ℕ, ◌/◌, ◌≤◌, ◌<◌, ◌≡◌, refl, sym, String, some, none, List, [], ◌∷◌, All, Any, length, inl, inr,
  arith, eq_iff,
}
use mathlib.Core.Path.{subst}
use notification_server.Store.Broker.{Broker}
use notification_server.Store.World.{World, online, call}
use notification_server.Store.Triple.{Post-all}
use notification_server.Queue.Codec.{Codec, Payload}
use notification_server.Queue.Task.{add, re_enqueue, re_enqueue_all, nanoseconds}
use notification_server.Queue.Task.Laws.{Stored, xadd-Stored, xadd-Entry}
use notification_server.Queue.Rounds.{re_enqueue_all-Triple}

-- The codec reads a member, and writes its job.
abbrev pub IsReadable : Codec → String → Type 0
IsReadable C b = (p : Payload) × (v : String) × (C.unmarshal b ≡ some p) × (C.marshal p ≡ some v)

module _ (B : Broker) (queue stream m : String) where
  -- It stands in the stream, and is not scheduled any more.
  abbrev pub IsMoved : B.State → Type 0
  IsMoved r = Stored B stream m r × (B.score r queue m ≡ none)

  xadd-IsMoved : (k v : String) (r : B.State) → IsMoved r → IsMoved (B.xadd k v r).1
  xadd-IsMoved k v r ((i, h), gone) =
      ((i, xadd-Entry B k v r stream i m h), rw (B.score-xadd k v r) gone)

  zrem-IsMoved : (b : String) (r : B.State) → IsMoved r → IsMoved (B.zrem queue b r)
  zrem-IsMoved b r ((i, h), gone) =
      ((i, rw (B.entry-zrem queue b r) h), ground (arith, B.score-zrem queue b r queue m))

  added-IsMoved :
      (b v : String) (r : B.State) → b ≡ m → v ≡ m → IsMoved (B.zrem queue b (B.xadd stream v r).1)
  added-IsMoved b v r same same' =
      let (i, h) =
        subst (λ x. Stored B stream m (B.xadd stream x r).1) (sym same')
          (xadd-Stored B stream m r) in
      (
        (i, rw (B.entry-zrem queue b (B.xadd stream v r).1) h),
        ground (
          arith,
          B.score-zrem queue b (B.xadd stream v r).1 queue m,
          eq_iff queue queue,
          eq_iff b m,
        ),
      )

written_back :
    (C : Codec) (b v m : String) (p p' : Payload)
    → C.marshal p ≡ some m
    → C.unmarshal b ≡ some p'
    → C.marshal p' ≡ some v
    → b ≡ m
    → v ≡ m
written_back C b v m p p' enc read written same = let back = C.unmarshal-marshal p m enc in cc

module _ (B : Broker) (C : Codec) {H : Type 0} (queue stream m : String) where
  -- One payload on a network that answers.
  abbrev moved_on : String → String → World B.State H → World B.State H
  moved_on b v w = record w { broker = B.zrem queue b (B.xadd stream v w.broker).1; link = [] }

  loop_step :
      (b v : String) (p : Payload) (ms : List String) (w : World B.State H)
      → C.unmarshal b ≡ some p
      → C.marshal p ≡ some v
      → re_enqueue_all B C queue stream (b ∷ ms) (online w)
        ≡ re_enqueue_all B C queue stream ms (moved_on b v w)
  unfolding re_enqueue_all add call
  loop_step b v p ms w read written = rw (read, written) refl

  loop_moves :
      (p : Payload) (ms : List String) (w : World B.State H)
      → C.marshal p ≡ some m
      → All (IsReadable C) ms
      → Any (λ b. b ≡ m) ms
      → IsMoved B queue stream m (re_enqueue_all B C queue stream ms (online w)).1.broker
  loop_moves p [] w enc (tt) here = absurd here
  loop_moves p (b ∷ ms) w enc ((p', v, read, written), rest) (inl same) =
      subst (λ y. IsMoved B queue stream m y.1.broker) (sym (loop_step b v p' ms w read written))
        (Post-all (IsMoved B queue stream m) (re_enqueue_all B C queue stream ms (moved_on b v w)).0
          (re_enqueue_all B C queue stream ms (moved_on b v w)).1.broker
          ((re_enqueue_all-Triple B C queue stream (IsMoved B queue stream m)
              (xadd-IsMoved B queue stream m) (zrem-IsMoved B queue stream m) ms).at
            (moved_on b v w)
            (added-IsMoved B queue stream m b v w.broker same
              (written_back C b v m p p' enc read written same))))
  loop_moves p (b ∷ ms) w enc ((p', v, read, written), rest) (inr later) =
      subst (λ y. IsMoved B queue stream m y.1.broker) (sym (loop_step b v p' ms w read written))
        (loop_moves p ms (moved_on b v w) enc rest later)

  -- What is due now, as far as one call takes it.
  abbrev pub due_now : ℕ → World B.State H → List String
  due_now now w = B.zrangebyscore queue (now / nanoseconds) 10 w.broker

  loop_entered :
      (now : ℕ) (ms : List String) (w : World B.State H)
      → due_now now w ≡ ms
      → Any (λ b. b ≡ m) ms
      → re_enqueue B C now queue stream (online w) ≡ re_enqueue_all B C queue stream ms (online w)
  unfolding re_enqueue call
  loop_entered now [] w e here = absurd here
  loop_entered now (b ∷ ms) w e here = rw e refl

  -- A retry that is due is taken: where the network answers, fewer than ten members of the queue are
  -- due and the codec reads each of them, one call of `ReEnqueue` puts the job into its stream and
  -- takes it out of the queue.
  pub due-IsMoved :
      (now u : ℕ) (p : Payload) (w : World B.State H)
      → C.marshal p ≡ some m
      → B.score w.broker queue m ≡ some u
      → u ≤ now / nanoseconds
      → length (due_now now w) < 10
      → All (IsReadable C) (due_now now w)
      → IsMoved B queue stream m (re_enqueue B C now queue stream (online w)).1.broker
  due-IsMoved now u p w enc scheduled ready few readable =
      let here =
        B.zrangebyscore_all queue (now / nanoseconds) 10 w.broker m u scheduled ready few in
      subst (λ y. IsMoved B queue stream m y.1.broker)
        (sym (loop_entered now (due_now now w) w refl here))
        (loop_moves p (due_now now w) w enc readable here)
