-- ===== src/Queue/Rounds.antt =====
-- What a round of the scheduler (`ReEnqueue` of redis_job_queue.go) leaves alone.
use notification_server.Base.{nat_eq, ℕ, String, List, [], ◌∷◌}
use notification_server.Queue.Scheduler.{
  Event, Scheduler, done, tick, running, stopped, paniced, run, after_tick, unless_paniced,
}
use notification_server.Base.{[], ◌∷◌, List}
use notification_server.Store.Broker.{Broker}
use notification_server.Store.World.{World}
use notification_server.Store.Triple.{
  Triple, Post-all, Triple-bind, Triple-broker, Triple-return, Triple-step, Triple-ignore,
}
use notification_server.Queue.Codec.{Codec, job_of}
use notification_server.Queue.Task.{re_enqueue, re_enqueue_all, no_message}
use notification_server.Queue.Task.Laws.{add_keeps}

module _ (B : Broker) (C : Codec) {H : Type 0} (q k : String) (P : B.State → Type 0)
    (by_add : (k' v : String) (r : B.State) → P r → P (B.xadd k' v r).1)
    (by_remove : (m : String) (r : B.State) → P r → P (B.zrem q m r)) where
  pub re_enqueue_all-Triple :
      (ms : List String) → Triple {H = H} P (re_enqueue_all B C q k ms) (λ _. P) P
  unfolding re_enqueue_all
  re_enqueue_all-Triple [] = Triple-return tt
  re_enqueue_all-Triple (m ∷ ms) = Triple-bind (Triple-step _) λ p.
      Triple-bind (add_keeps B C P (job_of p) k (by_add k)) λ _.
        Triple-bind (Triple-ignore (Triple-broker _ _ (by_remove m) (λ r x. x) (by_remove m)))
          λ _. re_enqueue_all-Triple ms

  re_enqueue-Triple : (now : ℕ) → Triple {H = H} P (re_enqueue B C now q k) (λ _. P) P
  unfolding re_enqueue
  re_enqueue-Triple now =
      Triple-bind {Q = λ _. P} (Triple-broker _ _ (λ r x. x) (λ r x. x) (λ r x. x))
        λ due. Triple-bind (Triple-step (no_message due)) re_enqueue_all-Triple

  pub re_enqueue_spares :
      (now : ℕ) (w : World B.State H) → P w.broker → P (re_enqueue B C now q k w).1.broker
  re_enqueue_spares now w x =
      Post-all P (re_enqueue B C now q k w).0 (re_enqueue B C now q k w).1.broker
        ((re_enqueue-Triple now).at w x)

  -- So do its rounds.
  pub scheduler_spares :
      (events : List Event) (w : World B.State H) → P w.broker → P (run B C q k events w).1.broker
  unfolding run
  scheduler_spares [] w x = x
  scheduler_spares (done ∷ rest) w x = x
  scheduler_spares (tick now ∷ rest) w x =
      let y = (re_enqueue B C now q k w).1 in
      let kept = re_enqueue_spares now w x in
      after (after_tick (re_enqueue B C now q k w).0) (run B C q k rest y) y kept
        (scheduler_spares rest y kept)
    where
      after :
          (a : Scheduler) (next : Scheduler × World B.State H) (y : World B.State H)
          → P y.broker
          → P next.1.broker
          → P (unless_paniced B C q k a y next).1.broker
      after running next y x r = r
      after stopped next y x r = r
      after paniced next y x r = x
