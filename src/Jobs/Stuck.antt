-- ===== src/Jobs/Stuck.antt =====
-- What becomes of a message whose worker did not acknowledge it, as one that panicked: `Read` of
-- redis_job_queue.go asks for new messages only.
use notification_server.Base.{
  ℕ, String, ◌≡◌, ◌≢◌, true, ◌⊎◌, inl, inr, some, Option, List, [], ◌∷◌, arith, nat_eq, nat_beq_iff,
  refl,
}
use notification_server.Domain.Entities.{JobMessage}
use notification_server.Domain.Errors.{Message}
use notification_server.Domain.Action.{Result, ok, err, panic}
use notification_server.Store.Broker.{Broker}
use notification_server.Store.World.{World}
use notification_server.Store.Triple.{
  Triple, Triple-bind, Triple-broker, Triple-lift, Triple-step, Post, Post-all, conseq,
}
use notification_server.Queue.Codec.{Codec}
use notification_server.Queue.Reading.{raw_found}
use notification_server.Queue.Rounds.{re_enqueue_spares}
use notification_server.Queue.Task.{read, add, or_fail, raw_payload, retry_queue}
use notification_server.Queue.Task.Laws.{add_keeps}
use notification_server.Queue.Worker.{JobHandler, process, round}
use notification_server.Jobs.Completion.{StoryStreams}
use notification_server.Jobs.Handlers.{story_handler}
use notification_server.Jobs.Pool.{Event, work, tick, arrival, step, steps}
use notification_server.Jobs.Robust.{Robust, Spares, process_spares, story-Spares}

module _ (B : Broker) (g k : String) (i : ℕ) where
  -- Delivered to a worker and not acknowledged.
  abbrev pub IsPending : B.State → Type 0
  IsPending r = B.pending r k g i ≡ true

  IsPending-Robust : (j : ℕ) → j ≢ i → Robust B g k j IsPending
  IsPending-Robust j other = record {
    by_add = λ a b r h. rw (B.pending-xadd a b r) h;
    by_schedule = λ q t m r h. rw (B.pending-zadd q t m r) h;
    by_ack = λ r h. ground (arith, B.pending-xack k g j r k g i, nat_beq_iff j i);
    by_delete = λ r h. rw (B.pending-xdel k j r) h;
  }

  not_again :
      (c : ℕ) (r : B.State) (j : ℕ) (v : Option String)
      → IsPending r
      → (B.xreadgroup k g c r).0 ≡ some (j, v)
      → j ≢ i
  not_again c r j v waits e same = let new = B.xreadgroup_new k g c r j v e in cc (waits, new, same)

module _ (B : Broker) (C : Codec) {H : Type 0} (g k : String) (i : ℕ) where
  read-other :
      (c : ℕ)
      → Triple {H = H}
          (IsPending B g k i)
          (read B C g c k)
          (λ msg r. IsPending B g k i r × (msg.message_id ≢ i))
          (IsPending B g k i)
  unfolding read
  read-other c =
      Triple-bind
        {Q = λ o r. IsPending B g k i r × ((j : ℕ) (v : Option String) → o ≡ some (j, v) → j ≢ i)}
        (Triple-broker _ _
          (λ r h. (B.pending-xreadgroup k g c r k g i h, λ j v e. not_again B g k i c r j v h e))
          (λ r h. h) (λ r h. B.pending-xreadgroup k g c r k g i h))
        λ o.
          Triple-bind {Q = λ x r. IsPending B g k i r × (x.0 ≢ i)}
            (conseq
              {E = λ r.
                IsPending B g k i r × ((j : ℕ) (v : Option String) → o ≡ some (j, v) → j ≢ i)}
              {Q = λ x r.
                (IsPending B g k i r × ((j : ℕ) (v : Option String) → o ≡ some (j, v) → j ≢ i))
                × (raw_payload o ≡ ok x)}
              (λ r h. h) (λ x r h. (h.0.0, h.0.1 x.0 (some x.1) (raw_found o x h.1))) (λ r h. h.0)
              (Triple-lift (raw_payload o)))
            λ x.
              Triple-bind {Q = λ p r. IsPending B g k i r × (x.0 ≢ i)}
                (conseq {E = λ r. IsPending B g k i r × (x.0 ≢ i)}
                  {Q = λ _ r. IsPending B g k i r × (x.0 ≢ i)} (λ r h. h) (λ p r h. h) (λ r h. h.0)
                  (Triple-step (or_fail _ (C.unmarshal x.1))))
                λ p. record { at = λ w h. h }

module _ (B : Broker) (C : Codec) {H : Type 0} (k : String)
    (h : (ℕ → ℕ) → ℕ → JobHandler (World B.State H)) (i : ℕ) where
  -- Some worker reads the message of that id.
  abbrev ReadBy : Event → World B.State H → Type 0
  ReadBy (work worker max rand now) w =
      (msg : JobMessage) × (((h rand now).read worker w).0 ≡ ok msg) × (msg.message_id ≡ i)
  ReadBy _ w = ⊥

  abbrev pub Read : List Event → World B.State H → Type 0
  Read [] w = ⊥
  Read (e ∷ es) w = ReadBy e w ⊎ Read es (step B C k h e w)

module _ (B : Broker) (C : Codec) {H : Type 0} (g k : String) (i : ℕ)
    (h : (ℕ → ℕ) → ℕ → JobHandler (World B.State H))
    (spares : (rand : ℕ → ℕ) (now : ℕ) → Spares B C g k (h rand now))
    (reads : (rand : ℕ → ℕ) (now worker : ℕ)
      → Triple
          (IsPending B g k i)
          ((h rand now).read worker)
          (λ msg r. IsPending B g k i r × (msg.message_id ≢ i))
          (IsPending B g k i)) where
  abbrev Left : Event → World B.State H → World B.State H → Type 0
  Left e w x = IsPending B g k i x.broker × (¬ ReadBy B C k h i e w)

  worked :
      (worker max : ℕ) (rand : ℕ → ℕ) (now : ℕ) (w : World B.State H)
      → IsPending B g k i w.broker
      → Left (work worker max rand now) w (round (h rand now) max worker w).1
  unfolding round
  worked worker max rand now w p =
      from ((h rand now).read worker w).0 refl ((reads rand now worker).at w p)
    where
      from :
          (r : Result JobMessage)
          → ((h rand now).read worker w).0 ≡ r
          → Post
              (λ msg b. IsPending B g k i b × (msg.message_id ≢ i))
              (IsPending B g k i)
              r
              ((h rand now).read worker w).1.broker
          → Left
              (work worker max rand now)
              w
              (elim r as (λ _. Result (Unit {0}) × World B.State H) [
                | ok msg ↦ process (h rand now) max msg ((h rand now).read worker w).1
                | err e ↦ (ok tt, ((h rand now).read worker w).1)
                | panic t ↦ (panic t, ((h rand now).read worker w).1)
              ]).1
      from (ok msg) c (q, other) = (
        Post-all (IsPending B g k i) (process (h rand now) max msg ((h rand now).read worker w).1).0
            (process (h rand now) max msg ((h rand now).read worker w).1).1.broker
            ((process_spares B C g k (h rand now) (spares rand now) (IsPending B g k i) max msg
                (IsPending-Robust B g k i msg.message_id other)).at
              ((h rand now).read worker w).1 q),
        λ (m, d, same). other (cc (c, d, same)),
      )
      from (err e) c q = (q, λ (m, d, same). cc (c, d))
      from (panic t) c q = (q, λ (m, d, same). cc (c, d))

  stepped :
      (e : Event) (w : World B.State H) → IsPending B g k i w.broker → Left e w (step B C k h e w)
  unfolding step
  stepped (work worker max rand now) w p = worked worker max rand now w p
  stepped (tick now) w p = (
    re_enqueue_spares B C (retry_queue k) k (IsPending B g k i)
        (λ a b r q. rw (B.pending-xadd a b r) q)
        (λ b r q. rw (B.pending-zrem (retry_queue k) b r) q) now w p,
    λ never. never,
  )
  stepped (arrival job) w p = (
    Post-all (IsPending B g k i) (add B C job k w).0 (add B C job k w).1.broker
        ((add_keeps B C (IsPending B g k i) job k (λ b r q. rw (B.pending-xadd k b r) q)).at w p),
    λ never. never,
  )

  stays-IsPending :
      (es : List Event) (w : World B.State H)
      → IsPending B g k i w.broker
      → IsPending B g k i (steps B C k h es w).broker × (¬ Read B C k h i es w)
  unfolding steps
  stays-IsPending [] w p = (p, λ never. never)
  stays-IsPending (e ∷ es) w p =
      let (q, unread) = stepped e w p in
      let (r, unread') = stays-IsPending es (step B C k h e w) q in (r, neither unread unread')
    where
      neither : {X Y : Type 0} → (¬ X) → (¬ Y) → ¬ (X ⊎ Y)
      neither f g (inl x) = f x
      neither f g (inr y) = g y

module _ (B : Broker) (C : Codec) {H : Type 0} where
  -- A message of the story stream that was delivered and not acknowledged, as where its worker
  -- panicked, is never read again and stays so, over any sequence of events of the story pool,
  -- whatever the network does.
  pub story_stays-IsPending :
      (model : Message → String) (s : StoryStreams) (i : ℕ) (es : List Event) (w : World B.State H)
      → IsPending B s.group s.story_stream i w.broker
      → IsPending B s.group s.story_stream i
          (steps B C s.story_stream (λ rand now. story_handler B C model rand now s) es w).broker
        × (¬ Read B C s.story_stream (λ rand now. story_handler B C model rand now s) i es w)
  unfolding story_handler
  story_stays-IsPending model s i es w p =
      stays-IsPending B C s.group s.story_stream i (λ rand now. story_handler B C model rand now s)
        (λ rand now. story-Spares B C model rand now s)
        (λ rand now worker. read-other B C s.group s.story_stream i worker) es w p
