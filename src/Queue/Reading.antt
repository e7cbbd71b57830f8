-- ===== src/Queue/Reading.antt =====
-- What `Read` of redis_job_queue.go brings, and that it takes nothing out of Redis.
use notification_server.Base.{ℕ, String, ◌≡◌, refl, Option, none, some, arith}
use notification_server.Domain.Entities.{JobMessage}
use notification_server.Domain.Errors.{Error}
use notification_server.Domain.Action.{ok}
use notification_server.Store.Broker.{Broker}
use notification_server.Store.Triple.{Triple, Triple-bind, Triple-broker, Triple-lift, conseq}
use notification_server.Queue.Codec.{Codec, Payload, job_of}
use notification_server.Queue.Task.{read, or_fail, raw_payload}
use notification_server.Queue.Task.Laws.{Entry}

pub raw_found :
    (o : Option (ℕ × Option String)) (x : ℕ × String)
    → raw_payload o ≡ ok x
    → o ≡ some (x.0, some x.1)
unfolding raw_payload
raw_found none x h = cc
raw_found (some (i, none)) x h = cc
raw_found (some (i, some v)) x h = ground arith

parsed_found : {A : Type 0} (e : Error) (o : Option A) (a : A) → or_fail e o ≡ ok a → o ≡ some a
parsed_found e none a h = cc
parsed_found e (some b) a h = ground arith

module _ (B : Broker) (C : Codec) where
  -- The message is an entry of the stream, decoded.
  abbrev pub IsRead : String → JobMessage → B.State → Type 0
  IsRead k msg r =
      (v : String) × (p : Payload) × Entry B k msg.message_id v r
      × (C.unmarshal v ≡ some p)
      × (msg.payload ≡ job_of p)

  pub read-Triple :
      {H : Type 0} (P : B.State → Type 0) (g : String) (c : ℕ) (k : String)
      → ((r : B.State) → P r → P (B.xreadgroup k g c r).1)
      → Triple {H = H} P (read B C g c k) (λ msg r. P r × IsRead k msg r) P
  unfolding read
  read-Triple P g c k keep =
      Triple-bind {Q = λ o r. P r × ((i : ℕ) (v : String) → o ≡ some (i, some v) → Entry B k i v r)}
        (Triple-broker _ _ (λ r h. (keep r h, λ i v e. there r i v e)) (λ r h. h) keep)
        λ o.
          Triple-bind {Q = λ x r. P r × Entry B k x.0 x.1 r}
            (conseq {E = λ r. P r × ((i : ℕ) (v : String) → o ≡ some (i, some v) → Entry B k i v r)}
              {Q = λ x r.
                (P r × ((i : ℕ) (v : String) → o ≡ some (i, some v) → Entry B k i v r))
                × (raw_payload o ≡ ok x)}
              (λ r h. h) (λ x r h. (h.0.0, h.0.1 x.0 x.1 (raw_found o x h.1))) (λ r h. h.0)
              (Triple-lift (raw_payload o)))
            λ x.
              Triple-bind {Q = λ p r. (P r × Entry B k x.0 x.1 r) × (C.unmarshal x.1 ≡ some p)}
                (conseq {E = λ r. P r × Entry B k x.0 x.1 r} (λ r h. h)
                  (λ p r h. (h.0, parsed_found _ (C.unmarshal x.1) p h.1)) (λ r h. h.0)
                  (Triple-lift (or_fail _ (C.unmarshal x.1))))
                λ p. record { at = λ w h. (h.0.0, (x.1, p, h.0.1, h.1, refl)) }
    where
      there :
          (r : B.State) (i : ℕ) (v : String)
          → (B.xreadgroup k g c r).0 ≡ some (i, some v)
          → Entry B k i v (B.xreadgroup k g c r).1
      there r i v e = rw (B.entry-xreadgroup k g c r) (B.xreadgroup_some k g c r i v e).0
