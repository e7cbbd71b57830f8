-- ===== src/Store/Holds.antt =====
-- What an action keeps however it ends: a property of the tables and of the streams that holds before
-- a call holds after it, whatever the network does.
use notification_server.Base.{◌≡◌, refl}
use notification_server.Domain.Errors.{Error, Variable}
use notification_server.Domain.Action.{
  Result, ok, err, panic, Action, lift, return, fail, ignore_error, ◌>>=◌, proceed,
}
use notification_server.Store.Tables.{Db, Reply}
use notification_server.Store.World.{
  World, Outcome, answered, dropped, lost, call, on_db, on_broker, on_otps, query, deliver, next,
  after, query_failed, scan_error,
}
use notification_server.Queue.Worker.{attempt}

module _ {R H : Type 0} (I : Db → R → Type 0) where
  abbrev pub On : World R H → Type 0
  On w = I w.db w.broker

  pub record Holds {A : Type 0} (m : Action (World R H) A) : Type 0 where
    pub at : (w : World R H) → On w → On (m w).1

-- Some run of the action gave that value.
abbrev pub Gives : {S A : Type 0} → Action S A → A → Type 0
Gives {S} m a = (s : S) × ((m s).0 ≡ ok a)

module _ {R H : Type 0} {I : Db → R → Type 0} {A : Type 0} where
  pub Holds-call :
      (e : Error) (f : World R H → A × World R H)
      → ((w : World R H) → On I w → On I (f w).1)
      → Holds I (call e f)
  unfolding call
  Holds-call e f keep = record { at = λ w h. go (next w.link) w h }
    where
      go :
          (o : Outcome) (w : World R H)
          → On I w
          → On I (deliver e o f (record w { link = after w.link })).1
      go answered w h = keep (record w { link = after w.link }) h
      go dropped w h = h
      go lost w h = keep (record w { link = after w.link }) h

  pub Holds-lift : (x : Result A) → Holds {H = H} I (lift x)
  Holds-lift x = record { at = λ w h. h }

  pub Holds-return : (a : A) → Holds {H = H} I (return a)
  Holds-return a = record { at = λ w h. h }

  pub Holds-fail : (e : Error) → Holds {H = H} I {A = A} (fail e)
  Holds-fail e = record { at = λ w h. h }

  pub Holds-ignore : {m : Action (World R H) A} → Holds I m → Holds I (ignore_error m)
  Holds-ignore t = record { at = t.at }

  -- The value that a continuation gets is one that the action gave.
  pub Holds-bind :
      {C : Type 0} {m : Action (World R H) A} {f : A → Action (World R H) C}
      → Holds I m
      → ((a : A) → Gives m a → Holds I (f a))
      → Holds I (m >>= f)
  Holds-bind {C} {m} {f} t k = record { at = λ w h. go w (m w).0 refl (t.at w h) }
    where
      go :
          (w : World R H) (r : Result A) → (m w).0 ≡ r → On I (m w).1 → On I (proceed r f (m w).1).1
      go w (ok a) e h = (k a (w, e)).at (m w).1 h
      go w (err x) e h = h
      go w (panic x) e h = h

module _ {R H : Type 0} {I : Db → R → Type 0} where
  pub Holds-attempt : {m : Action (World R H) (Unit {0})} → Holds I m → Holds I (attempt m)
  Holds-attempt t = record { at = t.at }

module _ {R H A : Type 0} {I : Db → R → Type 0} where
  pub Holds-query :
      (v : Variable) (f : Db → Reply A × Db)
      → ((d : Db) (r : R) → I d r → I (f d).1 r)
      → Holds {H = H} I (query v f)
  unfolding query
  Holds-query v f keep =
      Holds-bind (Holds-call query_failed (on_db f) (λ w. keep w.db w.broker))
        λ r _. Holds-lift (scan_error v r)

  -- A query that only reads.
  pub Holds-read : (v : Variable) (f : Db → Reply A) → Holds {H = H} I (query v (λ d. (f d, d)))
  Holds-read v f = Holds-query v _ (λ d r h. h)

  pub Holds-broker :
      (e : Error) (f : R → A × R)
      → ((d : Db) (r : R) → I d r → I d (f r).1)
      → Holds {H = H} I (call e (on_broker f))
  Holds-broker e f keep = Holds-call e (on_broker f) (λ w. keep w.db w.broker)

  pub Holds-otps : (e : Error) (f : H → A × H) → Holds {H = H} I (call e (on_otps f))
  Holds-otps e f = Holds-call e (on_otps f) (λ w h. h)
