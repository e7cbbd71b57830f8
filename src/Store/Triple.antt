-- ===== src/Store/Triple.antt =====
-- Hoare triples over what stands in Redis: from `P`, the action ends with a value and `Q`, or with an
-- error or a panic and `E`. They hold whatever the network does.
use notification_server.Base.{◌≡◌, refl, sym, ◌⊎◌, inl, inr}
use mathlib.Core.Path.{subst}
use notification_server.Domain.Errors.{Error, Variable}
use notification_server.Domain.Action.{
  Result, ok, err, panic, Action, lift, return, ignore_error, forget, ◌>>=◌, proceed,
}
use notification_server.Store.Tables.{Db, Reply}
use notification_server.Store.World.{
  World, Outcome, answered, dropped, lost, call, on_broker, query, deliver, next, after, on_db,
  query_failed, scan_error,
}

abbrev pub Post : {A R : Type 0} → (A → R → Type 0) → (R → Type 0) → Result A → R → Type 0
Post Q E (ok a) r = Q a r
Post Q E (err e) r = E r
Post Q E (panic t) r = E r

-- Where value, error and panic leave the same, how the action ended does not matter.
pub Post-all : {A R : Type 0} (P : R → Type 0) (r : Result A) (b : R) → Post (λ _. P) P r b → P b
Post-all P (ok a) b x = x
Post-all P (err e) b x = x
Post-all P (panic t) b x = x

module _ {R H A : Type 0} where
  pub record Triple (P : R → Type 0) (m : Action (World R H) A) (Q : A → R → Type 0)
      (E : R → Type 0) : Type 0 where
    pub at : (w : World R H) → P w.broker → Post Q E (m w).0 (m w).1.broker

  pub conseq :
      {P P' E E' : R → Type 0} {Q Q' : A → R → Type 0} {m : Action (World R H) A}
      → ((r : R) → P' r → P r)
      → ((a : A) (r : R) → Q a r → Q' a r)
      → ((r : R) → E r → E' r)
      → Triple P m Q E
      → Triple P' m Q' E'
  conseq {E} {E'} {Q} {Q'} {m} pre post bad t = record {
    at = λ w h. go (m w).0 (m w).1.broker (t.at w (pre w.broker h));
  }
    where
      go : (r : Result A) (b : R) → Post Q E r b → Post Q' E' r b
      go (ok a) b h = post a b h
      go (err e) b h = bad b h
      go (panic x) b h = bad b h

  pub Triple-given :
      {P E : R → Type 0} {Q : A → R → Type 0} {m : Action (World R H) A} {F : Type 0}
      → (F → Triple P m Q E)
      → Triple (λ r. P r × F) m Q E
  Triple-given t = record { at = λ w h. (t h.1).at w h.0 }

  pub Triple-or :
      {P P' E : R → Type 0} {Q : A → R → Type 0} {m : Action (World R H) A}
      → Triple P m Q E
      → Triple P' m Q E
      → Triple (λ r. P r ⊎ P' r) m Q E
  Triple-or {P} {P'} {E} {Q} {m} t u = record { at = λ w h. go w h }
    where
      go : (w : World R H) → P w.broker ⊎ P' w.broker → Post Q E (m w).0 (m w).1.broker
      go w (inl h) = t.at w h
      go w (inr h) = u.at w h

  -- A command of the streams may run, or fail before or after it ran.
  pub Triple-broker :
      {P E : R → Type 0} {Q : A → R → Type 0} (e : Error) (f : R → A × R)
      → ((r : R) → P r → Q (f r).0 (f r).1)
      → ((r : R) → P r → E r)
      → ((r : R) → P r → E (f r).1)
      → Triple P (call e (on_broker f)) Q E
  unfolding call
  Triple-broker {P} {E} {Q} e f q stays runs = record { at = λ w h. go (next w.link) w h }
    where
      go :
          (o : Outcome) (w : World R H)
          → P w.broker
          → Post Q E
              (deliver e o (on_broker f) (record w { link = after w.link })).0
              (deliver e o (on_broker f) (record w { link = after w.link })).1.broker
      go answered w h = q w.broker h
      go dropped w h = stays w.broker h
      go lost w h = runs w.broker h

  -- A command elsewhere touches no stream.
  pub Triple-elsewhere :
      {P : R → Type 0} (e : Error) (f : World R H → A × World R H)
      → ((w : World R H) → (f w).1.broker ≡ w.broker)
      → Triple P (call e f) (λ _. P) P
  unfolding call
  Triple-elsewhere {P} e f same = record { at = λ w h. go (next w.link) w h }
    where
      go :
          (o : Outcome) (w : World R H)
          → P w.broker
          → Post
              (λ (_ : A). P)
              P
              (deliver e o f (record w { link = after w.link })).0
              (deliver e o f (record w { link = after w.link })).1.broker
      go answered w h = subst P (sym (same (record w { link = after w.link }))) h
      go dropped w h = h
      go lost w h = subst P (sym (same (record w { link = after w.link }))) h

  pub Triple-lift : {P : R → Type 0} (x : Result A) → Triple P (lift x) (λ a r. P r × (x ≡ ok a)) P
  Triple-lift (ok a) = record { at = λ w h. (h, refl) }
  Triple-lift (err e) = record { at = λ w h. h }
  Triple-lift (panic t) = record { at = λ w h. h }

  -- The same, with the value forgotten.
  pub Triple-step : {P : R → Type 0} (x : Result A) → Triple P (lift x) (λ _. P) P
  Triple-step (ok a) = record { at = λ w h. h }
  Triple-step (err e) = record { at = λ w h. h }
  Triple-step (panic t) = record { at = λ w h. h }

  pub Triple-return : {P E : R → Type 0} (a : A) → Triple P (return a) (λ _. P) E
  Triple-return a = record { at = λ w h. h }

module _ {R H A C : Type 0} where
  pub Triple-bind :
      {P E : R → Type 0} {Q : A → R → Type 0} {S : C → R → Type 0} {m : Action (World R H) A}
      {f : A → Action (World R H) C}
      → Triple P m Q E
      → ((a : A) → Triple (Q a) (f a) S E)
      → Triple P (m >>= f) S E
  Triple-bind {E} {Q} {S} {m} {f} t k = record { at = λ w h. go (m w).0 (m w).1 (t.at w h) }
    where
      go :
          (r : Result A) (w : World R H)
          → Post Q E r w.broker
          → Post S E (proceed r f w).0 (proceed r f w).1.broker
      go (ok a) w h = (k a).at w h
      go (err e) w h = h
      go (panic x) w h = h

module _ {R H A : Type 0} where
  -- So do the statements for Postgres.
  pub Triple-query :
      {P : R → Type 0} (v : Variable) (f : Db → Reply A × Db)
      → Triple {H = H} P (query v f) (λ _. P) P
  unfolding query
  Triple-query v f =
      Triple-bind (Triple-elsewhere query_failed (on_db f) (λ w. refl))
        λ r. conseq (λ b h. h) (λ a b h. h.0) (λ b h. h) (Triple-lift (scan_error v r))

module _ {R H A : Type 0} where
  -- A dropped error is as good as a value; a panic is not caught.
  pub Triple-ignore :
      {P E : R → Type 0} {m : Action (World R H) A}
      → Triple P m (λ _. E) E
      → Triple P (ignore_error m) (λ _. E) E
  Triple-ignore {P} {E} {m} t = record { at = λ w h. go (m w).0 (m w).1.broker (t.at w h) }
    where
      go : (r : Result A) (b : R) → Post (λ _. E) E r b → Post (λ _. E) E (forget r) b
      go (ok a) b h = h
      go (err e) b h = h
      go (panic x) b h = h
