-- ===== src/Store/DbTriple.antt =====
-- Hoare triples over the tables: from `P`, the action ends with a value and `Q`, or with an error or a
-- panic and `E`. They hold whatever the network does.
use notification_server.Base.{◌≡◌, ◌≢◌, refl, sym}
use mathlib.Core.Path.{subst}
use notification_server.Domain.Errors.{Error, Variable}
use notification_server.Domain.Action.{
  Result, ok, err, panic, Action, lift, return, fail, ignore_error, forget, ◌>>=◌, proceed,
}
use notification_server.Store.Tables.{Db, Reply, row, no_rows, refused}
use notification_server.Store.World.{
  World, Outcome, answered, dropped, lost, call, on_db, query, deliver, next, after, query_failed,
  scan_error,
}
use notification_server.Store.Triple.{Post}
use notification_server.Queue.Worker.{attempt, attempted}

module _ {R H A : Type 0} where
  pub record DbTriple (P : Db → Type 0) (m : Action (World R H) A) (Q : A → Db → Type 0)
      (E : Db → Type 0) : Type 0 where
    pub at : (w : World R H) → P w.db → Post Q E (m w).0 (m w).1.db

  pub Db-elsewhere :
      {P : Db → Type 0} (e : Error) (f : World R H → A × World R H)
      → ((w : World R H) → (f w).1.db ≡ w.db)
      → DbTriple P (call e f) (λ _. P) P
  unfolding call
  Db-elsewhere {P} e f same = record { at = λ w h. go (next w.link) w h }
    where
      go :
          (o : Outcome) (w : World R H)
          → P w.db
          → Post
              (λ (_ : A). P)
              P
              (deliver e o f (record w { link = after w.link })).0
              (deliver e o f (record w { link = after w.link })).1.db
      go answered w h = subst P (sym (same (record w { link = after w.link }))) h
      go dropped w h = h
      go lost w h = subst P (sym (same (record w { link = after w.link }))) h

  -- A statement that found a row goes on, and any other answer is an error.
  pub Db-query :
      {P E : Db → Type 0} {Q : A → Db → Type 0} (v : Variable) (f : Db → Reply A × Db)
      → ((d : Db) → P d → (a : A) → (f d).0 ≡ row a → Q a (f d).1)
      → ((d : Db) → P d → E d)
      → ((d : Db) → P d → E (f d).1)
      → DbTriple P (query v f) Q E
  unfolding query call
  Db-query {P} {E} {Q} v f found stays runs = record { at = λ w h. go (next w.link) w h }
    where
      scanned : (y : Reply A) (d : Db) → P d → (f d).0 ≡ y → Post Q E (scan_error v y) (f d).1
      scanned (row a) d h q = found d h a q
      scanned no_rows d h q = runs d h
      scanned refused d h q = runs d h

      go :
          (o : Outcome) (w : World R H)
          → P w.db
          → let x = record w { link = after w.link } in
            let y = deliver query_failed o (on_db f) x in
            Post Q E
              (proceed y.0 (λ r. lift (scan_error v r)) y.1).0
              (proceed y.0 (λ r. lift (scan_error v r)) y.1).1.db
      go answered w h = scanned (f w.db).0 w.db h refl
      go dropped w h = stays w.db h
      go lost w h = runs w.db h

  pub Db-lift :
      {P E : Db → Type 0} (x : Result A)
      → ((d : Db) → P d → E d)
      → DbTriple P (lift x) (λ a d. P d × (x ≡ ok a)) E
  Db-lift (ok a) weak = record { at = λ w h. (h, refl) }
  Db-lift (err e) weak = record { at = λ w h. weak w.db h }
  Db-lift (panic t) weak = record { at = λ w h. weak w.db h }

  pub Db-return :
      {P E : Db → Type 0} {Q : A → Db → Type 0} (a : A)
      → ((d : Db) → P d → Q a d)
      → DbTriple P (return a) Q E
  Db-return a h = record { at = λ w p. h w.db p }

  pub Db-given :
      {P E : Db → Type 0} {Q : A → Db → Type 0} {m : Action (World R H) A} {F : Type 0}
      → (F → DbTriple P m Q E)
      → DbTriple (λ d. P d × F) m Q E
  Db-given t = record { at = λ w h. (t h.1).at w h.0 }

  pub Db-conseq :
      {P P' E E' : Db → Type 0} {Q Q' : A → Db → Type 0} {m : Action (World R H) A}
      → ((d : Db) → P' d → P d)
      → ((a : A) (d : Db) → Q a d → Q' a d)
      → ((d : Db) → E d → E' d)
      → DbTriple P m Q E
      → DbTriple P' m Q' E'
  Db-conseq {E} {E'} {Q} {Q'} {m} pre post bad t = record {
    at = λ w h. go (m w).0 (m w).1.db (t.at w (pre w.db h));
  }
    where
      go : (r : Result A) (d : Db) → Post Q E r d → Post Q' E' r d
      go (ok a) d h = post a d h
      go (err e) d h = bad d h
      go (panic x) d h = bad d h

  -- A call that nothing reaches.
  pub Db-unreached :
      {P E : Db → Type 0} {Q : A → Db → Type 0} {m : Action (World R H) A}
      → ((d : Db) → P d → ⊥)
      → DbTriple P m Q E
  Db-unreached never = record { at = λ w h. absurd (never w.db h) }

  pub Db-fail : {P : Db → Type 0} {Q : A → Db → Type 0} (e : Error) → DbTriple P (fail e) Q P
  Db-fail e = record { at = λ w h. h }

  -- What a triple says of a run that came back with a value.
  pub Db-ok :
      {P E : Db → Type 0} {Q : A → Db → Type 0} {m : Action (World R H) A}
      → DbTriple P m Q E
      → (w : World R H) (a : A) → P w.db
      → (m w).0 ≡ ok a
      → Q a (m w).1.db
  Db-ok {E} {Q} {m} t w a h done = subst (λ r. Post Q E r (m w).1.db) done (t.at w h)

  -- Where no value comes back, there is none.
  pub Db-refused :
      {P E : Db → Type 0} {m : Action (World R H) A}
      → DbTriple P m (λ _ _. ⊥) E
      → (w : World R H) (a : A) → P w.db
      → (m w).0 ≢ ok a
  Db-refused {m} t w a h done = Db-ok t w a h done

module _ {R H A : Type 0} where
  -- A dropped error is as good as a value; a panic is not caught.
  pub Db-ignore :
      {P E : Db → Type 0} {m : Action (World R H) A}
      → DbTriple P m (λ _. E) E
      → DbTriple P (ignore_error m) (λ _. E) E
  Db-ignore {E} {m} t = record { at = λ w h. go (m w).0 (m w).1.db (t.at w h) }
    where
      go : (r : Result A) (d : Db) → Post (λ _. E) E r d → Post (λ _. E) E (forget r) d
      go (ok a) d h = h
      go (err e) d h = h
      go (panic x) d h = h

  -- An error's value becomes the answer.
  pub Db-attempt :
      {P E : Db → Type 0} {m : Action (World R H) A}
      → DbTriple P m (λ _. E) E
      → DbTriple P (attempt m) (λ _. E) E
  Db-attempt {E} {m} t = record { at = λ w h. go (m w).0 (m w).1.db (t.at w h) }
    where
      go : (r : Result A) (d : Db) → Post (λ _. E) E r d → Post (λ _. E) E (attempted r) d
      go (ok a) d h = h
      go (err e) d h = h
      go (panic x) d h = h

-- Where no value comes back, what holds of an error holds.
pub Post-none : {A : Type 0} (E : Db → Type 0) (r : Result A) (d : Db) → Post (λ _ _. ⊥) E r d → E d
Post-none E (ok a) d h = absurd h
Post-none E (err e) d h = h
Post-none E (panic t) d h = h

module _ {R H A C : Type 0} where
  pub Db-bind :
      {P E : Db → Type 0} {Q : A → Db → Type 0} {T : C → Db → Type 0} {m : Action (World R H) A}
      {f : A → Action (World R H) C}
      → DbTriple P m Q E
      → ((a : A) → DbTriple (Q a) (f a) T E)
      → DbTriple P (m >>= f) T E
  Db-bind {E} {Q} {T} {m} {f} t k = record { at = λ w h. go (m w).0 (m w).1 (t.at w h) }
    where
      go :
          (r : Result A) (w : World R H)
          → Post Q E r w.db
          → Post T E (proceed r f w).0 (proceed r f w).1.db
      go (ok a) w h = (k a).at w h
      go (err e) w h = h
      go (panic x) w h = h
