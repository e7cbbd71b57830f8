-- ===== src/Domain/Action.antt =====
-- What a Go call gives back: a value, an error, or a panic that unwinds to the next `recover`. An
-- action also carries the state, and what it wrote before an error or a panic stays written.
use notification_server.Base.{String}
use notification_server.Domain.Errors.{Error}

pub data Result {ℓ} (A : Type ℓ) : Type ℓ where
  ok : A → Result A
  err : Error → Result A
  panic : String → Result A

abbrev pub Action {ℓ} : Type ℓ → Type ℓ → Type ℓ
Action S A = S → Result A × S

module _ {ℓ} {S A : Type ℓ} where
  abbrev pub return : A → Action S A
  return a s = (ok a, s)

  abbrev pub fail : Error → Action S A
  fail e s = (err e, s)

  -- A pure call inside an action.
  abbrev pub lift : Result A → Action S A
  lift r s = (r, s)

-- `_ = call()`: the error is dropped, and a panic still unwinds.
abbrev pub forget {ℓ} : {A : Type ℓ} → Result A → Result (Unit {ℓ})
forget (ok a) = ok tt
forget (err e) = ok tt
forget (panic t) = panic t

abbrev pub ignore_error {ℓ} : {S A : Type ℓ} → Action S A → Action S (Unit {ℓ})
ignore_error m s = let (r, s') = m s in (forget r, s')

module _ {ℓ} {S A B : Type ℓ} where
  -- `if err != nil { return err }` after a call: go on from a value only.
  abbrev pub proceed : Result A → (A → Action S B) → Action S B
  proceed (ok a) f s = f a s
  proceed (err e) f s = (err e, s)
  proceed (panic t) f s = (panic t, s)

  infixl 10 ◌>>=◌ ◌>>◌
  abbrev pub ◌>>=◌ : Action S A → (A → Action S B) → Action S B
  ◌>>=◌ m f s = let (r, s') = m s in proceed r f s'

  abbrev pub ◌>>◌ : Action S A → Action S B → Action S B
  m >> n = m >>= λ _. n
