-- ===== src/Security/Hash.antt =====
-- internal/infrastructure/security/hash_password.go and otp.go. bcrypt, SHA-256 and the random source
-- are parameters.
use notification_server.Base.{ℕ, String, ◌≡◌, ◌^◌, Bool, Option, none, some, if◌then◌else◌}
use notification_server.Domain.Errors.{Code, text, new_domain_error}
use notification_server.Domain.Action.{Result, ok, err}

pub data Comparison : Type 0 where
  matches mismatch malformed : Comparison

pub record Crypto : Type 0 where
  -- cost, salt, data; `none` is an error, as for data that is too long
  pub generate_from_password : ℕ → ℕ → String → Option String
  pub compare_hash_and_password : String → String → Comparison
  pub sum256 : String → String
  -- a hash that bcrypt made of some data matches that data
  pub compare-generate :
      (cost salt : ℕ) (p h : String)
      → generate_from_password cost salt p ≡ some h
      → compare_hash_and_password h p ≡ matches

module _ (K : Crypto) where
  abbrev pub prepared : String → Bool → String
  prepared plaintext pre_hash = if pre_hash then K.sum256 plaintext else plaintext

  abbrev hashed : Option String → Result String
  hashed none = err (new_domain_error Code.internal (text "failed to hash") (some "bcrypt"))
  hashed (some h) = ok h

  -- `Hash` of a `Hasher` with that cost; `salt` is the randomness of the call.
  unfoldable pub hash : ℕ → ℕ → String → Bool → Result String
  hash cost salt plaintext pre_hash =
      hashed (K.generate_from_password cost salt (prepared plaintext pre_hash))

  abbrev compared : Comparison → Result (Unit {0})
  compared matches = ok tt
  compared mismatch =
      err (new_domain_error Code.unauthorized (text "invalid credentials") (some "mismatch"))
  compared malformed =
      err (new_domain_error Code.validation (text "invalid credentials") (some "bcrypt"))

  unfoldable pub verify_hash : String → String → Bool → Result (Unit {0})
  verify_hash hashed_text plaintext pre_hash =
      compared (K.compare_hash_and_password hashed_text (prepared plaintext pre_hash))

-- `GenerateOTP`: a number below 10 ^ length, in decimal with no leading zeros. `draw` is
-- `rand.Int`, with `none` for an error of the random source, and `decimal` is `big.Int.String`.
unfoldable pub generate_otp : (ℕ → Option ℕ) → (ℕ → String) → ℕ → Result String
generate_otp draw decimal length = elim (draw (10 ^ length)) [
  | none ↦ err (new_domain_error Code.internal (text "failed to generate opt code") (some "rand"))
  | some n ↦ ok (decimal n)
]
