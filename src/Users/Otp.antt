-- ===== src/Users/Otp.antt =====
-- internal/infrastructure/repository/redis/redis_otp.go: the methods of `RedisClient`. Between calls
-- Redis may drop what has expired; a theorem speaks of what is there.
use notification_server.Base.{
  ℕ, String, ◌*◌, false, Option, none, some, List, [], ◌∷◌, leb, if◌then◌else◌,
}
use Prim.Native.String.{◌++◌}
use notification_server.Domain.Errors.{Variable, sentinel, foreign}
use notification_server.Domain.Action.{
  Result, ok, err, panic, Action, fail, lift, ignore_error, ◌>>=◌, ◌>>◌,
}
use notification_server.Store.Hashes.{Hashes, Value, string, number, lookup_field}
use notification_server.Store.World.{World, call, on_otps}
use notification_server.Security.Hash.{Crypto, verify_hash}

-- `fmt.Sprintf("users:otp:%s", email)`
abbrev pub otp_key : String → String
otp_key email = "users:otp:" ++ email

-- A missing key of a Go map reads as the empty text.
abbrev pub text_of : Option Value → String
text_of (some (string t)) = t
text_of _ = ""

-- `tries, _ := strconv.Atoi(…)`: what is no number reads as 0.
abbrev pub number_of : Option Value → ℕ
number_of (some (number n)) = n
number_of _ = 0

module _ (S : Hashes) (K : Crypto) {R : Type 0} where
  unfoldable pub save_otp : String → String → ℕ → Action (World R S.State) (Unit {0})
  save_otp email otp expiration = do
    call (sentinel Variable.persist_otp) (
        on_otps λ s.
          (tt, S.hset (otp_key email) (("otp", string otp) ∷ ("retry_count", number 0) ∷ []) s))
    call (sentinel Variable.persist_otp) (
        on_otps
          λ s. (tt, S.hexpire (otp_key email) (expiration * 60) ("otp" ∷ "retry_count" ∷ []) s))

  -- A guess that was compared: the password is used up, or the guess counted.
  abbrev pub after_comparison : String → Result (Unit {0}) → Action (World R S.State) (Unit {0})
  after_comparison email (ok _) =
      ignore_error (call (foreign "redis") (on_otps λ s. (tt, S.del (otp_key email) s)))
  after_comparison email (err _) = do
    call (sentinel Variable.failed_increment_otp_retry)
        (on_otps λ s. (tt, S.hincrby (otp_key email) "retry_count" 1 s))
    fail (sentinel Variable.invalid_otp)
  after_comparison email (panic t) = lift (panic t)

  -- After the hash was read: the guess is compared unless three were wrong before.
  unfoldable pub check_guess :
      String → String → List (String × Value) → Action (World R S.State) (Unit {0})
  check_guess email sent [] = fail (sentinel Variable.otp_key_not_found)
  check_guess email sent (field ∷ fields) =
      if leb 3 (number_of (lookup_field "retry_count" (field ∷ fields) none))
      then (do
        ignore_error (call (foreign "redis") (on_otps λ s. (tt, S.del (otp_key email) s)))
        fail (sentinel Variable.too_many_attempts))
      else after_comparison email
          (verify_hash K (text_of (lookup_field "otp" (field ∷ fields) none)) sent false)

  unfoldable pub verify_otp : String → String → Action (World R S.State) (Unit {0})
  verify_otp email sent = do
    user_data ←
        call (sentinel Variable.otp_key_not_found) (on_otps λ s. (S.hgetall (otp_key email) s, s))
    check_guess email sent user_data
