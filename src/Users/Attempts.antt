-- ===== src/Users/Attempts.antt =====
-- What `SaveOTP` and `VerifyOTP` of redis_otp.go promise together: a password that waits for its
-- guess, with the number of wrong ones, and no more. The network answers, and nothing expires.
use notification_server.Base.{
  eq_iff, string_eq, nat_eq, ℕ, ◌+◌, String, ◌≡◌, refl, ◌∙◌, none, some, List, [], ◌∷◌, arith, leb,
  Bool-cases, inl, inr, if◌then◌else◌, ◌<◌,
}
use notification_server.Domain.Errors.{Variable, sentinel}
use notification_server.Domain.Action.{Result, ok, err}
use notification_server.Store.Hashes.{Hashes, Value, string, number, lookup_field}
use notification_server.Store.World.{World, call}
use notification_server.Security.Hash.{
  Crypto, Comparison, matches, mismatch, malformed, verify_hash,
}
use notification_server.Users.Otp.{otp_key, verify_otp, check_guess, save_otp}
use notification_server.Users.Lockout.{
  Awaits, IsAbsent, wrong_guess, late_guess, save_otp-Awaits, deleted,
}

-- The abstract state: the hash of the password and how many guesses were wrong.
pub data Password : Type 0 where
  absent : Password
  waiting : (h : String) (wrong : ℕ) → Password

abbrev pub invalid : Result (Unit {0})
invalid = err (sentinel Variable.invalid_otp)

module _ (K : Crypto) where
  abbrev pub compared_guess : Comparison → String → ℕ → Result (Unit {0}) × Password
  compared_guess matches h n = (ok tt, absent)
  compared_guess mismatch h n = (invalid, waiting h (n + 1))
  compared_guess malformed h n = (invalid, waiting h (n + 1))

  -- One guess.
  abbrev pub guessed : Password → String → Result (Unit {0}) × Password
  guessed absent g = (err (sentinel Variable.otp_key_not_found), absent)
  guessed (waiting h n) g =
      if leb 3 n
      then (err (sentinel Variable.too_many_attempts), absent)
      else compared_guess (K.compare_hash_and_password h g) h n

  -- The answers to some guesses, and what is left.
  abbrev pub all_guessed : Password → List String → List (Result (Unit {0})) × Password
  all_guessed o [] = ([], o)
  all_guessed o (g ∷ gs) =
      let (r, o') = guessed o g in let (rs, o'') = all_guessed o' gs in (r ∷ rs, o'')

empty_fields :
    (fields : List (String × Value))
    → ((f : String) → lookup_field f fields none ≡ none)
    → fields ≡ []
empty_fields [] h = refl
empty_fields ((g, v) ∷ rest) h = absurd (found (h g))
  where
    found : lookup_field g ((g, v) ∷ rest) none ≡ none → ⊥
    found e = ground (arith, eq_iff g g)

module _ (S : Hashes) (K : Crypto) {R : Type 0} where
  -- The same guesses, one call of `VerifyOTP` after the other.
  unfoldable pub verify_all :
      String → List String → World R S.State → List (Result (Unit {0})) × World R S.State
  verify_all email [] w = ([], w)
  verify_all email (g ∷ gs) w =
      let (r, w') = verify_otp S K email g w in
      let (rs, w'') = verify_all email gs w' in (r ∷ rs, w'')

  abbrev pub Represents : String → World R S.State → Password → Type 0
  Represents email w absent = IsAbsent S K email w
  Represents email w (waiting h n) = Awaits S K email h n w

  abbrev Simulates :
      String
      → World R S.State
      → Result (Unit {0}) × World R S.State
      → Result (Unit {0}) × Password
      → Type 0
  Simulates email w x y = (x.0 ≡ y.0) × Represents email x.1 y.1

  absent_guess :
      (email g : String) (w : World R S.State)
      → IsAbsent S K email w
      → Simulates email w (verify_otp S K email g w) (guessed K absent g)
  unfolding verify_otp check_guess call
  absent_guess email g w (online, gone) =
      rw
        (
          online,
          empty_fields (S.hgetall (otp_key email) w.otps)
              (λ f. S.get-hgetall (otp_key email) w.otps f ∙ gone f),
        )
        (refl, (refl, gone))

  pub check_right :
      (email h guess : String) (n : ℕ) (w : World R S.State) (fields : List (String × Value))
      → n < 3
      → lookup_field "otp" fields none ≡ some (string h)
      → lookup_field "retry_count" fields none ≡ some (number n)
      → K.compare_hash_and_password h guess ≡ matches
      → w.link ≡ []
      → check_guess S K email guess fields w
        ≡ (ok tt, record w { otps = S.del (otp_key email) w.otps; link = [] })
  unfolding check_guess verify_hash call
  check_right email h guess n w [] lt o r good online = cc
  check_right email h guess n w (f ∷ fs) lt o r good online = ground (arith, online)

  right_guess :
      (email h g : String) (n : ℕ) (w : World R S.State)
      → n < 3
      → K.compare_hash_and_password h g ≡ matches
      → Awaits S K email h n w
      → ((verify_otp S K email g w).0 ≡ ok tt) × IsAbsent S K email (verify_otp S K email g w).1
  unfolding verify_otp call
  right_guess email h g n w few same (online, otp, tries) = rw online (
      rw
        (check_right email h g n (record w { link = [] }) (S.hgetall (otp_key email) w.otps) few
          (S.get-hgetall (otp_key email) w.otps "otp" ∙ otp)
          (S.get-hgetall (otp_key email) w.otps "retry_count" ∙ tries) same refl)
        (refl, (refl, deleted S email w.otps)))

  waiting_guess :
      (email h g : String) (n : ℕ) (w : World R S.State)
      → Awaits S K email h n w
      → Simulates email w (verify_otp S K email g w) (guessed K (waiting h n) g)
  waiting_guess email h g n w waits = elim (Bool-cases (leb 3 n)) [
    | inl late ↦ rw late (late_guess S K email h g n w (ground arith) waits)
    | inr few ↦ rw few (by_comparison (K.compare_hash_and_password h g) refl (ground arith))
  ]
    where
      by_comparison :
          (c : Comparison)
          → K.compare_hash_and_password h g ≡ c
          → n < 3
          → Simulates email w (verify_otp S K email g w) (compared_guess K c h n)
      by_comparison matches e few = right_guess email h g n w few e waits
      by_comparison mismatch e few = wrong_guess S K email h g n w few (λ m. cc (e, m)) waits
      by_comparison malformed e few = wrong_guess S K email h g n w few (λ m. cc (e, m)) waits

  simulated :
      (email g : String) (w : World R S.State) (o : Password)
      → Represents email w o
      → Simulates email w (verify_otp S K email g w) (guessed K o g)
  simulated email g w absent h = absent_guess email g w h
  simulated email g w (waiting h n) x = waiting_guess email h g n w x

  all_simulated :
      (email : String) (gs : List String) (w : World R S.State) (o : Password)
      → Represents email w o
      → ((verify_all email gs w).0 ≡ (all_guessed K o gs).0)
        × Represents email (verify_all email gs w).1 (all_guessed K o gs).1
  unfolding verify_all
  all_simulated email [] w o x = (refl, x)
  all_simulated email (g ∷ gs) w o x =
      let (same, y) = simulated email g w o x in
      let (rest, z) = all_simulated email gs (verify_otp S K email g w).1 (guessed K o g).1 y in
      (cc (same, rest), z)

  -- Once a one-time password is saved, on a network that answers and before it expires, any guesses
  -- get the answers of the abstract password: up to three wrong ones are told that they are wrong, a
  -- right one uses the password up, and a guess after three wrong ones removes it.
  pub verify_otp_refines :
      (email h : String) (minutes : ℕ) (gs : List String) (w : World R S.State)
      → w.link ≡ []
      → (verify_all email gs (save_otp S K email h minutes w).1).0
        ≡ (all_guessed K (waiting h 0) gs).0
  verify_otp_refines email h minutes gs w online =
      (all_simulated email gs (save_otp S K email h minutes w).1 (waiting h 0)
        (save_otp-Awaits S K email h minutes w online)).0
