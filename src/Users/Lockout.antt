-- ===== src/Users/Lockout.antt =====
-- How many guesses `VerifyOTP` of redis_otp.go allows, on a network that answers.
use notification_server.Base.{
  ℕ, String, ◌+◌, ◌*◌, ◌<◌, ◌≤◌, ◌≡◌, ◌≢◌, refl, ◌∙◌, none, some, List, [], ◌∷◌, arith, eq_iff,
  nat_eq, string_eq,
}
use notification_server.Domain.Errors.{Variable, sentinel}
use notification_server.Domain.Action.{err}
use notification_server.Store.Hashes.{Hashes, Value, string, number, lookup_field}
use notification_server.Store.World.{World, call}
use notification_server.Security.Hash.{Crypto, matches, verify_hash}
use notification_server.Users.Otp.{otp_key, verify_otp, check_guess, save_otp}

module _ (S : Hashes) where
  pub saved-get :
      (k f h : String) (t : ℕ) (s : S.State) (v : Value)
      → lookup_field f (("otp", string h) ∷ ("retry_count", number 0) ∷ []) none ≡ some v
      → S.get
          (S.hexpire k t
            ("otp" ∷ "retry_count" ∷ [])
            (S.hset k (("otp", string h) ∷ ("retry_count", number 0) ∷ []) s))
          k
          f
        ≡ some v
  saved-get k f h t s v e =
      rw
        (S.get-hexpire k t ("otp" ∷ "retry_count" ∷ [])
          (S.hset k (("otp", string h) ∷ ("retry_count", number 0) ∷ []) s))
        (ground (
          arith,
          eq_iff k k,
          S.get-hset k (("otp", string h) ∷ ("retry_count", number 0) ∷ []) s k f,
        ))

  pub deleted :
      (email : String) (s : S.State) (f : String)
      → S.get (S.del (otp_key email) s) (otp_key email) f ≡ none
  deleted email s f =
      ground (
        arith,
        S.get-del (otp_key email) s (otp_key email) f,
        eq_iff (otp_key email) (otp_key email),
      )

module _ (S : Hashes) (K : Crypto) {R : Type 0} where
  -- The stored password's hash, and how many guesses were wrong.
  abbrev pub Awaits : String → String → ℕ → World R S.State → Type 0
  Awaits email h n w =
      (w.link ≡ [])
      × (S.get w.otps (otp_key email) "otp" ≡ some (string h))
      × (S.get w.otps (otp_key email) "retry_count" ≡ some (number n))

  -- No password is stored.
  abbrev pub IsAbsent : String → World R S.State → Type 0
  IsAbsent email w = (w.link ≡ []) × ((f : String) → S.get w.otps (otp_key email) f ≡ none)

  check_wrong :
      (email h guess : String) (n : ℕ) (w : World R S.State) (fields : List (String × Value))
      → n < 3
      → lookup_field "otp" fields none ≡ some (string h)
      → lookup_field "retry_count" fields none ≡ some (number n)
      → K.compare_hash_and_password h guess ≢ matches
      → w.link ≡ []
      → check_guess S K email guess fields w ≡ (
        err (sentinel Variable.invalid_otp),
        record w { otps = S.hincrby (otp_key email) "retry_count" 1 w.otps; link = [] },
      )
  unfolding check_guess verify_hash call
  check_wrong email h guess n w [] lt o r bad online = cc
  check_wrong email h guess n w (f ∷ fs) lt o r bad online = ground (arith, online)

  pub wrong_guess :
      (email h guess : String) (n : ℕ) (w : World R S.State)
      → n < 3
      → K.compare_hash_and_password h guess ≢ matches
      → Awaits email h n w
      → ((verify_otp S K email guess w).0 ≡ err (sentinel Variable.invalid_otp))
        × Awaits email h (n + 1) (verify_otp S K email guess w).1
  unfolding verify_otp call
  wrong_guess email h guess n w lt bad (online, otp, tries) = rw (online) (
      rw
        (check_wrong email h guess n (record w { link = [] }) (S.hgetall (otp_key email) w.otps) lt
          (S.get-hgetall (otp_key email) w.otps "otp" ∙ otp)
          (S.get-hgetall (otp_key email) w.otps "retry_count" ∙ tries) bad refl)
        (refl, (refl, counted-otp, counted)))
    where
      counted :
          S.get (S.hincrby (otp_key email) "retry_count" 1 w.otps) (otp_key email) "retry_count"
          ≡ some (number (n + 1))
      counted = ground (
        arith,
        S.get-hincrby (otp_key email) "retry_count" 1 n w.otps (otp_key email) "retry_count" tries,
        eq_iff (otp_key email) (otp_key email),
      )

      counted-otp :
          S.get (S.hincrby (otp_key email) "retry_count" 1 w.otps) (otp_key email) "otp"
          ≡ some (string h)
      counted-otp = ground (
        arith,
        S.get-hincrby (otp_key email) "retry_count" 1 n w.otps (otp_key email) "otp" tries,
        eq_iff (otp_key email) (otp_key email),
      )

  check_late :
      (email guess : String) (n : ℕ) (w : World R S.State) (fields : List (String × Value))
      → 3 ≤ n
      → lookup_field "retry_count" fields none ≡ some (number n)
      → w.link ≡ []
      → check_guess S K email guess fields w ≡ (
        err (sentinel Variable.too_many_attempts),
        record w { otps = S.del (otp_key email) w.otps; link = [] },
      )
  unfolding check_guess verify_hash call
  check_late email guess n w [] late r online = cc
  check_late email guess n w (f ∷ fs) late r online = ground (arith, online)

  pub late_guess :
      (email h guess : String) (n : ℕ) (w : World R S.State)
      → 3 ≤ n
      → Awaits email h n w
      → ((verify_otp S K email guess w).0 ≡ err (sentinel Variable.too_many_attempts))
        × IsAbsent email (verify_otp S K email guess w).1
  unfolding verify_otp call
  late_guess email h guess n w late (online, otp, tries) = rw online (
      rw
        (check_late email guess n (record w { link = [] }) (S.hgetall (otp_key email) w.otps) late
          (S.get-hgetall (otp_key email) w.otps "retry_count" ∙ tries) refl)
        (refl, (refl, deleted S email w.otps)))

  pub save_otp-Awaits :
      (email h : String) (minutes : ℕ) (w : World R S.State)
      → w.link ≡ []
      → Awaits email h 0 (save_otp S K email h minutes w).1
  unfolding save_otp call
  save_otp-Awaits email h minutes w online = rw online (
    refl,
    saved-get S (otp_key email) "otp" h (minutes * 60) w.otps (string h) refl,
    saved-get S (otp_key email) "retry_count" h (minutes * 60) w.otps (number 0) refl,
  )

  -- After a one-time password was saved, three wrong guesses lock it: the fourth guess is refused as
  -- one too many, also where it is right, and the password is gone. The network answers every
  -- command here.
  locked_after_three :
      (email h a b c guess : String) (minutes : ℕ) (w : World R S.State)
      → w.link ≡ []
      → K.compare_hash_and_password h a ≢ matches
      → K.compare_hash_and_password h b ≢ matches
      → K.compare_hash_and_password h c ≢ matches
      → let verify = verify_otp S K {R = R} email in
        let x = (verify c (verify b (verify a (save_otp S K email h minutes w).1).1).1).1 in
        ((verify guess x).0 ≡ err (sentinel Variable.too_many_attempts))
        × ((f : String) → S.get (verify guess x).1.otps (otp_key email) f ≡ none)
  locked_after_three email h a b c guess minutes w online p q r =
      let start = save_otp-Awaits email h minutes w online in
      let one =
        (wrong_guess email h a 0 (save_otp S K email h minutes w).1 (omega arith) p start).1 in
      let two = (wrong_guess email h b 1 _ (omega arith) q one).1 in
      let (answer, gone) =
        late_guess email h guess 3 _ (omega arith)
          (wrong_guess email h c 2 _ (omega arith) r two).1 in
      (answer, gone.1)
