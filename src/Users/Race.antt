-- ===== src/Users/Race.antt =====
-- Calls of `VerifyOTP` of redis_otp.go that run at once: the hash of the one-time password is read and
-- the guesses are counted by commands of their own, so several calls may read before any of them
-- counts.
use notification_server.Base.{
  false, ℕ, String, ◌<◌, ◌≡◌, ◌≢◌, refl, ap, sym, ◌∙◌, none, some, List, [], ◌∷◌, All, arith,
}
use notification_server.Domain.Errors.{Variable, sentinel, foreign}
use notification_server.Domain.Action.{Result, ok, err, panic, fail, ignore_error, proceed}
use notification_server.Store.Hashes.{Hashes, Value, string, number, lookup_field}
use notification_server.Store.World.{
  World, Outcome, answered, dropped, lost, call, deliver, next, after, on_otps,
}
use notification_server.Security.Hash.{Crypto, matches, verify_hash}
use notification_server.Users.Otp.{otp_key, check_guess, after_comparison}

module _ (S : Hashes) (K : Crypto) {R : Type 0} where
  -- What the calls answer that go on, one after the other, after all of them read `fields`.
  unfoldable pub go_on :
      String
      → List (String × Value)
      → List String
      → World R S.State
      → List (Result (Unit {0})) × World R S.State
  go_on email fields [] w = ([], w)
  go_on email fields (g ∷ gs) w =
      let (r, x) = check_guess S K email g fields w in
      let (rs, y) = go_on email fields gs x in (r ∷ rs, y)

  right_guess_accepted :
      (email : String) (w : World R S.State) → (after_comparison S K email (ok tt) w).0 ≡ ok tt
  unfolding call
  right_guess_accepted email w = go (next w.link)
    where
      go :
          (o : Outcome)
          → (ignore_error
              (deliver (foreign "redis") o (on_otps λ s. (tt, S.del (otp_key email) s)))
              (record w { link = after w.link })).0
            ≡ ok tt
      go answered = refl
      go dropped = refl
      go lost = refl

  after_comparison_early :
      (email : String) (r : Result (Unit {0})) (w : World R S.State)
      → (after_comparison S K email r w).0 ≢ err (sentinel Variable.too_many_attempts)
  unfolding call
  after_comparison_early email (ok a) w h = cc (right_guess_accepted email w, h)
  after_comparison_early email (err e) w h = go (next w.link) h
    where
      go :
          (o : Outcome)
          → (proceed
              (deliver
                (sentinel Variable.failed_increment_otp_retry)
                o
                (on_otps λ s. (tt, S.hincrby (otp_key email) "retry_count" 1 s))
                (record w { link = after w.link })).0
              (λ _. fail {A = Unit {0}} (sentinel Variable.invalid_otp))
              (deliver
                (sentinel Variable.failed_increment_otp_retry)
                o
                (on_otps λ s. (tt, S.hincrby (otp_key email) "retry_count" 1 s))
                (record w { link = after w.link })).1).0
            ≢ err (sentinel Variable.too_many_attempts)
      go answered h = cc
      go dropped h = cc
      go lost h = cc
  after_comparison_early email (panic t) w h = cc

  module _ (email h : String) (n : ℕ) (fields : List (String × Value)) (few : n < 3)
      (stored : lookup_field "otp" fields none ≡ some (string h))
      (tries : lookup_field "retry_count" fields none ≡ some (number n)) where
    check_guess_compares :
        (guess : String) (w : World R S.State)
        → check_guess S K email guess fields w
          ≡ after_comparison S K email (verify_hash K h guess false) w
    unfolding check_guess
    check_guess_compares guess w = go fields stored tries
      where
        go :
            (fs : List (String × Value))
            → lookup_field "otp" fs none ≡ some (string h)
            → lookup_field "retry_count" fs none ≡ some (number n)
            → check_guess S K email guess fs w
              ≡ after_comparison S K email (verify_hash K h guess false) w
        go [] o r = cc
        go (f ∷ fs) o r = ground (arith, few, o, r)

    go_on_early :
        (gs : List String) (w : World R S.State)
        → All (λ r. r ≢ err (sentinel Variable.too_many_attempts)) (go_on email fields gs w).0
    unfolding go_on
    go_on_early [] w = tt
    go_on_early (g ∷ gs) w = (
      λ e.
          after_comparison_early email (verify_hash K h g false) w
            (ap (λ x. x.0) (sym (check_guess_compares g w)) ∙ e),
      go_on_early gs (check_guess S K email g fields w).1,
    )

  -- Where a one-time password is stored with fewer than three wrong guesses and any number of calls of
  -- `VerifyOTP` read it before one of them goes on, no call is refused as one too many, however many
  -- guesses are wrong, and a right guess that was read with them is accepted after all of them,
  -- whatever the network does to the commands after the reads.
  pub simultaneous_guesses_unlimited :
      (email h guess : String) (n : ℕ) (guesses : List String) (w : World R S.State)
      → n < 3
      → S.get w.otps (otp_key email) "otp" ≡ some (string h)
      → S.get w.otps (otp_key email) "retry_count" ≡ some (number n)
      → K.compare_hash_and_password h guess ≡ matches
      → let fields = S.hgetall (otp_key email) w.otps in
        let (answers, x) = go_on email fields guesses w in
        All (λ r. r ≢ err (sentinel Variable.too_many_attempts)) answers
        × ((check_guess S K email guess fields x).0 ≡ ok tt)
  unfolding verify_hash
  simultaneous_guesses_unlimited email h guess n guesses w few otp count right =
      let fields = S.hgetall (otp_key email) w.otps in
      let stored = S.get-hgetall (otp_key email) w.otps "otp" ∙ otp in
      let tries = S.get-hgetall (otp_key email) w.otps "retry_count" ∙ count in
      let x = (go_on email fields guesses w).1 in
      (
        go_on_early email h n fields few stored tries guesses w,
        rw (check_guess_compares email h n fields few stored tries guess x, right)
            (right_guess_accepted email x),
      )
