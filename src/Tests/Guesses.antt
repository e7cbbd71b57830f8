-- ===== src/Tests/Guesses.antt =====
-- The theorems on guesses of a one-time password, applied to concrete inputs.
use notification_server.Base.{◌≡◌, ◌≢◌, All, arith, refl, String, List, [], ◌∷◌}
use notification_server.Users.Attempts.{verify_otp_refines, verify_all, all_guessed, waiting}
use notification_server.Users.Otp.{save_otp, otp_key, check_guess}
use notification_server.Users.Race.{go_on, simultaneous_guesses_unlimited}
use notification_server.Domain.Errors.{sentinel, Variable}
use notification_server.Domain.Action.{ok, err}
use notification_server.Store.World.{World, Outcome, lost}
use notification_server.Store.Hashes.{string, number}
use notification_server.Store.Tables.{empty_db}
use notification_server.Tests.Memory.{Memory}
use notification_server.Tests.Accounts.{with_db}
use notification_server.Tests.Otps.{Cells, otps, crypto}

-- Two wrong guesses, the right one, and one after it was used up.
abbrev guesses : List String
guesses = "41" ∷ "43" ∷ "42" ∷ "42" ∷ []

verify_otp_refines_example :
    (verify_all otps crypto {R = Memory} "bob@x.org" guesses
      (save_otp otps crypto "bob@x.org" "salted:42" 2 (with_db empty_db [])).1).0
    ≡ (all_guessed crypto (waiting "salted:42" 0) guesses).0
verify_otp_refines_example =
    verify_otp_refines otps crypto "bob@x.org" "salted:42" 2 guesses (with_db empty_db []) refl

-- Bob's password is stored.
abbrev stored : List Outcome → World Memory Cells
stored faults = record (with_db empty_db faults) {
  otps =
      otps.hset (otp_key "bob@x.org") (("otp", string "salted:42") ∷ ("retry_count", number 0) ∷ [])
        [];
}

-- Five wrong guesses at once; the network loses one of their answers.
abbrev wrong : List String
wrong = "41" ∷ "43" ∷ "44" ∷ "45" ∷ "46" ∷ []

simultaneous_guesses_unlimited_example :
    let fields = otps.hgetall (otp_key "bob@x.org") (stored (lost ∷ [])).otps in
    let (answers, x) = go_on otps crypto "bob@x.org" fields wrong (stored (lost ∷ [])) in
    All (λ r. r ≢ err (sentinel Variable.too_many_attempts)) answers
    × ((check_guess otps crypto "bob@x.org" "42" fields x).0 ≡ ok tt)
simultaneous_guesses_unlimited_example =
    simultaneous_guesses_unlimited otps crypto "bob@x.org" "salted:42" "42" 0 wrong
      (stored (lost ∷ [])) (omega arith) refl refl refl
