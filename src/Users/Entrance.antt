-- ===== src/Users/Entrance.antt =====
-- The verification of a new user's email with the code that was mailed, on a network that answers.
use notification_server.Base.{ℕ, String, ◌≡◌, refl, ◌∙◌, false, string_eq, nat_eq, arith, eq_iff}
use notification_server.Domain.Entities.{User}
use notification_server.Domain.Errors.{text, Variable}
use notification_server.Domain.Action.{ok}
use notification_server.Store.Hashes.{Hashes}
use notification_server.Store.Tables.{Db, oldest, scan}
use notification_server.Store.World.{World, online, call}
use notification_server.Security.Hash.{Crypto, matches, hash, verify_hash}
use notification_server.Repository.Stories.{exists}
use notification_server.Repository.Verification.{
  retrieve_verification_data, requested_by, known_as, persist_user_info, persist_user_preferenes,
  delete_user_from_staging, promote, insert_preferences, unstage,
}
use notification_server.Users.Arrival.{
  query_succeeds, staged, expected, welcomed, preferring, verified, promote_free,
  insert_preferences_new, unstage_succeeds, oldest_alone,
}
use notification_server.Users.Attempts.{check_right}
use notification_server.Users.Lockout.{Awaits}
use notification_server.Users.Otp.{otp_key, verify_otp}
use notification_server.Users.Verify.{verify_user}

module _ (K : Crypto) where
  pub hash_matches :
      (cost salt : ℕ) (p h : String)
      → hash K cost salt p false ≡ ok h
      → K.compare_hash_and_password h p ≡ matches
  unfolding hash
  hash_matches cost salt p h e = K.compare-generate cost salt p h (ground arith)

  pub hash_verifies :
      (cost salt : ℕ) (p h : String)
      → hash K cost salt p false ≡ ok h
      → verify_hash K h p false ≡ ok tt
  unfolding verify_hash
  hash_verifies cost salt p h e = rw (hash_matches cost salt p h e) refl

module _ (S : Hashes) (K : Crypto) {R : Type 0} where
  verify_otp_succeeds :
      (email h guess : String) (w : World R S.State)
      → Awaits S K email h 0 w
      → K.compare_hash_and_password h guess ≡ matches
      → verify_otp S K email guess (online w)
        ≡ (ok tt, online (record w { otps = S.del (otp_key email) w.otps }))
  unfolding verify_otp call
  verify_otp_succeeds email h guess w (link, otp, tries) right =
      rw
        (check_right S K email h guess 0 (online w) (S.hgetall (otp_key email) w.otps) (omega arith)
          (S.get-hgetall (otp_key email) w.otps "otp" ∙ otp)
          (S.get-hgetall (otp_key email) w.otps "retry_count" ∙ tries) right refl)
        refl

module _ {R H : Type 0} (request : String) (u : User) (d : Db) (w : World R H) where
  retrieve_succeeds :
      exists (requested_by request) d.email_verification.rows ≡ false
      → retrieve_verification_data request
          (online (record w { db = expected request u.email (staged u d) }))
        ≡ (ok u.email, online (record w { db = expected request u.email (staged u d) }))
  unfolding retrieve_verification_data
  retrieve_succeeds unused =
      rw
        (query_succeeds Variable.request_id_not_found
          (λ d. (scan (oldest (requested_by request) d.email_verification.rows), d))
          (record w { db = expected request u.email (staged u d) })
          (record { id = d.email_verification.next; request_id = request; email = u.email })
          (expected request u.email (staged u d))
          (rw
            (oldest_alone (requested_by request)
              (record { id = d.email_verification.next; request_id = request; email = u.email })
              d.email_verification.rows unused ((eq_iff request request).1 refl))
            refl))
        refl

  -- The tables while the user is moved from the staged users.
  abbrev moved : Db
  moved = preferring d.users.next u.preferences (welcomed u (expected request u.email (staged u d)))

  promoted_succeeds :
      exists (known_as u.email) d.users.rows ≡ false
      → persist_user_info u.email (online (record w { db = expected request u.email (staged u d) }))
        ≡ (
          ok (d.users.next, u.preferences),
          online (record w { db = welcomed u (expected request u.email (staged u d)) }),
        )
  unfolding persist_user_info
  promoted_succeeds free =
      query_succeeds Variable.persist_user (promote u.email)
        (record w { db = expected request u.email (staged u d) }) (d.users.next, u.preferences)
        (welcomed u (expected request u.email (staged u d))) (promote_free request u d free)

  preferred_succeeds :
      persist_user_preferenes d.users.next u.preferences
        (online (record w { db = welcomed u (expected request u.email (staged u d)) }))
      ≡ (ok tt, online (record w { db = moved }))
  unfolding persist_user_preferenes
  preferred_succeeds =
      rw
        (query_succeeds Variable.persist_user (insert_preferences d.users.next u.preferences)
          (record w { db = welcomed u (expected request u.email (staged u d)) })
          d.users_preferences.next moved
          (insert_preferences_new u (expected request u.email (staged u d))))
        refl

  unstaged_succeeds :
      delete_user_from_staging u.email (online (record w { db = moved }))
      ≡ (ok tt, online (record w { db = verified request u d }))
  unfolding delete_user_from_staging
  unstaged_succeeds =
      rw
        (query_succeeds Variable.email_not_found (unstage u.email) (record w { db = moved })
          d.staging_users.next (verified request u d) (unstage_succeeds request u d))
        refl

module _ (S : Hashes) (K : Crypto) {R : Type 0} (request guess ho : String) (u : User) (d : Db)
    (w : World R S.State) (free : exists (known_as u.email) d.users.rows ≡ false)
    (unused : exists (requested_by request) d.email_verification.rows ≡ false)
    (stored : Awaits S K u.email ho 0
      (online (record w { db = expected request u.email (staged u d) })))
    (right : K.compare_hash_and_password ho guess ≡ matches) where
  abbrev pub entered : World R S.State
  entered = record w { db = verified request u d; otps = S.del (otp_key u.email) w.otps }

  pub verify_user_succeeds :
      verify_user S K guess request
        (online (record w { db = expected request u.email (staged u d) }))
      ≡ (ok (text "You are verified. Welcome 🥰. Lets explore🚀"), online entered)
  unfolding verify_user
  verify_user_succeeds =
      let x = record w { otps = S.del (otp_key u.email) w.otps } in
      rw
        (
          retrieve_succeeds request u d w unused,
          verify_otp_succeeds S K u.email ho guess
              (online (record w { db = expected request u.email (staged u d) })) stored right,
          promoted_succeeds request u d x free,
          preferred_succeeds request u d x,
          unstaged_succeeds request u d x,
        )
        refl
