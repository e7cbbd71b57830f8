-- ===== src/Users/Welcome.antt =====
-- The way of a new user, on a network that answers: registration, verification of the email with the
-- code that was mailed, login.
use notification_server.Base.{
  ℕ, Bool, String, ◌≡◌, refl, ◌*◌, Option, none, some, [], ◌∷◌, List, false, string_eq, nat_eq,
}
use notification_server.Domain.Entities.{User, RegisteredUser}
use notification_server.Domain.Errors.{Variable, sentinel}
use notification_server.Domain.Action.{ok, err}
use notification_server.Store.Hashes.{Hashes, string, number}
use notification_server.Store.Tables.{select}
use notification_server.Store.World.{World, online, call, query, verification}
use notification_server.Security.Hash.{Crypto, hash, generate_otp}
use notification_server.Repository.Stories.{exists}
use notification_server.Repository.Users.{get_user_by_email}
use notification_server.Repository.Verification.{
  create_user, save_verification_data, known_as, insert_staging, insert_verification,
}
use notification_server.Users.Arrival.{
  query_succeeds, IsFree, staged, expected, insert_staging_free, insert_verification_free,
}
use notification_server.Users.Otp.{save_otp, otp_key}
use notification_server.Users.Register.{
  Draws, register_user, register_new, deliver_otp, send_verification_email, registered,
}

none_of : {A : Type 0} (p : A → Bool) (xs : List A) → exists p xs ≡ false → select p xs ≡ none
none_of {A} p xs h = go (select p xs) refl
  where
    go : (o : Option A) → select p xs ≡ o → select p xs ≡ none
    go none e = e
    go (some a) e = absurd (cc (e, h))

module _ {R H : Type 0} where
  unknown :
      (email : String) (w : World R H)
      → exists (known_as email) w.db.users.rows ≡ false
      → get_user_by_email email (online w) ≡ (err (sentinel Variable.email_not_found), online w)
  unfolding get_user_by_email query call
  unknown email w free = rw (none_of (known_as email) w.db.users.rows free) refl

  create_user_succeeds :
      (u : User) (w : World R H)
      → IsFree u.email w.db
      → create_user u (online w) ≡ (ok tt, online (record w { db = staged u w.db }))
  unfolding create_user
  create_user_succeeds u w free =
      rw
        (query_succeeds Variable.persist_user (insert_staging u) w w.db.staging_users.next
          (staged u w.db) (insert_staging_free u w.db free.1))
        refl

  save_verification_data_succeeds :
      (request : String) (u : User) (w : World R H)
      → IsFree u.email w.db
      → save_verification_data request u.email (online (record w { db = staged u w.db }))
        ≡ (ok tt, online (record w { db = expected request u.email (staged u w.db) }))
  unfolding save_verification_data
  save_verification_data_succeeds request u w free =
      rw
        (query_succeeds Variable.persist_verification (insert_verification request u.email)
          (record w { db = staged u w.db }) w.db.email_verification.next
          (expected request u.email (staged u w.db))
          (insert_verification_free request u w.db free.2))
        refl

module _ (S : Hashes) where
  -- The hash of a one-time password that was saved.
  abbrev pub saved : String → String → ℕ → S.State → S.State
  saved email h minutes s =
      S.hexpire (otp_key email) (minutes * 60) ("otp" ∷ "retry_count" ∷ [])
        (S.hset (otp_key email) (("otp", string h) ∷ ("retry_count", number 0) ∷ []) s)

module _ (S : Hashes) (K : Crypto) {R : Type 0} where
  deliver_otp_succeeds :
      (email otp h : String) (minutes : ℕ) (w : World R S.State)
      → deliver_otp S K email otp h minutes (online w) ≡ (
        ok (some registered),
        online (record w {
          otps = saved S email h minutes w.otps;
          mails = verification email otp ∷ w.mails;
        }),
      )
  unfolding deliver_otp save_otp send_verification_email call
  deliver_otp_succeeds email otp h minutes w = refl

-- The user that is staged.
abbrev pub newcomer : RegisteredUser → String → User
newcomer req h = record {
  id = 0;
  first_name = req.first_name;
  last_name = req.last_name;
  email = req.email;
  password = h;
  preferences = req.preferences;
}

module _ (S : Hashes) (K : Crypto) {R : Type 0} (g : Draws) (request : String)
    (req : RegisteredUser) (minutes : ℕ) (h otp ho : String) (w : World R S.State)
    (free : IsFree req.email w.db)
    (hashed : hash K g.cost g.password_salt req.password false ≡ ok h)
    (drawn : generate_otp g.draw g.decimal g.otp_length ≡ ok otp)
    (hidden : hash K g.cost g.otp_salt otp false ≡ ok ho) where
  abbrev pub waits : World R S.State
  waits = record w {
    db = expected request req.email (staged (newcomer req h) w.db);
    otps = saved S req.email ho minutes w.otps;
    mails = verification req.email otp ∷ w.mails;
  }

  pub register_user_succeeds :
      register_user S K g request req minutes (online w) ≡ (ok (some registered), online waits)
  unfolding register_user register_new
  register_user_succeeds =
      rw
        (
          unknown req.email w free.0,
          hashed,
          create_user_succeeds (newcomer req h) w free,
          save_verification_data_succeeds request (newcomer req h) w free,
          drawn,
          hidden,
        )
        (deliver_otp_succeeds S K req.email otp ho minutes
          (record w { db = expected request req.email (staged (newcomer req h) w.db) }))
