-- ===== src/Users/Signup.antt =====
-- What `RegisterUser` of user_service.go leaves behind.
use notification_server.Base.{
  ℕ, String, ◌≡◌, refl, some, none, [], ◌∷◌, arith, nat_eq, string_eq, true, false, Option, eq_iff,
  Bool-cases, inl, inr,
}
use notification_server.Domain.Errors.{Message}
use notification_server.Domain.Entities.{RegisteredUser, User}
use notification_server.Domain.Action.{Action, Result, ok, err, panic, lift}
use notification_server.Store.Hashes.{Hashes}
use notification_server.Store.Tables.{Db, row, select}
use notification_server.Store.World.{World, verification, call, dropped}
use notification_server.Store.DbTriple.{
  DbTriple, Db-query, Db-bind, Db-return, Db-ok, Db-lift, Db-conseq, Db-attempt, Db-elsewhere,
  Db-fail,
}
use notification_server.Store.Triple.{Post}
use notification_server.Repository.Users.{get_user_by_email}
use notification_server.Security.Hash.{Crypto, hash, generate_otp}
use notification_server.Repository.Stories.{exists}
use notification_server.Repository.Verification.{
  staged_as, verifies, create_user, save_verification_data, insert_verification,
}
use notification_server.Users.Otp.{save_otp}
use notification_server.Users.Register.{
  deliver_otp, send_verification_email, register_user, register_new, Draws, check, found,
}

module _ (S : Hashes) (K : Crypto) {R : Type 0} where
  -- Where Redis drops the command that saves the one-time password, the registration answers with
  -- neither a response nor an error, and the email with the password that can never be verified is
  -- sent all the same.
  pub unsaved_password_mailed :
      (email otp hashed : String) (minutes : ℕ) (w : World R S.State)
      → w.link ≡ dropped ∷ []
      → let (r, w') = deliver_otp S K email otp hashed minutes w in
        (r ≡ ok none) × (w'.mails ≡ verification email otp ∷ w.mails) × (w'.otps ≡ w.otps)
  unfolding deliver_otp send_verification_email save_otp call
  unsaved_password_mailed email otp hashed minutes w faults = rw faults (refl, refl, refl)

inserted_verification :
    (request email : String) (d : Db) (a : ℕ)
    → (insert_verification request email d).0 ≡ row a
    → (exists (staged_as email) (insert_verification request email d).1.staging_users.rows ≡ true)
      × (select (verifies email) (insert_verification request email d).1.email_verification.rows
          ≡ some (record { id = a; request_id = request; email = email }))
unfolding insert_verification select
inserted_verification request email d a h = ground (arith, eq_iff email email)

Db-lifted :
    {R H A : Type 0} {P : Db → Type 0} (x : Result A)
    → DbTriple {R = R} {H = H} P (lift x) (λ _. P) (λ d. Unit {0})
Db-lifted {P} x = Db-conseq (λ d h. h) (λ a d h. h.0) (λ d h. tt) (Db-lift {P = P} x (λ d h. h))

Db-check :
    {R H : Type 0} {E : Db → Type 0} {m : Action (World R H) User}
    → DbTriple E m (λ _. E) E
    → DbTriple E (check m) (λ _. E) E
Db-check {R} {H} {E} {m} t = record { at = λ w h. go (m w).0 (m w).1.db (t.at w h) }
  where
    go : (r : Result User) (d : Db) → Post (λ _. E) E r d → Post (λ _. E) E (found r) d
    go (ok a) d h = h
    go (err e) d h = h
    go (panic x) d h = h

-- The email is staged, and its verification row is the request's.
abbrev pub IsStaged : String → String → Db → Type 0
IsStaged request email d =
    (exists (staged_as email) d.staging_users.rows ≡ true)
    × ((i : ℕ) × (select (verifies email) d.email_verification.rows
          ≡ some (record { id = i; request_id = request; email = email })))

module _ (S : Hashes) (K : Crypto) {R : Type 0} where
  save_otp-Db :
      (P : Db → Type 0) (email h : String) (minutes : ℕ)
      → DbTriple {R = R} P (save_otp S K email h minutes) (λ _. P) P
  unfolding save_otp
  save_otp-Db P email h minutes =
      Db-bind {Q = λ _. P} (Db-elsewhere _ _ (λ w. refl)) λ _. Db-elsewhere _ _ (λ w. refl)

  deliver_otp-Db :
      (P : Db → Type 0) (email otp h : String) (minutes : ℕ)
      → DbTriple {R = R} P (deliver_otp S K email otp h minutes) (λ _. P) P
  unfolding deliver_otp send_verification_email
  deliver_otp-Db P email otp h minutes =
      Db-bind {Q = λ _. P} (Db-attempt (save_otp-Db P email h minutes)) λ e.
        Db-bind {Q = λ _. P} (Db-attempt (Db-elsewhere _ _ (λ w. refl))) λ f. Db-return _ (λ d h. h)

  fresh :
      (g : Draws) (request : String) (req : RegisteredUser) (minutes : ℕ)
      → DbTriple {R = R}
          (λ d. Unit {0})
          (register_new S K g request req minutes)
          (λ o. IsStaged request req.email)
          (λ d. Unit {0})
  unfolding register_new create_user save_verification_data
  fresh g request req minutes =
      Db-bind (Db-lifted {P = λ d. Unit {0}} (hash K g.cost g.password_salt req.password false))
        λ hashed.
          Db-bind {Q = λ _ d. Unit {0}}
            (Db-bind {Q = λ _ d. Unit {0}} (Db-query _ _ (λ d h a f. tt) (λ d h. tt) (λ d h. tt))
              λ i. Db-return _ (λ d h. tt))
            λ _.
              Db-bind {Q = λ _. IsStaged request req.email}
                (Db-bind {Q = λ _. IsStaged request req.email}
                  (Db-query _ (insert_verification request req.email)
                    (λ d h a f.
                      let (s, v) = inserted_verification request req.email d a f in (s, (a, v)))
                    (λ d h. tt) (λ d h. tt))
                  λ i. Db-return _ (λ d h. h))
                λ _.
                  Db-bind
                    (Db-lifted {P = IsStaged request req.email}
                      (generate_otp g.draw g.decimal g.otp_length))
                    λ otp.
                      Db-bind
                        (Db-lifted {P = IsStaged request req.email}
                          (hash K g.cost g.otp_salt otp false))
                        λ hashed_otp.
                          Db-conseq {Q = λ _. IsStaged request req.email} (λ d h. h) (λ a d h. h)
                            (λ d h. tt)
                            (deliver_otp-Db (IsStaged request req.email) req.email otp hashed_otp
                              minutes)

  staged :
      (g : Draws) (request : String) (req : RegisteredUser) (minutes : ℕ)
      → DbTriple {R = R}
          (λ d. Unit {0})
          (register_user S K g request req minutes)
          (λ o. IsStaged request req.email)
          (λ d. Unit {0})
  unfolding register_user register_new create_user save_verification_data get_user_by_email
  staged g request req minutes =
      Db-bind {Q = λ b d. Unit {0}}
        (Db-check (
          Db-bind {Q = λ u d. Unit {0}} (Db-query _ _ (λ d h a f. tt) (λ d h. tt) (λ d h. tt))
            λ u. Db-return _ (λ d h. tt)))
        λ b. elim (Bool-cases b) [
          | inl e ↦ rw e (Db-fail _)
          | inr e ↦ rw e (fresh g request req minutes)
        ]

  -- Where a registration ends without an error, also where its response is nil, the email is staged
  -- and its verification row carries the id of the request, whatever the network did.
  pub register_user-IsStaged :
      (g : Draws) (request : String) (req : RegisteredUser) (minutes : ℕ) (o : Option Message)
      (w : World R S.State)
      → (register_user S K g request req minutes w).0 ≡ ok o
      → IsStaged request req.email (register_user S K g request req minutes w).1.db
  register_user-IsStaged g request req minutes o w done =
      Db-ok (staged g request req minutes) w o tt done
