-- ===== src/Users/Promotion.antt =====
-- What `VerifyUser` leaves in the tables, and what `DeleteUser` leaves of a user.
use notification_server.Base.{
  ℕ, String, ◌≡◌, refl, sym, some, none, List, arith, ◌==◌, string_eq, nat_eq, true, [], ◌∷◌,
  Bool-cases, Option-cases, inl, inr, leb,
}
use mathlib.Core.Path.{subst}
use notification_server.Domain.Errors.{Message}
use notification_server.Domain.Action.{Result, ok, err, panic}
use notification_server.Store.Hashes.{Hashes, Value, lookup_field}
use notification_server.Store.Tables.{VerificationRow, Db, row, select, oldest}
use notification_server.Store.World.{World}
use notification_server.Store.Rows.{scanned, select_found, select-delete_where}
use notification_server.Store.DbTriple.{
  DbTriple, Db-query, Db-lift, Db-bind, Db-return, Db-conseq, Db-elsewhere, Db-ok, Db-fail,
  Db-ignore,
}
use notification_server.Security.Hash.{Crypto}
use notification_server.Repository.Stories.{exists}
use notification_server.Repository.Verification.{
  staged_as, known_as, verifies, requested_by, promote, insert_preferences, unstage,
  retrieve_verification_data, persist_user_info, persist_user_preferenes, delete_user_from_staging,
}
use notification_server.Users.Otp.{verify_otp, after_comparison, number_of, check_guess}
use notification_server.Users.Verify.{verify_user}

abbrev pub Known : String → Db → Type 0
Known email d = exists (known_as email) d.users.rows ≡ true

abbrev pub Unstaged : String → Db → Type 0
Unstaged email d =
    (select (staged_as email) d.staging_users.rows ≡ none)
    × (select (verifies email) d.email_verification.rows ≡ none)

promoted :
    (email : String) (d : Db) (a : ℕ × List String)
    → (promote email d).0 ≡ row a
    → Known email (promote email d).1
unfolding promote select
promoted email d a h = elim (Option-cases (select (staged_as email) d.staging_users.rows)) [
  | inl e ↦ absurd (ground arith)
  | inr (r, e) ↦
      let same : (r.email == email) ≡ true =
        select_found (staged_as email) d.staging_users.rows r e in
      ground arith
]

insert_preferences_keeps :
    (id : ℕ) (ps : List String) (d : Db) → (insert_preferences id ps d).1.users ≡ d.users
unfolding insert_preferences
insert_preferences_keeps id ps d = ground arith

unstaged :
    (email : String) (d : Db) (a : ℕ)
    → (unstage email d).0 ≡ row a
    → ((unstage email d).1.users ≡ d.users) × Unstaged email (unstage email d).1
unfolding unstage
unstaged email d a h = elim (Option-cases (select (staged_as email) d.staging_users.rows)) [
  | inl e ↦ absurd (ground arith)
  | inr (r, e) ↦
      rw (unstage, e)
        (
          refl,
          (
            select-delete_where (staged_as email) d.staging_users.rows,
            select-delete_where (verifies email) d.email_verification.rows,
          ),
        )
]

module _ (S : Hashes) (K : Crypto) {R : Type 0} where
  after_comparison-Db :
      (P : Db → Type 0) (email : String) (r : Result (Unit {0}))
      → DbTriple {R = R} P (after_comparison S K email r) (λ _. P) P
  after_comparison-Db P email (ok a) = Db-ignore (Db-elsewhere _ _ (λ w. refl))
  after_comparison-Db P email (err e) =
      Db-bind {Q = λ _. P} (Db-elsewhere _ _ (λ w. refl)) λ _. Db-fail _
  after_comparison-Db P email (panic t) =
      Db-conseq (λ d h. h) (λ a d h. h.0) (λ d h. h) (Db-lift {P = P} (panic t) (λ d h. h))

  check_guess-Db :
      (P : Db → Type 0) (email guess : String) (fields : List (String × Value))
      → DbTriple {R = R} P (check_guess S K email guess fields) (λ _. P) P
  unfolding check_guess
  check_guess-Db P email guess [] = Db-fail _
  check_guess-Db P email guess (f ∷ fields) =
      elim (Bool-cases (leb 3 (number_of (lookup_field "retry_count" (f ∷ fields) none)))) [
        | inl e ↦
            rw e (Db-bind {Q = λ _. P} (Db-ignore (Db-elsewhere _ _ (λ w. refl))) λ _. Db-fail _)
        | inr e ↦ rw e (after_comparison-Db P email _)
      ]

  verify_otp-Db :
      (P : Db → Type 0) (email guess : String)
      → DbTriple {R = R} P (verify_otp S K email guess) (λ _. P) P
  unfolding verify_otp
  verify_otp-Db P email guess =
      Db-bind {Q = λ _. P} (Db-elsewhere _ _ (λ w. refl))
        λ fields. check_guess-Db P email guess fields

  verified :
      (guess request : String) (d : Db)
      → DbTriple {R = R}
          (λ x. x ≡ d)
          (verify_user S K guess request)
          (λ m x.
            (r : VerificationRow) × (oldest (requested_by request) d.email_verification.rows
              ≡ some r)
            × Known r.email x
            × Unstaged r.email x)
          (λ x. Unit {0})
  unfolding verify_user retrieve_verification_data persist_user_info persist_user_preferenes
      delete_user_from_staging
  verified guess request d =
      Db-bind {Q = λ email x. Asked email}
        (Db-bind {Q = λ r x. oldest (requested_by request) d.email_verification.rows ≡ some r}
          (Db-query _ _
            (λ x same r f.
              subst (λ y. oldest (requested_by request) y.email_verification.rows ≡ some r) same
                (scanned _ r f))
            (λ x h. tt) (λ x h. tt))
          λ r. Db-return _ (λ x h. (r, h, refl)))
        λ email.
          Db-bind {Q = λ _ x. Asked email}
            (Db-conseq {Q = λ _ x. Asked email} (λ x h. h) (λ _ x h. h) (λ x h. tt)
              (verify_otp-Db (λ x. Asked email) email guess))
            λ _.
              Db-bind {Q = λ u x. Asked email × Known email x}
                (Db-query _ (promote email) (λ x h u f. (h, promoted email x u f)) (λ x h. tt)
                  (λ x h. tt))
                λ u.
                  Db-bind {Q = λ _ x. Asked email × Known email x}
                    (Db-bind {Q = λ _ x. Asked email × Known email x}
                      (Db-query _ (insert_preferences u.0 u.1)
                        (λ x h i f. (h.0, rw (insert_preferences_keeps u.0 u.1 x) h.1)) (λ x h. tt)
                        (λ x h. tt))
                      λ i. Db-return _ (λ x h. h))
                    λ _.
                      Db-bind {Q = λ _ x. Asked email × Known email x × Unstaged email x}
                        (Db-bind {Q = λ _ x. Asked email × Known email x × Unstaged email x}
                          (Db-query _ (unstage email)
                            (λ x h i f.
                              (h.0, rw (unstaged email x i f).0 h.1, (unstaged email x i f).1))
                            (λ x h. tt) (λ x h. tt))
                          λ i. Db-return _ (λ x h. h))
                        λ _. Db-return _ (λ x h.
                          let (r, asked, same) = h.0 in
                          (
                            r,
                            asked,
                            subst (λ e. Known e x) (sym same) h.1,
                            subst (λ e. Unstaged e x) (sym same) h.2,
                          ))
    where
      Asked : String → Type 0
      Asked email =
          (r : VerificationRow) × (oldest (requested_by request) d.email_verification.rows ≡ some r)
          × (r.email ≡ email)

  -- Where `VerifyUser` succeeds, the oldest row under the request's id names an email that has left the staging table,
  -- with its verification row, for the table of users, whatever the network did.
  pub verify_user_promotes :
      (guess request : String) (m : Message) (w : World R S.State)
      → (verify_user S K guess request w).0 ≡ ok m
      → (r : VerificationRow) × (oldest (requested_by request) w.db.email_verification.rows
          ≡ some r)
        × Known r.email (verify_user S K guess request w).1.db
        × Unstaged r.email (verify_user S K guess request w).1.db
  verify_user_promotes guess request m w done = Db-ok (verified guess request w.db) w m refl done
