-- ===== src/Repository/Verification.antt =====
-- `UserVerificationRepo` of user_postgres.go: the tables staging_users, email_verification and, once
-- the user is verified, users and users_preferences.
use notification_server.Base.{
  ℕ, String, Bool, ◌||◌, not, none, some, List, ◌==◌, nat_eq, string_eq, if◌then◌else◌,
}
use notification_server.Domain.Errors.{Variable}
use notification_server.Domain.Entities.{User}
use notification_server.Domain.Action.{Action, return, ◌>>=◌}
use notification_server.Store.Tables.{
  UserRow, StagingRow, VerificationRow, PreferencesRow, Db, Reply, row, no_rows, refused, select,
  oldest, delete_where, scan, insert, burn, with_rows,
}
use notification_server.Store.World.{World, query}
use notification_server.Repository.Stories.{exists}

abbrev pub staged_as : String → StagingRow → Bool
staged_as email r = r.email == email

abbrev pub known_as : String → UserRow → Bool
known_as email r = r.email == email

abbrev pub verifies : String → VerificationRow → Bool
verifies email r = r.email == email

abbrev pub requested_by : String → VerificationRow → Bool
requested_by reqid r = r.request_id == reqid

-- staging_users.email is UNIQUE
unfoldable pub insert_staging : User → Db → Reply ℕ × Db
insert_staging u d =
    if exists (staged_as u.email) d.staging_users.rows
    then (refused, record d { staging_users = burn d.staging_users })
    else (row d.staging_users.next, record d { staging_users = insert d.staging_users new_row })
  where
    new_row : ℕ → StagingRow
    new_row i = record {
      id = i;
      first_name = u.first_name;
      last_name = u.last_name;
      email = u.email;
      password = u.password;
      preferences = u.preferences;
    }

abbrev user_of : StagingRow → ℕ → UserRow
user_of r i = record {
  id = i;
  first_name = r.first_name;
  last_name = r.last_name;
  email = r.email;
  password = r.password;
}

-- INSERT … SELECT from the staged row; users.email is UNIQUE.
unfoldable pub promote : String → Db → Reply (ℕ × List String) × Db
promote email d = elim (select (staged_as email) d.staging_users.rows) [
  | none ↦ (no_rows, d)
  | some r ↦
      if exists (known_as r.email) d.users.rows
      then (refused, record d { users = burn d.users })
      else (row (d.users.next, r.preferences), record d { users = insert d.users (user_of r) })
]

unfoldable pub insert_preferences : ℕ → List String → Db → Reply ℕ × Db
insert_preferences user_id preferences d =
    if exists (λ (u : UserRow). u.id == user_id) d.users.rows
    then (
      row d.users_preferences.next,
      record d { users_preferences = insert d.users_preferences new_row },
    )
    else (refused, record d { users_preferences = burn d.users_preferences })
  where
    new_row : ℕ → PreferencesRow
    new_row i = record { id = i; user_id = user_id; preferences = preferences }

-- The verification row of the email goes with the staged user (ON DELETE CASCADE).
unfoldable pub unstage : String → Db → Reply ℕ × Db
unstage email d = elim (select (staged_as email) d.staging_users.rows) [
  | none ↦ (no_rows, d)
  | some r ↦ (
    row r.id,
    record d {
      staging_users =
          with_rows d.staging_users (delete_where (staged_as email) d.staging_users.rows);
      email_verification =
          with_rows d.email_verification (delete_where (verifies email) d.email_verification.rows);
    },
  )
]

-- email_verification.email is UNIQUE, and names a staged user.
unfoldable pub insert_verification : String → String → Db → Reply ℕ × Db
insert_verification reqid email d =
    if exists (verifies email) d.email_verification.rows
      || not (exists (staged_as email) d.staging_users.rows)
    then (refused, record d { email_verification = burn d.email_verification })
    else (
      row d.email_verification.next,
      record d { email_verification = insert d.email_verification new_row },
    )
  where
    new_row : ℕ → VerificationRow
    new_row i = record { id = i; request_id = reqid; email = email }

remove_verification : String → Db → Reply ℕ × Db
remove_verification email d = elim (select (verifies email) d.email_verification.rows) [
  | none ↦ (no_rows, d)
  | some r ↦ (
    row r.id,
    record d {
      email_verification =
          with_rows d.email_verification (delete_where (verifies email) d.email_verification.rows);
    },
  )
]

module _ {R H : Type 0} where
  unfoldable pub create_user : User → Action (World R H) (Unit {0})
  unfolding insert_staging
  create_user u = do returned_id ← query Variable.persist_user (insert_staging u); return tt

  unfoldable pub persist_user_info : String → Action (World R H) (ℕ × List String)
  unfolding promote
  persist_user_info email = query Variable.persist_user (promote email)

  unfoldable pub persist_user_preferenes : ℕ → List String → Action (World R H) (Unit {0})
  unfolding insert_preferences
  persist_user_preferenes user_id preferences = do
    returned_id ← query Variable.persist_user (insert_preferences user_id preferences)
    return tt

  unfoldable pub delete_user_from_staging : String → Action (World R H) (Unit {0})
  unfolding unstage
  delete_user_from_staging email = do
    returned_id ← query Variable.email_not_found (unstage email)
    return tt

  unfoldable pub save_verification_data : String → String → Action (World R H) (Unit {0})
  unfolding insert_verification
  save_verification_data reqid email = do
    returned_id ← query Variable.persist_verification (insert_verification reqid email)
    return tt

  -- The query names no order, and an id can stand in several rows: the row is the oldest here.
  unfoldable pub retrieve_verification_data : String → Action (World R H) String
  retrieve_verification_data reqid = do
    r ←
        query Variable.request_id_not_found
          (λ d. (scan (oldest (requested_by reqid) d.email_verification.rows), d))
    return r.email

  unfoldable pub delete_user_verification_data : String → Action (World R H) (Unit {0})
  unfolding remove_verification
  delete_user_verification_data email = do
    returned_id ← query Variable.email_not_found (remove_verification email)
    return tt
