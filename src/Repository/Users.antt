-- ===== src/Repository/Users.antt =====
-- `UserRepo` of user_postgres.go: the tables users and users_preferences.
use notification_server.Base.{ℕ, String, Bool, ◌&&◌, none, some, List, [], ◌==◌, nat_eq, string_eq}
use notification_server.Domain.Errors.{Variable}
use notification_server.Domain.Entities.{User, Preferences}
use notification_server.Domain.Action.{Action, return, ◌>>=◌}
use notification_server.Store.Tables.{
  UserRow, PreferencesRow, StoryRow, StoryJobRow, EmailJobRow, TokenRow, Db, Reply, select,
  delete_where, scan, with_rows, row, no_rows,
}
use notification_server.Store.World.{World, query}

-- The stories of a user, whose jobs go with them.
abbrev pub of_user : ℕ → List StoryRow → ℕ → Bool
of_user id stories story_id =
    elim (select (λ (s : StoryRow). s.id == story_id && s.user_id == id) stories) [
      | none ↦ Bool.false
      | some _ ↦ Bool.true
    ]

-- `ON DELETE CASCADE` from users.
unfoldable pub cascade : ℕ → Db → Db
cascade id d = record d {
  users = with_rows d.users (delete_where (λ (u : UserRow). u.id == id) d.users.rows);
  users_preferences =
      with_rows d.users_preferences
        (delete_where (λ (p : PreferencesRow). p.user_id == id) d.users_preferences.rows);
  stories = with_rows d.stories (delete_where (λ (s : StoryRow). s.user_id == id) d.stories.rows);
  story_jobs =
      with_rows d.story_jobs (
        delete_where (λ (j : StoryJobRow). of_user id d.stories.rows j.story_id) d.story_jobs.rows);
  email_jobs = with_rows d.email_jobs (
      delete_where (λ (j : EmailJobRow). j.user_id == id)
        (delete_where (λ (j : EmailJobRow). of_user id d.stories.rows j.story_id)
          d.email_jobs.rows));
  refresh_tokens =
      with_rows d.refresh_tokens
        (delete_where (λ (t : TokenRow). t.user_id == id) d.refresh_tokens.rows);
}

unfoldable pub delete_user_row : ℕ → Db → Reply ℕ × Db
unfolding cascade
delete_user_row id d = elim (select (λ (u : UserRow). u.id == id) d.users.rows) [
  | none ↦ (no_rows, d)
  | some u ↦ (row u.id, cascade id d)
]

-- The columns that the statement does not select keep Go's zero value.
abbrev user_without_password : UserRow → User
user_without_password u = record {
  id = u.id;
  first_name = u.first_name;
  last_name = u.last_name;
  email = u.email;
  password = "";
  preferences = [];
}

module _ {R H : Type 0} where
  unfoldable pub delete_user_by_id : ℕ → Action (World R H) (Unit {0})
  unfolding delete_user_row
  delete_user_by_id id = do
    returned_id ← query Variable.user_not_found (delete_user_row id)
    return tt

  unfoldable pub get_user_by_id : ℕ → Action (World R H) User
  get_user_by_id id = do
    u ←
        query Variable.user_not_found
          (λ d. (scan (select (λ (u : UserRow). u.id == id) d.users.rows), d))
    return (user_without_password u)

  unfoldable pub get_user_preferences_by_id : ℕ → Action (World R H) Preferences
  get_user_preferences_by_id id = do
    p ←
        query Variable.user_not_found (λ d.
          (scan (select (λ (p : PreferencesRow). p.user_id == id) d.users_preferences.rows), d))
    return (record { id = p.id; user_id = p.user_id; user_preferences = p.preferences })

  unfoldable pub get_user_by_email : String → Action (World R H) User
  get_user_by_email email = do
    u ←
        query Variable.email_not_found
          (λ d. (scan (select (λ (u : UserRow). u.email == email) d.users.rows), d))
    return (record (user_without_password u) { password = u.password })
