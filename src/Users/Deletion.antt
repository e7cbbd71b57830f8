-- ===== src/Users/Deletion.antt =====
-- What `DeleteUser` leaves of a user, and what becomes of their refresh token.
use notification_server.Base.{
  ℕ, String, ◌≡◌, refl, none, arith, ◌==◌, nat_eq, Option-cases, inl, inr, ◌⊎◌,
}
use notification_server.Domain.Errors.{Message}
use notification_server.Domain.Entities.{IdentityToken}
use notification_server.Domain.Action.{ok, panic}
use notification_server.Store.Tables.{UserRow, PreferencesRow, StoryRow, TokenRow, Db, row, select}
use notification_server.Store.World.{World, Outcome, answered, dropped, lost, call, query, next}
use notification_server.Store.Rows.{select-delete_where}
use notification_server.Store.DbTriple.{Db-query, Db-bind, Db-return, Db-ok}
use notification_server.Security.Hash.{Crypto}
use notification_server.Security.Jwt.{Jwt, JwtAuth, verify_refresh_token}
use notification_server.Repository.Users.{
  delete_user_by_id, delete_user_row, cascade, get_user_by_id,
}
use notification_server.Users.Verify.{delete_user}
use notification_server.Users.Session.{refresh_jwt_token}

-- No row of the user in the tables users, users_preferences, stories and refresh_tokens.
abbrev pub Gone : ℕ → Db → Type 0
Gone id d =
    (select (λ (u : UserRow). u.id == id) d.users.rows ≡ none)
    × (select (λ (p : PreferencesRow). p.user_id == id) d.users_preferences.rows ≡ none)
    × (select (λ (s : StoryRow). s.user_id == id) d.stories.rows ≡ none)
    × (select (λ (t : TokenRow). t.user_id == id) d.refresh_tokens.rows ≡ none)

removed :
    (id : ℕ) (d : Db) (a : ℕ) → (delete_user_row id d).0 ≡ row a → Gone id (delete_user_row id d).1
unfolding delete_user_row cascade
removed id d a h = elim (Option-cases (select (λ (u : UserRow). u.id == id) d.users.rows)) [
  | inl e ↦ absurd (ground arith)
  | inr (u, e) ↦
      rw (delete_user_row, e)
        (
          select-delete_where (λ (u : UserRow). u.id == id) d.users.rows,
          select-delete_where (λ (p : PreferencesRow). p.user_id == id) d.users_preferences.rows,
          select-delete_where (λ (s : StoryRow). s.user_id == id) d.stories.rows,
          select-delete_where (λ (t : TokenRow). t.user_id == id) d.refresh_tokens.rows,
        )
]

Outcome-cases : (o : Outcome) → (o ≡ answered) ⊎ (o ≡ dropped) ⊎ (o ≡ lost)
Outcome-cases answered = inl refl
Outcome-cases dropped = inr (inl refl)
Outcome-cases lost = inr (inr refl)

module _ {R H : Type 0} where
  -- Where `DeleteUser` succeeds, no row of the user is left in the tables users, users_preferences,
  -- stories and refresh_tokens, whatever the network did.
  pub deleted_user_gone :
      (id : ℕ) (m : Message) (w : World R H)
      → (delete_user id w).0 ≡ ok m
      → Gone id (delete_user id w).1.db
  unfolding delete_user delete_user_by_id
  deleted_user_gone id m w done =
      Db-ok {P = λ d. Unit} {Q = λ _. Gone id}
        (Db-bind {E = λ d. Unit {0}} {Q = λ _. Gone id}
          (Db-bind {Q = λ _. Gone id}
            (Db-query _ (delete_user_row id) (λ d h a f. removed id d a f) (λ d h. tt) (λ d h. tt))
            λ i. Db-return _ (λ d h. h))
          λ _. Db-return _ (λ d h. h))
        w m tt done

  -- A refresh token that is still valid but whose user is gone makes the service panic, since it
  -- reads the id of a nil user for the log line, whatever the network does.
  pub refresh_deleted_panics :
      (K : Crypto) (J : Jwt) (j : JwtAuth) (cost salt now : ℕ) (token secret : String)
      (t : IdentityToken) (w : World R H)
      → verify_refresh_token J now token secret ≡ ok t
      → select (λ (u : UserRow). u.id == t.user_id) w.db.users.rows ≡ none
      → (refresh_jwt_token K J j cost salt now token secret w).0
        ≡ panic "invalid memory address or nil pointer dereference"
  unfolding refresh_jwt_token get_user_by_id query call
  refresh_deleted_panics K J j cost salt now token secret t w valid gone =
      elim (Outcome-cases (next w.link)) [
        | inl e ↦ rw (valid, e, gone) refl
        | inr (inl e) ↦ rw (valid, e) refl
        | inr (inr e) ↦ rw (valid, e) refl
      ]
