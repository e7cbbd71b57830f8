-- ===== src/Repository/Tokens.antt =====
-- `RefreshTokenRepo` of user_postgres.go: the table refresh_tokens. The UUIDs of the table are kept
-- as numbers from its counter; `now` is the database's NOW().
use notification_server.Base.{
  ℕ, String, Bool, true, false, ◌&&◌, ◌||◌, not, Option, none, some, List, [], ◌∷◌, leb, ◌==◌,
  nat_eq, string_eq, if◌then◌else◌,
}
use notification_server.Domain.Errors.{Variable}
use notification_server.Domain.Entities.{RefreshToken}
use notification_server.Domain.Action.{Action, return, ◌>>=◌}
use notification_server.Store.Tables.{
  UserRow, TokenRow, Db, Reply, row, no_rows, refused, insert, burn, scan, update_where, with_rows,
}
use notification_server.Store.World.{World, query}
use notification_server.Repository.Stories.{exists}

-- refresh_tokens.token_hash is UNIQUE, and user_id names a user.
unfoldable pub insert_token : ℕ → ℕ → String → ℕ → Db → Reply ℕ × Db
insert_token now user_id token_hash expires_at d =
    if exists (λ (t : TokenRow). t.token_hash == token_hash) d.refresh_tokens.rows
      || not (exists (λ (u : UserRow). u.id == user_id) d.users.rows)
    then (refused, record d { refresh_tokens = burn d.refresh_tokens })
    else (row d.refresh_tokens.next, record d { refresh_tokens = insert d.refresh_tokens new_row })
  where
    new_row : ℕ → TokenRow
    new_row i = record {
      id = i;
      user_id = user_id;
      token_hash = token_hash;
      expires_at = expires_at;
      revoked_at = none;
      created_at = now;
    }

abbrev is_open : Option ℕ → Bool
is_open none = true
is_open (some t) = false

-- WHERE user_id = $1 AND revoked_at IS NULL
abbrev pub live_of : ℕ → TokenRow → Bool
live_of user_id t = t.user_id == user_id && is_open t.revoked_at

abbrev pub newer : TokenRow → Option TokenRow → Option TokenRow
newer t none = some t
newer t (some u) = if leb u.created_at t.created_at then some t else some u

-- ORDER BY created_at DESC LIMIT 1; of rows with one time the newest row is taken.
unfoldable pub latest : ℕ → List TokenRow → Option TokenRow
latest user_id [] = none
latest user_id (t ∷ ts) =
    let rest = latest user_id ts in if live_of user_id t then newer t rest else rest

abbrev pub token_of : TokenRow → RefreshToken
token_of t = record {
  id = t.id;
  user_id = t.user_id;
  hashed_token = t.token_hash;
  expired_at = t.expires_at;
  revoked_at = t.revoked_at;
  created_at = t.created_at;
}

-- SET revoked_at = $2 on the row of that id.
unfoldable pub revoke_latest : ℕ → ℕ → Db → Reply ℕ × Db
revoke_latest user_id at d = elim (latest user_id d.refresh_tokens.rows) [
  | none ↦ (no_rows, d)
  | some t ↦ (
    row t.id,
    record d {
      refresh_tokens = with_rows d.refresh_tokens (
          update_where (λ (u : TokenRow). u.id == t.id) (λ u. record u { revoked_at = some at })
            d.refresh_tokens.rows);
    },
  )
]

module _ {R H : Type 0} where
  unfoldable pub store_refresh_token : ℕ → ℕ → String → ℕ → Action (World R H) (Unit {0})
  unfolding insert_token
  store_refresh_token now user_id token_hash expires_at = do
    returned_id ←
        query Variable.persist_refresh_token (insert_token now user_id token_hash expires_at)
    return tt

  unfoldable pub retrieve_refresh_token : ℕ → Action (World R H) RefreshToken
  retrieve_refresh_token user_id = do
    t ← query Variable.user_not_found (λ d. (scan (latest user_id d.refresh_tokens.rows), d))
    return (token_of t)

  unfoldable pub update_refresh_token : ℕ → ℕ → Action (World R H) (Unit {0})
  unfolding revoke_latest
  update_refresh_token user_id revoked_at = do
    returned_id ← query Variable.persist_refresh_token (revoke_latest user_id revoked_at)
    return tt
