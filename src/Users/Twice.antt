-- ===== src/Users/Twice.antt =====
-- Two calls of `RefreshJwtToken` of user_service.go that run at once with one refresh token: the token
-- is read and checked by statements of their own before it is revoked.
use notification_server.Base.{
  ℕ, ◌≢◌, String, ◌≡◌, refl, sym, ap, some, [], true, false, ◌==◌, string_eq, nat_eq, nat_beq_iff,
}
use notification_server.Domain.Entities.{TokenPair, IdentityToken}
use notification_server.Domain.Action.{ok, ◌>>=◌}
use notification_server.Store.Tables.{scan, UserRow, TokenRow, select}
use notification_server.Store.World.{World, online}
use notification_server.Security.Hash.{Crypto, hash, verify_hash}
use notification_server.Security.Jwt.{Jwt, JwtAuth, create_jwt_token, verify_refresh_token}
use notification_server.Repository.Stories.{exists}
use notification_server.Repository.Users.{get_user_by_id}
use notification_server.Repository.Tokens.{token_of, latest, retrieve_refresh_token}
use mathlib.Core.Path.{subst}
use notification_server.Store.Rows.{select_found}
use notification_server.Users.Arrival.{query_succeeds}
use notification_server.Domain.Errors.{Variable}
use notification_server.Users.Session.{refresh_jwt_token, usable}
use notification_server.Users.Halves.{check_refresh, rotate, refresh_in_two}
use notification_server.Users.Writes.{rotated, rotate_succeeds, still-IsReady}

module _ (K : Crypto) (J : Jwt) (j : JwtAuth) {R H : Type 0} (now : ℕ) (token secret : String)
    (who : IdentityToken) (u : UserRow) (t : TokenRow) (pair : TokenPair) (w : World R H)
    (signed : verify_refresh_token J now token secret ≡ ok who)
    (found : select (λ (u : UserRow). u.id == who.user_id) w.db.users.rows ≡ some u)
    (there : latest u.id w.db.refresh_tokens.rows ≡ some t)
    (matching : verify_hash K t.token_hash token true ≡ ok tt)
    (live : usable now (token_of t) ≡ ok tt)
    (made : create_jwt_token J j now who.user_id who.email ≡ ok pair) where
  user_read : get_user_by_id who.user_id (online w) ≡ (
    ok (record {
      id = u.id;
      first_name = u.first_name;
      last_name = u.last_name;
      email = u.email;
      password = "";
      preferences = [];
    }),
    online w,
  )
  unfolding get_user_by_id
  user_read =
      rw
        (query_succeeds Variable.user_not_found
          (λ d. (scan (select (λ (u : UserRow). u.id == who.user_id) d.users.rows), d)) w u w.db
          (rw found refl))
        refl

  token_read : retrieve_refresh_token u.id (online w) ≡ (ok (token_of t), online w)
  unfolding retrieve_refresh_token
  token_read =
      rw
        (query_succeeds Variable.user_not_found (λ d. (scan (latest u.id d.refresh_tokens.rows), d))
          w t w.db (rw there refl))
        refl

  check_refresh_succeeds :
      (cost salt : ℕ) (h : String)
      → hash K cost salt pair.refresh_token true ≡ ok h
      → check_refresh K J j cost salt now token secret (online w) ≡ (ok (u.id, (pair, h)), online w)
  unfolding check_refresh
  check_refresh_succeeds cost salt h hashed =
      rw (signed, user_read, token_read, matching, live, made, hashed) refl

  known_user : exists (λ (x : UserRow). x.id == u.id) w.db.users.rows ≡ true
  known_user =
      let same =
        (nat_beq_iff u.id who.user_id).0
          (select_found (λ (x : UserRow). x.id == who.user_id) w.db.users.rows u found) in
      subst (λ i. exists (λ (x : UserRow). x.id == i) w.db.users.rows ≡ true) (sym same)
        (rw (found, exists) refl)

  -- `RefreshJwtToken` is its checks and then its writes. Where a refresh token passes the checks, on a
  -- network that answers, two calls with that token that both check before one of them writes are both
  -- answered with a pair of tokens, though the first revokes the token; their two hashes differ, by the
  -- salt, and are not in the tables yet.
  pub simultaneous_refreshes_granted :
      (cost salt salt' : ℕ) (h h' : String)
      → hash K cost salt pair.refresh_token true ≡ ok h
      → hash K cost salt' pair.refresh_token true ≡ ok h'
      → h ≢ h'
      → exists (λ (t : TokenRow). t.token_hash == h) w.db.refresh_tokens.rows ≡ false
      → exists (λ (t : TokenRow). t.token_hash == h') w.db.refresh_tokens.rows ≡ false
      → let a = check_refresh K J j cost salt now token secret (online w) in
        let b = check_refresh K J j cost salt' now token secret a.1 in
        let c = rotate now (u.id, (pair, h)) b.1 in
        ((s : World R H)
          → (check_refresh K J j cost salt now token secret >>= rotate now) s
            ≡ refresh_jwt_token K J j cost salt now token secret s)
        × (a.0 ≡ ok (u.id, (pair, h)))
        × (b.0 ≡ ok (u.id, (pair, h')))
        × (c.0 ≡ ok pair)
        × ((rotate now (u.id, (pair, h')) c.1).0 ≡ ok pair)
  simultaneous_refreshes_granted cost salt salt' h h' made_h made_h' apart fresh fresh' =
      let (v, ready) = still-IsReady now u.id h h' t w.db apart (there, known_user, fresh') in
      rw
        (
          check_refresh_succeeds cost salt h made_h,
          check_refresh_succeeds cost salt' h' made_h',
          rotate_succeeds now u.id pair h t w (there, known_user, fresh),
        )
        (
          (refresh_in_two K J j cost salt now token secret).at,
          refl,
          refl,
          refl,
          ap (λ x. x.0)
              (rotate_succeeds now u.id pair h' v (record w { db = rotated now u.id h t w.db })
                ready),
        )
