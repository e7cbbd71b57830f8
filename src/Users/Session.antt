-- ===== src/Users/Session.antt =====
-- `AuthenticateUser` and `RefreshJwtToken` of internal/usecase/user_service.go. Logging is left out,
-- but for the one call that reads a field of a nil user. `now` is the clock, in seconds.
use notification_server.Base.{
  ℕ, String, ◌+◌, Bool, true, false, Option, none, some, ltb, if◌then◌else◌,
}
use notification_server.Domain.Errors.{Code, text, new_domain_error}
use notification_server.Domain.Entities.{User, LoginUser, TokenPair, RefreshToken}
use notification_server.Domain.Action.{Result, ok, err, panic, Action, return, lift, ◌>>=◌, ◌>>◌}
use notification_server.Store.World.{World}
use notification_server.Security.Hash.{Crypto, hash, verify_hash}
use notification_server.Security.Jwt.{Jwt, JwtAuth, create_jwt_token, verify_refresh_token}
use notification_server.Repository.Users.{get_user_by_email, get_user_by_id}
use notification_server.Repository.Tokens.{
  store_refresh_token, retrieve_refresh_token, update_refresh_token,
}

-- `time.Hour*24*7`
abbrev pub seven_days : ℕ
seven_days = 604800

-- On an error the log line reads `user.ID`, and `user` is nil.
abbrev pub dereferenced : Result User → Result User
dereferenced (ok u) = ok u
dereferenced (err e) = panic "invalid memory address or nil pointer dereference"
dereferenced (panic t) = panic t

abbrev pub or_nil_dereference : {S : Type 0} → Action S User → Action S User
or_nil_dereference m s = let (r, s') = m s in (dereferenced r, s')

abbrev is_revoked : Option ℕ → Bool
is_revoked none = false
is_revoked (some t) = true

-- `dbReftoken.ExpiredAt.Before(time.Now())`, then `RevokedAt != nil`.
unfoldable pub usable : ℕ → RefreshToken → Result (Unit {0})
usable now t =
    if ltb t.expired_at now
    then err (new_domain_error Code.validation (text "refresh token expired") none)
    else if is_revoked t.revoked_at
    then err (new_domain_error Code.validation (text "refresh token revoked") none)
    else ok tt

module _ (K : Crypto) (J : Jwt) (j : JwtAuth) (cost salt : ℕ) {R H : Type 0} where
  unfoldable pub authenticate_user : ℕ → LoginUser → Action (World R H) TokenPair
  authenticate_user now req = do
    u ← get_user_by_email req.email
    lift (verify_hash K u.password req.password false)
    pair ← lift (create_jwt_token J j now u.id u.email)
    refresh_token_hash ← lift (hash K cost salt pair.refresh_token true)
    store_refresh_token now u.id refresh_token_hash (now + seven_days)
    return pair

  unfoldable pub refresh_jwt_token : ℕ → String → String → Action (World R H) TokenPair
  unfolding usable
  refresh_jwt_token now refresh_token jwt_refresh_secret = do
    token ← lift (verify_refresh_token J now refresh_token jwt_refresh_secret)
    user ← or_nil_dereference (get_user_by_id token.user_id)
    db_ref_token ← retrieve_refresh_token user.id
    lift (verify_hash K db_ref_token.hashed_token refresh_token true)
    lift (usable now db_ref_token)
    pair ← lift (create_jwt_token J j now token.user_id token.email)
    refresh_token_hash ← lift (hash K cost salt pair.refresh_token true)
    update_refresh_token user.id now
    store_refresh_token now user.id refresh_token_hash (now + seven_days)
    return pair
