-- ===== src/Users/Halves.antt =====
-- `RefreshJwtToken` of user_service.go in two: the statements that read and check, and those that
-- write.
use notification_server.Base.{ℕ, String, ◌+◌, ◌≡◌, refl, true, string_eq, nat_eq}
use notification_server.Domain.Entities.{TokenPair}
use notification_server.Domain.Action.{
  Result, ok, err, panic, Action, return, lift, ◌>>=◌, ◌>>◌, proceed,
}
use notification_server.Store.World.{World}
use notification_server.Security.Hash.{Crypto, hash, verify_hash}
use notification_server.Security.Jwt.{Jwt, JwtAuth, create_jwt_token, verify_refresh_token}
use notification_server.Repository.Users.{get_user_by_id}
use notification_server.Repository.Tokens.{
  store_refresh_token, retrieve_refresh_token, update_refresh_token,
}
use notification_server.Users.Session.{refresh_jwt_token, or_nil_dereference, usable, seven_days}

module _ {S A : Type 0} where
  pub record Agrees (m n : Action S A) : Type 0 where
    pub at : (s : S) → m s ≡ n s

  Agrees-refl : (m : Action S A) → Agrees m m
  Agrees-refl m = record { at = λ s. refl }

module _ {S A C D : Type 0} where
  Agrees-bind :
      (m : Action S A) (f : A → Action S C) (g : C → Action S D) {h : A → Action S D}
      → ((a : A) → Agrees (f a >>= g) (h a))
      → Agrees ((m >>= f) >>= g) (m >>= h)
  Agrees-bind m f g {h} same = record { at = λ s. go (m s).0 (m s).1 }
    where
      go : (r : Result A) (x : S) → proceed (proceed r f x).0 g (proceed r f x).1 ≡ proceed r h x
      go (ok a) x = (same a).at x
      go (err e) x = refl
      go (panic t) x = refl

module _ {R H : Type 0} where
  -- What a call of `RefreshJwtToken` writes after its checks.
  unfoldable pub rotate : ℕ → ℕ × (TokenPair × String) → Action (World R H) TokenPair
  rotate now (user_id, (pair, refresh_token_hash)) = do
    update_refresh_token user_id now
    store_refresh_token now user_id refresh_token_hash (now + seven_days)
    return pair

module _ (K : Crypto) (J : Jwt) (j : JwtAuth) (cost salt : ℕ) {R H : Type 0} where
  -- What a call does before it writes.
  unfoldable pub check_refresh : ℕ → String → String → Action (World R H) (ℕ × (TokenPair × String))
  check_refresh now refresh_token jwt_refresh_secret = do
    token ← lift (verify_refresh_token J now refresh_token jwt_refresh_secret)
    user ← or_nil_dereference (get_user_by_id token.user_id)
    db_ref_token ← retrieve_refresh_token user.id
    lift (verify_hash K db_ref_token.hashed_token refresh_token true)
    lift (usable now db_ref_token)
    pair ← lift (create_jwt_token J j now token.user_id token.email)
    refresh_token_hash ← lift (hash K cost salt pair.refresh_token true)
    return (user.id, (pair, refresh_token_hash))

  pub refresh_in_two :
      (now : ℕ) (token secret : String)
      → Agrees
          (check_refresh now token secret >>= rotate now)
          (refresh_jwt_token K J j cost salt now token secret)
  unfolding check_refresh rotate refresh_jwt_token
  refresh_in_two now token secret =
      Agrees-bind (lift (verify_refresh_token J now token secret)) _ (rotate now) λ who.
        Agrees-bind (or_nil_dereference (get_user_by_id who.user_id)) _ (rotate now) λ user.
          Agrees-bind (retrieve_refresh_token user.id) _ (rotate now) λ t.
            Agrees-bind (lift (verify_hash K t.hashed_token token true)) _ (rotate now) λ _.
              Agrees-bind (lift (usable now t)) _ (rotate now) λ _.
                Agrees-bind (lift (create_jwt_token J j now who.user_id who.email)) _ (rotate now)
                  λ pair.
                    Agrees-bind (lift (hash K cost salt pair.refresh_token true)) _ (rotate now)
                      λ h. Agrees-refl _
