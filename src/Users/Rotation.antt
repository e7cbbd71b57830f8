-- ===== src/Users/Rotation.antt =====
-- What `RefreshJwtToken` of user_service.go asks of a token before it makes a new pair.
use notification_server.Base.{ℕ, String, ◌≤◌, ◌≡◌, refl, some, arith, ◌==◌, nat_eq, true}
use mathlib.Core.Path.{subst}
use notification_server.Domain.Entities.{IdentityToken, TokenPair, RefreshToken, User}
use notification_server.Domain.Action.{Action, Result, ok, err, panic, lift}
use notification_server.Store.Tables.{UserRow, TokenRow, Db, select}
use notification_server.Store.World.{World}
use notification_server.Store.Rows.{scanned}
use notification_server.Store.DbTriple.{
  DbTriple, Db-query, Db-bind, Db-return, Db-ok, Db-lift, Db-conseq, Db-given,
}
use notification_server.Store.Triple.{Post}
use notification_server.Security.Hash.{Crypto, verify_hash, matches}
use notification_server.Security.Jwt.{Jwt, JwtAuth, verify_refresh_token, create_jwt_token}
use notification_server.Repository.Users.{get_user_by_id}
use notification_server.Repository.Tokens.{
  latest, token_of, retrieve_refresh_token, update_refresh_token,
}
use notification_server.Users.Session.{refresh_jwt_token, or_nil_dereference, dereferenced, usable}

usable_later : (now : ℕ) (t : RefreshToken) → usable now t ≡ ok tt → now ≤ t.expired_at
unfolding usable
usable_later now t h = ground arith

pub verified_matches :
    (K : Crypto) (h token : String)
    → verify_hash K h token true ≡ ok tt
    → K.compare_hash_and_password h (K.sum256 token) ≡ matches
unfolding verify_hash
verified_matches K h token v = ground arith

module _ {R H : Type 0} where
  pub Db-lifted :
      {A : Type 0} {P : Db → Type 0} (x : Result A)
      → DbTriple {R = R} {H = H} P (lift x) (λ a d. P d × (x ≡ ok a)) (λ d. Unit {0})
  Db-lifted {P} x = Db-conseq (λ d h. h) (λ a d h. h) (λ d h. tt) (Db-lift {P = P} x (λ d h. h))

  -- Any call keeps what does not speak of the tables.
  pub Db-any :
      {A F : Type 0} {P : Db → Type 0} (m : Action (World R H) A)
      → F
      → DbTriple P m (λ _ _. F) (λ d. Unit {0})
  Db-any {A} {F} m f = record { at = λ w h. go (m w).0 (m w).1.db }
    where
      go : (r : Result A) (d : Db) → Post (λ _ _. F) (λ d. Unit {0}) r d
      go (ok a) d = f
      go (err e) d = tt
      go (panic t) d = tt

  pub Db-dereference :
      {P E : Db → Type 0} {Q : User → Db → Type 0} {m : Action (World R H) User}
      → DbTriple P m Q E
      → DbTriple P (or_nil_dereference m) Q E
  Db-dereference {E} {Q} {m} t = record { at = λ w h. go (m w).0 (m w).1.db (t.at w h) }
    where
      go : (r : Result User) (d : Db) → Post Q E r d → Post Q E (dereferenced r) d
      go (ok a) d h = h
      go (err e) d h = h
      go (panic x) d h = h

module _ (K : Crypto) (J : Jwt) (j : JwtAuth) (cost salt now : ℕ) (token secret : String) where
  -- The token verifies; its user exists; the user's latest live token has the hash of this one and
  -- is not too old; and the pair was made for that user.
  abbrev pub Granted : Db → TokenPair → Type 0
  Granted d p =
      (who : IdentityToken) × (u : UserRow) × (t : TokenRow) × (verify_refresh_token J now token
          secret
        ≡ ok who)
      × (select (λ (u : UserRow). u.id == who.user_id) d.users.rows ≡ some u)
      × (latest u.id d.refresh_tokens.rows ≡ some t)
      × (K.compare_hash_and_password t.token_hash (K.sum256 token) ≡ matches)
      × (now ≤ t.expires_at)
      × (create_jwt_token J j now who.user_id who.email ≡ ok p)

  granted :
      {R H : Type 0} (d : Db)
      → DbTriple {R = R} {H = H}
          (λ x. x ≡ d)
          (refresh_jwt_token K J j cost salt now token secret)
          (λ p x. Granted d p)
          (λ x. Unit {0})
  unfolding refresh_jwt_token get_user_by_id retrieve_refresh_token
  granted d = Db-bind (Db-lifted {P = λ x. x ≡ d} (verify_refresh_token J now token secret)) λ who.
      Db-given λ valid.
        Db-bind {Q = λ v x. (x ≡ d) × Row who v}
          (Db-dereference (
            Db-bind
              {Q = λ u x.
                (x ≡ d) × (select (λ (u : UserRow). u.id == who.user_id) d.users.rows ≡ some u)}
              (Db-query _ _
                (λ x same u f. (
                  same,
                  subst (λ y. select (λ (u : UserRow). u.id == who.user_id) y.users.rows ≡ some u)
                      same (scanned _ u f),
                ))
                (λ x h. tt) (λ x h. tt))
              λ u. Db-return _ (λ x h. (h.0, (u, h.1, refl)))))
          λ v. Db-given λ user.
            Db-bind {Q = λ t x. (x ≡ d) × Latest v t}
              (Db-bind {Q = λ t x. (x ≡ d) × (latest v.id d.refresh_tokens.rows ≡ some t)}
                (Db-query _ _
                  (λ x same t f. (
                    same,
                    subst (λ y. latest v.id y.refresh_tokens.rows ≡ some t) same (scanned _ t f),
                  ))
                  (λ x h. tt) (λ x h. tt))
                λ t. Db-return _ (λ x h. (h.0, (t, h.1, refl))))
              λ r. Db-given λ live. Db-bind (Db-lifted {P = λ x. x ≡ d} _) λ _.
                Db-given λ same_hash. Db-bind (Db-lifted {P = λ x. x ≡ d} _) λ _.
                  Db-given λ in_time. Db-bind (Db-lifted {P = λ x. x ≡ d} _) λ p. Db-given λ made.
                    Db-bind (Db-lifted {P = λ x. x ≡ d} _) λ _.
                      Db-bind
                        (Db-any (update_refresh_token v.id now)
                          (gather who v r p valid user live same_hash in_time made))
                        λ _.
                          Db-bind
                            (Db-any _ (gather who v r p valid user live same_hash in_time made))
                            λ _.
                              Db-return _
                                (λ x h. gather who v r p valid user live same_hash in_time made)
    where
      Row : IdentityToken → User → Type 0
      Row who v =
          (u : UserRow) × (select (λ (u : UserRow). u.id == who.user_id) d.users.rows ≡ some u)
          × (v.id ≡ u.id)

      Latest : User → RefreshToken → Type 0
      Latest v r = (t : TokenRow) × (latest v.id d.refresh_tokens.rows ≡ some t) × (r ≡ token_of t)

      gather :
          (who : IdentityToken) (v : User) (r : RefreshToken) (p : TokenPair)
          → verify_refresh_token J now token secret ≡ ok who
          → Row who v
          → Latest v r
          → verify_hash K r.hashed_token token true ≡ ok tt
          → usable now r ≡ ok tt
          → create_jwt_token J j now who.user_id who.email ≡ ok p
          → Granted d p
      gather who v r p valid (u, found, same) (t, live, e) hash time made = (
        who,
        u,
        t,
        valid,
        found,
        subst (λ i. latest i d.refresh_tokens.rows ≡ some t) same live,
        verified_matches K t.token_hash token
            (subst (λ (x : RefreshToken). verify_hash K x.hashed_token token true ≡ ok tt) e hash),
        usable_later now (token_of t) (subst (λ x. usable now x ≡ ok tt) e time),
        made,
      )

  -- A new pair comes only for a refresh token that verifies, whose user exists and whose hash is
  -- the one of the user's latest token that is not revoked, before that token's time is over; and
  -- the pair is made for the user of the token. Whatever the network does.
  pub refresh_jwt_token-Granted :
      {R H : Type 0} (p : TokenPair) (w : World R H)
      → (refresh_jwt_token K J j cost salt now token secret w).0 ≡ ok p
      → Granted w.db p
  refresh_jwt_token-Granted p w done = Db-ok (granted w.db) w p refl done
