-- ===== src/Users/Login.antt =====
-- Who `AuthenticateUser` of user_service.go lets in.
use notification_server.Base.{
  ℕ, ◌≡◌, ◌≢◌, refl, some, arith, eq_iff, ◌==◌, string_eq, All, true, false, inl, inr, ◌⊎◌,
}
use notification_server.Domain.Entities.{LoginUser, TokenPair}
use notification_server.Domain.Action.{ok}
use notification_server.Store.Tables.{UserRow, Db, row, select, scan}
use notification_server.Store.World.{World}
use notification_server.Store.Rows.{select_found, select-All, scanned}
use mathlib.Core.Path.{subst}
use notification_server.Store.DbTriple.{
  DbTriple, Db-query, Db-lift, Db-bind, Db-return, Db-unreached, Db-refused, Db-conseq, Post-none,
}
use notification_server.Security.Hash.{Crypto, verify_hash, matches}
use notification_server.Security.Jwt.{Jwt, JwtAuth}
use notification_server.Repository.Users.{get_user_by_email}
use notification_server.Users.Session.{authenticate_user}

module _ (K : Crypto) where
  -- The user has another email, or the password does not match.
  abbrev pub Unmatched : LoginUser → UserRow → Type 0
  Unmatched req u =
      (u.email ≢ req.email) ⊎ (K.compare_hash_and_password u.password req.password ≢ matches)

  Unmatched-verify_hash :
      (u : UserRow) (req : LoginUser)
      → (u.email == req.email) ≡ true
      → Unmatched req u
      → verify_hash K u.password req.password false ≢ ok tt
  unfolding verify_hash
  Unmatched-verify_hash u req same (inl other) h = other ((eq_iff u.email req.email).0 same)
  Unmatched-verify_hash u req same (inr fails) h = ground arith

module _ (K : Crypto) (J : Jwt) (j : JwtAuth) (cost salt : ℕ) {R H : Type 0} where
  refused_login :
      (now : ℕ) (req : LoginUser) (d : Db)
      → All (Unmatched K req) d.users.rows
      → DbTriple {R = R} {H = H}
          (λ x. x ≡ d)
          (authenticate_user K J j cost salt now req)
          (λ _ _. ⊥)
          (λ x. x ≡ d)
  unfolding authenticate_user get_user_by_email
  refused_login now req d unmatched =
      Db-bind {Q = λ u x. (x ≡ d) × (verify_hash K u.password req.password false ≢ ok tt)}
        (Db-bind
          (Db-query {Q = λ u x. (x ≡ d) × (verify_hash K u.password req.password false ≢ ok tt)} _ _
            (λ x e u f. (e, stored x e u f)) (λ x e. e) (λ x e. e))
          λ u. Db-return _ (λ x h. h))
        λ u.
          Db-bind
            (Db-conseq (λ x h. h) (λ a x h. absurd (h.0.1 h.1)) (λ x h. h.0)
              (Db-lift {P = λ x. (x ≡ d) × (verify_hash K u.password req.password false ≢ ok tt)}
                (verify_hash K u.password req.password false) (λ x h. h)))
            λ _. Db-unreached (λ x h. h)
    where
      stored :
          (x : Db)
          → x ≡ d
          → (u : UserRow)
          → scan (select (λ (u : UserRow). u.email == req.email) x.users.rows) ≡ row u
          → verify_hash K u.password req.password false ≢ ok tt
      stored x e u f =
          let found : select (λ (u : UserRow). u.email == req.email) d.users.rows ≡ some u =
            scan_row x e u f in
          Unmatched-verify_hash K u req
            (select_found (λ (u : UserRow). u.email == req.email) d.users.rows u found)
            (select-All (Unmatched K req) (λ (u : UserRow). u.email == req.email) d.users.rows u
              unmatched found)
        where
          scan_row :
              (x : Db)
              → x ≡ d
              → (u : UserRow)
              → scan (select (λ (u : UserRow). u.email == req.email) x.users.rows) ≡ row u
              → select (λ (u : UserRow). u.email == req.email) d.users.rows ≡ some u
          scan_row x e u f = scanned _ u (
              subst
                (λ y. scan (select (λ (u : UserRow). u.email == req.email) y.users.rows) ≡ row u) e
                f)

  -- Nobody whose stored password does not match is logged in: where every row with that email
  -- refuses the password, or no row has that email, no token pair comes back and the tables stay as
  -- they were, whatever the network does.
  pub wrong_password_refused :
      (now : ℕ) (req : LoginUser) (w : World R H)
      → All (Unmatched K req) w.db.users.rows
      → ((p : TokenPair) → (authenticate_user K J j cost salt now req w).0 ≢ ok p)
        × ((authenticate_user K J j cost salt now req w).1.db ≡ w.db)
  wrong_password_refused now req w unmatched =
      let t = refused_login now req w.db unmatched in
      (
        λ p. Db-refused t w p refl,
        Post-none (λ x. x ≡ w.db) (authenticate_user K J j cost salt now req w).0
            (authenticate_user K J j cost salt now req w).1.db (t.at w refl),
      )
