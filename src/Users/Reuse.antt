-- ===== src/Users/Reuse.antt =====
-- What `RefreshJwtToken` of user_service.go leaves behind: no row that the old token could use.
use notification_server.Base.{
  ℕ, ◌+◌, String, ◌≡◌, ◌≢◌, refl, sym, true, none, some, ◌==◌, nat_eq, nat_beq_iff, string_eq, List,
  [], ◌∷◌, All, Any, inl, inr, Option, Bool-cases, arith, if◌then◌else◌, leb, ◌||◌, not,
}
use mathlib.Core.Path.{subst}
use notification_server.Domain.Entities.{TokenPair, RefreshToken, User}
use notification_server.Domain.Action.{ok}
use notification_server.Store.Tables.{UserRow, TokenRow, Db, update_where}
use notification_server.Store.World.{World}
use notification_server.Store.Rows.{scanned}
use notification_server.Store.DbTriple.{DbTriple, Db-query, Db-bind, Db-return, Db-ok, Db-given}
use notification_server.Security.Hash.{Crypto, hash, verify_hash, matches}
use notification_server.Security.Jwt.{Jwt, JwtAuth, verify_refresh_token, create_jwt_token}
use notification_server.Repository.Stories.{exists}
use notification_server.Repository.Users.{get_user_by_id}
use notification_server.Repository.Tokens.{
  latest, live_of, newer, token_of, insert_token, revoke_latest, retrieve_refresh_token,
  update_refresh_token, store_refresh_token,
}
use notification_server.Users.Session.{refresh_jwt_token, seven_days, usable}
use notification_server.Users.Rotation.{
  Db-lifted, Db-dereference, refresh_jwt_token-Granted, verified_matches,
}

abbrev Picked : (TokenRow → Type 0) → Option TokenRow → Type 0
Picked P none = Unit
Picked P (some t) = P t × (t.revoked_at ≡ none)

newer-Picked :
    (P : TokenRow → Type 0) (x : TokenRow) (o : Option TokenRow)
    → P x × (x.revoked_at ≡ none)
    → Picked P o
    → Picked P (newer x o)
newer-Picked P x none h m = h
newer-Picked P x (some t) h m = elim (Bool-cases (leb t.created_at x.created_at)) [
  | inl e ↦ rw e h
  | inr e ↦ rw e m
]

live_open : (id : ℕ) (t : TokenRow) → live_of id t ≡ true → t.revoked_at ≡ none
live_open id t h = ground arith

-- What holds of every row holds of the latest, which is not revoked.
latest-Picked :
    (P : TokenRow → Type 0) (id : ℕ) (rows : List TokenRow) → All P rows → Picked P (latest id rows)
unfolding latest
latest-Picked P id [] all = tt
latest-Picked P id (x ∷ xs) (h, hs) = elim (Bool-cases (live_of id x)) [
  | inl e ↦ rw e (newer-Picked P x (latest id xs) (h, live_open id x e) (latest-Picked P id xs hs))
  | inr e ↦ rw e (latest-Picked P id xs hs)
]

module _ (K : Crypto) (token : String) where
  -- A row that the token could use: its hash is one of the token, and it is not revoked.
  abbrev pub Fits : TokenRow → Type 0
  Fits t =
      (t.revoked_at ≡ none) × (K.compare_hash_and_password t.token_hash (K.sum256 token) ≡ matches)

  abbrev pub IsUseless : Db → Type 0
  IsUseless d = All (λ t. ¬ Fits t) d.refresh_tokens.rows

  -- Only the row of that id fits.
  abbrev pub OnlyFits : ℕ → Db → Type 0
  OnlyFits k d = All (λ t. Fits t → t.id ≡ k) d.refresh_tokens.rows

  revoked_rows :
      (k at : ℕ) (rows : List TokenRow)
      → All (λ t. Fits t → t.id ≡ k) rows
      → All
          (λ t. ¬ Fits t)
          (update_where (λ (u : TokenRow). u.id == k) (λ u. record u { revoked_at = some at }) rows)
  unfolding update_where
  revoked_rows k at [] h = tt
  revoked_rows k at (x ∷ xs) (h, hs) = (here, revoked_rows k at xs hs)
    where
      here : ¬ Fits (if x.id == k then record x { revoked_at = some at } else x)
      here = elim (Bool-cases (x.id == k)) [
        | inl e ↦ rw e λ f. cc
        | inr e ↦ rw e λ f. cc (e, (nat_beq_iff x.id k).1 (h f))
      ]

  revoke_latest-IsUseless :
      (k id at : ℕ) (d : Db) (t : TokenRow)
      → OnlyFits k d
      → latest id d.refresh_tokens.rows ≡ some t
      → K.compare_hash_and_password t.token_hash (K.sum256 token) ≡ matches
      → IsUseless (revoke_latest id at d).1
  unfolding revoke_latest
  revoke_latest-IsUseless k id at d t only live same =
      let picked =
        subst (Picked (λ t. Fits t → t.id ≡ k)) live
          (latest-Picked (λ t. Fits t → t.id ≡ k) id d.refresh_tokens.rows only) in
      let is_k : t.id ≡ k = picked.0 (picked.1, same) in
      rw (revoke_latest, live) (rw is_k (revoked_rows k at d.refresh_tokens.rows only))

  insert_token-IsUseless :
      (now id : ℕ) (h : String) (end : ℕ) (d : Db)
      → K.compare_hash_and_password h (K.sum256 token) ≢ matches
      → IsUseless d
      → IsUseless (insert_token now id h end d).1
  unfolding insert_token
  insert_token-IsUseless now id h end d fresh old =
      elim (Bool-cases (
        exists (λ (t : TokenRow). t.token_hash == h) d.refresh_tokens.rows
        || not (exists (λ (u : UserRow). u.id == id) d.users.rows))) [
          | inl e ↦ rw e old
          | inr e ↦ rw e ((λ f. fresh f.1), old)
        ]

-- The rows that the token fits were there before, under the same hashes.
abbrev pub NoNewFits : Crypto → String → Db → Db → Type 0
NoNewFits K token d e =
    All
      (λ t.
        Fits K token t
        → Any (λ (u : TokenRow). (u.revoked_at ≡ none) × (u.token_hash ≡ t.token_hash))
            d.refresh_tokens.rows)
      e.refresh_tokens.rows

module _ (K : Crypto) (token : String) where
  unmatched_row :
      (t : TokenRow) (rows : List TokenRow)
      → All (λ u. ¬ Fits K token u) rows
      → Any (λ (u : TokenRow). (u.revoked_at ≡ none) × (u.token_hash ≡ t.token_hash)) rows
      → ¬ (K.compare_hash_and_password t.token_hash (K.sum256 token) ≡ matches)
  unmatched_row t [] h a = absurd a
  unmatched_row t (x ∷ xs) (h, hs) (inl (live, same)) = λ m.
      h (live, subst (λ g. K.compare_hash_and_password g (K.sum256 token) ≡ matches) (sym same) m)
  unmatched_row t (x ∷ xs) (h, hs) (inr later) = unmatched_row t xs hs later

  stays-IsUseless :
      (d : Db) (rows : List TokenRow)
      → IsUseless K token d
      → All
          (λ t.
            Fits K token t
            → Any
                (λ (u : TokenRow). (u.revoked_at ≡ none) × (u.token_hash ≡ t.token_hash))
                d.refresh_tokens.rows)
          rows
      → All (λ t. ¬ Fits K token t) rows
  stays-IsUseless d [] useless same = tt
  stays-IsUseless d (x ∷ xs) useless (h, hs) = (
    λ f. unmatched_row x d.refresh_tokens.rows useless (h f) f.1,
    stays-IsUseless d xs useless hs,
  )

module _ (K : Crypto) (J : Jwt) (j : JwtAuth) (cost salt now : ℕ) (token secret : String) where
  -- The pair's hash is of another token.
  abbrev IsFresh : TokenPair → Type 0
  IsFresh p =
      (h : String)
      → hash K cost salt p.refresh_token true ≡ ok h
      → K.compare_hash_and_password h (K.sum256 token) ≢ matches

  revoked :
      {R H : Type 0} (k : ℕ)
      → DbTriple {R = R} {H = H}
          (OnlyFits K token k)
          (refresh_jwt_token K J j cost salt now token secret)
          (λ p d. IsFresh p → IsUseless K token d)
          (λ d. Unit {0})
  unfolding refresh_jwt_token get_user_by_id retrieve_refresh_token update_refresh_token
      store_refresh_token
  revoked k = Db-bind (Db-lifted {P = Only} (verify_refresh_token J now token secret)) λ who.
      Db-given λ valid.
        Db-bind {Q = λ (v : User). Only}
          (Db-dereference (
            Db-bind {Q = λ (u : UserRow). Only}
              (Db-query _ _ (λ d h u f. h) (λ d h. tt) (λ d h. tt)) λ u. Db-return _ (λ d h. h)))
          λ v.
            Db-bind {Q = λ r d. Only d × Latest v.id r d}
              (Db-bind {Q = λ t d. Only d × (latest v.id d.refresh_tokens.rows ≡ some t)}
                (Db-query _ _ (λ d h t f. (h, scanned _ t f)) (λ d h. tt) (λ d h. tt))
                λ t. Db-return _ (λ d h. (h.0, (t, h.1, refl))))
              λ r.
                Db-bind
                  (Db-lifted {P = λ d. Only d × Latest v.id r d}
                    (verify_hash K r.hashed_token token true))
                  λ _. Db-given λ same.
                    Db-bind (Db-lifted {P = λ d. Only d × Latest v.id r d} (usable now r)) λ _.
                      Db-given λ in_time.
                        Db-bind {A = TokenPair}
                          (Db-lifted {P = λ d. Only d × Latest v.id r d}
                            (create_jwt_token J j now who.user_id who.email))
                          λ p. Db-given λ made.
                            Db-bind
                              (Db-lifted {P = λ d. Only d × Latest v.id r d}
                                (hash K cost salt p.refresh_token true))
                              λ h. Db-given λ hashed.
                                Db-bind {Q = λ _. IsUseless K token}
                                  (Db-bind {Q = λ _. IsUseless K token}
                                    (Db-query _ _ (λ d x a f. closed v.id r d same x) (λ d x. tt)
                                      (λ d x. tt))
                                    λ _. Db-return _ (λ d x. x))
                                  λ _.
                                    Db-bind {Q = λ _ d. IsFresh p → IsUseless K token d}
                                      (Db-bind {Q = λ _ d. IsFresh p → IsUseless K token d}
                                        (Db-query _ _
                                          (λ d x a f fresh.
                                            insert_token-IsUseless K token now v.id h
                                              (now + seven_days) d (fresh h hashed) x)
                                          (λ d x. tt) (λ d x. tt))
                                        λ _. Db-return _ (λ d x. x))
                                      λ _. Db-return _ (λ d x. x)
    where
      Only : Db → Type 0
      Only = OnlyFits K token k

      Latest : ℕ → RefreshToken → Db → Type 0
      Latest id r d = (t : TokenRow) × (latest id d.refresh_tokens.rows ≡ some t) × (r ≡ token_of t)

      closed :
          (id : ℕ) (r : RefreshToken) (d : Db)
          → verify_hash K r.hashed_token token true ≡ ok tt
          → Only d × Latest id r d
          → IsUseless K token (revoke_latest id now d).1
      closed id r d same (only, (t, live, is)) =
          revoke_latest-IsUseless K token k id now d t only live (
            subst
              (λ (r : RefreshToken).
                K.compare_hash_and_password r.hashed_token (K.sum256 token) ≡ matches)
              is (verified_matches K r.hashed_token token same))

  -- A refresh token is of no use a second time. Where a new pair came for it, the rows that were not
  -- revoked and fitted it before had one id, and the hash of the new refresh token does not fit it:
  -- the old token gets no pair again, at any time, whatever the network does and whatever was done
  -- to the tables since, as long as each row that fits it and is not revoked then has the hash of a
  -- row that the refresh left not revoked.
  pub refresh_token_once :
      {R H : Type 0} (k : ℕ) (p : TokenPair) (w : World R H)
      → OnlyFits K token k w.db
      → let y = refresh_jwt_token K J j cost salt now token secret w in
        y.0 ≡ ok p
        → ((h : String)
            → hash K cost salt p.refresh_token true ≡ ok h
            → K.compare_hash_and_password h (K.sum256 token) ≢ matches)
        → (cost' salt' now' : ℕ) (q : TokenPair) (x : World R H) → NoNewFits K token y.1.db x.db
        → (refresh_jwt_token K J j cost' salt' now' token secret x).0 ≢ ok q
  refresh_token_once k p w only done fresh cost' salt' now' q x later again =
      let (who, u, t, valid, found, live, match, _, _) =
        refresh_jwt_token-Granted K J j cost' salt' now' token secret q x again in
      let y = refresh_jwt_token K J j cost salt now token secret w in
      let useless = Db-ok (revoked k) w p only done fresh in
      let none_left = stays-IsUseless K token y.1.db x.db.refresh_tokens.rows useless later in
      let picked =
        subst (Picked (λ t. ¬ Fits K token t)) live
          (latest-Picked (λ t. ¬ Fits K token t) u.id x.db.refresh_tokens.rows none_left) in
      picked.0 (picked.1, match)
