-- ===== src/Users/Writes.antt =====
-- What the writes of `RefreshJwtToken` of user_service.go do to the tables, on a network that answers.
use notification_server.Base.{
  ℕ, suc, inl, inr, Bool-cases, ◌≢◌, String, ◌+◌, ◌≡◌, refl, Option, none, some, List, [], ◌∷◌,
  true, false, ◌==◌, leb, string_eq, nat_eq, arith, eq_iff, nat_beq_iff,
}
use notification_server.Domain.Entities.{TokenPair}
use notification_server.Domain.Action.{ok}
use notification_server.Store.Tables.{Db, UserRow, TokenRow, select, update_where, row}
use notification_server.Store.World.{World, online}
use notification_server.Repository.Stories.{exists}
use notification_server.Repository.Tokens.{
  insert_token, revoke_latest, latest, newer, store_refresh_token, update_refresh_token,
}
use notification_server.Users.Arrival.{query_succeeds}
use notification_server.Domain.Errors.{Variable}
use notification_server.Users.Session.{seven_days}
use notification_server.Users.Halves.{rotate}

latest-newer : (t : TokenRow) (o : Option TokenRow) → (u : TokenRow) × (newer t o ≡ some u)
latest-newer t none = (t, refl)
latest-newer t (some u) = elim (Bool-cases (leb u.created_at t.created_at)) [
  | inl e ↦ (t, rw e refl)
  | inr e ↦ (u, rw e refl)
]

unused_still :
    (h : String) (i at : ℕ) (ts : List TokenRow)
    → exists (λ (t : TokenRow). t.token_hash == h) ts ≡ false
    → exists
        (λ (t : TokenRow). t.token_hash == h)
        (update_where (λ (u : TokenRow). u.id == i) (λ u. record u { revoked_at = some at }) ts)
      ≡ false
unfolding select update_where
unused_still h i at [] e = e
unused_still h i at (t ∷ ts) e = elim (Bool-cases (t.token_hash == h)) [
  | inl same ↦ absurd (ground (arith, same, e))
  | inr other ↦ elim (Bool-cases (t.id == i)) [
    | inl mine ↦ rw mine (ground (arith, other, unused_still h i at ts (ground (arith, e, other))))
    | inr not_mine ↦
        rw not_mine (ground (arith, other, unused_still h i at ts (ground (arith, e, other))))
  ]
]

abbrev pub token_row : ℕ → ℕ → String → ℕ → TokenRow
token_row now id h i = record {
  id = i;
  user_id = id;
  token_hash = h;
  expires_at = now + seven_days;
  revoked_at = none;
  created_at = now;
}

-- The tables after one call has written.
abbrev pub rotated : ℕ → ℕ → String → TokenRow → Db → Db
rotated now id h t d = record d {
  refresh_tokens = record {
    rows =
        token_row now id h d.refresh_tokens.next
        ∷ update_where (λ (u : TokenRow). u.id == t.id) (λ u. record u { revoked_at = some now })
            d.refresh_tokens.rows;
    next = suc d.refresh_tokens.next;
  };
}

-- That user may get a token with that hash.
abbrev pub IsReady : ℕ → String → TokenRow → Db → Type 0
IsReady id h t d =
    (latest id d.refresh_tokens.rows ≡ some t)
    × (exists (λ (u : UserRow). u.id == id) d.users.rows ≡ true)
    × (exists (λ (t : TokenRow). t.token_hash == h) d.refresh_tokens.rows ≡ false)

abbrev revoked : ℕ → TokenRow → Db → Db
revoked now t d = record d {
  refresh_tokens = record d.refresh_tokens {
    rows =
        update_where (λ (u : TokenRow). u.id == t.id) (λ u. record u { revoked_at = some now })
          d.refresh_tokens.rows;
  };
}

revoke_latest_works :
    (id now : ℕ) (t : TokenRow) (d : Db)
    → latest id d.refresh_tokens.rows ≡ some t
    → revoke_latest id now d ≡ (row t.id, revoked now t d)
unfolding revoke_latest
revoke_latest_works id now t d e = rw (e, revoke_latest) refl

insert_token_works :
    (now id : ℕ) (h : String) (t : TokenRow) (d : Db)
    → IsReady id h t d
    → insert_token now id h (now + seven_days) (revoked now t d)
      ≡ (row d.refresh_tokens.next, rotated now id h t d)
unfolding insert_token
insert_token_works now id h t d (there, known, fresh) =
    rw (unused_still h t.id now d.refresh_tokens.rows fresh, known) refl

module _ {R H : Type 0} (now id : ℕ) (pair : TokenPair) where
  pub rotate_succeeds :
      (h : String) (t : TokenRow) (w : World R H)
      → IsReady id h t w.db
      → rotate now (id, (pair, h)) (online w)
        ≡ (ok pair, online (record w { db = rotated now id h t w.db }))
  unfolding rotate update_refresh_token store_refresh_token
  rotate_succeeds h t w ready =
      rw
        (
          query_succeeds Variable.persist_refresh_token (revoke_latest id now) w t.id
              (revoked now t w.db) (revoke_latest_works id now t w.db ready.0),
          query_succeeds Variable.persist_refresh_token (insert_token now id h (now + seven_days))
              (record w { db = revoked now t w.db }) w.db.refresh_tokens.next
              (rotated now id h t w.db) (insert_token_works now id h t w.db ready),
        )
        refl

new_is_latest :
    (now id : ℕ) (h : String) (t : TokenRow) (d : Db)
    → (u : TokenRow) × (latest id (rotated now id h t d).refresh_tokens.rows ≡ some u)
unfolding latest
new_is_latest now id h t d = rw ((nat_beq_iff id id).1 refl) (
    latest-newer (token_row now id h d.refresh_tokens.next)
      (latest id (revoked now t d).refresh_tokens.rows))

other_unused :
    (now id : ℕ) (h h' : String) (t : TokenRow) (d : Db)
    → h ≢ h'
    → exists (λ (t : TokenRow). t.token_hash == h') d.refresh_tokens.rows ≡ false
    → exists (λ (t : TokenRow). t.token_hash == h') (rotated now id h t d).refresh_tokens.rows
      ≡ false
unfolding select
other_unused now id h h' t d apart fresh = elim (Bool-cases (h == h')) [
  | inl same ↦ absurd (apart ((eq_iff h h').0 same))
  | inr other ↦ ground (arith, other, unused_still h' t.id now d.refresh_tokens.rows fresh)
]

-- A second hash, after the first was written.
pub still-IsReady :
    (now id : ℕ) (h h' : String) (t : TokenRow) (d : Db)
    → h ≢ h'
    → IsReady id h' t d
    → (u : TokenRow) × IsReady id h' u (rotated now id h t d)
still-IsReady now id h h' t d apart (there, known, fresh) =
    let (u, e) = new_is_latest now id h t d in
    (u, (e, known, other_unused now id h h' t d apart fresh))
