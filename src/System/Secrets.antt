-- ===== src/System/Secrets.antt =====
-- What the tables hold of the secrets of a user, after any turns of the program.
use notification_server.Base.{
  ℕ, String, ◌+◌, ◌≡◌, refl, Option, none, some, List, All, ◌==◌, string_eq, nat_eq, ◌&&◌, ◌||◌,
  not, Bool, true, false, if◌then◌else◌,
}
use notification_server.Domain.Errors.{Message}
use notification_server.Domain.Entities.{User}
use notification_server.Store.Broker.{Broker}
use notification_server.Store.Hashes.{Hashes}
use notification_server.Store.Rows.{select-All, delete_where_keeps_All, update_where_keeps_All}
use notification_server.Store.Tables.{Db, UserRow, StagingRow, TokenRow, StoryRow, select}
use notification_server.Store.World.{World}
use notification_server.Queue.Codec.{Codec}
use notification_server.Security.Hash.{Crypto}
use notification_server.Security.Jwt.{Jwt}
use notification_server.Repository.Users.{delete_user_row, cascade}
use notification_server.Repository.Verification.{
  insert_staging, insert_verification, promote, insert_preferences, unstage, staged_as, known_as,
  verifies,
}
use notification_server.Repository.Stories.{
  upload, insert_email_job, set_story_job, set_email_job, insert_story, insert_story_job, exists,
  is_story,
}
use notification_server.Repository.Tokens.{insert_token, revoke_latest, latest}
use notification_server.Users.Session.{seven_days}
use notification_server.Http.Routes.{Binders}
use notification_server.App.{Config}
use notification_server.System.Stable.{Stable, IsHash, IsSumHash}
use notification_server.System.Pools.{Steady}
use notification_server.System.Turns.{Turn, turns, turns_keep}

module _ (K : Crypto) where
  -- The hash of a token, which expires seven days after it was made.
  abbrev pub IsGuarded : TokenRow → Type 0
  IsGuarded t = IsSumHash K t.token_hash × (t.expires_at ≡ t.created_at + seven_days)

  -- No secret stands in the tables as it is.
  abbrev pub IsSealed : Db → Type 0
  IsSealed d =
      All (λ (u : UserRow). IsHash K u.password) d.users.rows
      × All (λ (r : StagingRow). IsHash K r.password) d.staging_users.rows
      × All IsGuarded d.refresh_tokens.rows

module _ {A : Type 0} (P : Db → Type 0) where
  if-Sealed : (b : Bool) (x y : A × Db) → P x.1 → P y.1 → P (if b then x else y).1
  if-Sealed true x y f g = f
  if-Sealed false x y f g = g

module _ (K : Crypto) where
  staging-IsSealed :
      (u : User) (d : Db) → IsHash K u.password → IsSealed K d → IsSealed K (insert_staging u d).1
  unfolding insert_staging
  staging-IsSealed u d h (us, st, ts) =
      if-Sealed (IsSealed K) (exists (staged_as u.email) d.staging_users.rows) _ _ (us, st, ts)
        (us, (h, st), ts)

  promotion-IsSealed : (email : String) (d : Db) → IsSealed K d → IsSealed K (promote email d).1
  unfolding promote
  promotion-IsSealed email d (us, st, ts) = go (select (staged_as email) d.staging_users.rows) refl
    where
      go :
          (o : Option StagingRow)
          → select (staged_as email) d.staging_users.rows ≡ o
          → IsSealed K (promote email d).1
      go none e = rw (e, promote) (us, st, ts)
      go (some r) e =
          rw (e, promote)
            (if-Sealed (IsSealed K) (exists (known_as r.email) d.users.rows) _ _ (us, st, ts)
              ((select-All _ (staged_as email) d.staging_users.rows r st e, us), st, ts))

  unstage-IsSealed : (email : String) (d : Db) → IsSealed K d → IsSealed K (unstage email d).1
  unfolding unstage
  unstage-IsSealed email d (us, st, ts) = go (select (staged_as email) d.staging_users.rows) refl
    where
      go :
          (o : Option StagingRow)
          → select (staged_as email) d.staging_users.rows ≡ o
          → IsSealed K (unstage email d).1
      go none e = rw (e, unstage) (us, st, ts)
      go (some r) e = rw (e, unstage) (us, delete_where_keeps_All _ (staged_as email) _ st, ts)

  deletion-IsSealed : (id : ℕ) (d : Db) → IsSealed K d → IsSealed K (delete_user_row id d).1
  unfolding delete_user_row cascade
  deletion-IsSealed id d (us, st, ts) = go (select (λ (u : UserRow). u.id == id) d.users.rows) refl
    where
      go :
          (o : Option UserRow)
          → select (λ (u : UserRow). u.id == id) d.users.rows ≡ o
          → IsSealed K (delete_user_row id d).1
      go none e = rw (e, delete_user_row) (us, st, ts)
      go (some u) e =
          rw (e, delete_user_row)
            (
              delete_where_keeps_All _ (λ (u : UserRow). u.id == id) _ us,
              st,
              delete_where_keeps_All _ (λ (t : TokenRow). t.user_id == id) _ ts,
            )

  token-IsSealed :
      (now id : ℕ) (h : String) (d : Db)
      → IsSumHash K h
      → IsSealed K d
      → IsSealed K (insert_token now id h (now + seven_days) d).1
  unfolding insert_token
  token-IsSealed now id h d made (us, st, ts) =
      if-Sealed (IsSealed K)
        (exists (λ (t : TokenRow). t.token_hash == h) d.refresh_tokens.rows
          || not (exists (λ (u : UserRow). u.id == id) d.users.rows))
        _ _ (us, st, ts) (us, st, ((made, refl), ts))

  revocation-IsSealed : (id at : ℕ) (d : Db) → IsSealed K d → IsSealed K (revoke_latest id at d).1
  unfolding revoke_latest
  revocation-IsSealed id at d (us, st, ts) = go (latest id d.refresh_tokens.rows) refl
    where
      go :
          (o : Option TokenRow)
          → latest id d.refresh_tokens.rows ≡ o
          → IsSealed K (revoke_latest id at d).1
      go none e = rw (e, revoke_latest) (us, st, ts)
      go (some t) e =
          rw (e, revoke_latest)
            (
              us,
              st,
              update_where_keeps_All (IsGuarded K) (λ (u : TokenRow). u.id == t.id) _ _ (λ x h. h)
                  ts,
            )

  IsSealed-Stable : (B : Broker) → Stable B K (λ d _. IsSealed K d)
  unfolding insert_verification insert_preferences insert_story insert_story_job
  IsSealed-Stable B = record {
    by_staging = λ u d r h s. staging-IsSealed u d h s;
    by_verification = λ request email d r s.
        if-Sealed (IsSealed K)
          (exists (verifies email) d.email_verification.rows
            || not (exists (staged_as email) d.staging_users.rows))
          _ _ s s;
    by_promotion = λ email d r s. promotion-IsSealed email d s;
    by_preferences = λ id ps d r s.
        if-Sealed (IsSealed K) (exists (λ (u : UserRow). u.id == id) d.users.rows) _ _ s s;
    by_unstaging = λ email d r s. unstage-IsSealed email d s;
    by_deletion = λ id d r s. deletion-IsSealed id d s;
    by_token = λ now id h d r made s. token-IsSealed now id h d made s;
    by_revocation = λ id at d r s. revocation-IsSealed id at d s;
    by_story = λ x d r s.
        if-Sealed (IsSealed K)
          (exists (λ (r : StoryRow). r.user_id == x.user_id && r.file_name == x.file_name)
              d.stories.rows
            || not (exists (λ (u : UserRow). u.id == x.user_id) d.users.rows))
          _ _ s s;
    by_story_job =
        λ id status d r s. if-Sealed (IsSealed K) (exists (is_story id) d.stories.rows) _ _ s s;
    by_add = λ k v d r s. s;
  }

  IsSealed-Steady : Steady (IsSealed K)
  unfolding upload insert_email_job set_story_job set_email_job
  IsSealed-Steady = record {
    by_upload = λ x d s. s;
    by_email_job = λ story user status d s.
        if-Sealed (IsSealed K)
          (exists (is_story story) d.stories.rows
            && exists (λ (u : UserRow). u.id == user) d.users.rows)
          _ _ s s;
    by_story_status = λ story status d s. s;
    by_email_status = λ story user status d s. s;
  }

module _ (B : Broker) (C : Codec) (S : Hashes) (K : Crypto) (J : Jwt) (binders : Binders)
    (model : Message → String) (cfg : Config) where
  -- If every password in the tables of users and of staged users is a bcrypt hash, and every refresh
  -- token there is the bcrypt hash of a SHA-256 sum that expires seven days after it was made, then so
  -- it is after any requests on the routes, any rounds of the workers and of the schedulers, in any
  -- order, whatever the network does to their commands.
  pub secrets_stay_hashed :
      (ts : List Turn) (w : World B.State S.State)
      → IsSealed K w.db
      → IsSealed K (turns B C S K J binders model cfg ts w).db
  secrets_stay_hashed =
      turns_keep B C S K J binders model cfg (IsSealed K) (IsSealed-Stable K B) (IsSealed-Steady K)
