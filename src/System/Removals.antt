-- ===== src/System/Removals.antt =====
-- That the statements which delete rows leave no reference to them.
use notification_server.Base.{
  ℕ, String, ◌≡◌, refl, Bool-cases, inl, inr, Option, none, some, List, [], ◌∷◌, ◌==◌, string_eq,
  nat_eq, ◌&&◌, true, false, arith, eq_iff,
}
use notification_server.Store.Tables.{
  Db, UserRow, StagingRow, VerificationRow, PreferencesRow, StoryRow, StoryJobRow, EmailJobRow,
  TokenRow, select, delete_where,
}
use notification_server.Repository.Users.{delete_user_row, cascade, of_user}
use notification_server.Repository.Verification.{unstage, staged_as, verifies}
use notification_server.Repository.Stories.{exists, is_story, owned_by}
use notification_server.System.Existence.{All-map, exists_later, exists_kept, delete_where_leaves}
use notification_server.System.Links.{HasUser, HasStory, HasStaged, IsLinked}

pub unstage-IsLinked : (email : String) (d : Db) → IsLinked d → IsLinked (unstage email d).1
unfolding unstage
unstage-IsLinked email d (ps, ss, js, es, ts, vs) =
    go (select (staged_as email) d.staging_users.rows) refl
  where
    others :
        (v : VerificationRow)
        → (verifies email v ≡ false) × HasStaged d v.email
        → exists (staged_as v.email) (delete_where (staged_as email) d.staging_users.rows) ≡ true
    others v (other, h) =
        exists_kept (staged_as v.email) (staged_as email) d.staging_users.rows
          (λ r e.
            ground
              (arith, other, e, eq_iff r.email v.email, eq_iff r.email email, eq_iff v.email email))
          h

    go :
        (o : Option StagingRow)
        → select (staged_as email) d.staging_users.rows ≡ o
        → IsLinked (unstage email d).1
    go none e = rw (e, unstage) (ps, ss, js, es, ts, vs)
    go (some r) e =
        rw (e, unstage)
          (
            ps,
            ss,
            js,
            es,
            ts,
            All-map _ others (delete_where_leaves _ (verifies email) d.email_verification.rows vs),
          )

-- What a cascade leaves of the stories and their jobs.
module _ (id : ℕ) (d : Db) where
  user_left : (i : ℕ) → (i == id) ≡ false → HasUser d i → HasUser (cascade id d) i
  unfolding cascade
  user_left i other =
      exists_kept (λ (u : UserRow). u.id == i) (λ (u : UserRow). u.id == id) d.users.rows
        (λ u e. ground (arith, other, e))

  story_left :
      (i : ℕ) → of_user id d.stories.rows i ≡ false → HasStory d i → HasStory (cascade id d) i
  unfolding cascade select delete_where
  story_left i other h = go d.stories.rows other h
    where
      go :
          (xs : List StoryRow)
          → exists (λ (s : StoryRow). s.id == i && s.user_id == id) xs ≡ false
          → exists (is_story i) xs ≡ true
          → exists (is_story i) (delete_where (owned_by id) xs) ≡ true
      go [] other h = h
      go (s ∷ xs) other h = elim (Bool-cases (s.user_id == id)) [
        | inl f ↦ elim (Bool-cases (s.id == i)) [
          | inl e ↦ absurd (ground (arith, other, e, f))
          | inr e ↦ rw f (go xs (ground (arith, other, e, f)) (ground (arith, h, e)))
        ]
        | inr f ↦ elim (Bool-cases (s.id == i)) [
          | inl e ↦ ground (arith, e, f)
          | inr e ↦ rw f (
              exists_later (is_story i) s _
                (go xs (ground (arith, other, e, f)) (ground (arith, h, e))))
        ]
      ]

  cascade-IsLinked : IsLinked d → IsLinked (cascade id d)
  unfolding cascade
  cascade-IsLinked (ps, ss, js, es, ts, vs) = (
    All-map _ (λ p (other, h). user_left p.user_id other h)
        (delete_where_leaves _ (λ (p : PreferencesRow). p.user_id == id) d.users_preferences.rows
          ps),
    All-map _ (λ s (other, h). user_left s.user_id other h)
        (delete_where_leaves _ (λ (s : StoryRow). s.user_id == id) d.stories.rows ss),
    All-map _ (λ j (other, h). story_left j.story_id other h)
        (delete_where_leaves _ (λ (j : StoryJobRow). of_user id d.stories.rows j.story_id)
          d.story_jobs.rows js),
    All-map _
        (λ j (theirs, (other, (a, b))).
          (story_left j.story_id other a, user_left j.user_id theirs b))
        (delete_where_leaves _ (λ (j : EmailJobRow). j.user_id == id) _
          (delete_where_leaves _ (λ (j : EmailJobRow). of_user id d.stories.rows j.story_id)
            d.email_jobs.rows es)),
    All-map _ (λ t (other, h). user_left t.user_id other h)
        (delete_where_leaves _ (λ (t : TokenRow). t.user_id == id) d.refresh_tokens.rows ts),
    vs,
  )

pub deletion-IsLinked : (id : ℕ) (d : Db) → IsLinked d → IsLinked (delete_user_row id d).1
unfolding delete_user_row
deletion-IsLinked id d h = go (select (λ (u : UserRow). u.id == id) d.users.rows) refl
  where
    go :
        (o : Option UserRow)
        → select (λ (u : UserRow). u.id == id) d.users.rows ≡ o
        → IsLinked (delete_user_row id d).1
    go none e = rw (e, delete_user_row) h
    go (some u) e = rw (e, delete_user_row) (cascade-IsLinked id d h)
