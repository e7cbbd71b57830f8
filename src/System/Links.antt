-- ===== src/System/Links.antt =====
-- The references between the tables of migrations/, and that the statements which add or change rows
-- respect them.
use notification_server.Base.{
  ℕ, String, ◌≡◌, refl, Bool-cases, inl, inr, Option, none, some, List, All, ◌==◌, string_eq,
  nat_eq, ◌&&◌, true,
}
use notification_server.Domain.Entities.{User, UploadStory, Story}
use notification_server.Store.Rows.{update_where_keeps_All}
use notification_server.Store.Tables.{
  Db, UserRow, StagingRow, VerificationRow, PreferencesRow, StoryRow, StoryJobRow, EmailJobRow,
  TokenRow, Status, select,
}
use notification_server.Repository.Verification.{
  insert_staging, insert_verification, promote, insert_preferences, staged_as, known_as, verifies,
}
use notification_server.Repository.Stories.{
  upload, insert_email_job, insert_story, insert_story_job, exists, is_story, owned_by, with_text,
}
use notification_server.Repository.Tokens.{insert_token, revoke_latest, latest}
use notification_server.System.Existence.{All-map, exists_later, exists_updated}

-- A row of that id is there.
abbrev pub HasUser : Db → ℕ → Type 0
HasUser d id = exists (λ (u : UserRow). u.id == id) d.users.rows ≡ true

abbrev pub HasStory : Db → ℕ → Type 0
HasStory d id = exists (is_story id) d.stories.rows ≡ true

abbrev pub HasStaged : Db → String → Type 0
HasStaged d email = exists (staged_as email) d.staging_users.rows ≡ true

-- Each row refers to rows that are there: preferences, stories and tokens to their users, jobs to
-- their stories, jobs of emails to their users too, verifications to their staged users.
abbrev pub IsLinked : Db → Type 0
IsLinked d =
    All (λ (p : PreferencesRow). HasUser d p.user_id) d.users_preferences.rows
    × All (λ (s : StoryRow). HasUser d s.user_id) d.stories.rows
    × All (λ (j : StoryJobRow). HasStory d j.story_id) d.story_jobs.rows
    × All (λ (j : EmailJobRow). HasStory d j.story_id × HasUser d j.user_id) d.email_jobs.rows
    × All (λ (t : TokenRow). HasUser d t.user_id) d.refresh_tokens.rows
    × All (λ (v : VerificationRow). HasStaged d v.email) d.email_verification.rows

pub staging-IsLinked : (u : User) (d : Db) → IsLinked d → IsLinked (insert_staging u d).1
unfolding insert_staging
staging-IsLinked u d (ps, ss, js, es, ts, vs) =
    elim (Bool-cases (exists (staged_as u.email) d.staging_users.rows)) [
      | inl e ↦ rw e (ps, ss, js, es, ts, vs)
      | inr e ↦ rw e (ps, ss, js, es, ts, All-map _ (λ v. exists_later (staged_as v.email) _ _) vs)
    ]

pub verification-IsLinked :
    (request email : String) (d : Db)
    → IsLinked d
    → IsLinked (insert_verification request email d).1
unfolding insert_verification
verification-IsLinked request email d (ps, ss, js, es, ts, vs) =
    elim (Bool-cases (exists (verifies email) d.email_verification.rows)) [
      | inl e ↦ rw e (ps, ss, js, es, ts, vs)
      | inr e ↦ elim (Bool-cases (exists (staged_as email) d.staging_users.rows)) [
        | inl f ↦ rw (e, f) (ps, ss, js, es, ts, (f, vs))
        | inr f ↦ rw (e, f) (ps, ss, js, es, ts, vs)
      ]
    ]

pub preferences-IsLinked :
    (id : ℕ) (xs : List String) (d : Db) → IsLinked d → IsLinked (insert_preferences id xs d).1
unfolding insert_preferences
preferences-IsLinked id xs d (ps, ss, js, es, ts, vs) =
    elim (Bool-cases (exists (λ (u : UserRow). u.id == id) d.users.rows)) [
      | inl e ↦ rw e ((e, ps), ss, js, es, ts, vs)
      | inr e ↦ rw e (ps, ss, js, es, ts, vs)
    ]

pub token-IsLinked :
    (now id : ℕ) (h : String) (at : ℕ) (d : Db)
    → IsLinked d
    → IsLinked (insert_token now id h at d).1
unfolding insert_token
token-IsLinked now id h at d (ps, ss, js, es, ts, vs) =
    elim (Bool-cases (exists (λ (t : TokenRow). t.token_hash == h) d.refresh_tokens.rows)) [
      | inl e ↦ rw e (ps, ss, js, es, ts, vs)
      | inr e ↦ elim (Bool-cases (exists (λ (u : UserRow). u.id == id) d.users.rows)) [
        | inl f ↦ rw (e, f) (ps, ss, js, es, (f, ts), vs)
        | inr f ↦ rw (e, f) (ps, ss, js, es, ts, vs)
      ]
    ]

pub story-IsLinked : (s : Story) (d : Db) → IsLinked d → IsLinked (insert_story s d).1
unfolding insert_story
story-IsLinked s d (ps, ss, js, es, ts, vs) =
    elim (Bool-cases (
      exists (λ (r : StoryRow). r.user_id == s.user_id && r.file_name == s.file_name)
        d.stories.rows)) [
          | inl e ↦ rw e (ps, ss, js, es, ts, vs)
          | inr e ↦ elim (Bool-cases (exists (λ (u : UserRow). u.id == s.user_id) d.users.rows)) [
            | inl f ↦
                rw (e, f)
                  (
                    ps,
                    (f, ss),
                    All-map _ (λ j. exists_later (is_story j.story_id) _ _) js,
                    All-map _ (λ j (a, b). (exists_later (is_story j.story_id) _ _ a, b)) es,
                    ts,
                    vs,
                  )
            | inr f ↦ rw (e, f) (ps, ss, js, es, ts, vs)
          ]
        ]

pub story_job-IsLinked :
    (id : ℕ) (status : Status) (d : Db) → IsLinked d → IsLinked (insert_story_job id status d).1
unfolding insert_story_job
story_job-IsLinked id status d (ps, ss, js, es, ts, vs) =
    elim (Bool-cases (exists (is_story id) d.stories.rows)) [
      | inl e ↦ rw e (ps, ss, (e, js), es, ts, vs)
      | inr e ↦ rw e (ps, ss, js, es, ts, vs)
    ]

pub email_job-IsLinked :
    (story user : ℕ) (status : Status) (d : Db)
    → IsLinked d
    → IsLinked (insert_email_job story user status d).1
unfolding insert_email_job
email_job-IsLinked story user status d (ps, ss, js, es, ts, vs) =
    elim (Bool-cases (exists (is_story story) d.stories.rows)) [
      | inl e ↦ elim (Bool-cases (exists (λ (u : UserRow). u.id == user) d.users.rows)) [
        | inl f ↦ rw (e, f) (ps, ss, js, ((e, f), es), ts, vs)
        | inr f ↦ rw (e, f) (ps, ss, js, es, ts, vs)
      ]
      | inr e ↦ rw e (ps, ss, js, es, ts, vs)
    ]

pub upload-IsLinked : (s : UploadStory) (d : Db) → IsLinked d → IsLinked (upload s d).1
unfolding upload
upload-IsLinked s d (ps, ss, js, es, ts, vs) = (
  ps,
  update_where_keeps_All _ (owned_by s.user_id) (with_text s.story) d.stories.rows (λ x h. h) ss,
  All-map _ (λ j. still j.story_id) js,
  All-map _ (λ j (a, b). (still j.story_id a, b)) es,
  ts,
  vs,
)
  where
    still : (id : ℕ) → HasStory d id → HasStory (upload s d).1 id
    still id =
        exists_updated (is_story id) (owned_by s.user_id) (with_text s.story) d.stories.rows
          (λ x. refl)

pub revocation-IsLinked : (id at : ℕ) (d : Db) → IsLinked d → IsLinked (revoke_latest id at d).1
unfolding revoke_latest
revocation-IsLinked id at d (ps, ss, js, es, ts, vs) = go (latest id d.refresh_tokens.rows) refl
  where
    go :
        (o : Option TokenRow)
        → latest id d.refresh_tokens.rows ≡ o
        → IsLinked (revoke_latest id at d).1
    go none e = rw (e, revoke_latest) (ps, ss, js, es, ts, vs)
    go (some t) e =
        rw (e, revoke_latest)
          (
            ps,
            ss,
            js,
            es,
            update_where_keeps_All (λ (t : TokenRow). HasUser d t.user_id)
                (λ (u : TokenRow). u.id == t.id) _ _ (λ x h. h) ts,
            vs,
          )

pub promotion-IsLinked : (email : String) (d : Db) → IsLinked d → IsLinked (promote email d).1
unfolding promote
promotion-IsLinked email d (ps, ss, js, es, ts, vs) =
    go (select (staged_as email) d.staging_users.rows) refl
  where
    go :
        (o : Option StagingRow)
        → select (staged_as email) d.staging_users.rows ≡ o
        → IsLinked (promote email d).1
    go none e = rw (e, promote) (ps, ss, js, es, ts, vs)
    go (some r) e = elim (Bool-cases (exists (known_as r.email) d.users.rows)) [
      | inl f ↦ rw (e, f, promote) (ps, ss, js, es, ts, vs)
      | inr f ↦
          rw (e, f, promote)
            (
              All-map _ (λ p. exists_later (λ (u : UserRow). u.id == p.user_id) _ _) ps,
              All-map _ (λ s. exists_later (λ (u : UserRow). u.id == s.user_id) _ _) ss,
              js,
              All-map _ (λ j (a, b). (a, exists_later (λ (u : UserRow). u.id == j.user_id) _ _ b))
                  es,
              All-map _ (λ t. exists_later (λ (u : UserRow). u.id == t.user_id) _ _) ts,
              vs,
            )
    ]
