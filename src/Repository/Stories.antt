-- ===== src/Repository/Stories.antt =====
-- `StoryRepo` of user_postgres.go: the tables stories, story_jobs and email_jobs.
use notification_server.Base.{
  ℕ, String, Bool, true, false, ◌&&◌, ◌||◌, not, none, some, List, ◌==◌, nat_eq, string_eq,
  if◌then◌else◌,
}
use notification_server.Domain.Errors.{Variable}
use notification_server.Domain.Entities.{Story, UploadStory}
use notification_server.Domain.Action.{Action}
use notification_server.Store.Tables.{
  UserRow, StoryRow, StoryJobRow, EmailJobRow, Status, Db, Reply, row, no_rows, refused, select,
  update_where, insert, burn, with_rows,
}
use notification_server.Store.World.{World, query}

abbrev pub exists {ℓ} : {A : Type ℓ} → (A → Bool) → List A → Bool
exists p xs = elim (select p xs) [ none ↦ false | some _ ↦ true ]

-- What UPDATE … RETURNING id answers.
abbrev updated {ℓ} : {A : Type ℓ} → (A → Bool) → List A → Reply (Unit {ℓ})
updated p xs = elim (select p xs) [ none ↦ no_rows | some _ ↦ row tt ]

-- stories_user_file_unique, and the foreign key to users.
unfoldable pub insert_story : Story → Db → Reply ℕ × Db
insert_story s d =
    if exists (λ (r : StoryRow). r.user_id == s.user_id && r.file_name == s.file_name)
        d.stories.rows
      || not (exists (λ (u : UserRow). u.id == s.user_id) d.users.rows)
    then (refused, record d { stories = burn d.stories })
    else (row d.stories.next, record d { stories = insert d.stories new_row })
  where
    new_row : ℕ → StoryRow
    new_row i = record { id = i; file_name = s.file_name; user_id = s.user_id; story = s.story }

abbrev pub is_story : ℕ → StoryRow → Bool
is_story id s = s.id == id

-- WHERE user_id = $2
abbrev pub owned_by : ℕ → StoryRow → Bool
owned_by user s = s.user_id == user

abbrev pub with_text : String → StoryRow → StoryRow
with_text text s = record s { story = text }

unfoldable pub upload : UploadStory → Db → Reply (Unit {0}) × Db
upload s d = (
  updated (owned_by s.user_id) d.stories.rows,
  record d {
    stories =
        with_rows d.stories (update_where (owned_by s.user_id) (with_text s.story) d.stories.rows);
  },
)

unfoldable pub insert_story_job : ℕ → Status → Db → Reply ℕ × Db
insert_story_job story_id status d =
    if exists (is_story story_id) d.stories.rows
    then (row d.story_jobs.next, record d { story_jobs = insert d.story_jobs new_row })
    else (refused, record d { story_jobs = burn d.story_jobs })
  where
    new_row : ℕ → StoryJobRow
    new_row i = record { id = i; story_id = story_id; status = status }

abbrev pub job_of_story : ℕ → StoryJobRow → Bool
job_of_story story_id j = j.story_id == story_id

abbrev pub with_status : Status → StoryJobRow → StoryJobRow
with_status status j = record j { status = status }

unfoldable pub set_story_job : ℕ → Status → Db → Reply (Unit {0}) × Db
set_story_job story_id status d = (
  updated (job_of_story story_id) d.story_jobs.rows,
  record d {
    story_jobs =
        with_rows d.story_jobs
          (update_where (job_of_story story_id) (with_status status) d.story_jobs.rows);
  },
)

abbrev pub mail_of_story : ℕ → ℕ → EmailJobRow → Bool
mail_of_story story_id user_id j = j.story_id == story_id && j.user_id == user_id

abbrev pub with_mail_status : Status → EmailJobRow → EmailJobRow
with_mail_status status j = record j { status = status }

unfoldable pub set_email_job : ℕ → ℕ → Status → Db → Reply (Unit {0}) × Db
set_email_job story_id user_id status d = (
  updated (mail_of_story story_id user_id) d.email_jobs.rows,
  record d {
    email_jobs =
        with_rows d.email_jobs (
          update_where (mail_of_story story_id user_id) (with_mail_status status)
            d.email_jobs.rows);
  },
)

unfoldable pub insert_email_job : ℕ → ℕ → Status → Db → Reply ℕ × Db
insert_email_job story_id user_id status d =
    if exists (is_story story_id) d.stories.rows
      && exists (λ (u : UserRow). u.id == user_id) d.users.rows
    then (row d.email_jobs.next, record d { email_jobs = insert d.email_jobs new_row })
    else (refused, record d { email_jobs = burn d.email_jobs })
  where
    new_row : ℕ → EmailJobRow
    new_row i = record { id = i; story_id = story_id; user_id = user_id; status = status }

module _ {R H : Type 0} where
  unfoldable pub save_story_info : Story → Action (World R H) ℕ
  unfolding insert_story
  save_story_info s = query Variable.persist_story (insert_story s)

  unfoldable pub upload_story : UploadStory → Action (World R H) (Unit {0})
  unfolding upload
  upload_story s = query Variable.user_not_found (upload s)

  unfoldable pub save_story_job : ℕ → Status → Action (World R H) ℕ
  unfolding insert_story_job
  save_story_job story_id status = query Variable.story_not_found (insert_story_job story_id status)

  unfoldable pub update_story_job : ℕ → Status → Action (World R H) (Unit {0})
  unfolding set_story_job
  update_story_job story_id status = query Variable.story_not_found (set_story_job story_id status)

  unfoldable pub update_email_job : ℕ → ℕ → Status → Action (World R H) (Unit {0})
  unfolding set_email_job
  update_email_job story_id user_id status =
      query Variable.story_not_found (set_email_job story_id user_id status)

  unfoldable pub save_email_job : ℕ → ℕ → Status → Action (World R H) ℕ
  unfolding insert_email_job
  save_email_job story_id user_id status =
      query Variable.story_not_found (insert_email_job story_id user_id status)
