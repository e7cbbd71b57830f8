-- ===== src/Jobs/Overwrite.antt =====
-- Which stories `Execute` of story_executer.go writes, by way of `UploadStory`.
use notification_server.Base.{ℕ, String, ◌≡◌, refl, arith, nat_eq, some, nat_beq_iff, All}
use notification_server.Domain.Errors.{Message, Error, Code, text, new_domain_error}
use notification_server.Domain.Entities.{Job, UploadStory}
use notification_server.Domain.Action.{ok}
use notification_server.Store.Tables.{StoryRow, Status, Db}
use notification_server.Store.World.{
  World, Outcome, answered, dropped, lost, call, deliver, next, after,
}
use notification_server.Store.Triple.{Post}
use mathlib.Core.Path.{subst}
use notification_server.Store.Rows.{update_where-All}
use notification_server.Store.DbTriple.{DbTriple, Db-query, Db-bind, Db-return, Db-ok}
use notification_server.Repository.Stories.{
  upload, upload_story, insert_email_job, save_email_job, owned_by, with_text,
}
use notification_server.Jobs.Executer.{execute_story, generate_story, prompt}

-- Every story of the user reads that text.
abbrev pub AllRead : ℕ → String → Db → Type 0
AllRead id text d = All (λ (s : StoryRow). s.user_id ≡ id → s.story ≡ text) d.stories.rows

uploaded : (s : UploadStory) (d : Db) → AllRead s.user_id s.story (upload s d).1
unfolding upload
uploaded s d =
    update_where-All (owned_by s.user_id) (with_text s.story) (λ r. r.user_id ≡ s.user_id)
      (λ r. r.story ≡ s.story) d.stories.rows (λ r e. (nat_beq_iff r.user_id s.user_id).1 e)
      (λ r. refl)

insert_email_job_keeps :
    (story_id user_id : ℕ) (status : Status) (d : Db)
    → (insert_email_job story_id user_id status d).1.stories ≡ d.stories
unfolding insert_email_job
insert_email_job_keeps story_id user_id status d = ground arith

abbrev unanswered : Error
unanswered =
    new_domain_error Code.external (text "failed to generate story from ai model") (some "genai")

module _ {R H : Type 0} where
  generated :
      (model : Message → String) (preferences : String)
      → DbTriple {R = R} {H = H}
          (λ d. Unit {0})
          (generate_story model preferences)
          (λ text d. text ≡ model (prompt preferences))
          (λ d. Unit {0})
  unfolding generate_story call
  generated model preferences = record { at = λ w h. go (next w.link) w }
    where
      go :
          (o : Outcome) (w : World R H)
          → Post
              (λ text d. text ≡ model (prompt preferences))
              (λ d. Unit {0})
              (deliver unanswered o
                (λ w. (model (prompt preferences), w))
                (record w { link = after w.link })).0
              (deliver unanswered o
                (λ w. (model (prompt preferences), w))
                (record w { link = after w.link })).1.db
      go answered w = refl
      go dropped w = tt
      go lost w = tt

  -- Where a story job is executed without an error, every story of its user reads the new text, and
  -- not only the story of the job, whatever the network did.
  pub execute_story-AllRead :
      (model : Message → String) (job : Job) (w : World R H)
      → (execute_story model job w).0 ≡ ok tt
      → AllRead job.user_id (model (prompt job.user_preferences)) (execute_story model job w).1.db
  unfolding execute_story generate_story upload_story save_email_job
  execute_story-AllRead model job w done =
      Db-ok {P = λ d. Unit} {Q = λ _ d. AllRead job.user_id (model (prompt job.user_preferences)) d}
        (Db-bind {E = λ d. Unit {0}} {Q = λ text d. text ≡ model (prompt job.user_preferences)}
          (generated model job.user_preferences)
          λ text.
            Db-bind
              {Q = λ _ d. AllRead job.user_id text d × (text ≡ model (prompt job.user_preferences))}
              (Db-query _ (upload (record { user_id = job.user_id; story = text }))
                (λ d h a f. (uploaded (record { user_id = job.user_id; story = text }) d, h))
                (λ d h. tt) (λ d h. tt))
              λ _.
                Db-bind
                  {Q = λ _ d.
                    AllRead job.user_id text d × (text ≡ model (prompt job.user_preferences))}
                  (Db-query _ (insert_email_job job.story_id job.user_id Status.pending)
                    (λ d h a f. (
                      rw (insert_email_job_keeps job.story_id job.user_id Status.pending d) h.0,
                      h.1,
                    ))
                    (λ d h. tt) (λ d h. tt))
                  λ i. Db-return _ (λ d h. subst (λ t. AllRead job.user_id t d) h.1 h.0))
        w tt tt done
