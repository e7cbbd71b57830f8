-- ===== src/Jobs/Executer.antt =====
-- internal/usecase/story_executer.go and email_executer.go, with `GenerateStory` of
-- internal/infrastructure/ai/client.go and `SendNotificationEmail` of
-- internal/infrastructure/notification/mailer.go. The AI model is a parameter; logging is left out.
use notification_server.Base.{String, some, ◌∷◌, []}
use notification_server.Domain.Errors.{Code, text, str, new_domain_error, Message}
use notification_server.Domain.Entities.{Job}
use notification_server.Domain.Action.{Action, return, ◌>>=◌, ◌>>◌}
use notification_server.Store.Tables.{Status}
use notification_server.Store.World.{World, Mail, notification, call}
use notification_server.Repository.Stories.{upload_story, save_email_job}

-- `fmt.Sprintf(StoryGenerationPrompt, preferences)`, given to the model.
abbrev pub prompt : String → Message
prompt preferences = record {
  format =
      "\nYou are a story-generation assistant. Create a story based on the user's preferences..\nYou are allowed to use maximum 1000 words per story.\n\nuser preferences: %s\n";
  args = str preferences ∷ [];
}

module _ {R H : Type 0} where
  -- `model` answers a prompt with a text.
  unfoldable pub generate_story : (Message → String) → String → Action (World R H) String
  generate_story model preferences =
      call
        (new_domain_error Code.external (text "failed to generate story from ai model")
          (some "genai"))
        (λ w. (model (prompt preferences), w))

  unfoldable pub execute_story : (Message → String) → Job → Action (World R H) (Unit {0})
  execute_story model job = do
    output ← generate_story model job.user_preferences
    upload_story (record { user_id = job.user_id; story = output })
    email_job_id ← save_email_job job.story_id job.user_id Status.pending
    return tt

  abbrev pub send_mail : Mail → Action (World R H) (Unit {0})
  send_mail m =
      call (new_domain_error Code.external (text "failed to send email") (some "smtp"))
        (λ w. (tt, record w { mails = m ∷ w.mails }))

  unfoldable pub send_notification_email : String → Action (World R H) (Unit {0})
  send_notification_email email = send_mail (notification email)

  unfoldable pub execute_email : Job → Action (World R H) (Unit {0})
  execute_email job = send_notification_email job.user_email
