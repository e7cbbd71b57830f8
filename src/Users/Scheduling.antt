-- ===== src/Users/Scheduling.antt =====
-- `ScheduleStoryGeneration` of internal/usecase/story_service.go. Logging is left out.
use notification_server.Base.{ℕ, String, List, [], ◌∷◌}
use Prim.Native.String.{◌++◌}
use notification_server.Domain.Errors.{Message, text}
use notification_server.Domain.Action.{Action, return, ◌>>=◌, ◌>>◌}
use notification_server.Store.Broker.{Broker}
use notification_server.Store.Tables.{Status}
use notification_server.Store.World.{World}
use notification_server.Queue.Codec.{Codec}
use notification_server.Queue.Task.{add}
use notification_server.Repository.Users.{get_user_by_id, get_user_preferences_by_id}
use notification_server.Repository.Stories.{save_story_info, save_story_job}

-- `strings.Join(words, "-")`
abbrev pub joined : List String → String
joined [] = ""
joined (w ∷ []) = w
joined (w ∷ x ∷ ws) = w ++ ("-" ++ joined (x ∷ ws))

abbrev pub file_name : String → String
file_name keywords = "story-" ++ keywords

module _ (B : Broker) (C : Codec) {H : Type 0} where
  unfoldable pub schedule_story_generation : String → String → ℕ → Action (World B.State H) Message
  schedule_story_generation req_id stream user_id = do
    user ← get_user_by_id user_id
    userp ← get_user_preferences_by_id user_id
    let keywords = joined userp.user_preferences
    story_id ←
        save_story_info (record { file_name = file_name keywords; user_id = user_id; story = "" })
    story_job_id ← save_story_job story_id Status.pending
    add B C
        (record {
          job_id = story_job_id;
          user_id = user_id;
          story_id = story_id;
          user_email = user.email;
          user_preferences = keywords;
          retry_counts = 0;
          request_id = req_id;
        })
        stream
    return (text "Your story is being generated. You will be notified by email")
