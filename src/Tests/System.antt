-- ===== src/Tests/System.antt =====
-- The theorems on the whole program, applied to concrete inputs.
use notification_server.Base.{
  false, refl, inl, ◌⊎◌, String, List, [], ◌∷◌, ◌++◌, ◌==◌, string_eq, if◌then◌else◌,
}
use notification_server.Store.Tables.{Db, empty_db}
use notification_server.Store.World.{World, Outcome, answered, dropped, lost}
use notification_server.Domain.Entities.{RegisteredUser}
use notification_server.Http.Gin.{Context}
use notification_server.Http.Routes.{
  Binders, post_register, post_verify, post_login, post_stories, delete_users,
}
use notification_server.App.{Config}
use notification_server.System.Turns.{
  Turn, request, story_round, email_round, story_tick, email_tick, turns,
}
use notification_server.System.Links.{IsLinked}
use notification_server.System.Integrity.{rows_stay-IsLinked}
use notification_server.System.Secrets.{IsSealed, secrets_stay_hashed}
use notification_server.Jobs.Pool.{Alive}
use notification_server.System.Survival.{StoryDone, EmailDone}
use notification_server.System.Stories.{story_survives}
use notification_server.System.Emails.{email_survives}
use notification_server.Tests.Journeys.{strokes, strokes_encode, codec_of_strokes, by_test}
use notification_server.Tests.Accounts.{with_db}
use notification_server.Tests.Memory.{Memory, memory, empty_memory}
use notification_server.Tests.Otps.{Cells, otps, crypto}
use notification_server.Tests.Runs.{half}
use notification_server.Tests.Samples.{new_codec, job_with}
use notification_server.Tests.Tokens.{jwt}
use notification_server.Tests.Web.{reading, moment, ten_requests}

abbrev pub settings : Config
settings = record {
  jwt_access_secret = "a-key";
  jwt_refresh_secret = "r-key";
  jwt_iss = "notification";
  rate_limiter = ten_requests;
  otp_expiration = 2;
  bcrypt_cost = 10;
  max_allowed_size = 1_000_000;
  story_generation_stream = "stories";
  email_notification_stream = "emails";
  story_dlq_stream = "story_dlq";
  email_dlq_stream = "email_dlq";
  story_consumer_group = "workers";
  email_consumer_group = "mailers";
  story_retry_stream = "retry_stories";
  email_retry_stream = "retry_emails";
  job_retry_count = 3;
}

-- Ann registers, verifies the email, logs in and asks for a story.
abbrev pub newcomer : RegisteredUser
newcomer = record {
  first_name = "Ann";
  last_name = "Lee";
  email = "ann@x.org";
  password = "secret";
  preferences = "sea" ∷ "cats" ∷ [];
}

abbrev bodies : Binders
bodies = record {
  registered_user = reading newcomer;
  register_verify = reading "42";
  login_user = reading (record { email = "ann@x.org"; password = "secret" });
  delete_user = reading 7;
  forbids = λ c. false;
}

abbrev fields : String → String
fields k =
    if k == "Authorization"
    then "Bearer access"
    else if k == "Content-Type"
    then "application/json"
    else if k == "X-Refresh-Token"
    then "refresh"
    else if k == "X-Request-Id"
    then "r1"
    else ""

abbrev asked : Context
asked = record { client_ip = "10.0.0.1"; header = fields; body = ""; request_id = ""; user_id = 0 }

-- No rows; the sequences stand where the sample codec and the sample tokens expect them.
abbrev pub start : Db
start = record empty_db {
  users = record { rows = []; next = 7 };
  stories = record { rows = []; next = 9 };
  story_jobs = record { rows = []; next = 4 };
}

-- With the pools in between.
abbrev farewell : List Turn
farewell = request delete_users asked moment ∷ []

abbrev week : List Turn
week =
    request post_register asked moment
    ∷ request post_verify asked moment
    ∷ request post_login asked moment
    ∷ request post_stories asked moment
    ∷ story_round 1 half 0
    ∷ story_tick 9_000_000_000
    ∷ email_round 1 half 0
    ∷ email_tick 9_000_000_000
    ∷ []

secrets_stay_hashed_example :
    IsSealed crypto
      (turns memory new_codec otps crypto jwt bodies
        (λ m. "a story")
        settings
        week
        (with_db start [])).db
secrets_stay_hashed_example =
    secrets_stay_hashed memory new_codec otps crypto jwt bodies (λ m. "a story") settings week
      (with_db start []) (tt, tt, tt)

rows_stay-IsLinked_example :
    IsLinked
      (turns memory new_codec otps crypto jwt bodies
        (λ m. "a story")
        settings
        (week ++ farewell)
        (with_db start [])).db
rows_stay-IsLinked_example =
    rows_stay-IsLinked memory new_codec otps crypto jwt bodies (λ m. "a story") settings
      (week ++ farewell) (with_db start []) (tt, tt, tt, tt, tt, tt)

-- Ann's story job stands in the stream of the stories, and in the stream of the emails.
abbrev with_job : String → List Outcome → World Memory Cells
with_job k faults = record (with_db start faults) {
  broker = (memory.xadd k (strokes 0) empty_memory).1;
}

-- The first workers fail, and Ann registers in between.
abbrev bad_day : List Turn
bad_day =
    story_round 1 half 0
    ∷ email_round 1 half 0
    ∷ request post_register asked moment
    ∷ story_tick 9_000_000_000
    ∷ email_tick 9_000_000_000
    ∷ story_round 2 half 9_000_000_000
    ∷ email_round 2 half 9_000_000_000
    ∷ []

abbrev faulty : List Outcome
faulty = answered ∷ dropped ∷ answered ∷ lost ∷ answered ∷ lost ∷ []

story_survives_example :
    Alive memory "stories" "story_dlq"
      (job_with 0)
      strokes
      (turns memory codec_of_strokes otps crypto jwt bodies
        (λ m. "a story")
        settings
        bad_day
        (with_job "stories" faulty)).broker
    ⊎ StoryDone memory codec_of_strokes otps crypto jwt bodies
        (λ m. "a story")
        settings
        (job_with 0)
        bad_day
        (with_job "stories" faulty)
story_survives_example =
    story_survives memory codec_of_strokes otps crypto jwt bodies (λ m. "a story") settings
      (job_with 0) strokes strokes_encode (by_test "stories" "story_dlq" refl)
      (by_test "emails" "stories" refl) (by_test "emails" "story_dlq" refl)
      (by_test "retry_emails" "retry_stories" refl) bad_day (with_job "stories" faulty)
      (0, inl (1, refl))

email_survives_example :
    Alive memory "emails" "email_dlq"
      (job_with 0)
      strokes
      (turns memory codec_of_strokes otps crypto jwt bodies
        (λ m. "a story")
        settings
        bad_day
        (with_job "emails" faulty)).broker
    ⊎ EmailDone memory codec_of_strokes otps crypto jwt bodies
        (λ m. "a story")
        settings
        (job_with 0)
        bad_day
        (with_job "emails" faulty)
email_survives_example =
    email_survives memory codec_of_strokes otps crypto jwt bodies (λ m. "a story") settings
      (job_with 0) strokes strokes_encode (by_test "emails" "email_dlq" refl)
      (by_test "stories" "emails" refl) (by_test "stories" "email_dlq" refl)
      (by_test "retry_stories" "retry_emails" refl) bad_day (with_job "emails" faulty)
      (0, inl (1, refl))
