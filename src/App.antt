-- ===== src/App.antt =====
-- internal/application/app.go: the settings of internal/infrastructure/configs/configs.go that `Run`
-- hands to the parts, and the parts that it builds of them.
pub mod Lifecycle
pub mod Retries
use notification_server.Base.{ℕ, String, ◌≢◌, List, eq_iff, arith}
use notification_server.Store.Broker.{Broker}
use notification_server.Store.World.{World}
use notification_server.Queue.Codec.{Codec}
use notification_server.Queue.Task.{retry_queue}
use notification_server.Queue.Task.Laws.{Scheduled, xadd-Scheduled}
use notification_server.Queue.Rounds.{scheduler_spares}
use notification_server.Queue.Scheduler.{Event, Scheduler, run}
use notification_server.Jobs.Completion.{StoryStreams, EmailStreams}
use notification_server.Http.RateLimiter.{RateLimiter}
use notification_server.Http.Handlers.{Site}

-- The fields of `Config` that the parts depend on; addresses, keys of other services and files are
-- left out.
pub record Config : Type 0 where
  pub jwt_access_secret : String
  pub jwt_refresh_secret : String
  pub jwt_iss : String
  -- RATE_LIMITER_CAPACITY and RATE_LIMITER_FILL_RATE
  pub rate_limiter : RateLimiter
  pub otp_expiration : ℕ
  pub bcrypt_cost : ℕ
  pub max_allowed_size : ℕ
  pub story_generation_stream : String
  pub email_notification_stream : String
  pub story_dlq_stream : String
  pub email_dlq_stream : String
  pub story_consumer_group : String
  pub email_consumer_group : String
  pub story_retry_stream : String
  pub email_retry_stream : String
  pub job_retry_count : ℕ

-- `NewStoryGenerationJobCompletion` and `NewEmailNotificationJobCompletion`, each with its `Task`.
abbrev pub story_streams_of : Config → StoryStreams
story_streams_of cfg = record {
  group = cfg.story_consumer_group;
  story_stream = cfg.story_generation_stream;
  notification_stream = cfg.email_notification_stream;
  dead_letter_queue_stream = cfg.story_dlq_stream;
}

abbrev pub email_streams_of : Config → EmailStreams
email_streams_of cfg = record {
  group = cfg.email_consumer_group;
  email_stream = cfg.email_notification_stream;
  dead_letter_queue_stream = cfg.email_dlq_stream;
}

-- `NewUserHandler`
abbrev pub site_of : Config → Site
site_of cfg = record {
  auth = record {
    access_secret = cfg.jwt_access_secret;
    refresh_secret = cfg.jwt_refresh_secret;
    issuer = cfg.jwt_iss;
  };
  cost = cfg.bcrypt_cost;
  limiter = cfg.rate_limiter;
  story_stream = cfg.story_generation_stream;
  otp_expiration = cfg.otp_expiration;
  jwt_secret = cfg.jwt_access_secret;
  jwt_refresh = cfg.jwt_refresh_secret;
  max_allowed_size = cfg.max_allowed_size;
}

module _ (B : Broker) (C : Codec) {H : Type 0} (cfg : Config) where
  -- A worker of each of the two `SchedulerWorkPool`s.
  unfoldable pub story_scheduler : List Event → World B.State H → Scheduler × World B.State H
  story_scheduler = run B C cfg.story_retry_stream cfg.story_generation_stream

  unfoldable pub email_scheduler : List Event → World B.State H → Scheduler × World B.State H
  email_scheduler = run B C cfg.email_retry_stream cfg.email_notification_stream

  -- The configured name of a retry queue has to be "retry_" before the name of its stream: with any
  -- other names, no number of rounds of the two schedulers takes a scheduled retry of a story out of
  -- its queue, whatever the network does.
  pub misnamed_retry_stays :
      (m : String) (stories emails : List Event) (w : World B.State H)
      → cfg.story_retry_stream ≢ retry_queue cfg.story_generation_stream
      → cfg.email_retry_stream ≢ retry_queue cfg.story_generation_stream
      → Scheduled B (retry_queue cfg.story_generation_stream) m w.broker
      → Scheduled B
          (retry_queue cfg.story_generation_stream)
          m
          (email_scheduler emails (story_scheduler stories w).1).1.broker
  unfolding story_scheduler email_scheduler
  misnamed_retry_stays m stories emails w other other' h =
      kept cfg.email_retry_stream cfg.email_notification_stream other' emails _
        (kept cfg.story_retry_stream cfg.story_generation_stream other stories w h)
    where
      kept :
          (q k : String)
          → q ≢ retry_queue cfg.story_generation_stream
          → (events : List Event) (w : World B.State H)
          → Scheduled B (retry_queue cfg.story_generation_stream) m w.broker
          → Scheduled B (retry_queue cfg.story_generation_stream) m (run B C q k events w).1.broker
      kept q k ne =
          scheduler_spares B C q k (Scheduled B (retry_queue cfg.story_generation_stream) m)
            (λ a b r h. xadd-Scheduled B a b r (retry_queue cfg.story_generation_stream) m h)
            (λ b r h. (
              h.0,
              ground (
                arith,
                B.score-zrem q b r (retry_queue cfg.story_generation_stream) m,
                eq_iff q (retry_queue cfg.story_generation_stream),
              ),
            ))
