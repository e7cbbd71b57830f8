-- ===== src/System/Emails.antt =====
-- The way of an email job through the whole program: requests, both pools and both schedulers of
-- internal/application/app.go.
use notification_server.Base.{ℕ, String, ◌≡◌, ◌≢◌, ◌⊎◌, inl, inr, refl, some, List, [], ◌∷◌}
use notification_server.Domain.Entities.{Job}
use notification_server.Domain.Errors.{Message}
use notification_server.Store.Broker.{Broker}
use notification_server.Store.Hashes.{Hashes}
use notification_server.Store.World.{World}
use notification_server.Queue.Codec.{Codec, payload_of}
use notification_server.Queue.Task.{retry_queue}
use notification_server.Security.Hash.{Crypto}
use notification_server.Security.Jwt.{Jwt}
use notification_server.Jobs.Handlers.{story_handler, email_handler}
use notification_server.Jobs.Apart.{round-Alive, scheduler_round-Alive}
use notification_server.Jobs.Journey.{worked}
use notification_server.Jobs.Pool.{aged, Alive, xadd-Alive}
use notification_server.Jobs.Survival.{email-Pool, story-reads}
use notification_server.Jobs.Robust.{story-Spares}
use notification_server.Http.Routes.{Binders}
use notification_server.App.{Config, story_streams_of, email_streams_of, site_of}
use notification_server.System.Requests.{serve_keeps}
use notification_server.System.Turns.{
  Turn, request, story_round, email_round, story_tick, email_tick, turn, turns,
}
use notification_server.System.Survival.{streams-Stable, EmailDone, EmailDoneBy}

module _ (B : Broker) (C : Codec) (S : Hashes) (K : Crypto) (J : Jwt) (binders : Binders)
    (model : Message → String) (cfg : Config) (job : Job) (enc : ℕ → String)
    (encodes : (n : ℕ) → C.marshal (payload_of (aged job n)) ≡ some (enc n)) where
  module _ (apart : cfg.email_notification_stream ≢ cfg.email_dlq_stream)
      (streams_apart : cfg.story_generation_stream ≢ cfg.email_notification_stream)
      (dlq_apart : cfg.story_generation_stream ≢ cfg.email_dlq_stream)
      (queue_apart : cfg.story_retry_stream ≢ retry_queue cfg.email_notification_stream) where
    abbrev EmailAlive : B.State → Type 0
    EmailAlive = Alive B cfg.email_notification_stream cfg.email_dlq_stream job enc

    email_turn :
        (t : Turn) (w : World B.State S.State)
        → EmailAlive w.broker
        → EmailAlive (turn B C S K J binders model cfg t w).broker
          ⊎ EmailDoneBy B C S K J binders model cfg job t w
    unfolding turn
    email_turn (request e c t) w a = inl (
        serve_keeps B C S K J binders (site_of cfg) t (λ d r. EmailAlive r)
          (streams-Stable B K EmailAlive
            (xadd-Alive B cfg.email_notification_stream cfg.email_dlq_stream job enc))
          e c w a)
    email_turn (story_round worker rand now) w a = inl (
        round-Alive B C cfg.story_consumer_group cfg.story_generation_stream
          (λ rand now. story_handler B C model rand now (story_streams_of cfg))
          (λ rand now. story-Spares B C model rand now (story_streams_of cfg))
          (story-reads B C model (story_streams_of cfg)) cfg.email_notification_stream
          cfg.email_dlq_stream job enc streams_apart dlq_apart worker cfg.job_retry_count rand now w
          a)
    email_turn (email_round worker rand now) w a =
        worked B C cfg.email_consumer_group cfg.email_notification_stream cfg.email_dlq_stream
          (λ rand now. email_handler B C rand now (email_streams_of cfg))
          (email-Pool B C (email_streams_of cfg) apart) apart job enc encodes worker
          cfg.job_retry_count rand now w a
    email_turn (story_tick now) w a = inl (
        scheduler_round-Alive B C cfg.email_consumer_group cfg.email_notification_stream
          cfg.email_dlq_stream (λ rand now. email_handler B C rand now (email_streams_of cfg))
          (email-Pool B C (email_streams_of cfg) apart) apart job enc encodes cfg.story_retry_stream
          cfg.story_generation_stream now w (λ e. absurd (queue_apart e)) a)
    email_turn (email_tick now) w a = inl (
        scheduler_round-Alive B C cfg.email_consumer_group cfg.email_notification_stream
          cfg.email_dlq_stream (λ rand now. email_handler B C rand now (email_streams_of cfg))
          (email-Pool B C (email_streams_of cfg) apart) apart job enc encodes cfg.email_retry_stream
          cfg.email_notification_stream now w (λ e. refl) a)

    -- Where the names of the streams differ (the email stream from its dead letter queue, the story
    -- stream from both, and the story retry queue from the queue in which email retries wait) and the
    -- codec takes the job with any number of retries: an email job that is in the email stream, in the
    -- dead letter queue or waiting for a retry is so, with some number of retries, after any turns of
    -- the program (requests on any route, rounds of the workers of both pools and of both schedulers,
    -- in any order), unless a worker of the email pool read the job and executed it without an error,
    -- whatever the network does to the commands.
    pub email_survives :
        (ts : List Turn) (w : World B.State S.State)
        → EmailAlive w.broker
        → EmailAlive (turns B C S K J binders model cfg ts w).broker
          ⊎ EmailDone B C S K J binders model cfg job ts w
    unfolding turns
    email_survives [] w a = inl a
    email_survives (t ∷ ts) w a = elim (email_turn t w a) [
      | inl b ↦ elim (email_survives ts (turn B C S K J binders model cfg t w) b) [
        | inl c ↦ inl c
        | inr c ↦ inr (inr c)
      ]
      | inr c ↦ inr (inl c)
    ]
