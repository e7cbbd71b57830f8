-- ===== src/Jobs/Survival.antt =====
-- The ways of a story job and of an email job through the two pools that internal/application/app.go
-- builds.
use notification_server.Base.{nat_eq, ℕ, String, ◌≡◌, ◌≢◌, ◌⊎◌, some, List}
use notification_server.Domain.Entities.{Job}
use notification_server.Domain.Errors.{Message}
use notification_server.Store.Broker.{Broker}
use notification_server.Store.World.{World}
use notification_server.Queue.Codec.{Codec, payload_of}
use notification_server.Jobs.Robust.{story-Spares, email-Spares}
use notification_server.Jobs.Pool.{aged, Event, steps, Alive, Done, Pool}
use notification_server.Jobs.Keeps.{story-Delivers, email-Delivers}
use notification_server.Jobs.Handlers.{story_handler, email_handler}
use notification_server.Jobs.Completion.{StoryStreams, EmailStreams}
use notification_server.Queue.Reading.{IsRead, read-Triple}
use notification_server.Store.Triple.{Triple}
use notification_server.Jobs.Journey.{journey}

module _ (B : Broker) (C : Codec) {H : Type 0} where
  pub story-reads :
      (model : Message → String) (s : StoryStreams) (rand : ℕ → ℕ) (now worker : ℕ)
      (P : B.State → Type 0)
      → ((r : B.State) → P r → P (B.xreadgroup s.story_stream s.group worker r).1)
      → Triple {H = H} P
          ((story_handler B C model rand now s).read worker)
          (λ msg r. P r × IsRead B C s.story_stream msg r)
          P
  unfolding story_handler
  story-reads model s rand now worker P keep = read-Triple B C P s.group worker s.story_stream keep

  pub email-reads :
      (e : EmailStreams) (rand : ℕ → ℕ) (now worker : ℕ) (P : B.State → Type 0)
      → ((r : B.State) → P r → P (B.xreadgroup e.email_stream e.group worker r).1)
      → Triple {H = H} P
          ((email_handler B C rand now e).read worker)
          (λ msg r. P r × IsRead B C e.email_stream msg r)
          P
  unfolding email_handler
  email-reads e rand now worker P keep = read-Triple B C P e.group worker e.email_stream keep

  pub story-Pool :
      (model : Message → String) (s : StoryStreams)
      → s.story_stream ≢ s.dead_letter_queue_stream
      → Pool B C {H = H} s.group s.story_stream s.dead_letter_queue_stream
          (λ rand now. story_handler B C model rand now s)
  story-Pool model s apart = record {
    delivers = λ rand now. story-Delivers B C model rand now s apart;
    spares = λ rand now. story-Spares B C model rand now s;
    read_keeps = story-reads model s;
  }

  pub email-Pool :
      (e : EmailStreams)
      → e.email_stream ≢ e.dead_letter_queue_stream
      → Pool B C {H = H} e.group e.email_stream e.dead_letter_queue_stream
          (λ rand now. email_handler B C rand now e)
  email-Pool e apart = record {
    delivers = λ rand now. email-Delivers B C rand now e apart;
    spares = λ rand now. email-Spares B C rand now e;
    read_keeps = email-reads e;
  }

module _ (B : Broker) (C : Codec) {H : Type 0} (job : Job) (enc : ℕ → String)
    (encodes : (n : ℕ) → C.marshal (payload_of (aged job n)) ≡ some (enc n)) where
  -- Where the story stream is not its own dead letter queue and the codec takes the job with any
  -- number of retries: a story job that is in the story stream, in the dead letter queue or waiting
  -- for a retry is so, with some number of retries, after any sequence of events of the story pool
  -- (messages that workers read and process, rounds of the scheduler, jobs that are added, each with
  -- its own clock and randomness), unless a worker read the job and executed it without an error,
  -- whatever the network does to the commands.
  story_journey :
      (model : Message → String) (s : StoryStreams)
      → s.story_stream ≢ s.dead_letter_queue_stream
      → (es : List Event) (w : World B.State H)
      → Alive B s.story_stream s.dead_letter_queue_stream job enc w.broker
      → Alive B s.story_stream s.dead_letter_queue_stream job enc
          (steps B C s.story_stream (λ rand now. story_handler B C model rand now s) es w).broker
        ⊎ Done B C s.story_stream (λ rand now. story_handler B C model rand now s) job es w
  story_journey model s apart =
      journey B C s.group s.story_stream s.dead_letter_queue_stream
        (λ rand now. story_handler B C model rand now s) (story-Pool B C model s apart) apart job
        enc encodes

  -- Where the email stream is not its own dead letter queue and the codec takes the job with any
  -- number of retries: an email job that is in the email stream, in the dead letter queue or waiting
  -- for a retry is so, with some number of retries, after any sequence of events of the email pool
  -- (messages that workers read and process, rounds of the scheduler, jobs that are added, each with
  -- its own clock and randomness), unless a worker read the job and executed it without an error,
  -- whatever the network does to the commands.
  email_journey :
      (e : EmailStreams)
      → e.email_stream ≢ e.dead_letter_queue_stream
      → (es : List Event) (w : World B.State H)
      → Alive B e.email_stream e.dead_letter_queue_stream job enc w.broker
      → Alive B e.email_stream e.dead_letter_queue_stream job enc
          (steps B C e.email_stream (λ rand now. email_handler B C rand now e) es w).broker
        ⊎ Done B C e.email_stream (λ rand now. email_handler B C rand now e) job es w
  email_journey e apart =
      journey B C e.group e.email_stream e.dead_letter_queue_stream
        (λ rand now. email_handler B C rand now e) (email-Pool B C e apart) apart job enc encodes
