-- ===== src/System/Survival.antt =====
-- What it takes for a job of a pool to survive the turns of the program, and how it may end.
use notification_server.Base.{String, ◌⊎◌, List, [], ◌∷◌}
use notification_server.Domain.Entities.{Job}
use notification_server.Domain.Errors.{Message}
use notification_server.Store.Broker.{Broker}
use notification_server.Store.Hashes.{Hashes}
use notification_server.Store.Tables.{Db}
use notification_server.Store.World.{World}
use notification_server.Queue.Codec.{Codec}
use notification_server.Security.Hash.{Crypto}
use notification_server.Security.Jwt.{Jwt}
use notification_server.Jobs.Handlers.{story_handler, email_handler}
use notification_server.Jobs.Pool.{work, DoneBy}
use notification_server.Http.Routes.{Binders}
use notification_server.App.{Config, story_streams_of, email_streams_of}
use notification_server.System.Stable.{Stable}
use notification_server.System.Turns.{Turn, story_round, email_round, turn}

-- Of the streams alone.
pub streams-Stable :
    (B : Broker) (K : Crypto) (P : B.State → Type 0)
    → ((k v : String) (r : B.State) → P r → P (B.xadd k v r).1)
    → Stable B K (λ (d : Db) r. P r)
streams-Stable B K P by_add = record {
  by_staging = λ u d r made p. p;
  by_verification = λ request email d r p. p;
  by_promotion = λ email d r p. p;
  by_preferences = λ id ps d r p. p;
  by_unstaging = λ email d r p. p;
  by_deletion = λ id d r p. p;
  by_token = λ now id h d r made p. p;
  by_revocation = λ id at d r p. p;
  by_story = λ s d r p. p;
  by_story_job = λ id status d r p. p;
  by_add = λ k v d r p. by_add k v r p;
}

module _ (B : Broker) (C : Codec) (S : Hashes) (K : Crypto) (J : Jwt) (binders : Binders)
    (model : Message → String) (cfg : Config) (job : Job) where
  -- A worker of the pool reads the job and executes it without an error.
  abbrev pub StoryDoneBy : Turn → World B.State S.State → Type 0
  StoryDoneBy (story_round worker rand now) w =
      DoneBy B C cfg.story_generation_stream
        (λ rand now. story_handler B C model rand now (story_streams_of cfg)) job
        (work worker cfg.job_retry_count rand now) w
  StoryDoneBy _ w = ⊥

  abbrev pub StoryDone : List Turn → World B.State S.State → Type 0
  StoryDone [] w = ⊥
  StoryDone (t ∷ ts) w = StoryDoneBy t w ⊎ StoryDone ts (turn B C S K J binders model cfg t w)

  abbrev pub EmailDoneBy : Turn → World B.State S.State → Type 0
  EmailDoneBy (email_round worker rand now) w =
      DoneBy B C cfg.email_notification_stream
        (λ rand now. email_handler B C rand now (email_streams_of cfg)) job
        (work worker cfg.job_retry_count rand now) w
  EmailDoneBy _ w = ⊥

  abbrev pub EmailDone : List Turn → World B.State S.State → Type 0
  EmailDone [] w = ⊥
  EmailDone (t ∷ ts) w = EmailDoneBy t w ⊎ EmailDone ts (turn B C S K J binders model cfg t w)
