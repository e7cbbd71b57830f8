-- ===== src/System/Turns.antt =====
-- The program that internal/application/app.go wires, as a sequence of turns: a request that gin
-- serves, a round of a worker of one of the two pools, or a round of one of the two schedulers, in
-- any order. A turn runs to its end; the network may answer, drop or lose each of its commands.
use notification_server.Base.{ℕ, String, List, [], ◌∷◌}
use notification_server.Domain.Errors.{Message}
use notification_server.Store.Broker.{Broker}
use notification_server.Store.Hashes.{Hashes}
use notification_server.Store.Tables.{Db}
use notification_server.Store.World.{World}
use notification_server.Queue.Codec.{Codec}
use notification_server.Queue.Task.{re_enqueue}
use notification_server.Queue.Worker.{round}
use notification_server.Security.Hash.{Crypto}
use notification_server.Security.Jwt.{Jwt}
use notification_server.Jobs.Handlers.{story_handler, email_handler}
use notification_server.Http.Gin.{Context}
use notification_server.Http.Handlers.{Moment}
use notification_server.Http.Routes.{Endpoint, Binders, serve}
use notification_server.App.{Config, story_streams_of, email_streams_of, site_of}
use notification_server.System.Stable.{Stable}
use notification_server.System.Requests.{serve_keeps}
use notification_server.System.Pools.{
  Steady, round-Holds, re_enqueue-Holds, story-HandlerHolds, email-HandlerHolds,
}

-- The number of a worker, its source of randomness and its clock; the clock of a scheduler.
pub data Turn : Type 0 where
  request : Endpoint → Context → Moment → Turn
  story_round email_round : (worker : ℕ) (rand : ℕ → ℕ) (now : ℕ) → Turn
  story_tick email_tick : (now : ℕ) → Turn

module _ (B : Broker) (C : Codec) (S : Hashes) (K : Crypto) (J : Jwt) (binders : Binders)
    (model : Message → String) (cfg : Config) where
  unfoldable pub turn : Turn → World B.State S.State → World B.State S.State
  turn (request e c t) w = (serve B C S K J binders (site_of cfg) t e c w).1
  turn (story_round worker rand now) w =
      (round (story_handler B C model rand now (story_streams_of cfg)) cfg.job_retry_count worker
        w).1
  turn (email_round worker rand now) w =
      (round (email_handler B C rand now (email_streams_of cfg)) cfg.job_retry_count worker w).1
  turn (story_tick now) w =
      (re_enqueue B C now cfg.story_retry_stream cfg.story_generation_stream w).1
  turn (email_tick now) w =
      (re_enqueue B C now cfg.email_retry_stream cfg.email_notification_stream w).1

  unfoldable pub turns : List Turn → World B.State S.State → World B.State S.State
  turns [] w = w
  turns (t ∷ ts) w = turns ts (turn t w)

  module _ (I : Db → Type 0) (stable : Stable B K (λ d _. I d)) (steady : Steady I) where
    turn_keeps : (t : Turn) (w : World B.State S.State) → I w.db → I (turn t w).db
    unfolding turn
    turn_keeps (request e c t) w h =
        serve_keeps B C S K J binders (site_of cfg) t (λ d _. I d) stable e c w h
    turn_keeps (story_round worker rand now) w h =
        (round-Holds _ (story-HandlerHolds B C steady model rand now (story_streams_of cfg))
            cfg.job_retry_count worker).at
          w h
    turn_keeps (email_round worker rand now) w h =
        (round-Holds _ (email-HandlerHolds B C steady rand now (email_streams_of cfg))
            cfg.job_retry_count worker).at
          w h
    turn_keeps (story_tick now) w h =
        (re_enqueue-Holds B C {I = I} now cfg.story_retry_stream cfg.story_generation_stream).at w h
    turn_keeps (email_tick now) w h =
        (re_enqueue-Holds B C {I = I} now cfg.email_retry_stream cfg.email_notification_stream).at w
          h

    -- A property of the tables that each statement keeps holds after any turns.
    pub turns_keep : (ts : List Turn) (w : World B.State S.State) → I w.db → I (turns ts w).db
    unfolding turns
    turns_keep [] w h = h
    turns_keep (t ∷ ts) w h = turns_keep ts (turn t w) (turn_keeps t w h)
