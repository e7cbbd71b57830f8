-- ===== src/Http/Handlers.antt =====
-- internal/adapters/http/handler/handler.go: the handlers of `UserHandler`. Each calls a service and
-- turns what comes back into an answer. Logging is left out, and with it the duration.
use notification_server.Base.{ℕ, ◌/◌, String, Option, none, some, [], ◌∷◌}
use Prim.Native.String.{◌++◌}
use notification_server.Domain.Errors.{Message, str, text}
use notification_server.Domain.Entities.{RegisteredUser, LoginUser, TokenPair}
use notification_server.Store.Broker.{Broker}
use notification_server.Store.Hashes.{Hashes}
use notification_server.Store.World.{World}
use notification_server.Queue.Codec.{Codec}
use notification_server.Security.Hash.{Crypto}
use notification_server.Security.Jwt.{Jwt, JwtAuth}
use notification_server.Users.Register.{Draws, register_user}
use notification_server.Users.Verify.{verify_user, delete_user}
use notification_server.Users.Session.{authenticate_user, refresh_jwt_token}
use notification_server.Users.Scheduling.{schedule_story_generation}
use notification_server.Http.RateLimiter.{RateLimiter}
use notification_server.Http.Gin.{
  Handler, Handled, responded, paniced, message, memory, HealthResponse, json, respond, with_header,
}

-- The fields of `UserHandler`, with those of its services that are settings.
pub record Site : Type 0 where
  pub auth : JwtAuth
  pub cost : ℕ
  pub limiter : RateLimiter
  pub story_stream : String
  pub otp_expiration : ℕ
  pub jwt_secret : String
  pub jwt_refresh : String
  pub max_allowed_size : ℕ

-- What the handler reads of `runtime.MemStats`, with `runtime.NumGoroutine()`.
pub record MemStats : Type 0 where
  pub alloc : ℕ
  pub total_alloc : ℕ
  pub sys : ℕ
  pub num_gc : ℕ
  pub num_goroutine : ℕ

-- What the run of one request reads from the clock and draws at random. `draws` holds the hasher's
-- cost as well.
pub record Moment : Type 0 where
  pub seconds : ℕ
  pub nanoseconds : ℕ
  pub uuid : String
  pub salt : ℕ
  pub draws : Draws
  pub stats : MemStats

abbrev pub megabytes : ℕ → ℕ
megabytes n = n / 1024 / 1024

abbrev pub health_response : MemStats → HealthResponse
health_response m = record {
  status_code = 200;
  alloc_mb = megabytes m.alloc;
  total_alloc_mb = megabytes m.total_alloc;
  sys_mb = megabytes m.sys;
  num_gc = m.num_gc;
  num_goroutine = m.num_goroutine;
}

abbrev pub told : ℕ → Message → Handled
told status m = responded (json status (message m))

abbrev pub farewell : Message → Handled
farewell m = told 200 (record { format = "%s. Good buy🙌"; args = str m.format ∷ [] })

-- `res.Message` of a nil response.
abbrev pub created : Option Message → Handled
created none = paniced "invalid memory address or nil pointer dereference"
created (some m) = told 201 m

abbrev pub with_tokens : ℕ → TokenPair → Handled
with_tokens status p = responded (
    with_header "Authorization" ("Bearer " ++ p.access_token) (
      with_header "X-Refresh-Token" p.refresh_token
        (json status (message (text "You are logged in")))))

abbrev pub Web : Broker → Hashes → Type 0
Web B S = Handler (World B.State S.State)

module _ (B : Broker) (C : Codec) (S : Hashes) (K : Crypto) (J : Jwt) (site : Site)
    (t : Moment) where
  unfoldable pub home_page_handler : Web B S
  home_page_handler c w = (responded (json 200 (message (text "Welcome"))), w)

  unfoldable pub health_handler : Web B S
  health_handler c w = (responded (json 200 (memory (health_response t.stats))), w)

  unfoldable pub register_handler : RegisteredUser → Web B S
  register_handler req c =
      respond created (register_user S K t.draws c.request_id req site.otp_expiration)

  unfoldable pub verification_handler : String → Web B S
  verification_handler otp c = respond (told 200) (verify_user S K otp (c.header "X-Request-Id"))

  unfoldable pub login_handler : LoginUser → Web B S
  login_handler req c =
      respond (with_tokens 200) (authenticate_user K J site.auth site.cost t.salt t.seconds req)

  unfoldable pub jwt_refresh_handler : Web B S
  jwt_refresh_handler c = respond (with_tokens 201) (
      refresh_jwt_token K J site.auth site.cost t.salt t.seconds (c.header "X-Refresh-Token")
        site.jwt_refresh)

  -- The user to delete is the one that the body names.
  unfoldable pub delete_user_handler : ℕ → Web B S
  delete_user_handler id c = respond farewell (delete_user id)

  unfoldable pub story_generation_handler : Web B S
  story_generation_handler c =
      respond (told 201) (schedule_story_generation B C c.request_id site.story_stream c.user_id)
