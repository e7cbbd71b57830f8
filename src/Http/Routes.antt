-- ===== src/Http/Routes.antt =====
-- internal/adapters/http/routes.go: which chain serves which route. Which requests the middleware
-- of the package cors forbids is a parameter, and the headers that it adds are left out, like the
-- route of the API documentation and gin's answer to an unknown route.
use notification_server.Base.{
  ℕ, String, ◌&&◌, Option, none, some, Bool, ◌==◌, string_eq, if◌then◌else◌,
}
use notification_server.Domain.Entities.{RegisteredUser, LoginUser}
use notification_server.Store.Broker.{Broker}
use notification_server.Store.Hashes.{Hashes}
use notification_server.Queue.Codec.{Codec}
use notification_server.Security.Hash.{Crypto}
use notification_server.Security.Jwt.{Jwt}
use notification_server.Http.Gin.{Context, responded, Body, json}
use notification_server.Http.Middleware.{
  authenticate_middleware, add_request_id_and_time, check_content_type, panic_recovery_middleware,
  rate_limiter_middleware,
}
use notification_server.Http.Content.{Binder, check_content_body}
use notification_server.Http.Handlers.{
  Site, Moment, Web, home_page_handler, health_handler, register_handler, verification_handler,
  login_handler, jwt_refresh_handler, delete_user_handler, story_generation_handler,
}

pub data Endpoint : Type 0 where
  delete_users post_stories post_register post_verify post_login : Endpoint
  get_home get_health post_refresh : Endpoint

-- The table of routes: method and path.
unfoldable pub route : String → String → Option Endpoint
route method path =
    if method == "DELETE" && path == "/users"
    then some delete_users
    else if method == "POST" && path == "/stories"
    then some post_stories
    else if method == "POST" && path == "/auth/register"
    then some post_register
    else if method == "POST" && path == "/auth/verify"
    then some post_verify
    else if method == "POST" && path == "/auth/login"
    then some post_login
    else if method == "GET" && path == "/home"
    then some get_home
    else if method == "GET" && path == "/health"
    then some get_health
    else if method == "POST" && path == "/refresh"
    then some post_refresh
    else none

-- How the four types of package dto are read from a body, and the requests that the middleware of
-- `cors.New` ends, for their Origin header.
pub record Binders : Type 0 where
  pub registered_user : Binder RegisteredUser
  pub register_verify : Binder String
  pub login_user : Binder LoginUser
  pub delete_user : Binder ℕ
  pub forbids : Context → Bool

module _ (B : Broker) (C : Codec) (S : Hashes) (K : Crypto) (J : Jwt) (binders : Binders)
    (site : Site) (t : Moment) where
  unfoldable pub chain : Endpoint → Web B S
  chain delete_users = authenticate_middleware J site.jwt_secret t.seconds (
      check_content_type (
        check_content_body binders.delete_user site.max_allowed_size
          (delete_user_handler B C S K J site t)))
  chain post_stories =
      authenticate_middleware J site.jwt_secret t.seconds
        (story_generation_handler B C S K J site t)
  chain post_register = check_content_type (
      check_content_body binders.registered_user site.max_allowed_size
        (register_handler B C S K J site t))
  chain post_verify = check_content_type (
      check_content_body binders.register_verify site.max_allowed_size
        (verification_handler B C S K J site t))
  chain post_login =
      check_content_type (
        check_content_body binders.login_user site.max_allowed_size
          (login_handler B C S K J site t))
  chain get_home = home_page_handler B C S K J site t
  chain get_health = health_handler B C S K J site t
  chain post_refresh = jwt_refresh_handler B C S K J site t

  -- The three that every route runs below.
  unfoldable pub below_cors : Endpoint → Web B S
  below_cors e =
      add_request_id_and_time t.uuid
        (panic_recovery_middleware (rate_limiter_middleware site.limiter t.nanoseconds (chain e)))

  -- The first of all is that of `cors.New`, which ends a forbidden request with an empty answer.
  unfoldable pub serve : Endpoint → Web B S
  unfolding below_cors
  serve e c w = if binders.forbids c then (responded (json 403 Body.empty), w) else below_cors e c w
