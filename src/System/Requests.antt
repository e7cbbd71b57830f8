-- ===== src/System/Requests.antt =====
-- What a request does to the state: a property that the services keep is kept by every chain of
-- internal/adapters/http/routes.go.
use notification_server.Base.{
  ℕ, String, Bool, true, false, not, Option, none, some, ◌==◌, string_eq, if◌then◌else◌,
}
use notification_server.Domain.Action.{Result, ok, err, panic}
use notification_server.Domain.Entities.{IdentityToken}
use notification_server.Store.Broker.{Broker}
use notification_server.Store.Hashes.{Hashes}
use notification_server.Store.Tables.{Db}
use notification_server.Store.World.{World}
use notification_server.Store.Holds.{On, Holds, Holds-call}
use notification_server.Queue.Codec.{Codec}
use notification_server.Security.Hash.{Crypto}
use notification_server.Security.Jwt.{Jwt, verify_jwt_token}
use notification_server.Http.Gin.{Context, Handler, Handled}
use notification_server.Http.RateLimiter.{RateLimiter}
use notification_server.Http.Text.{split_two}
use notification_server.Http.Middleware.{
  bearer, with_token, with_identity, authenticate_middleware, add_request_id_and_time,
  check_content_type, panic_recovery_middleware, rate_limiter_middleware, limited, allow,
  request_id_of, is_json,
}
use notification_server.Http.Content.{
  Binder, Bound, bound, unbound, check_content_body, check_bound, check_struct,
}
use notification_server.Http.Handlers.{
  Site, Moment, home_page_handler, health_handler, register_handler, verification_handler,
  login_handler, jwt_refresh_handler, delete_user_handler, story_generation_handler,
}
use notification_server.Http.Routes.{
  Endpoint, Binders, chain, below_cors, serve, delete_users, post_stories, post_register,
  post_verify, post_login, get_home, get_health, post_refresh,
}
use notification_server.System.Stable.{Stable}
use notification_server.System.Services.{
  register_user-Holds, verify_user-Holds, delete_user-Holds, authenticate_user-Holds,
  refresh_jwt_token-Holds, schedule_story_generation-Holds,
}

module _ {R H : Type 0} (I : Db → R → Type 0) where
  -- Whatever it answers, and also where it panics.
  abbrev Serves : Handler (World R H) → Type 0
  Serves h = (c : Context) (w : World R H) → On I w → On I (h c w).1

module _ {R H : Type 0} (I : Db → R → Type 0) where
  if-Serves :
      (b : Bool) (x y : Handled × World R H) → On I x.1 → On I y.1 → On I (if b then x else y).1
  if-Serves true x y f g = f
  if-Serves false x y f g = g

  authenticate-Serves :
      (J : Jwt) (secret : String) (now : ℕ) (rest : Handler (World R H))
      → Serves I rest
      → Serves I (authenticate_middleware J secret now rest)
  unfolding authenticate_middleware
  authenticate-Serves J secret now rest keep c w h =
      token (bearer (split_two (c.header "Authorization")))
    where
      identity : (r : Result IdentityToken) → On I (with_identity rest c r w).1
      identity (ok who) = keep (record c { user_id = who.user_id }) w h
      identity (err e) = h
      identity (panic t) = h

      token : (o : Option String) → On I (with_token J secret now rest c o w).1
      token none = h
      token (some t) = identity (verify_jwt_token J now t secret)

  check_content_type-Serves :
      (rest : Handler (World R H)) → Serves I rest → Serves I (check_content_type rest)
  unfolding check_content_type
  check_content_type-Serves rest keep c w h =
      if-Serves (is_json (c.header "Content-Type")) _ _ (keep c w h) h

  check_content_body-Serves :
      {A : Type 0} (b : Binder A) (n : ℕ) (rest : A → Handler (World R H))
      → ((u : A) → Serves I (rest u))
      → Serves I (check_content_body b n rest)
  unfolding check_content_body
  check_content_body-Serves {A} b n rest keep c w h = go (b.should_bind_json n c.body)
    where
      struct : (u : A) (o : Option String) → On I (check_struct rest u c o w).1
      struct u none = keep u c w h
      struct u (some t) = h

      go : (r : Bound A) → On I (check_bound b n rest c r w).1
      go (unbound e) = h
      go (bound u) = if-Serves (not (b.at_end n c.body)) _ _ h (
          if-Serves (not (b.registers "passwod_strength")) _ _ h
            (if-Serves (not (b.registers "user_preferences_check")) _ _ h (struct u (b.struct u))))

  allow-Holds : (r : RateLimiter) (now : ℕ) (ip : String) → Holds {H = H} I (allow r now ip)
  unfolding allow
  allow-Holds r now ip = Holds-call _ _ (λ w h. h)

  rate_limiter-Serves :
      (r : RateLimiter) (now : ℕ) (rest : Handler (World R H))
      → Serves I rest
      → Serves I (rate_limiter_middleware r now rest)
  unfolding rate_limiter_middleware
  rate_limiter-Serves r now rest keep c w h = if-Serves (c.client_ip == "") _ _ h (
      go (allow r now c.client_ip w).0 (allow r now c.client_ip w).1
        ((allow-Holds r now c.client_ip).at w h))
    where
      go : (o : Result Bool) (x : World R H) → On I x → On I (limited rest c o x).1
      go (ok true) x k = keep c x k
      go (ok false) x k = k
      go (err e) x k = k
      go (panic t) x k = k

module _ (B : Broker) (C : Codec) (S : Hashes) (K : Crypto) (J : Jwt) (binders : Binders)
    (site : Site) (t : Moment) (I : Db → B.State → Type 0) (stable : Stable B K I) where
  chain-Serves : (e : Endpoint) → Serves {H = S.State} I (chain B C S K J binders site t e)
  unfolding chain home_page_handler health_handler register_handler verification_handler
      login_handler jwt_refresh_handler delete_user_handler story_generation_handler
  chain-Serves delete_users = authenticate-Serves I J _ _ _ (
      check_content_type-Serves I _ (
        check_content_body-Serves I binders.delete_user _ _
          λ u c. (delete_user-Holds B K stable u).at))
  chain-Serves post_stories = authenticate-Serves I J _ _ _ λ c.
      (schedule_story_generation-Holds B K stable C c.request_id site.story_stream c.user_id).at
  chain-Serves post_register = check_content_type-Serves I _ (
      check_content_body-Serves I binders.registered_user _ _
        λ u c. (register_user-Holds B K stable S t.draws c.request_id u site.otp_expiration).at)
  chain-Serves post_verify = check_content_type-Serves I _ (
      check_content_body-Serves I binders.register_verify _ _
        λ u c. (verify_user-Holds B K stable S u (c.header "X-Request-Id")).at)
  chain-Serves post_login = check_content_type-Serves I _ (
      check_content_body-Serves I binders.login_user _ _
        λ u c. (authenticate_user-Holds B K stable J site.auth site.cost t.salt t.seconds u).at)
  chain-Serves get_home = λ c w h. h
  chain-Serves get_health = λ c w h. h
  chain-Serves post_refresh = λ c.
      (refresh_jwt_token-Holds B K stable J site.auth site.cost t.salt t.seconds
        (c.header "X-Refresh-Token") site.jwt_refresh).at

  pub serve_keeps :
      (e : Endpoint) (c : Context) (w : World B.State S.State)
      → On I w
      → On I (serve B C S K J binders site t e c w).1
  unfolding serve below_cors add_request_id_and_time panic_recovery_middleware
  serve_keeps e c w h = if-Serves I (binders.forbids c) _ _ h (
      rate_limiter-Serves I site.limiter t.nanoseconds (chain B C S K J binders site t e)
        (chain-Serves e) (record c { request_id = request_id_of t.uuid (c.header "X-Request-Id") })
        w h)
