-- ===== src/Http/Middleware.antt =====
-- internal/adapters/http/middleware/middleware.go: each middleware as a function from the rest of
-- the chain, `c.Next()`, to a chain. Logging is left out.
use notification_server.Base.{
  ℕ, String, Bool, true, false, ◌==◌, string_eq, Option, none, some, if◌then◌else◌,
}
use notification_server.Domain.Errors.{Code, Message, text, new_domain_error}
use notification_server.Domain.Action.{Result, ok, err, panic, Action}
use notification_server.Store.Buckets.{bucket_of, set_bucket}
use notification_server.Store.World.{World, call, on_buckets}
use notification_server.Security.Jwt.{Jwt, verify_jwt_token}
use notification_server.Domain.Entities.{IdentityToken}
use notification_server.Http.Errors.{HttpError}
use notification_server.Http.Gin.{
  Context, Handler, Handled, responded, paniced, Response, abort, http_error, with_header,
}
use notification_server.Http.RateLimiter.{RateLimiter, allow_request}
use notification_server.Http.Text.{codes, to_lower, trim_space, first_part, split_two, reads}

abbrev pub denied : HttpError → {S : Type 0} → S → Handled × S
denied e s = (responded (abort e), s)

abbrev pub unauthorized : String → HttpError
unauthorized m = http_error (text m) Code.unauthorized 401

abbrev pub bad_request : Message → HttpError
bad_request m = http_error m Code.validation 400

-- What stands after the scheme of the Authorization header.
abbrev pub bearer : Option (String × String) → Option String
bearer none = none
bearer (some (scheme, token)) =
    if reads (to_lower (codes scheme)) "bearer" then some token else none

-- `fresh` is `uuid.New()`. The answer carries the id too.
abbrev pub request_id_of : String → String → String
request_id_of fresh given = if given == "" then fresh else given

abbrev pub stamped : String → Handled → Handled
stamped id (responded r) = responded (with_header "X-Request-Id" id r)
stamped id (paniced t) = paniced t

abbrev pub recovered : Handled → Response
recovered (responded r) = r
recovered (paniced t) = abort (http_error (text "internal server error") Code.internal 500)

-- The media type of a Content-Type header.
unfoldable pub is_json : String → Bool
is_json content_type =
    reads (trim_space (to_lower (first_part 59 (codes content_type)))) "application/json"

module _ {S : Type 0} where
  -- `now` is the clock, in seconds.
  abbrev pub with_identity : Handler S → Context → Result IdentityToken → S → Handled × S
  with_identity next c (ok token) s = next (record c { user_id = token.user_id }) s
  with_identity next c (err e) s = denied (unauthorized "Invalid or expired token") s
  with_identity next c (panic t) s = (paniced t, s)

  abbrev pub with_token : Jwt → String → ℕ → Handler S → Context → Option String → S → Handled × S
  with_token J secret_key now next c none s = denied (unauthorized "Invalid Authorization format") s
  with_token J secret_key now next c (some token) s =
      with_identity next c (verify_jwt_token J now token secret_key) s

  unfoldable pub authenticate_middleware : Jwt → String → ℕ → Handler S → Handler S
  authenticate_middleware J secret_key now next c =
      with_token J secret_key now next c (bearer (split_two (c.header "Authorization")))

  unfoldable pub add_request_id_and_time : String → Handler S → Handler S
  add_request_id_and_time fresh next c s =
      let id = request_id_of fresh (c.header "X-Request-Id") in
      let (h, s') = next (record c { request_id = id }) s in (stamped id h, s')

  unfoldable pub check_content_type : Handler S → Handler S
  check_content_type next c s =
      if is_json (c.header "Content-Type")
      then next c s
      else denied (bad_request (text "invalid content type, expected application/json")) s

  unfoldable pub panic_recovery_middleware : Handler S → Handler S
  panic_recovery_middleware next c s = let (h, s') = next c s in (responded (recovered h), s')

-- `AllowRequest` of a Redis that may not answer, then the middleware.
module _ {R H : Type 0} where
  unfoldable pub allow : RateLimiter → ℕ → String → Action (World R H) Bool
  allow r now ip =
      call (new_domain_error Code.external (text "redis is not responding") (some "redis")) (
        on_buckets λ bs.
          let (allowed, b) = allow_request r now (bucket_of ip bs) in (allowed, set_bucket ip b bs))

  abbrev pub limited : Handler (World R H) → Context → Result Bool → World R H → Handled × World R H
  limited next c (ok true) w = next c w
  limited next c (ok false) w =
      denied (http_error (text "Rate Limit Exceeded") Code.rate_limited 429) w
  limited next c (err e) w = denied (http_error (text "Rate Limit Exceeded") Code.external 503) w
  limited next c (panic t) w = (paniced t, w)

  -- `now` is the clock, in nanoseconds.
  unfoldable pub rate_limiter_middleware :
      RateLimiter → ℕ → Handler (World R H) → Handler (World R H)
  rate_limiter_middleware r now next c w =
      if c.client_ip == ""
      then denied (bad_request (text "invalid ip")) w
      else (let (granted, w') = allow r now c.client_ip w in limited next c granted w')
