-- ===== src/Http/Created.antt =====
-- What stands in the tables when a registration is answered with 201.
use notification_server.Base.{
  ℕ, String, ◌≡◌, ◌≢◌, refl, Bool, true, false, not, Option, none, some, ◌==◌, string_eq, arith,
  if◌then◌else◌,
}
use notification_server.Domain.Errors.{Message}
use notification_server.Domain.Entities.{RegisteredUser}
use notification_server.Domain.Action.{Result, ok, err, panic}
use notification_server.Store.Broker.{Broker}
use notification_server.Store.Hashes.{Hashes}
use notification_server.Store.World.{World}
use notification_server.Queue.Codec.{Codec}
use notification_server.Security.Hash.{Crypto}
use notification_server.Security.Jwt.{Jwt}
use notification_server.Http.Errors.{map_err, status_of, map_domain_err_to_http_err}
use notification_server.Domain.Errors.{Error}
use notification_server.Http.Gin.{
  Context, Handler, Handled, responded, paniced, answered_by, Body, json,
}
use notification_server.Http.RateLimiter.{RateLimiter}
use notification_server.Http.Middleware.{
  add_request_id_and_time, recovered, check_content_type, panic_recovery_middleware,
  rate_limiter_middleware, limited, allow, request_id_of, is_json,
}
use notification_server.Http.Content.{
  Binder, BindError, Bound, bound, unbound, bind_failure, check_content_body, check_bound,
  check_struct,
}
use notification_server.Users.Register.{register_user}
use notification_server.Users.Signup.{IsStaged, register_user-IsStaged}
use notification_server.Http.Handlers.{Site, Moment, created, register_handler}
use notification_server.Http.Routes.{Binders, chain, below_cors, serve, post_register}

map_err_not_created : (e : Error) → (map_err e).status_code ≢ 201
unfolding map_err status_of map_domain_err_to_http_err
map_err_not_created e h = ground arith

bind_failure_not_created : (n : ℕ) (e : BindError) → (bind_failure n e).status_code ≢ 201
unfolding bind_failure
bind_failure_not_created n e h = ground arith

module _ {S : Type 0} where
  -- Where 201 is answered, `P` holds of the state.
  abbrev Made : (S → Type 0) → Handled × S → Type 0
  Made P (responded r, s) = r.status ≡ 201 → P s
  Made P (paniced t, s) = Unit

  if-Made :
      (P : S → Type 0) (b : Bool) (x y : Handled × S)
      → Made P x
      → Made P y
      → Made P (if b then x else y)
  if-Made P true x y f g = f
  if-Made P false x y f g = g

  check_content_type-Made :
      (P : S → Type 0) (next : Handler S) (c : Context) (s : S)
      → Made P (next c s)
      → Made P (check_content_type next c s)
  unfolding check_content_type
  check_content_type-Made P next c s made =
      if-Made P (is_json (c.header "Content-Type")) _ _ made (λ h. absurd (omega arith))

  -- The payload of the request.
  check_content_body-Made :
      {A : Type 0} (P : A → S → Type 0) (b : Binder A) (n : ℕ) (next : A → Handler S) (c : Context)
      (s : S)
      → ((u : A) → Made (P u) (next u c s))
      → Made
          (λ x. (u : A) × (b.should_bind_json n c.body ≡ bound u) × P u x)
          (check_content_body b n next c s)
  unfolding check_content_body
  check_content_body-Made {A} P b n next c s made = go (b.should_bind_json n c.body) refl
    where
      Q : S → Type 0
      Q x = (u : A) × (b.should_bind_json n c.body ≡ bound u) × P u x

      kept :
          (u : A)
          → b.should_bind_json n c.body ≡ bound u
          → (y : Handled × S) → Made (P u) y
          → Made Q y
      kept u e (responded r, x) m = λ h. (u, e, m h)
      kept u e (paniced t, x) m = tt

      struct :
          (u : A)
          → b.should_bind_json n c.body ≡ bound u
          → (o : Option String) → Made Q (check_struct next u c o s)
      struct u e none = kept u e (next u c s) (made u)
      struct u e (some t) = λ h. absurd (omega arith)

      go : (r : Bound A) → b.should_bind_json n c.body ≡ r → Made Q (check_bound b n next c r s)
      go (unbound f) e = λ h. absurd (bind_failure_not_created n f h)
      go (bound u) e =
          if-Made Q (not (b.at_end n c.body)) _ _ (λ h. absurd (omega arith))
            (if-Made Q (not (b.registers "passwod_strength")) _ _ (λ h. absurd (omega arith))
              (if-Made Q (not (b.registers "user_preferences_check")) _ _
                (λ h. absurd (omega arith)) (struct u e (b.struct u))))

  panic_recovery-Made :
      (P : S → Type 0) (next : Handler S) (c : Context) (s : S)
      → Made P (next c s)
      → (recovered (next c s).0).status ≡ 201
      → P (next c s).1
  panic_recovery-Made P next c s made = go (next c s) made
    where
      go : (y : Handled × S) → Made P y → (recovered y.0).status ≡ 201 → P y.1
      go (responded r, x) m h = m h
      go (paniced t, x) m h = absurd (omega arith)

module _ {R H : Type 0} where
  rate_limiter-Made :
      (P : World R H → Type 0) (r : RateLimiter) (now : ℕ) (next : Handler (World R H))
      (c : Context) (w : World R H)
      → ((x : World R H) → Made P (next c x))
      → Made P (rate_limiter_middleware r now next c w)
  unfolding rate_limiter_middleware
  rate_limiter-Made P r now next c w made =
      if-Made P (c.client_ip == "") _ _ (λ h. absurd (omega arith))
        (go (allow r now c.client_ip w).0 (allow r now c.client_ip w).1)
    where
      go : (o : Result Bool) (x : World R H) → Made P (limited next c o x)
      go (ok true) x = made x
      go (ok false) x = λ h. absurd (omega arith)
      go (err e) x = λ h. absurd (omega arith)
      go (panic t) x = tt

module _ (B : Broker) (C : Codec) (S : Hashes) (K : Crypto) (J : Jwt) (binders : Binders)
    (site : Site) (t : Moment) where
  register-Made :
      (u : RegisteredUser) (c : Context) (w : World B.State S.State)
      → Made (λ x. IsStaged c.request_id u.email x.db) (register_handler B C S K J site t u c w)
  unfolding register_handler
  register-Made u c w =
      go (register_user S K t.draws c.request_id u site.otp_expiration w).0
        (λ o done. register_user-IsStaged S K t.draws c.request_id u site.otp_expiration o w done)
    where
      go :
          (r : Result (Option Message))
          → ((o : Option Message)
              → r ≡ ok o
              → IsStaged c.request_id u.email
                  (register_user S K t.draws c.request_id u site.otp_expiration w).1.db)
          → Made
              (λ x. IsStaged c.request_id u.email x.db)
              (
                answered_by created r,
                (register_user S K t.draws c.request_id u site.otp_expiration w).1,
              )
      go (ok none) f = tt
      go (ok (some m)) f = λ h. f (some m) refl
      go (err e) f = λ h. absurd (map_err_not_created e h)
      go (panic x) f = tt

  below_cors-created :
      (c : Context) (w : World B.State S.State)
      → (recovered (below_cors B C S K J binders site t post_register c w).0).status ≡ 201
      → (u : RegisteredUser) × (binders.registered_user.should_bind_json site.max_allowed_size
            c.body
          ≡ bound u)
        × IsStaged
            (request_id_of t.uuid (c.header "X-Request-Id"))
            u.email
            (below_cors B C S K J binders site t post_register c w).1.db
  unfolding below_cors chain add_request_id_and_time panic_recovery_middleware
  below_cors-created c w h =
      let d = record c { request_id = request_id_of t.uuid (c.header "X-Request-Id") } in
      panic_recovery-Made _
        (rate_limiter_middleware site.limiter t.nanoseconds
          (chain B C S K J binders site t post_register))
        d w
        (rate_limiter-Made _ site.limiter t.nanoseconds
          (chain B C S K J binders site t post_register) d w
          λ x. check_content_type-Made _ _ d x (
            check_content_body-Made (λ u y. IsStaged d.request_id u.email y.db)
              binders.registered_user site.max_allowed_size _ d x (λ u. register-Made u d x)))
        h

  -- Where a request to register is answered with 201, its body was read as a user, whose email is
  -- staged, and the verification row of the email carries the id of the request, whatever the
  -- network did.
  pub registration_created :
      (c : Context) (w : World B.State S.State)
      → (recovered (serve B C S K J binders site t post_register c w).0).status ≡ 201
      → (u : RegisteredUser) × (binders.registered_user.should_bind_json site.max_allowed_size
            c.body
          ≡ bound u)
        × IsStaged
            (request_id_of t.uuid (c.header "X-Request-Id"))
            u.email
            (serve B C S K J binders site t post_register c w).1.db
  unfolding serve
  registration_created c w h = go (binders.forbids c) h
    where
      go :
          (b : Bool)
          → let (r, x) =
              if b
              then (responded (json 403 Body.empty), w)
              else below_cors B C S K J binders site t post_register c w in
            (recovered r).status ≡ 201
            → (u : RegisteredUser) × (binders.registered_user.should_bind_json site.max_allowed_size
                  c.body
                ≡ bound u)
              × IsStaged (request_id_of t.uuid (c.header "X-Request-Id")) u.email x.db
      go true h = absurd (omega arith)
      go false h = below_cors-created c w h
