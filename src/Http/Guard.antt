-- ===== src/Http/Guard.antt =====
-- What the middleware keeps away from the services, and what it lets through.
use notification_server.Base.{
  ℕ, String, ◌≤◌, ◌≡◌, ◌≢◌, refl, ◌⊎◌, inl, inr, Bool, true, false, Option, none, some, [], ◌==◌,
  string_eq, arith, Bool-cases, sym, ◌∙◌, eq_iff, if◌then◌else◌, ◌<◌,
}
use mathlib.Core.Path.{subst}
use notification_server.Domain.Errors.{Error}
use notification_server.Domain.Entities.{IdentityToken}
use notification_server.Domain.Action.{Result, ok, err, panic}
use notification_server.Store.Buckets.{bucket_of, bucket_of-set_bucket}
use notification_server.Store.Broker.{Broker}
use notification_server.Store.Hashes.{Hashes}
use notification_server.Store.World.{
  World, Outcome, answered, dropped, lost, call, deliver, next, after,
}
use notification_server.Queue.Codec.{Codec}
use notification_server.Security.Hash.{Crypto}
use notification_server.Security.Jwt.{Jwt, verify_jwt_token}
use notification_server.Http.Gin.{Context, Handler, Handled, responded, paniced, Body, json}
use notification_server.Http.RateLimiter.{RateLimiter, exact, clock_limit, bucket, last_token}
use notification_server.Http.Text.{split_two}
use notification_server.Http.Middleware.{
  bearer, with_token, with_identity, authenticate_middleware, add_request_id_and_time, recovered,
  check_content_type, panic_recovery_middleware, rate_limiter_middleware, limited, allow,
  request_id_of,
}
use notification_server.Http.Content.{check_content_body}
use notification_server.Http.Handlers.{Site, Moment, delete_user_handler}
use notification_server.Http.Routes.{
  Endpoint, Binders, chain, below_cors, serve, delete_users, post_stories,
}

-- The header's token verifies to that identity.
abbrev pub IsIdentified : Jwt → String → ℕ → String → IdentityToken → Type 0
IsIdentified J secret now authorization who =
    (token : String) × (bearer (split_two authorization) ≡ some token)
    × (verify_jwt_token J now token secret ≡ ok who)

module _ {R H : Type 0} where
  -- Only the keys of the rate limiter and the link may differ.
  abbrev pub IsUntouched : World R H → World R H → Type 0
  IsUntouched w x = (x.db ≡ w.db) × (x.broker ≡ w.broker) × (x.otps ≡ w.otps) × (x.mails ≡ w.mails)

  -- An error, with nothing done.
  abbrev pub IsRefused : World R H → Handled × World R H → Type 0
  IsRefused w (responded r, x) = (400 ≤ r.status) × IsUntouched w x
  IsRefused w (paniced t, x) = IsUntouched w x

  authenticate-refuses :
      (J : Jwt) (secret : String) (now : ℕ) (rest : Handler (World R H)) (c : Context)
      (w : World R H)
      → ((who : IdentityToken) → ¬ IsIdentified J secret now (c.header "Authorization") who)
      → IsRefused w (authenticate_middleware J secret now rest c w)
  unfolding authenticate_middleware
  authenticate-refuses J secret now rest c w nobody =
      token (bearer (split_two (c.header "Authorization"))) refl
    where
      identity :
          (t : String)
          → bearer (split_two (c.header "Authorization")) ≡ some t
          → (r : Result IdentityToken) → verify_jwt_token J now t secret ≡ r
          → IsRefused w (with_identity rest c r w)
      identity t e (ok who) v = absurd (nobody who (t, e, v))
      identity t e (err x) v = (omega arith, (refl, refl, refl, refl))
      identity t e (panic x) v = (refl, refl, refl, refl)

      token :
          (o : Option String)
          → bearer (split_two (c.header "Authorization")) ≡ o
          → IsRefused w (with_token J secret now rest c o w)
      token none e = (omega arith, (refl, refl, refl, refl))
      token (some t) e = identity t e (verify_jwt_token J now t secret) refl

  call-IsUntouched :
      {A : Type 0} (e : Error) (f : World R H → A × World R H)
      → ((w : World R H) → IsUntouched w (f w).1)
      → (w : World R H) → IsUntouched w (call e f w).1
  unfolding call
  call-IsUntouched {A} e f same w = go (next w.link)
    where
      go : (o : Outcome) → IsUntouched w (deliver e o f (record w { link = after w.link })).1
      go answered = same (record w { link = after w.link })
      go dropped = (refl, refl, refl, refl)
      go lost = same (record w { link = after w.link })

  allow-IsUntouched :
      (r : RateLimiter) (now : ℕ) (ip : String) (w : World R H) → IsUntouched w (allow r now ip w).1
  unfolding allow
  allow-IsUntouched r now ip w = call-IsUntouched _ _ (λ x. (refl, refl, refl, refl)) w

  IsRefused-later :
      (w x : World R H) (y : Handled × World R H) → IsUntouched w x → IsRefused x y → IsRefused w y
  IsRefused-later w x (responded r, z) (a, b, c, d) (n, (e, f, g, h)) =
      (n, (e ∙ a, f ∙ b, g ∙ c, h ∙ d))
  IsRefused-later w x (paniced t, z) (a, b, c, d) (e, f, g, h) = (e ∙ a, f ∙ b, g ∙ c, h ∙ d)

  rate_limiter-refuses :
      (r : RateLimiter) (now : ℕ) (rest : Handler (World R H)) (c : Context) (w : World R H)
      → ((x : World R H) → IsRefused x (rest c x))
      → IsRefused w (rate_limiter_middleware r now rest c w)
  unfolding rate_limiter_middleware
  rate_limiter-refuses r now rest c w refuses = elim (Bool-cases (c.client_ip == "")) [
    | inl e ↦ rw e (omega arith, (refl, refl, refl, refl))
    | inr e ↦ rw e (
        IsRefused-later w (allow r now c.client_ip w).1 _ (allow-IsUntouched r now c.client_ip w)
          (go (allow r now c.client_ip w).0 (allow r now c.client_ip w).1))
  ]
    where
      go : (o : Result Bool) (x : World R H) → IsRefused x (limited rest c o x)
      go (ok true) x = refuses x
      go (ok false) x = (omega arith, (refl, refl, refl, refl))
      go (err e) x = (omega arith, (refl, refl, refl, refl))
      go (panic t) x = (refl, refl, refl, refl)

  panic_recovery-refuses :
      (rest : Handler (World R H)) (c : Context) (w : World R H)
      → IsRefused w (rest c w)
      → (400 ≤ (recovered (rest c w).0).status) × IsUntouched w (rest c w).1
  panic_recovery-refuses rest c w h = go (rest c w) h
    where
      go :
          (y : Handled × World R H)
          → IsRefused w y
          → (400 ≤ (recovered y.0).status) × IsUntouched w y.1
      go (responded r, x) h = h
      go (paniced t, x) h = (omega arith, h)

-- The two routes behind `AuthenticateMiddleware`.
abbrev pub IsProtected : Endpoint → Type 0
IsProtected e = (e ≡ delete_users) ⊎ (e ≡ post_stories)

module _ (B : Broker) (C : Codec) (S : Hashes) (K : Crypto) (J : Jwt) (binders : Binders)
    (site : Site) (t : Moment) where
  protected-refuses :
      (e : Endpoint) (c : Context) (w : World B.State S.State)
      → IsProtected e
      → ((who : IdentityToken)
          → ¬ IsIdentified J site.jwt_secret t.seconds (c.header "Authorization") who)
      → IsRefused w (chain B C S K J binders site t e c w)
  unfolding chain
  protected-refuses e c w (inl is) nobody =
      subst (λ e. IsRefused w (chain B C S K J binders site t e c w)) (sym is)
        (authenticate-refuses J site.jwt_secret t.seconds _ c w nobody)
  protected-refuses e c w (inr is) nobody =
      subst (λ e. IsRefused w (chain B C S K J binders site t e c w)) (sym is)
        (authenticate-refuses J site.jwt_secret t.seconds _ c w nobody)

  below_cors-refuses :
      (e : Endpoint) (c : Context) (w : World B.State S.State)
      → IsProtected e
      → ((who : IdentityToken)
          → ¬ IsIdentified J site.jwt_secret t.seconds (c.header "Authorization") who)
      → let (h, x) = below_cors B C S K J binders site t e c w in
        (400 ≤ (recovered h).status) × IsUntouched w x
  unfolding below_cors add_request_id_and_time panic_recovery_middleware
  below_cors-refuses e c w guarded nobody =
      let d = record c { request_id = request_id_of t.uuid (c.header "X-Request-Id") } in
      panic_recovery-refuses
        (rate_limiter_middleware site.limiter t.nanoseconds (chain B C S K J binders site t e)) d w
        (rate_limiter-refuses site.limiter t.nanoseconds (chain B C S K J binders site t e) d w
          (λ x. protected-refuses e d x guarded nobody))

  -- Without a header whose token verifies as an access token, a request on a protected route gets an
  -- error, and the tables, the streams, the one-time passwords and the emails sent stay as they
  -- were, whatever the network does.
  pub unidentified_refused :
      (e : Endpoint) (c : Context) (w : World B.State S.State)
      → IsProtected e
      → ((who : IdentityToken)
          → ¬ IsIdentified J site.jwt_secret t.seconds (c.header "Authorization") who)
      → let (h, x) = serve B C S K J binders site t e c w in
        (400 ≤ (recovered h).status) × IsUntouched w x
  unfolding serve
  unidentified_refused e c w guarded nobody = go (binders.forbids c)
    where
      go :
          (b : Bool)
          → let (h, x) =
              if b
              then (responded (json 403 Body.empty), w)
              else below_cors B C S K J binders site t e c w in
            (400 ≤ (recovered h).status) × IsUntouched w x
      go true = (omega arith, (refl, refl, refl, refl))
      go false = below_cors-refuses e c w guarded nobody

  -- Where the network answers, the address is known, cors does not forbid the request, and the bucket
  -- of the address has the number 0 for its tokens and this time for its last request: a request on
  -- any route gets the status 429, the tables, the streams, the one-time passwords and the emails
  -- sent stay as they were, and the bucket is the same again, so that the next request of this time
  -- is refused too. The capacity is a whole number that a double holds exactly, the product of 0 and
  -- the fill rate is 0, and the time is one of an int64.
  pub empty_bucket_refused :
      (e : Endpoint) (c : Context) (w : World B.State S.State) (capacity : ℕ)
      → site.limiter.capacity ≡ site.limiter.doubles.of_nat capacity
      → capacity ≤ exact
      → site.limiter.doubles.mul (site.limiter.doubles.of_nat 0) site.limiter.fill_rate
        ≡ site.limiter.doubles.of_nat 0
      → t.nanoseconds < clock_limit
      → w.link ≡ []
      → c.client_ip ≢ ""
      → binders.forbids c ≡ false
      → bucket_of c.client_ip w.buckets ≡ some (bucket site.limiter.doubles t.nanoseconds 0)
      → let (h, x) = serve B C S K J binders site t e c w in
        ((recovered h).status ≡ 429)
        × IsUntouched w x
        × (bucket_of c.client_ip x.buckets ≡ some (bucket site.limiter.doubles t.nanoseconds 0))
  unfolding serve below_cors add_request_id_and_time panic_recovery_middleware
      rate_limiter_middleware allow call
  empty_bucket_refused e c w capacity whole small finite clock online known allowed empty =
      elim (Bool-cases (c.client_ip == "")) [
        | inl same ↦ absurd (known ((eq_iff c.client_ip "").0 same))
        | inr other ↦
            rw
              (
                allowed,
                online,
                other,
                empty,
                last_token site.limiter capacity t.nanoseconds whole small finite clock,
              )
              (
                refl,
                (refl, refl, refl, refl),
                bucket_of-set_bucket c.client_ip (bucket site.limiter.doubles t.nanoseconds 0)
                      w.buckets c.client_ip
                    ∙ rw ((eq_iff c.client_ip c.client_ip).1 refl) refl,
              )
      ]

  -- Whom the token names does not matter for a deletion: two identified users who send the same body
  -- and the same content type have the same user deleted, with the same answer.
  pub deletion_ignores_identity :
      (c d : Context) (ann bob : IdentityToken) (w : World B.State S.State)
      → IsIdentified J site.jwt_secret t.seconds (c.header "Authorization") ann
      → IsIdentified J site.jwt_secret t.seconds (d.header "Authorization") bob
      → c.body ≡ d.body
      → c.header "Content-Type" ≡ d.header "Content-Type"
      → chain B C S K J binders site t delete_users c w
        ≡ chain B C S K J binders site t delete_users d w
  unfolding chain authenticate_middleware check_content_type check_content_body delete_user_handler
  deletion_ignores_identity c d ann bob w (a, pa, va) (b, pb, vb) body content =
      rw (pa, va, pb, vb, body, content) refl
