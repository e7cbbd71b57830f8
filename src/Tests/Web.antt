-- ===== src/Tests/Web.antt =====
-- The theorems on requests, applied to concrete inputs.
use notification_server.Base.{
  ℕ, ◌≤◌, ◌≡◌, ◌≢◌, ◌+◌, ◌-◌, ◌*◌, ◌/◌, leb, arith, refl, String, true, false, ◌↔◌, inl, none, some,
  List, [], ◌∷◌, ◌==◌, string_eq, if◌then◌else◌, length, All,
}
use notification_server.Domain.Entities.{IdentityToken}
use notification_server.Domain.Action.{ok}
use notification_server.Store.World.{World}
use notification_server.Security.Jwt.{Jwt, Claims, access_claims, verify_jwt_token}
use notification_server.Http.Gin.{Context}
use notification_server.Http.Text.{codes}
use notification_server.Http.Validators.{
  password_validator, user_preferences_validation, password_validator_iff,
  user_preferences_validation_iff, Has, is_lower, is_upper, is_digit, is_special, IsItem,
}
use notification_server.Http.Middleware.{recovered}
use notification_server.Http.Content.{Binder, bound}
use notification_server.Http.Handlers.{Site, Moment}
use notification_server.Http.Routes.{Binders, chain, serve, delete_users, post_stories}
use notification_server.Http.Guard.{
  unidentified_refused, empty_bucket_refused, deletion_ignores_identity, IsUntouched, IsIdentified,
}
use notification_server.Http.RateLimiter.{Doubles, RateLimiter, bucket, allowed, burst}
use notification_server.Store.Buckets.{bucket_of}
use notification_server.Tests.Accounts.{ann, with_db, guess, cleo, draws}
use notification_server.Tests.Memory.{Memory, memory}
use notification_server.Tests.Otps.{Cells, otps, crypto}
use notification_server.Tests.Samples.{new_codec}
use notification_server.Tests.Tokens.{jwt, auth, login, with_token}

-- Every body reads as the same payload.
abbrev pub reading : {A : Type 0} → A → Binder A
reading a = record {
  should_bind_json = λ n body. bound a;
  at_end = λ n body. true;
  registers = λ t. true;
  struct = λ u. none;
}

abbrev pub binders : Binders
binders = record {
  registered_user = reading cleo;
  register_verify = reading "42";
  login_user = reading guess;
  delete_user = reading 7;
  forbids = λ c. false;
}

-- Whole numbers in place of doubles.
abbrev pub smaller_of : ℕ → ℕ → ℕ
smaller_of a b = if leb a b then a else b

abbrev pub whole_numbers : Doubles
whole_numbers = record {
  of_nat = λ n. n;
  add = λ a b. a + b;
  sub = λ a b. a - b;
  mul = λ a b. a * b;
  div = λ a b. a / b;
  min = smaller_of;
  max = λ a b. if leb a b then b else a;
  ge = λ a b. leb b a;
  sub_self = λ t h. omega arith;
  max_zero = refl;
  zero_div = refl;
  add_zero = λ n h. omega arith;
  sub_one = λ n h. omega arith;
  min_below = λ m n h k. ground arith;
  ge_suc = λ n h. ground arith;
  ge_zero = refl;
}

abbrev pub ten_requests : RateLimiter
ten_requests = record { doubles = whole_numbers; capacity = 10; fill_rate = 1 }

abbrev pub site : Site
site = record {
  auth = auth;
  cost = 10;
  limiter = record { doubles = whole_numbers; capacity = 0; fill_rate = 1 };
  story_stream = "stories";
  otp_expiration = 2;
  jwt_secret = "a-key";
  jwt_refresh = "r-key";
  max_allowed_size = 1_000_000;
}

-- The same with room for ten requests.
abbrev pub open_site : Site
open_site = record site { limiter = ten_requests }

abbrev pub moment : Moment
moment = record {
  seconds = login;
  nanoseconds = 9_000_000_000;
  uuid = "u1";
  salt = 1;
  draws = draws;
  stats = record {
    alloc = 9_000_000;
    total_alloc = 9_000_000;
    sys = 9_000_000;
    num_gc = 1;
    num_goroutine = 20;
  };
}

abbrev pub headers : String → String → String
headers authorization k =
    if k == "Authorization"
    then authorization
    else if k == "Content-Type"
    then "application/json"
    else ""

abbrev pub request : String → Context
request authorization = record {
  client_ip = "10.0.0.1";
  header = headers authorization;
  body = "7";
  request_id = "";
  user_id = 0;
}

password_validator_iff_example : (password_validator "Sea-c4t!" ≡ true) ↔ (
    Has is_lower (codes "Sea-c4t!")
    × Has is_upper (codes "Sea-c4t!")
    × Has is_digit (codes "Sea-c4t!")
    × Has is_special (codes "Sea-c4t!"))
password_validator_iff_example = password_validator_iff "Sea-c4t!"

abbrev liked : List String
liked = "sea" ∷ "cats" ∷ []

user_preferences_validation_iff_example :
    (user_preferences_validation liked ≡ true) ↔ ((length liked ≤ 5) × All IsItem liked)
user_preferences_validation_iff_example = user_preferences_validation_iff liked

refresh_denied : (who : IdentityToken) → verify_jwt_token jwt login "refresh" "a-key" ≢ ok who
unfolding verify_jwt_token
refresh_denied who h = cc

-- A refresh token identifies nobody.
nobody : (who : IdentityToken) → ¬ IsIdentified jwt "a-key" login "Bearer refresh" who
nobody who (t, e, v) = refresh_denied who (of_text t e v)
  where
    of_text :
        (t : String)
        → some "refresh" ≡ some t
        → verify_jwt_token jwt login t "a-key" ≡ ok who
        → verify_jwt_token jwt login "refresh" "a-key" ≡ ok who
    of_text t e v = cc (e, v)

unidentified_refused_example :
    let (h, x) =
      serve memory new_codec otps crypto jwt binders open_site moment delete_users
        (request "Bearer refresh")
        (with_db ann []) in
    (400 ≤ (recovered h).status) × IsUntouched (with_db ann []) x
unidentified_refused_example =
    unidentified_refused memory new_codec otps crypto jwt binders open_site moment delete_users
      (request "Bearer refresh") (with_db ann []) (inl refl) nobody

-- The address had its last token at this very time.
abbrev emptied : World Memory Cells
emptied = record (with_db ann []) {
  buckets = ("10.0.0.1", bucket whole_numbers 9_000_000_000 0) ∷ [];
}

empty_bucket_refused_example :
    let (h, x) =
      serve memory new_codec otps crypto jwt binders open_site moment post_stories
        (request "Bearer access")
        emptied in
    ((recovered h).status ≡ 429)
    × IsUntouched emptied x
    × (bucket_of "10.0.0.1" x.buckets ≡ some (bucket whole_numbers 9_000_000_000 0))
unfolding bucket_of
empty_bucket_refused_example =
    empty_bucket_refused memory new_codec otps crypto jwt binders open_site moment post_stories
      (request "Bearer access") emptied 10 refl (omega arith) refl (omega arith) refl (λ h. cc) refl
      refl

burst_example : allowed ten_requests 9_000_000_000 25 none ≡ 10
burst_example = burst ten_requests 10 9_000_000_000 refl (omega arith) refl (omega arith) 25

-- A token library that knows a token of another user too.
abbrev bob_claims : Claims
bob_claims = access_claims auth login 8 "bob@x.org"

bob_is_free : (now : ℕ) → jwt.parse now "bob" "" ≡ none
bob_is_free now = refl

abbrev two_users : Jwt
two_users = with_token "bob" bob_claims bob_is_free

abbrev identity_of_ann : IdentityToken
identity_of_ann = record { user_id = 7; email = "ann@x.org" }

abbrev identity_of_bob : IdentityToken
identity_of_bob = record { user_id = 8; email = "bob@x.org" }

ann_verifies : verify_jwt_token two_users login "access" "a-key" ≡ ok identity_of_ann
unfolding verify_jwt_token
ann_verifies = refl

bob_verifies : verify_jwt_token two_users login "bob" "a-key" ≡ ok identity_of_bob
unfolding verify_jwt_token
bob_verifies = refl

deletion_ignores_identity_example :
    chain memory new_codec otps crypto two_users binders site moment delete_users
      (request "Bearer access")
      (with_db ann [])
    ≡ chain memory new_codec otps crypto two_users binders site moment delete_users
        (request "Bearer bob")
        (with_db ann [])
deletion_ignores_identity_example =
    deletion_ignores_identity memory new_codec otps crypto two_users binders site moment
      (request "Bearer access") (request "Bearer bob") identity_of_ann identity_of_bob
      (with_db ann []) ("access", refl, ann_verifies) ("bob", refl, bob_verifies) refl refl
