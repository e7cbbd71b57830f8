-- ===== src/Security/Jwt.antt =====
-- internal/infrastructure/security/jwt_auth.go. The library golang-jwt is a parameter; times are in
-- seconds.
use notification_server.Base.{
  ℕ, String, ◌+◌, ◌<◌, ◌≡◌, ◌≢◌, refl, Bool, true, false, Option, none, some, ◌==◌, string_eq,
  arith, eq_iff, if◌then◌else◌,
}
use notification_server.Domain.Errors.{Code, Variable, text, sentinel, new_domain_error}
use notification_server.Domain.Entities.{TokenPair, IdentityToken}
use notification_server.Domain.Action.{Result, ok, err}

pub record Claims : Type 0 where
  pub user_id : ℕ
  pub email : String
  pub issuer : String
  pub subject : String
  pub expires_at : ℕ
  pub issued_at : ℕ

pub record Jwt : Type 0 where
  -- HS256 over a secret
  pub signed_string : Claims → String → Option String
  -- the method that the token's header names is an HMAC
  pub is_hmac : String → Bool
  -- time, token, secret: the claims of a token that is well signed and not expired
  pub parse : ℕ → String → String → Option Claims
  pub is_hmac-signed_string :
      (c : Claims) (k t : String) → signed_string c k ≡ some t → is_hmac t ≡ true
  pub parse-signed_string :
      (now : ℕ) (c : Claims) (k t : String)
      → signed_string c k ≡ some t
      → now < c.expires_at
      → parse now t k ≡ some c
  -- the time decides only if a token is taken
  pub parse_same :
      (now now' : ℕ) (t k : String) (c c' : Claims)
      → parse now t k ≡ some c
      → parse now' t k ≡ some c'
      → c ≡ c'

pub record JwtAuth : Type 0 where
  pub access_secret : String
  pub refresh_secret : String
  pub issuer : String

abbrev pub access_claims : JwtAuth → ℕ → ℕ → String → Claims
access_claims j now id email = record {
  user_id = id;
  email = email;
  issuer = j.issuer;
  subject = "access-token";
  expires_at = now + 3600;
  issued_at = now;
}

abbrev pub refresh_claims : JwtAuth → ℕ → ℕ → String → Claims
refresh_claims j now id email = record {
  user_id = id;
  email = email;
  issuer = j.issuer;
  subject = "refresh-token";
  expires_at = now + 604800;
  issued_at = now;
}

module _ (J : Jwt) where
  unfoldable pub create_jwt_token : JwtAuth → ℕ → ℕ → String → Result TokenPair
  create_jwt_token j now id email =
      elim (J.signed_string (access_claims j now id email) j.access_secret) [
        | none ↦
            err (
              new_domain_error Code.internal (text "failed to create jwt access token")
                (some "jwt"))
        | some a ↦ elim (J.signed_string (refresh_claims j now id email) j.refresh_secret) [
          | none ↦ err (
              new_domain_error Code.internal (text "failed to create jwt refresh token")
                (some "jwt"))
          | some r ↦ ok (record { access_token = a; refresh_token = r })
        ]
      ]

  -- `ParseWithClaims`: the key function refuses a method that is no HMAC.
  abbrev parse_with_claims : ℕ → String → String → Option Claims
  parse_with_claims now token secret = if J.is_hmac token then J.parse now token secret else none

  abbrev identity : String → Option Claims → Result IdentityToken
  identity subject none = err (sentinel Variable.invalid_jwt_token)
  identity subject (some c) =
      if c.subject == subject
      then ok (record { user_id = c.user_id; email = c.email })
      else err (sentinel Variable.invalid_jwt_token)

  unfoldable pub verify_jwt_token : ℕ → String → String → Result IdentityToken
  verify_jwt_token now token secret = identity "access-token" (parse_with_claims now token secret)

  unfoldable pub verify_refresh_token : ℕ → String → String → Result IdentityToken
  verify_refresh_token now token secret =
      identity "refresh-token" (parse_with_claims now token secret)

  -- The two tokens of a pair verify to the user that they were made for, each with its own secret and
  -- at a time before its end: an hour for the access token, seven days for the refresh token.
  pub created_tokens :
      (j : JwtAuth) (now hour week id : ℕ) (email : String) (p : TokenPair)
      → create_jwt_token j now id email ≡ ok p
      → hour < now + 3600
      → week < now + 604800
      → let who : Result IdentityToken = ok (record { user_id = id; email = email }) in
        (verify_jwt_token hour p.access_token j.access_secret ≡ who)
        × (verify_refresh_token week p.refresh_token j.refresh_secret ≡ who)
  unfolding create_jwt_token verify_jwt_token verify_refresh_token
  created_tokens j now hour week id email p made h k = ground (
    arith,
    J.parse-signed_string hour (access_claims j now id email) j.access_secret p.access_token,
    J.parse-signed_string week (refresh_claims j now id email) j.refresh_secret p.refresh_token,
    J.is_hmac-signed_string (access_claims j now id email) j.access_secret p.access_token,
    J.is_hmac-signed_string (refresh_claims j now id email) j.refresh_secret p.refresh_token,
  )

  identity-subject :
      (subject : String) (o : Option Claims) (who : IdentityToken)
      → identity subject o ≡ ok who
      → (c : Claims) × (o ≡ some c) × (c.subject ≡ subject)
  identity-subject subject none who h = cc
  identity-subject subject (some c) who h = (c, refl, (eq_iff c.subject subject).0 (ground arith))

  -- No token is accepted both as an access token and as a refresh token with the same secret.
  tokens_apart :
      (now : ℕ) (token secret : String) (a b : IdentityToken)
      → verify_jwt_token now token secret ≡ ok a
      → verify_refresh_token now token secret ≢ ok b
  unfolding verify_jwt_token verify_refresh_token
  tokens_apart now token secret a b h k =
      let (c, p, s) = identity-subject "access-token" (parse_with_claims now token secret) a h in
      let (c', p', s') =
        identity-subject "refresh-token" (parse_with_claims now token secret) b k in
      cc (p, p', s, s')

  identity_claims :
      (subject : String) (o : Option Claims) (who : IdentityToken)
      → identity subject o ≡ ok who
      → (c : Claims) × (o ≡ some c) × (c.user_id ≡ who.user_id)
  identity_claims subject none who h = cc
  identity_claims subject (some c) who h = (c, refl, ground arith)

  parsed_claims :
      (b : Bool) (o : Option Claims) (c : Claims) → (if b then o else none) ≡ some c → o ≡ some c
  parsed_claims true o c h = h
  parsed_claims false o c h = cc

  -- Whom a refresh token is for does not change with the time.
  pub verify_refresh_token_same :
      (now now' : ℕ) (token secret : String) (a b : IdentityToken)
      → verify_refresh_token now token secret ≡ ok a
      → verify_refresh_token now' token secret ≡ ok b
      → a.user_id ≡ b.user_id
  unfolding verify_refresh_token
  verify_refresh_token_same now now' token secret a b h k =
      let (c, p, s) = identity_claims "refresh-token" (parse_with_claims now token secret) a h in
      let (c', p', s') =
        identity_claims "refresh-token" (parse_with_claims now' token secret) b k in
      let same =
        J.parse_same now now' token secret c c' (parsed_claims (J.is_hmac token) _ c p)
          (parsed_claims (J.is_hmac token) _ c' p') in
      cc (s, s', same)
