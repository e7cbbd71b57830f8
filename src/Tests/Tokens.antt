-- ===== src/Tests/Tokens.antt =====
-- A token library that keeps the laws of its interface: it signs the claims of one sample user.
use notification_server.Base.{
  sym, ◌∙◌, ℕ, String, ◌<◌, ◌≡◌, Bool, true, ◌&&◌, ◌⊎◌, Option, none, some, ◌==◌, nat_eq, string_eq,
  if◌then◌else◌, arith, eq_iff, ltb, lt→ltb, refl, inl, inr, Bool-cases,
}
use mathlib.Core.Path.{subst}
use notification_server.Security.Jwt.{Jwt, JwtAuth, Claims, access_claims, refresh_claims}

abbrev pub auth : JwtAuth
auth = record { access_secret = "a-key"; refresh_secret = "r-key"; issuer = "notification" }

-- A time of login.
abbrev pub login : ℕ
login = 1_000_000

abbrev pub access_sample : Claims
access_sample = access_claims auth login 7 "ann@x.org"

abbrev pub refresh_sample : Claims
refresh_sample = refresh_claims auth login 7 "ann@x.org"

abbrev same : Claims → Claims → Bool
same c d =
    c.user_id == d.user_id
    && (c.email == d.email
        && (c.issuer == d.issuer
            && (c.subject == d.subject
                && (c.expires_at == d.expires_at && c.issued_at == d.issued_at))))

claims_ext :
    (c d : Claims)
    → c.user_id ≡ d.user_id
    → c.email ≡ d.email
    → c.issuer ≡ d.issuer
    → c.subject ≡ d.subject
    → c.expires_at ≡ d.expires_at
    → c.issued_at ≡ d.issued_at
    → c ≡ d
claims_ext c d p q r s t u = λ i. record {
  user_id = p i;
  email = q i;
  issuer = r i;
  subject = s i;
  expires_at = t i;
  issued_at = u i;
}

same-≡ : (c d : Claims) → same c d ≡ true → c ≡ d
same-≡ c d h =
    claims_ext c d (ground arith) (ground (arith, eq_iff c.email d.email))
      (ground (arith, eq_iff c.issuer d.issuer)) (ground (arith, eq_iff c.subject d.subject))
      (ground arith) (ground arith)

abbrev signed : Claims → String → Option String
signed c k =
    if same c access_sample
    then some "access"
    else if same c refresh_sample
    then some "refresh"
    else none

abbrev parsed_at : ℕ → String → Option Claims
parsed_at now t =
    if t == "access" && ltb now access_sample.expires_at
    then some access_sample
    else if t == "refresh" && ltb now refresh_sample.expires_at
    then some refresh_sample
    else none

access_read : (now : ℕ) → now < 1003600 → parsed_at now "access" ≡ some access_sample
access_read now h = rw (lt→ltb now 1003600 h) refl

refresh_read : (now : ℕ) → now < 1604800 → parsed_at now "refresh" ≡ some refresh_sample
refresh_read now h = rw (lt→ltb now 1604800 h) refl

claims_read :
    (now : ℕ) (c d : Claims) (w t : String)
    → (now < d.expires_at → parsed_at now w ≡ some d)
    → same c d ≡ true
    → some w ≡ some t
    → now < c.expires_at
    → parsed_at now t ≡ some c
claims_read now c d w t r e h later =
    let q : c ≡ d = same-≡ c d e in cc (r (subst (λ x. now < x.expires_at) q later), h, q)

pub parsed-signed :
    (now : ℕ) (c : Claims) (k t : String)
    → signed c k ≡ some t
    → now < c.expires_at
    → parsed_at now t ≡ some c
parsed-signed now c k t h later = elim (Bool-cases (same c access_sample)) [
  | inl e ↦ claims_read now c access_sample "access" t (access_read now) e (ground arith) later
  | inr e ↦ elim (Bool-cases (same c refresh_sample)) [
    | inl f ↦ claims_read now c refresh_sample "refresh" t (refresh_read now) f (ground arith) later
    | inr f ↦ absurd (ground arith)
  ]
]

access_parsed : (now : ℕ) (c : Claims) → parsed_at now "access" ≡ some c → c ≡ access_sample
access_parsed now c p = ground arith

-- The text of a token settles its claims.
parsed_sample :
    (now : ℕ) (t : String) (c : Claims)
    → parsed_at now t ≡ some c
    → c ≡ (if t == "access" then access_sample else refresh_sample)
parsed_sample now t c p = elim (Bool-cases (t == "access")) [
  | inl e ↦
      rw e (access_parsed now c (subst (λ u. parsed_at now u ≡ some c) ((eq_iff t "access").0 e) p))
  | inr e ↦ rw e (ground arith)
]

pub parsed_same :
    (now now' : ℕ) (t k : String) (c c' : Claims)
    → parsed_at now t ≡ some c
    → parsed_at now' t ≡ some c'
    → c ≡ c'
parsed_same now now' t k c c' p q = parsed_sample now t c p ∙ sym (parsed_sample now' t c' q)

abbrev pub jwt : Jwt
jwt = record {
  signed_string = signed;
  is_hmac = λ t. true;
  parse = λ now t k. parsed_at now t;
  is_hmac-signed_string = λ c k t h. ground arith;
  parse-signed_string = parsed-signed;
  parse_same = parsed_same;
}

-- The same, with one token more, under a name that is not taken.
module _ (name : String) (known : Claims) (free : (now : ℕ) → parsed_at now name ≡ none) where
  abbrev pub or_known : Option Claims → String → Option Claims
  or_known (some c) t = some c
  or_known none t = if t == name then some known else none

  known_claims :
      (o : Option Claims) (t : String) (c : Claims)
      → or_known o t ≡ some c
      → (o ≡ some c) ⊎ ((t ≡ name) × (c ≡ known))
  known_claims none t c h = elim (Bool-cases (t == name)) [
    | inl e ↦ inr ((eq_iff t name).0 e, ground arith)
    | inr e ↦ absurd (ground arith)
  ]
  known_claims (some d) t c h = inl h

  pub known_same :
      (now now' : ℕ) (t k : String) (c c' : Claims)
      → or_known (parsed_at now t) t ≡ some c
      → or_known (parsed_at now' t) t ≡ some c'
      → c ≡ c'
  known_same now now' t k c c' p q =
      go (known_claims (parsed_at now t) t c p) (known_claims (parsed_at now' t) t c' q)
    where
      taken : (n : ℕ) (d : Claims) → parsed_at n t ≡ some d → t ≡ name → ⊥
      taken n d x e = let y = free n in cc (x, y, e)

      go :
          (parsed_at now t ≡ some c) ⊎ ((t ≡ name) × (c ≡ known))
          → (parsed_at now' t ≡ some c') ⊎ ((t ≡ name) × (c' ≡ known))
          → c ≡ c'
      go (inl x) (inl y) = parsed_same now now' t k c c' x y
      go (inl x) (inr (e, y)) = absurd (taken now c x e)
      go (inr (e, x)) (inl y) = absurd (taken now' c' y e)
      go (inr (e, x)) (inr (f, y)) = x ∙ sym y

  abbrev pub with_token : Jwt
  with_token = record jwt {
    parse = λ now t k. or_known (parsed_at now t) t;
    parse-signed_string = λ now c k t h later. rw (parsed-signed now c k t h later) refl;
    parse_same = known_same;
  }
