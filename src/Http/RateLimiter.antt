-- ===== src/Http/RateLimiter.antt =====
-- internal/adapters/http/middleware/rate_limiter.go: the token bucket of `AllowRequest`, kept in two
-- Redis keys by a script. Its numbers are doubles: a double is the number that its 64 bits are, and
-- what the script does with doubles is a parameter, so nothing is assumed of how it rounds but the
-- laws below. `none` stands for keys that are not there, or not any more.
use notification_server.Base.{
  ℕ, zero, suc, ◌≤◌, ◌<◌, ◌≡◌, refl, sym, Bool, true, false, Option, none, some, leb, arith,
  if◌then◌else◌,
}
use mathlib.Core.Path.{subst}
use notification_server.Store.Buckets.{Bucket}

-- The numbers up to 2 ^ 53 are doubles.
abbrev pub exact : ℕ
exact = 9_007_199_254_740_992

-- More nanoseconds than an int64 has.
abbrev pub clock_limit : ℕ
clock_limit = 9_223_372_036_854_775_808

-- IEEE 754 as a script of Redis has it: `of_nat` is `tonumber` of the digits of a number.
pub record Doubles : Type 0 where
  pub of_nat : ℕ → ℕ
  pub add : ℕ → ℕ → ℕ
  pub sub : ℕ → ℕ → ℕ
  pub mul : ℕ → ℕ → ℕ
  pub div : ℕ → ℕ → ℕ
  pub min : ℕ → ℕ → ℕ
  pub max : ℕ → ℕ → ℕ
  pub ge : ℕ → ℕ → Bool
  -- A time less itself is 0, and 0 divided by 1e9 is 0.
  pub sub_self : (t : ℕ) → t < clock_limit → sub (of_nat t) (of_nat t) ≡ of_nat 0
  pub max_zero : max (of_nat 0) (of_nat 0) ≡ of_nat 0
  pub zero_div : div (of_nat 0) (of_nat 1_000_000_000) ≡ of_nat 0
  -- Small whole numbers are exact.
  pub add_zero : (n : ℕ) → n ≤ exact → add (of_nat n) (of_nat 0) ≡ of_nat n
  pub sub_one : (n : ℕ) → suc n ≤ exact → sub (of_nat (suc n)) (of_nat 1) ≡ of_nat n
  pub min_below : (m n : ℕ) → n ≤ m → m ≤ exact → min (of_nat m) (of_nat n) ≡ of_nat n
  pub ge_suc : (n : ℕ) → suc n ≤ exact → ge (of_nat (suc n)) (of_nat 1) ≡ true
  pub ge_zero : ge (of_nat 0) (of_nat 1) ≡ false

-- The two settings are float64 in Go too.
pub record RateLimiter : Type 0 where
  pub doubles : Doubles
  pub capacity : ℕ
  -- tokens per second
  pub fill_rate : ℕ

-- The tokens of a request at the time `now`, a double of nanoseconds.
unfoldable pub refilled : RateLimiter → ℕ → Option Bucket → ℕ
refilled r now none = r.capacity
refilled r now (some b) =
    let elapsed =
      r.doubles.div (r.doubles.max (r.doubles.of_nat 0) (r.doubles.sub now b.last))
        (r.doubles.of_nat 1_000_000_000) in
    let to_add = r.doubles.mul elapsed r.fill_rate in
    r.doubles.min r.capacity (r.doubles.add b.tokens to_add)

abbrev pub take_token : Doubles → ℕ → ℕ → Bool × Bucket
take_token D now tokens =
    if D.ge tokens (D.of_nat 1)
    then (true, record { tokens = D.sub tokens (D.of_nat 1); last = now })
    else (false, record { tokens = tokens; last = now })

-- `AllowRequest` at a time in nanoseconds.
unfoldable pub allow_request : RateLimiter → ℕ → Option Bucket → Bool × Bucket
unfolding refilled
allow_request r nanoseconds b =
    let now = r.doubles.of_nat nanoseconds in take_token r.doubles now (refilled r now b)

-- How many of so many requests at one time are allowed.
unfoldable pub allowed : RateLimiter → ℕ → ℕ → Option Bucket → ℕ
allowed r now zero b = 0
allowed r now (suc n) b =
    let (ok, b') = allow_request r now b in
    let m = allowed r now n (some b') in if ok then suc m else m

abbrev pub smaller : ℕ → ℕ → ℕ
smaller a b = if leb a b then a else b

-- The bucket that has so many whole tokens at a time.
abbrev pub bucket : Doubles → ℕ → ℕ → Bucket
bucket D now k = record { tokens = D.of_nat k; last = D.of_nat now }

module _ (r : RateLimiter) (c now : ℕ) (whole : r.capacity ≡ r.doubles.of_nat c) (small : c ≤ exact)
    (finite : r.doubles.mul (r.doubles.of_nat 0) r.fill_rate ≡ r.doubles.of_nat 0)
    (clock : now < clock_limit) where
  not_refilled :
      (k : ℕ)
      → k ≤ c
      → refilled r (r.doubles.of_nat now) (some (bucket r.doubles now k)) ≡ r.doubles.of_nat k
  unfolding refilled
  not_refilled k le =
      rw
        (
          whole,
          r.doubles.sub_self now clock,
          r.doubles.max_zero,
          r.doubles.zero_div,
          finite,
          r.doubles.add_zero k (omega arith),
          r.doubles.min_below c k le small,
        )
        refl

  pub last_token :
      allow_request r now (some (bucket r.doubles now 0)) ≡ (false, bucket r.doubles now 0)
  unfolding allow_request
  last_token = rw (not_refilled 0 (omega arith), r.doubles.ge_zero) refl

  one_token :
      (k : ℕ)
      → suc k ≤ c
      → allow_request r now (some (bucket r.doubles now (suc k))) ≡ (true, bucket r.doubles now k)
  unfolding allow_request
  one_token k le =
      rw
        (
          not_refilled (suc k) le,
          r.doubles.ge_suc k (omega arith),
          r.doubles.sub_one k (omega arith),
        )
        refl

  -- A full bucket is one of `c` tokens.
  first_request : allow_request r now none ≡ allow_request r now (some (bucket r.doubles now c))
  unfolding allow_request refilled
  first_request = rw (not_refilled c (omega arith), whole) refl

  spent : (k n : ℕ) → k ≤ c → allowed r now n (some (bucket r.doubles now k)) ≡ smaller k n
  unfolding allowed
  spent k zero le = ground arith
  spent zero (suc n) le = rw (last_token, spent zero n le) (ground arith)
  spent (suc k) (suc n) le = rw (one_token k le, spent k n (omega arith)) (ground arith)

  -- A burst of requests from an address without keys, all at one reading of the clock: where the
  -- capacity is a whole number that a double holds exactly and the fill rate is a number whose
  -- product with 0 is 0, as many are allowed as the capacity says, or all if there are fewer.
  pub burst : (n : ℕ) → allowed r now n none ≡ smaller c n
  unfolding allowed
  burst zero = ground arith
  burst (suc n) =
      subst
        (λ y. (let m = allowed r now n (some y.1) in if y.0 then suc m else m) ≡ smaller c (suc n))
        (sym first_request) (spent c (suc n) (omega arith))
