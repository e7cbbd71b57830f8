-- ===== src/Queue/Backoff.antt =====
-- internal/infrastructure/utils/backoff.go. A `time.Duration` is an int64 of nanoseconds, kept as
-- its bit pattern below 2 ^ 64; `rand.Int63n` is a parameter that panics on what is not positive.
use notification_server.Base.{
  ℕ, zero, suc, ◌+◌, ◌-◌, ◌*◌, ◌%◌, ◌^◌, ◌≤◌, ◌<◌, ◌≡◌, ◌⊎◌, inl, inr, Bool, ◌&&◌, arith, ltb,
  if◌then◌else◌, refl,
}
use native.Mathlib.Nat.{suc-add, pow-suc, pow-le-pow_right, one-le-pow}
use notification_server.Domain.Action.{Result, ok, panic}

abbrev pub word : ℕ
word = 2 ^ 64

abbrev is_positive : ℕ → Bool
is_positive x = ltb 0 x && ltb x (2 ^ 63)

abbrev pub base_delay : ℕ
base_delay = 2_000_000_000

abbrev pub max_delay : ℕ
max_delay = 300_000_000_000

-- The call of `rand.Int63n`.
int63n : (ℕ → ℕ) → ℕ → Result ℕ
int63n rand n = if is_positive n then ok (rand n) else panic "invalid argument to Int63n"

-- `baseDelay * time.Duration(1<<retry)`.
unfoldable pub exp_delay : ℕ → ℕ
exp_delay retry = base_delay * (2 ^ retry % word) % word

-- `expDelay > maxDelay` is a signed comparison: a negative duration is not greater.
jitter : (ℕ → ℕ) → ℕ → Result ℕ
unfolding int63n
jitter rand delay =
    if is_positive delay && ltb max_delay delay then ok max_delay else int63n rand delay

unfoldable pub calculate_backoff_delay : (ℕ → ℕ) → ℕ → Result ℕ
unfolding exp_delay jitter
calculate_backoff_delay rand retry = jitter rand (exp_delay retry)

-- What `rand.Int63n` promises: a number below its argument.
abbrev pub IsUniform : (ℕ → ℕ) → Type 0
IsUniform rand = (n : ℕ) → 0 < n → rand n < n

exp_delay_small : (retry : ℕ) → retry ≤ 32 → exp_delay retry ≡ base_delay * 2 ^ retry
unfolding exp_delay
exp_delay_small retry h = omega (arith, pow-le-pow_right {n = 2} (omega arith) h)

jitter_bounded :
    (rand : ℕ → ℕ) (x : ℕ)
    → IsUniform rand
    → 0 < x
    → x < 2 ^ 63
    → (d : ℕ) × (jitter rand x ≡ ok d) × (d ≤ max_delay) × (d ≤ x)
unfolding jitter
jitter_bounded rand x u pos lt = elim (ltb-cases) [
  | inl h ↦ (max_delay, ground arith, ground arith, ground arith)
  | inr h ↦ (rand x, ground arith, ground (arith, u x), ground (arith, u x))
]
  where
    ltb-cases : (max_delay < x) ⊎ (x ≤ max_delay)
    ltb-cases = grind arith

-- Where `rand.Int63n` gives a number below its argument: up to 32 retries there is a delay, at most five minutes and at most 2s * 2 ^ retry.
pub backoff_bounded :
    (rand : ℕ → ℕ) (retry : ℕ)
    → IsUniform rand
    → retry ≤ 32
    → (d : ℕ) × (calculate_backoff_delay rand retry ≡ ok d)
      × (d ≤ max_delay)
      × (d ≤ base_delay * 2 ^ retry)
unfolding calculate_backoff_delay
backoff_bounded rand retry u h = rw (exp_delay_small retry h) (
    jitter_bounded rand (base_delay * 2 ^ retry) u (omega (arith, one-le-pow retry 2 (omega arith)))
      (omega (arith, pow-le-pow_right {n = 2} (omega arith) h)))

pow-split : (k : ℕ) → 2 ^ (k + 54) ≡ 2 ^ 54 * 2 ^ k
pow-split zero = refl
pow-split (suc k) = rw (suc-add, pow-suc, pow-suc) (omega (arith, pow-split k))

-- 2s = 5 ^ 9 * 2 ^ 10 nanoseconds, so 54 more doublings leave no bit of a word.
exp_delay_gone : (k : ℕ) → exp_delay (k + 54) ≡ 0
unfolding exp_delay
exp_delay_gone k = rw (pow-split k) (omega arith)

jitter_panics :
    (rand : ℕ → ℕ) (x : ℕ)
    → (x ≡ 0) ⊎ (2 ^ 63 ≤ x)
    → jitter rand x ≡ panic "invalid argument to Int63n"
unfolding jitter
jitter_panics rand x h = ground arith

exp_delay_wraps : (k : ℕ) → k ≤ 2 → 2 ^ 63 ≤ exp_delay (33 + k)
unfolding exp_delay
exp_delay_wraps zero h = omega arith
exp_delay_wraps (suc zero) h = omega arith
exp_delay_wraps (suc (suc zero)) h = omega arith
exp_delay_wraps (suc (suc (suc k))) h = omega arith

-- With 33 to 35 retries the delay has wrapped round to a negative number, and from 54 retries on to
-- 0: the call of `rand.Int63n` panics, whatever the source of randomness.
pub backoff_panics :
    (rand : ℕ → ℕ) (retry : ℕ)
    → ((33 ≤ retry) × (retry ≤ 35)) ⊎ (54 ≤ retry)
    → calculate_backoff_delay rand retry ≡ panic "invalid argument to Int63n"
unfolding calculate_backoff_delay
backoff_panics rand retry (inl h) =
    let e : retry ≡ 33 + (retry - 33) = omega arith in
    rw e (jitter_panics rand _ (inr (exp_delay_wraps (retry - 33) (omega arith))))
backoff_panics rand retry (inr h) =
    let e : retry ≡ retry - 54 + 54 = omega arith in
    rw e (jitter_panics rand _ (inl (exp_delay_gone (retry - 54))))
