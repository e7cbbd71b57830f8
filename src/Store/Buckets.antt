-- ===== src/Store/Buckets.antt =====
-- The two Redis keys of an address, "rate_limit:%s:tokens" and "rate_limit:%s:last", that
-- internal/adapters/http/middleware/rate_limiter.go writes together: one bucket for each address.
use notification_server.Base.{
  ℕ, String, ◌≡◌, Option, none, some, List, [], ◌∷◌, ◌==◌, string_eq, arith, if◌then◌else◌,
}

pub record Bucket : Type 0 where
  pub tokens : ℕ
  pub last : ℕ

abbrev pub Buckets : Type 0
Buckets = List (String × Bucket)

-- GET of both keys.
unfoldable pub bucket_of : String → Buckets → Option Bucket
bucket_of ip [] = none
bucket_of ip ((j, b) ∷ rest) = if j == ip then some b else bucket_of ip rest

-- SET of both keys.
unfoldable pub set_bucket : String → Bucket → Buckets → Buckets
set_bucket ip b bs = (ip, b) ∷ bs

pub bucket_of-set_bucket :
    (ip : String) (b : Bucket) (bs : Buckets) (j : String)
    → bucket_of j (set_bucket ip b bs) ≡ (if ip == j then some b else bucket_of j bs)
unfolding bucket_of set_bucket
bucket_of-set_bucket ip b bs j = ground arith
