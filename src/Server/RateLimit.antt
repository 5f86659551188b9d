-- ===== src/Server/RateLimit.antt =====
-- crates/mnestic-server/src/rate_limit.rs: the token buckets. The source counts tokens in f64 from a
-- monotonic clock; here time is in nanoseconds and a token is `token` = 60·10⁹ units, so that
-- `elapsed * refill_per_sec` is the natural number `elapsed * per_minute` and nothing is rounded.
pub mod Buckets
pub mod Budget
use pg_mnestic.Prelude.{
  ℕ, zero, suc, ◌+◌, ◌-◌, ◌*◌, min, Bool, true, false, List, [], ◌∷◌, Option, none, some, leb, ◌==◌,
  if◌then◌else◌,
}
use pg_mnestic.Text.{Text, text_eq}

abbrev pub token : ℕ
token = 60000000000

-- `DEFAULT_PER_MINUTE`.
abbrev pub default_per_minute : ℕ
default_per_minute = 600

-- `Bucket`.
pub record Bucket : Type 0 where
  pub tokens : ℕ
  pub last : ℕ

-- `RateLimiter`: `capacity` in units, `refill` in units per nanosecond, and the map under the lock.
pub record RateLimiter : Type 0 where
  pub capacity : ℕ
  pub refill : ℕ
  pub buckets : List (Text × Bucket)

-- `RateLimiter::per_minute`.
unfoldable pub per_minute : ℕ → RateLimiter
per_minute n = record { capacity = n * token; refill = n; buckets = [] }

-- `RateLimiter::disabled`.
unfoldable pub disabled : RateLimiter
unfolding per_minute
disabled = per_minute 0

-- `RateLimiter::from_env`: the variable, where it is set, as `parse::<u32>` reads it.
unfoldable pub from_env : Option (Option ℕ) → RateLimiter
unfolding per_minute
from_env (some (some n)) = per_minute n
from_env (some none) = per_minute default_per_minute
from_env none = per_minute default_per_minute

-- `buckets.get_mut(key)`.
unfoldable pub find_bucket : Text → List (Text × Bucket) → Option Bucket
find_bucket key [] = none
find_bucket key ((k, b) ∷ bs) = if text_eq k key then some b else find_bucket key bs

unfoldable pub put_bucket : Text → Bucket → List (Text × Bucket) → List (Text × Bucket)
put_bucket key bucket [] = (key, bucket) ∷ []
put_bucket key bucket ((k, b) ∷ bs) =
    if text_eq k key then (k, bucket) ∷ bs else (k, b) ∷ put_bucket key bucket bs

-- The bucket after the refill. `duration_since` is 0 where the clock went back.
unfoldable pub refilled : ℕ → ℕ → ℕ → Bucket → ℕ
refilled capacity refill now bucket = min (bucket.tokens + (now - bucket.last) * refill) capacity

-- What `allow` does to the bucket of a key, and its answer.
unfoldable pub spend : ℕ → ℕ → ℕ → Option Bucket → Bool × Bucket
unfolding refilled
spend capacity refill now none = (true, record { tokens = capacity - token; last = now })
spend capacity refill now (some bucket) =
    let tokens = refilled capacity refill now bucket in
    if leb token tokens
    then (true, record { tokens = tokens - token; last = now })
    else (false, record { tokens = tokens; last = now })

-- `RateLimiter::allow`, with the reading of `Instant::now`.
unfoldable pub allow : ℕ → Text → RateLimiter → Bool × RateLimiter
unfolding find_bucket put_bucket spend
allow now key limiter =
    if leb limiter.capacity 0
    then (true, limiter)
    else (let (answer, bucket) =
          spend limiter.capacity limiter.refill now (find_bucket key limiter.buckets) in
        (answer, record limiter { buckets = put_bucket key bucket limiter.buckets }))
