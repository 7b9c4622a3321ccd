-- ===== src/Limit.antt =====
-- The in-process token buckets of src/server/security/rate-limit.ts. Tokens are in thousandths, so that
-- milliseconds times a refill per second are exact.
mod Tests
pub mod Bounds
pub mod Redis
pub mod HotEvents
use web_sync_play.Prelude.{
  ℕ, ◌+◌, ◌-◌, ◌*◌, ◌/◌, min, max, String, Bool, true, false, not, Option, none, some, List, [],
  ◌∷◌, ltb, leb, if◌then◌else◌, lookup, insert, keep, length,
}

pub record TokenBucket : Type 0 where
  pub tokens : ℕ
  pub updated_at_ms : ℕ

pub record RateLimitResult : Type 0 where
  pub allowed : Bool
  pub remaining : ℕ

abbrev pub token_bucket_stale_ms : ℕ
token_bucket_stale_ms = 5 * 60000

abbrev pub token_bucket_prune_at : ℕ
token_bucket_prune_at = 10000

unfoldable pub refilled : ℕ → ℕ → ℕ → Option TokenBucket → TokenBucket
refilled capacity refill now none = record { tokens = capacity * 1000; updated_at_ms = now }
refilled capacity refill now (some bucket) = record {
  tokens = min (capacity * 1000) (bucket.tokens + (now - bucket.updated_at_ms) * refill);
  updated_at_ms = now;
}

-- One request on the bucket of its key. `capacity` is 1 at least.
unfoldable pub consume_bucket : ℕ → ℕ → ℕ → ℕ → Option TokenBucket → RateLimitResult × TokenBucket
unfolding refilled
consume_bucket capacity refill cost now stored =
    let bucket = refilled (max 1 capacity) refill now stored in
    if ltb bucket.tokens (cost * 1000)
    then (record { allowed = false; remaining = bucket.tokens / 1000 }, bucket)
    else (
      record { allowed = true; remaining = (bucket.tokens - cost * 1000) / 1000 },
      record bucket { tokens = bucket.tokens - cost * 1000 },
    )

abbrev pub is_fresh : ℕ → String × TokenBucket → Bool
is_fresh now e = ltb (now - e.1.updated_at_ms) token_bucket_stale_ms

unfoldable pub consume_token_bucket :
    String
    → ℕ
    → ℕ
    → ℕ
    → ℕ
    → List (String × TokenBucket)
    → RateLimitResult × List (String × TokenBucket)
unfolding consume_bucket
consume_token_bucket key capacity refill cost now buckets =
    let kept =
      if leb token_bucket_prune_at (length buckets) then keep (is_fresh now) buckets else buckets in
    let (result, bucket) = consume_bucket capacity refill cost now (lookup key kept) in
    (result, insert key bucket kept)
