-- ===== src/Limit/Redis.antt =====
-- The limits of src/server/security/rate-limit.ts that Redis keeps: the token bucket of the Lua script,
-- and the fixed window. Whether Redis answers, and the count that `INCR` answers, are arguments.
pub mod Script
pub mod Window
use web_sync_play.Prelude.{
  ℕ, ◌+◌, ◌-◌, ◌*◌, ◌/◌, min, max, Bool, true, false, Option, none, some, leb, ltb, ◌==◌,
  if◌then◌else◌,
}
use web_sync_play.Limit.{TokenBucket, RateLimitResult}

pub data RateLimitMetricKey : Type 0 where
  metric_allowed denied_exhausted denied_redis_error : RateLimitMetricKey

pub record RateLimitCounters : Type 0 where
  pub allowed : ℕ
  pub denied_exhausted : ℕ
  pub denied_redis_error : ℕ

unfoldable pub record_rate_limit_metric : RateLimitMetricKey → RateLimitCounters → RateLimitCounters
record_rate_limit_metric metric_allowed c = record c { allowed = c.allowed + 1 }
record_rate_limit_metric denied_exhausted c = record c { denied_exhausted = c.denied_exhausted + 1 }
record_rate_limit_metric denied_redis_error c = record c {
  denied_redis_error = c.denied_redis_error + 1;
}

unfoldable pub track_rate_limit_result : RateLimitResult → RateLimitCounters → RateLimitCounters
unfolding record_rate_limit_metric
track_rate_limit_result result c =
    if result.allowed
    then record_rate_limit_metric metric_allowed c
    else record_rate_limit_metric denied_exhausted c

abbrev pub tokens_now : ℕ → ℕ → ℕ → Option TokenBucket → ℕ
tokens_now capacity refill now none = capacity * 1000
tokens_now capacity refill now (some b) =
    min (capacity * 1000) (b.tokens + (now - b.updated_at_ms) * refill)

-- The script on the hash of one key, with tokens in thousandths.
unfoldable pub token_bucket_script :
    ℕ → ℕ → ℕ → ℕ → Option TokenBucket → RateLimitResult × TokenBucket
token_bucket_script capacity refill now cost stored =
    let tokens = tokens_now capacity refill now stored in
    if leb (cost * 1000) tokens
    then (
      record { allowed = true; remaining = (tokens - cost * 1000) / 1000 },
      record { tokens = tokens - cost * 1000; updated_at_ms = now },
    )
    else (
      record { allowed = false; remaining = tokens / 1000 },
      record { tokens = tokens; updated_at_ms = now },
    )

-- The state of the key and of the counters after a call.
pub record Consumed : Type 0 where
  pub result : RateLimitResult
  pub bucket : Option TokenBucket
  pub counters : RateLimitCounters

-- The answer where Redis does not.
abbrev pub without_redis : Bool → ℕ → RateLimitResult
without_redis fail_open remaining = record {
  allowed = fail_open;
  remaining = if fail_open then remaining else 0;
}

abbrev pub failed_metric : Bool → RateLimitMetricKey
failed_metric true = metric_allowed
failed_metric false = denied_redis_error

unfoldable pub consume_redis_token_bucket :
    Bool → Bool → ℕ → ℕ → ℕ → ℕ → Option TokenBucket → RateLimitCounters → Consumed
unfolding token_bucket_script track_rate_limit_result record_rate_limit_metric
consume_redis_token_bucket up fail_open capacity refill cost now stored counters =
    let (result, bucket) = token_bucket_script (max 1 capacity) refill now cost stored in
    if up
    then record {
      result = result;
      bucket = some bucket;
      counters = track_rate_limit_result result counters;
    }
    else record {
      result = without_redis fail_open (max 1 capacity);
      bucket = stored;
      counters = record_rate_limit_metric (failed_metric fail_open) counters;
    }

-- What a call leaves of a window: whether the expiry is set, and the counters.
pub record Windowed : Type 0 where
  pub result : RateLimitResult
  pub expires : Bool
  pub counters : RateLimitCounters

abbrev pub window_result : ℕ → ℕ → RateLimitResult
window_result limit count =
    if ltb limit count
    then record { allowed = false; remaining = 0 }
    else record { allowed = true; remaining = limit - count }

-- A window of one key: the answer of `INCR`, `none` if Redis fails.
unfoldable pub consume_rate_limit : Bool → ℕ → Option ℕ → RateLimitCounters → Windowed
unfolding track_rate_limit_result record_rate_limit_metric
consume_rate_limit fail_open limit none counters = record {
  result = without_redis fail_open limit;
  expires = false;
  counters = record_rate_limit_metric (failed_metric fail_open) counters;
}
consume_rate_limit fail_open limit (some count) counters = record {
  result = window_result limit count;
  expires = count == 1;
  counters = track_rate_limit_result (window_result limit count) counters;
}
