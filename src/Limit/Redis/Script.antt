-- ===== src/Limit/Redis/Script.antt =====
-- The Lua script of src/server/security/rate-limit.ts against the bucket that the process keeps.
use web_sync_play.Prelude.{ℕ, ◌≤◌, ◌≡◌, Option, none, some, arith}
use web_sync_play.Limit.{TokenBucket, consume_bucket, refilled}
use web_sync_play.Limit.Redis.{token_bucket_script}

-- The script that Redis runs and the bucket in the process are one limiter: for a capacity of one at
-- least they give the same answer, and leave the same bucket behind.
pub script_agrees :
    (capacity refill now cost : ℕ) (stored : Option TokenBucket)
    → 1 ≤ capacity
    → token_bucket_script capacity refill now cost stored
      ≡ consume_bucket capacity refill cost now stored
unfolding token_bucket_script consume_bucket refilled
script_agrees capacity refill now cost none h = ground arith
script_agrees capacity refill now cost (some b) h = ground arith
