-- ===== src/Limit/Redis/Window.antt =====
-- The fixed window of src/server/security/rate-limit.ts over the requests of one window.
use web_sync_play.Prelude.{
  ℕ, zero, suc, ◌+◌, ◌-◌, ◌≡◌, refl, min, Bool, some, none, if◌then◌else◌, arith,
}
use web_sync_play.Limit.Redis.{
  consume_rate_limit, RateLimitCounters, track_rate_limit_result, record_rate_limit_metric,
}

-- `n` requests that find the count at `from` and raise it one by one, as `INCR` does until the key
-- expires: how many pass, and the counters after them.
pub window : Bool → ℕ → ℕ → ℕ → RateLimitCounters → ℕ × RateLimitCounters
unfolding consume_rate_limit
window fail_open limit from zero counters = (0, counters)
window fail_open limit from (suc n) counters =
    let answer = consume_rate_limit fail_open limit (some (from + 1)) counters in
    let (passed, last) = window fail_open limit (from + 1) n answer.counters in
    ((if answer.result.allowed then 1 else 0) + passed, last)

window_from :
    (fail_open : Bool) (limit from n : ℕ) (counters : RateLimitCounters)
    → let (passed, last) = window fail_open limit from n counters in
      (passed ≡ min n (limit - from))
      × (last.allowed ≡ counters.allowed + passed)
      × (last.denied_exhausted + passed ≡ counters.denied_exhausted + n)
      × (last.denied_redis_error ≡ counters.denied_redis_error)
unfolding window consume_rate_limit track_rate_limit_result record_rate_limit_metric
window_from fail_open limit from zero counters = (ground arith, omega arith, omega arith, refl)
window_from fail_open limit from (suc n) counters =
    let answer = consume_rate_limit fail_open limit (some (from + 1)) counters in
    let (a, b, c, d) = window_from fail_open limit (from + 1) n answer.counters in
    (ground arith, ground arith, ground arith, ground arith)

-- Of any number of requests in one window exactly the first ones up to the limit pass. The counters
-- of passed and of exhausted requests rise by those that pass and by those that do not. While Redis
-- does not answer, a request passes exactly if the limit fails open.
pub window_passes :
    (fail_open : Bool) (limit n : ℕ) (counters : RateLimitCounters)
    → let (passed, last) = window fail_open limit 0 n counters in
      (passed ≡ min n limit)
      × (last.allowed ≡ counters.allowed + passed)
      × (last.denied_exhausted + passed ≡ counters.denied_exhausted + n)
      × ((consume_rate_limit fail_open limit none counters).result.allowed ≡ fail_open)
unfolding consume_rate_limit
window_passes fail_open limit n counters =
    let (a, b, c, d) = window_from fail_open limit 0 n counters in (ground arith, b, c, refl)
