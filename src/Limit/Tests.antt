-- ===== src/Limit/Tests.antt =====
-- The theorems on src/server/security/rate-limit.ts, applied to concrete values.
use web_sync_play.Limit.HotEvents.{seek_preview, hot_ws_event_limits, EventLimit}
use web_sync_play.Limit.{TokenBucket}
use web_sync_play.Limit.Redis.{RateLimitCounters}
use web_sync_play.Prelude.{refl, arith, ◌+◌, ◌*◌, ◌∷◌, [], ◌≡◌, ◌≤◌, true, false, some, none, List}
use web_sync_play.Limit.HotEvents.Budget.{worth, credit, run_hot, HotEvent, hot_events_pay}

abbrev full : TokenBucket
full = record { tokens = 2000; updated_at_ms = 1000 }

abbrev no_counts : RateLimitCounters
no_counts = record { allowed = 0; denied_exhausted = 0; denied_redis_error = 0 }

abbrev previews : EventLimit
previews = hot_ws_event_limits seek_preview

abbrev two_previews : List HotEvent
two_previews =
    record { up = true; up_again = true; now = 1100 }
    ∷ record { up = false; up_again = true; now = 1150 }
    ∷ []

hot_events_pay_example :
    let run = run_hot previews 4 two_previews none (some full) no_counts in
    (last : TokenBucket) × (run.bucket ≡ some last)
    × (run.passed * 1000 + credit run.entry + worth previews.refill_per_second 1200 last
        ≤ credit none + worth previews.refill_per_second 1200 full)
hot_events_pay_example =
    hot_events_pay previews 4 1000 1200 two_previews none (some full) full no_counts (omega arith)
      refl (omega arith) (omega arith, (omega arith, omega arith))
