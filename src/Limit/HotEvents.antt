-- ===== src/Limit/HotEvents.antt =====
-- The coalesced limits of src/server/security/rate-limit.ts for events that come often.
pub mod Budget
use web_sync_play.Prelude.{
  ℕ, ◌+◌, ◌-◌, ◌*◌, max, String, Bool, true, false, not, ◌&&◌, ◌||◌, Option, none, some, List, [],
  ◌∷◌, ltb, leb, ◌==◌, if◌then◌else◌, lookup, insert, keep, length, concat,
}
use web_sync_play.Limit.{TokenBucket, RateLimitResult}
use web_sync_play.Limit.Redis.{RateLimitCounters, Consumed, consume_redis_token_bucket}

pub data HotWsEventType : Type 0 where
  seek_preview playback_seek participant_update webrtc_signal : HotWsEventType
  sfu_create_transport sfu_connect_transport sfu_produce_data sfu_consume_data : HotWsEventType

pub record EventLimit : Type 0 where
  pub key_prefix : String
  pub capacity : ℕ
  pub refill_per_second : ℕ

abbrev pub hot_ws_event_limits : HotWsEventType → EventLimit
hot_ws_event_limits seek_preview = record {
  key_prefix = "ws:seek-preview";
  capacity = 48;
  refill_per_second = 24;
}
hot_ws_event_limits playback_seek = record {
  key_prefix = "ws:playback-seek";
  capacity = 30;
  refill_per_second = 10;
}
hot_ws_event_limits participant_update = record {
  key_prefix = "ws:participant-update";
  capacity = 30;
  refill_per_second = 15;
}
hot_ws_event_limits webrtc_signal = record {
  key_prefix = "ws:local-media-webrtc-signal";
  capacity = 60;
  refill_per_second = 20;
}
hot_ws_event_limits sfu_create_transport = record {
  key_prefix = "ws:local-media-sfu-create-transport";
  capacity = 12;
  refill_per_second = 3;
}
hot_ws_event_limits sfu_connect_transport = record {
  key_prefix = "ws:local-media-sfu-connect-transport";
  capacity = 24;
  refill_per_second = 6;
}
hot_ws_event_limits sfu_produce_data = record {
  key_prefix = "ws:local-media-sfu-produce-data";
  capacity = 24;
  refill_per_second = 6;
}
hot_ws_event_limits sfu_consume_data = record {
  key_prefix = "ws:local-media-sfu-consume-data";
  capacity = 36;
  refill_per_second = 12;
}

abbrev pub hot_ws_coalesce_batch : HotWsEventType → ℕ
hot_ws_coalesce_batch seek_preview = 4
hot_ws_coalesce_batch webrtc_signal = 4
hot_ws_coalesce_batch _ = 1

unfoldable pub hot_ws_event_rate_key : HotWsEventType → String → String → String
hot_ws_event_rate_key event room_id user_id =
    concat (hot_ws_event_limits event).key_prefix (concat ":" (concat room_id (concat ":" user_id)))

pub record HotWsCoalesceEntry : Type 0 where
  pub remaining_local : ℕ
  pub denied_until_ms : ℕ

abbrev pub hot_ws_coalesce_deny_backoff_ms : ℕ
hot_ws_coalesce_deny_backoff_ms = 100

abbrev pub hot_ws_coalesce_stale_ms : ℕ
hot_ws_coalesce_stale_ms = 5 * 60000

abbrev pub hot_ws_coalesce_prune_at : ℕ
hot_ws_coalesce_prune_at = 10000

abbrev pub is_kept : ℕ → String × HotWsCoalesceEntry → Bool
is_kept now e =
    let spent = e.1.remaining_local == 0 in
    let idle =
      ltb 0 e.1.denied_until_ms && leb hot_ws_coalesce_stale_ms (now - e.1.denied_until_ms) in
    not (spent && (idle || e.1.denied_until_ms == 0))

-- What a call leaves of one key: the entry of the process, the bucket of Redis, and the counters.
pub record HotConsumed : Type 0 where
  pub result : RateLimitResult
  pub entry : Option HotWsCoalesceEntry
  pub bucket : Option TokenBucket
  pub counters : RateLimitCounters

abbrev pub denied : RateLimitResult
denied = record { allowed = false; remaining = 0 }

abbrev pub entry_of : ℕ → ℕ → HotWsCoalesceEntry
entry_of remaining denied_until = record {
  remaining_local = remaining;
  denied_until_ms = denied_until;
}

-- The answer of the charge of a whole batch, or else of one token.
unfoldable pub batch_outcome : ℕ → ℕ → Consumed → Consumed → HotConsumed
batch_outcome batch now whole single =
    if whole.result.allowed
    then record {
      result = record { allowed = true; remaining = whole.result.remaining + (batch - 1) };
      entry = some (entry_of (batch - 1) 0);
      bucket = whole.bucket;
      counters = whole.counters;
    }
    else record {
      result = single.result;
      entry =
          some (
            entry_of 0
              (if single.result.allowed then 0 else now + hot_ws_coalesce_deny_backoff_ms));
      bucket = single.bucket;
      counters = single.counters;
    }

-- `up` and `up_again` say whether Redis answers.
unfoldable pub charge_batch :
    Bool → Bool → EventLimit → ℕ → ℕ → Option TokenBucket → RateLimitCounters → HotConsumed
unfolding batch_outcome
charge_batch up up_again limit batch now stored counters =
    let whole =
      consume_redis_token_bucket up false limit.capacity limit.refill_per_second batch now stored
        counters in
    batch_outcome batch now whole (
      consume_redis_token_bucket up_again false limit.capacity limit.refill_per_second 1 now
        whole.bucket whole.counters)

-- One event of one key with a batch above one.
unfoldable pub coalesce :
    Bool
    → Bool
    → EventLimit
    → ℕ
    → ℕ
    → Option HotWsCoalesceEntry
    → Option TokenBucket
    → RateLimitCounters
    → HotConsumed
unfolding charge_batch
coalesce up up_again limit batch now none stored counters =
    charge_batch up up_again limit batch now stored counters
coalesce up up_again limit batch now (some entry) stored counters =
    if ltb now entry.denied_until_ms
    then record { result = denied; entry = some entry; bucket = stored; counters = counters }
    else if ltb 0 entry.remaining_local
    then record {
      result = record { allowed = true; remaining = entry.remaining_local - 1 };
      entry = some (record entry { remaining_local = entry.remaining_local - 1 });
      bucket = stored;
      counters = counters;
    }
    else charge_batch up up_again limit batch now stored counters

-- The map of the process and the buckets that Redis holds.
pub record HotState : Type 0 where
  pub coalesced : List (String × HotWsCoalesceEntry)
  pub buckets : List (String × TokenBucket)
  pub counters : RateLimitCounters

abbrev pub insert_some {ℓ} :
    {V : Type ℓ} → String → Option V → List (String × V) → List (String × V)
insert_some key none m = m
insert_some key (some v) m = insert key v m

unfoldable pub consume_hot_ws_event_limit :
    Bool → Bool → HotWsEventType → String → String → ℕ → HotState → RateLimitResult × HotState
unfolding hot_ws_event_rate_key consume_redis_token_bucket coalesce
consume_hot_ws_event_limit up up_again event room_id user_id now s =
    let limit = hot_ws_event_limits event in
    let batch = hot_ws_coalesce_batch event in
    let key = hot_ws_event_rate_key event room_id user_id in
    let kept =
      if leb hot_ws_coalesce_prune_at (length s.coalesced)
      then keep (is_kept now) s.coalesced
      else s.coalesced in
    let single =
      consume_redis_token_bucket up false limit.capacity limit.refill_per_second 1 now
        (lookup key s.buckets) s.counters in
    let hot =
      coalesce up up_again limit batch now (lookup key kept) (lookup key s.buckets) s.counters in
    if leb batch 1
    then (
      single.result,
      record s { buckets = insert_some key single.bucket s.buckets; counters = single.counters },
    )
    else (
      hot.result,
      record {
        coalesced = insert_some key hot.entry kept;
        buckets = insert_some key hot.bucket s.buckets;
        counters = hot.counters;
      },
    )
