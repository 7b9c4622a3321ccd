-- ===== src/Player/Sync/Rates.antt =====
-- The rates of src/client/player/playback-sync.ts.
use web_sync_play.Prelude.{ℕ, ◌*◌, ◌≤◌, ◌<◌, ◌≡◌, ◌↔◌, some, arith}
use web_sync_play.Player.Sync.{
  resolve_catch_up_playback_rate, is_catch_up_drift_band, catch_up_drift_max,
  playback_rate_schema_max,
}

-- To catch up, a player is never slower than the room, never more than half as fast again, and never
-- faster than three times. It is faster than the room exactly if the room is below that limit. The
-- room's rate is in the range of the schema.
pub catch_up_bounds :
    (room_rate drift floor r : ℕ)
    → room_rate ≤ 300
    → resolve_catch_up_playback_rate room_rate drift floor ≡ some r
    → (room_rate * 100 ≤ r)
      × (r ≤ room_rate * 150)
      × (r ≤ playback_rate_schema_max)
      × ((room_rate * 100 < r) ↔ (room_rate < 300))
      × (floor < drift)
      × (drift ≤ catch_up_drift_max)
unfolding resolve_catch_up_playback_rate is_catch_up_drift_band
catch_up_bounds room_rate drift floor r h e = (
  ground arith,
  ground arith,
  ground arith,
  (λ k. ground arith, λ k. ground arith),
  ground arith,
  ground arith,
)
