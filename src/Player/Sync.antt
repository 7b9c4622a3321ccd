-- ===== src/Player/Sync.antt =====
-- src/client/player/playback-sync.ts. A time of the player or of the room is in hundredths of a
-- millisecond, as in Room.State; the source has seconds. A rate is in hundredths, and the rate to catch
-- up with in ten-thousandths. A measure that is missing, not finite or not positive is `none`.
pub mod Rates
pub mod Ceiling
pub mod Neighbours
use web_sync_play.Prelude.{
  ◌/◌, ℕ, ◌+◌, ◌-◌, ◌*◌, min, max, Bool, true, false, not, ◌&&◌, ◌||◌, Option, none, some, ltb, leb,
  ◌==◌, if◌then◌else◌, or_else, is_some,
}
use web_sync_play.Room.State.{LoopMode, off, same_loop}

pub record PlaybackSyncState : Type 0 where
  pub paused : Bool
  pub playback_rate : ℕ
  pub timeline_anchor_ms : ℕ
  pub server_now_ms : ℕ

-- A second.
abbrev pub second : ℕ
second = 100000

abbrev pub default_playback_drift_threshold : ℕ
default_playback_drift_threshold = 80000

-- Half of `rttMs`, and a quarter of a second.
unfoldable pub resolve_playback_drift_threshold : ℕ → ℕ → ℕ
resolve_playback_drift_threshold rtt_ms base = max base (rtt_ms * 50 + 25000)

abbrev pub catch_up_drift_min : ℕ
catch_up_drift_min = default_playback_drift_threshold

abbrev pub catch_up_drift_max : ℕ
catch_up_drift_max = 3 * second

abbrev pub catch_up_rate_boost : ℕ
catch_up_rate_boost = 140

abbrev pub catch_up_rate_min_factor : ℕ
catch_up_rate_min_factor = 105

abbrev pub catch_up_rate_max_factor : ℕ
catch_up_rate_max_factor = 150

abbrev pub playback_rate_schema_max : ℕ
playback_rate_schema_max = 30000

unfoldable pub is_catch_up_drift_band : ℕ → ℕ → Bool
is_catch_up_drift_band drift floor = ltb floor drift && leb drift catch_up_drift_max

unfoldable pub resolve_catch_up_playback_rate : ℕ → ℕ → ℕ → Option ℕ
unfolding is_catch_up_drift_band
resolve_catch_up_playback_rate room_rate drift floor =
    let boosted = room_rate * catch_up_rate_boost in
    let lo = room_rate * catch_up_rate_min_factor in
    let hi = min (room_rate * catch_up_rate_max_factor) playback_rate_schema_max in
    if not (is_catch_up_drift_band drift floor)
    then none
    else if room_rate == 0
    then none
    else some (min hi (max lo boosted))

-- `/ 1000`, of a number of hundredths of a millisecond.
abbrev pub seconds_of : ℕ → ℕ
seconds_of n = n * second / 100000

unfoldable pub compute_expected_playback_time : PlaybackSyncState → ℕ → ℕ
compute_expected_playback_time s now =
    let elapsed = if s.paused then 0 else now - s.server_now_ms in
    seconds_of s.timeline_anchor_ms + seconds_of (elapsed * s.playback_rate)

-- `Math.abs(a - b)`
abbrev pub apart : ℕ → ℕ → ℕ
apart a b = (a - b) + (b - a)

-- Ahead by no more than what is allowed.
abbrev pub is_allowed_ahead : ℕ → ℕ → ℕ → Bool
is_allowed_ahead current expected allow_ahead =
    ltb 0 allow_ahead && (leb expected current && leb (current - expected) allow_ahead)

unfoldable pub is_playback_drift_beyond_threshold : ℕ → ℕ → ℕ → ℕ → Bool
is_playback_drift_beyond_threshold current expected threshold allow_ahead =
    if is_allowed_ahead current expected allow_ahead
    then false
    else ltb threshold (apart current expected)

abbrev pub buffer_only_proximity : ℕ
buffer_only_proximity = second

abbrev pub buffer_only_max_abs : ℕ
buffer_only_max_abs = 45 * second

abbrev pub seek_ceiling_eps : ℕ
seek_ceiling_eps = 5000

unfoldable pub looks_like_buffer_only_bound : Option ℕ → Option ℕ → Bool
looks_like_buffer_only_bound (some bound) (some end) =
    if leb buffer_only_proximity (apart bound end)
    then false
    else ltb (min bound end) buffer_only_max_abs
looks_like_buffer_only_bound _ _ = false

-- `Number.isFinite(n) && n > 0`
abbrev pub positive : Option ℕ → Option ℕ
positive none = none
positive (some n) = if ltb 0 n then some n else none

abbrev pub trusted : Option ℕ → Option ℕ → Option ℕ
trusted bound end = if looks_like_buffer_only_bound bound end then none else bound

unfoldable pub resolve_seek_ceiling : Option ℕ → Option ℕ → Option ℕ → Bool → Option ℕ
unfolding looks_like_buffer_only_bound
resolve_seek_ceiling duration seekable_end hint is_live =
    let end = positive seekable_end in
    let vod =
      max (or_else (trusted (positive duration) end) 0) (or_else (trusted (positive hint) end) 0) in
    if ltb 0 vod
    then some (max vod (or_else end 0) - seek_ceiling_eps)
    else if is_live && is_some end
    then some (or_else end 0 - seek_ceiling_eps)
    else none

abbrev pub is_at_end : ℕ → ℕ → Option ℕ → Bool
is_at_end current expected none = false
is_at_end current expected (some ceiling) =
    ltb ceiling expected && leb (apart current ceiling) default_playback_drift_threshold

unfoldable pub measure_playback_drift :
    Option ℕ → PlaybackSyncState → ℕ → Option ℕ → Option ℕ → Option ℕ → Bool → ℕ → Option ℕ
unfolding compute_expected_playback_time resolve_seek_ceiling
measure_playback_drift none s now duration seekable_end hint is_live allow_ahead = none
measure_playback_drift (some current) s now duration seekable_end hint is_live allow_ahead =
    let expected = compute_expected_playback_time s now in
    let ceiling = resolve_seek_ceiling duration seekable_end hint is_live in
    if is_at_end current expected ceiling
    then some (apart current (or_else ceiling 0))
    else if is_allowed_ahead current expected allow_ahead
    then some 0
    else some (apart current expected)

pub data Direction : Type 0 where
  previous next : Direction

unfoldable pub get_adjacent_playlist_index : ℕ → ℕ → LoopMode → Direction → Option ℕ
get_adjacent_playlist_index current total loop previous =
    if total == 0
    then none
    else if ltb 0 current
    then some (current - 1)
    else if same_loop loop off
    then none
    else some (total - 1)
get_adjacent_playlist_index current total loop next =
    if total == 0
    then none
    else if ltb current (total - 1)
    then some (current + 1)
    else if same_loop loop off
    then none
    else some 0
