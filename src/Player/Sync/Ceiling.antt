-- ===== src/Player/Sync/Ceiling.antt =====
-- How far a player may seek: src/client/player/playback-sync.ts.
use web_sync_play.Prelude.{
  ℕ, ◌+◌, ◌-◌, ◌≤◌, ◌<◌, ◌≡◌, Bool, false, Option, some, none, arith, if◌then◌else◌, max, or_else,
  ltb, lt→ltb, is_some, ◌&&◌,
}
use web_sync_play.Player.Sync.{
  resolve_seek_ceiling, looks_like_buffer_only_bound, seek_ceiling_eps, positive, trusted,
}

-- Of bounds with something above 0, the largest is the ceiling, less the headroom.
ceiling_of :
    (vod end : ℕ) (other : Option ℕ)
    → 0 < vod
    → (if ltb 0 vod then some (max vod end - seek_ceiling_eps) else other)
      ≡ some (max vod end - seek_ceiling_eps)
ceiling_of vod end other h = ground arith

-- A duration that is trusted is never cut short: if the duration does not look like the end of the buffer,
-- there is a ceiling, at most the headroom below the duration, and at most that below the end of what
-- can be sought.
pub ceiling_covers :
    (duration : ℕ) (seekable_end hint : Option ℕ) (is_live : Bool)
    → 0 < duration
    → looks_like_buffer_only_bound (some duration) (positive seekable_end) ≡ false
    → (c : ℕ) × (resolve_seek_ceiling (some duration) seekable_end hint is_live ≡ some c)
      × (duration ≤ c + seek_ceiling_eps)
      × (or_else (positive seekable_end) 0 ≤ c + seek_ceiling_eps)
unfolding resolve_seek_ceiling
ceiling_covers duration seekable_end hint is_live h t =
    let end = or_else (positive seekable_end) 0 in
    let vod = max duration (or_else (trusted (positive hint) (positive seekable_end)) 0) in
    (
      max vod end - seek_ceiling_eps,
      rw (lt→ltb 0 duration h, t)
          (ceiling_of vod end
            (if is_live && is_some (positive seekable_end)
              then some (end - seek_ceiling_eps)
              else none)
            (omega arith)),
      omega arith,
      omega arith,
    )
