-- ===== src/Room/Timeline.antt =====
-- src/server/realtime/services/timeline.ts
pub mod Projection
use web_sync_play.Prelude.{
  ℕ, suc, ◌+◌, ◌-◌, ◌*◌, ◌/◌, ◌≡◌, max, String, Bool, true, Option, none, some, List, if◌then◌else◌,
  get_elem?,
}
use web_sync_play.Room.State.{RoomState, PlaybackState, PlaylistItem}

-- Never moves back, and never stands still.
unfoldable pub next_monotonic_ms : ℕ → ℕ → ℕ
next_monotonic_ms previous next = max (previous + 1) next

-- `Math.max(0, nowMs - serverNowMs)` is the truncated difference.
unfoldable pub resolve_current_timeline_ms : PlaybackState → ℕ → ℕ
resolve_current_timeline_ms p now =
    if p.paused
    then p.timeline_anchor_ms
    else p.timeline_anchor_ms + (now - p.server_now_ms) * p.playback_rate

-- The new state with `fromMs`, in whole milliseconds, and `toMs`.
unfoldable pub commit_playback_seek : PlaybackState → ℕ → ℕ → PlaybackState × ℕ × ℕ
unfolding resolve_current_timeline_ms next_monotonic_ms
commit_playback_seek p target now = (
  record p {
    timeline_anchor_ms = target;
    server_now_ms = next_monotonic_ms p.server_now_ms now;
    seek_preview = none;
  },
  resolve_current_timeline_ms p now / 100,
  target,
)

unfoldable pub reanchor_playback_at_now : PlaybackState → ℕ → PlaybackState
unfolding resolve_current_timeline_ms next_monotonic_ms
reanchor_playback_at_now p now = record p {
  timeline_anchor_ms = resolve_current_timeline_ms p now;
  server_now_ms = next_monotonic_ms p.server_now_ms now;
}

unfoldable pub reset_playback_timeline : PlaybackState → ℕ → Bool → PlaybackState
unfolding next_monotonic_ms
reset_playback_timeline p now pause = record p {
  timeline_anchor_ms = 0;
  server_now_ms = next_monotonic_ms p.server_now_ms now;
  paused = if pause then true else p.paused;
}

abbrev pub media_id_at : List PlaylistItem → ℕ → Option String
media_id_at items i = elim (get_elem? items i) [ none ↦ none | some item ↦ some item.id ]

unfoldable pub get_current_media_id : RoomState → Option String
get_current_media_id s = media_id_at s.playlist s.current_index

unfoldable pub mark_current_media : RoomState → RoomState
unfolding get_current_media_id
mark_current_media s = record s {
  playback = record (s.playback) { media_id = get_current_media_id s };
}

unfoldable pub bump_room_revisions : RoomState → RoomState
bump_room_revisions s = record s {
  generation = s.generation + 1;
  structural_revision = s.structural_revision + 1;
}
