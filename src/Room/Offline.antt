-- ===== src/Room/Offline.antt =====
-- `applyUserWentOffline` of src/server/realtime/services/disconnect.ts: what a user's last socket
-- leaves behind in the room.
mod Tests
pub mod Effects
use web_sync_play.Prelude.{
  ◌==◌, length, ℕ, String, Bool, true, false, not, ◌&&◌, ◌||◌, Option, none, some, List, [], ◌∷◌,
  map, any, lookup, modify, str_eq, is_empty, if◌then◌else◌, get_elem?, is_some,
}
use web_sync_play.Room.State.{
  RoomState, PlaylistItem, Participant, error, local_owner_offline, is_local_file, is_blocked,
  Limits, Stamp,
}
use web_sync_play.Room.Timeline.{bump_room_revisions, next_monotonic_ms}
use web_sync_play.Room.ActionLog.{append_action_log}

abbrev pub offline_message : String
offline_message =
    "The person sharing this file went offline. Ask them to re-share it from the same tab."

-- A shared file of the user that is not blocked yet. The one reason to block is that its owner left.
abbrev pub loses_owner : String → PlaylistItem → Bool
loses_owner user_id item = elim item.local_origin_user_id [
  | none ↦ false
  | some origin ↦
      is_local_file item.source_kind
      && (not (is_empty origin) && (str_eq origin user_id && not (is_blocked item.blocked_reason)))
]

abbrev pub invalidate_item : String → PlaylistItem → PlaylistItem
invalidate_item user_id item =
    if loses_owner user_id item
    then record item {
      ingest_status = some error;
      ingest_error = some offline_message;
      blocked_reason = some local_owner_offline;
    }
    else item

-- `state.playlist[state.currentIndex]?.id === item.id` of an item that is blocked
abbrev pub invalidates_current : String → RoomState → Bool
invalidates_current user_id s = elim (get_elem? s.playlist s.current_index) [
  | none ↦ false
  | some current ↦ any (λ item. loses_owner user_id item && str_eq current.id item.id) s.playlist
]

-- The room, and whether it changed.
unfoldable pub invalidate_local_media_for_owner : RoomState → String → ℕ → RoomState × Bool
invalidate_local_media_for_owner s user_id now =
    let pauses = invalidates_current user_id s && not s.playback.paused in
    (
      record s {
        playlist = map (invalidate_item user_id) s.playlist;
        playback =
            if pauses
            then record (s.playback) {
              paused = true;
              server_now_ms = next_monotonic_ms s.playback.server_now_ms now;
            }
            else s.playback;
      },
      any (loses_owner user_id) s.playlist || pauses,
    )

abbrev pub mark_offline : ℕ → Participant → Participant
mark_offline now p = record p {
  connected = false;
  disconnected_at = some now;
  last_seen_at = some now;
  local_playback = record (p.local_playback) { updated_at = now };
}

abbrev pub log_offline : Limits → Stamp → String → Option Participant → RoomState → RoomState
log_offline limits stamp user_id none s = s
log_offline limits stamp user_id (some p) s = append_action_log limits stamp s (record {
  room_id = s.room_id;
  actor_user_id = user_id;
  actor_username = some p.username;
  action = "participant:disconnected";
  payload = [];
  error = none;
})

unfoldable pub apply_user_went_offline : Limits → Stamp → RoomState → String → RoomState × Bool
unfolding invalidate_local_media_for_owner
apply_user_went_offline limits stamp s user_id =
    let member = lookup user_id s.participants in
    let left = record s { participants = modify user_id (mark_offline stamp.now) s.participants } in
    let (invalidated, lost) = invalidate_local_media_for_owner left user_id stamp.now in
    let logged = log_offline limits stamp user_id member invalidated in
    let did_mutate = is_some member || lost in
    (if did_mutate then record logged { updated_at = stamp.now } else logged, did_mutate)

-- The write of `handleSocketDisconnect`, with the users whose sockets are left.
unfoldable pub disconnect_write :
    Limits → Stamp → List String → String → RoomState → Option RoomState
unfolding apply_user_went_offline
disconnect_write limits stamp active user_id s =
    let offline = bump_room_revisions (apply_user_went_offline limits stamp s user_id).0 in
    if length active == 0
    then some offline
    else if any (str_eq user_id) active
    then none
    else some offline
