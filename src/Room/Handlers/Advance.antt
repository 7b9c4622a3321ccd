-- ===== src/Room/Handlers/Advance.antt =====
-- What every message keeps or moves forward: the bodies of src/server/realtime/handlers.
use web_sync_play.Prelude.{ℕ, ◌≤◌, ◌≡◌, String, Bool, Option, some, arith}
use web_sync_play.Room.State.{PlaylistItem, RoomState}
use web_sync_play.Room.Timeline.{reset_playback_timeline, next_monotonic_ms}
use web_sync_play.Room.Playlist.{
  apply_playlist_select, apply_playlist_reorder, apply_playlist_remove, settle_removal,
}
use web_sync_play.Room.Catalog.{
  apply_playlist_rename, apply_playlist_item_error, apply_playlist_item_duration,
  apply_playlist_item_title, advance_past,
}
use web_sync_play.Room.Security.{
  Crypto, set_join_password, clear_join_password, set_default_join_role, ensure_room_security,
}
use web_sync_play.Room.Handlers.{DefaultJoinRole}

-- The fields that no body moves back.
abbrev pub IsAdvanced : RoomState → RoomState → Type 0
IsAdvanced s t =
    (t.room_id ≡ s.room_id)
    × (t.owner_id ≡ s.owner_id)
    × (t.generation ≡ s.generation)
    × (t.structural_revision ≡ s.structural_revision)
    × (s.playback.server_now_ms ≤ t.playback.server_now_ms)
    × (s.room_security.admission_version ≤ t.room_security.admission_version)

pub select-IsAdvanced :
    (s t : RoomState) (index now : ℕ) → apply_playlist_select s index now ≡ some t → IsAdvanced s t
unfolding apply_playlist_select reset_playback_timeline next_monotonic_ms
select-IsAdvanced s t index now e = ground arith

pub reorder-IsAdvanced :
    (s t : RoomState) (item : PlaylistItem) (from to : ℕ)
    → apply_playlist_reorder s from to ≡ some (t, item)
    → IsAdvanced s t
unfolding apply_playlist_reorder
reorder-IsAdvanced s t item from to e = ground arith

pub rename-IsAdvanced :
    (s t : RoomState) (item : PlaylistItem) (id name a b : String)
    → apply_playlist_rename s id name ≡ some (t, item, a, b)
    → IsAdvanced s t
unfolding apply_playlist_rename
rename-IsAdvanced s t item id name a b e = ground arith

removal-IsAdvanced : (s : RoomState) (index now : ℕ) → IsAdvanced s (settle_removal s index now)
unfolding settle_removal reset_playback_timeline next_monotonic_ms
removal-IsAdvanced s index now = ground arith

advance-IsAdvanced : (s : RoomState) (index now : ℕ) → IsAdvanced s (advance_past s index now)
unfolding advance_past reset_playback_timeline next_monotonic_ms
advance-IsAdvanced s index now = ground arith

pub remove-IsAdvanced :
    (s t : RoomState) (item : PlaylistItem) (id : String) (i now : ℕ)
    → apply_playlist_remove s id now ≡ some (t, item, i)
    → IsAdvanced s t
unfolding apply_playlist_remove settle_removal reset_playback_timeline next_monotonic_ms
remove-IsAdvanced s t item id i now e = ground arith

pub error-IsAdvanced :
    (s t : RoomState) (item : PlaylistItem) (id : String) (m : Option String) (cleared : Bool)
    (now : ℕ)
    → apply_playlist_item_error s id m now ≡ some (t, item, cleared)
    → IsAdvanced s t
unfolding apply_playlist_item_error advance_past reset_playback_timeline next_monotonic_ms
error-IsAdvanced s t item id m cleared now e = ground arith

pub duration-IsAdvanced :
    (s t : RoomState) (item : PlaylistItem) (id : String) (d : ℕ)
    → apply_playlist_item_duration s id d ≡ some (t, item)
    → IsAdvanced s t
unfolding apply_playlist_item_duration
duration-IsAdvanced s t item id d e = ground arith

pub title-IsAdvanced :
    (s t : RoomState) (item : PlaylistItem) (id name : String)
    → apply_playlist_item_title s id name ≡ some (t, item)
    → IsAdvanced s t
unfolding apply_playlist_item_title
title-IsAdvanced s t item id name e = ground arith

pub security-IsAdvanced :
    (crypto : Crypto) (s : RoomState) (password salt : String) (now : ℕ)
    → IsAdvanced s (set_join_password crypto s password salt now)
      × IsAdvanced s (clear_join_password s now).0
unfolding set_join_password clear_join_password ensure_room_security
security-IsAdvanced crypto s password salt now = (ground arith, ground arith)

pub role-IsAdvanced :
    (s t : RoomState) (role : DefaultJoinRole)
    → set_default_join_role s role ≡ some t
    → IsAdvanced s t
unfolding set_default_join_role ensure_room_security
role-IsAdvanced s t role e = ground arith
