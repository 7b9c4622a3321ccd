-- ===== src/Room/Playlist.antt =====
-- src/server/realtime/services/playlist-ops.ts
mod Tests
pub mod Index
pub mod Current
use web_sync_play.Prelude.{
  ℕ, suc, ◌+◌, ◌-◌, ◌*◌, ◌/◌, ◌≡◌, min, String, Bool, true, false, not, ◌&&◌, ◌||◌, Option, none,
  some, List, [], ◌∷◌, ◌++◌, ltb, leb, ◌==◌, str_eq, is_empty, trim, if◌then◌else◌, is_some, ◌>>=◌,
  length, get_elem?, remove_at, insert_at, modify_at, find_index, concat, lookup, erase, map_values,
}
use web_sync_play.Room.State.{
  RoomState, PlaylistItem, Participant, Participants, ViewerMedia, MediaStream, remote_url,
  local_file, direct, ready, resolving, error, combined, is_local_file, is_blocked, is_error_status,
}
use web_sync_play.Room.Timeline.{reset_playback_timeline, media_id_at}

abbrev pub has_id : String → PlaylistItem → Bool
has_id item_id item = str_eq item.id item_id

-- A missing or an empty text is false.
abbrev pub is_truthy : Option String → Bool
is_truthy none = false
is_truthy (some s) = not (is_empty s)

unfoldable pub can_retry_remote_playlist_item : Option PlaylistItem → Bool
can_retry_remote_playlist_item none = false
can_retry_remote_playlist_item (some item) =
    not (is_blocked item.blocked_reason) && not (is_local_file item.source_kind)

unfoldable pub apply_playlist_select : RoomState → ℕ → ℕ → Option RoomState
apply_playlist_select s index now =
    if leb (length s.playlist) index
    then none
    else some (record s {
      current_index = index;
      playback = reset_playback_timeline s.playback now false;
    })

-- `findIndex` by the id of the item that was current, if it had one.
unfoldable pub reindex : Option String → List PlaylistItem → ℕ → ℕ
reindex none items index = index
reindex (some media_id) items index =
    if is_empty media_id
    then index
    else elim (find_index (has_id media_id) items) [ none ↦ index | some i ↦ i ]

unfoldable pub apply_playlist_reorder : RoomState → ℕ → ℕ → Option (RoomState × PlaylistItem)
unfolding reindex
apply_playlist_reorder s from to =
    if leb (length s.playlist) from || leb (length s.playlist) to
    then none
    else elim (get_elem? s.playlist from) [
      | none ↦ none
      | some entry ↦
          let items = insert_at (remove_at s.playlist from) to entry in
          some (
            record s {
              playlist = items;
              current_index =
                  reindex (media_id_at s.playlist s.current_index) items s.current_index;
            },
            entry,
          )
    ]

-- The preferences of one viewer without an item; none are left if it was the last.
abbrev pub prune_viewer_media : String → Option ViewerMedia → Option ViewerMedia
prune_viewer_media item_id none = none
prune_viewer_media item_id (some by_item_id) =
    if not (is_some (lookup item_id by_item_id))
    then some by_item_id
    else elim (erase item_id by_item_id) [ [] ↦ none | p ∷ rest ↦ some (p ∷ rest) ]

abbrev pub without_item : String → Participant → Participant
without_item item_id p = record p { viewer_media = prune_viewer_media item_id p.viewer_media }

unfoldable pub prune_viewer_media_item_id : Participants → String → Participants
prune_viewer_media_item_id participants item_id = map_values (without_item item_id) participants

-- The index and the timeline once `index` is gone from the playlist.
unfoldable pub settle_removal : RoomState → ℕ → ℕ → RoomState
settle_removal s index now =
    if length s.playlist == 0
    then record s { current_index = 0; playback = reset_playback_timeline s.playback now true }
    else if ltb index s.current_index
    then record s { current_index = s.current_index - 1 }
    else if index == s.current_index
    then record s {
      current_index = min index (length s.playlist - 1);
      playback = reset_playback_timeline s.playback now false;
    }
    else s

unfoldable pub apply_playlist_remove :
    RoomState → String → ℕ → Option (RoomState × PlaylistItem × ℕ)
unfolding settle_removal prune_viewer_media_item_id
apply_playlist_remove s item_id now = elim (find_index (has_id item_id) s.playlist) [
  | none ↦ none
  | some index ↦ elim (get_elem? s.playlist index) [
    | none ↦ none
    | some removed ↦
        let t = settle_removal (record s { playlist = remove_at s.playlist index }) index now in
        some (
          record t { participants = prune_viewer_media_item_id t.participants removed.id },
          removed,
          index,
        )
  ]
]
