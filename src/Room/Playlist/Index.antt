-- ===== src/Room/Playlist/Index.antt =====
-- The current index stays in the playlist: src/server/realtime/services/playlist-ops.ts.
use web_sync_play.Prelude.{
  ℕ, ◌-◌, ◌≤◌, ◌≡◌, String, Bool, Option, none, some, List, arith, length, get_elem?, remove_at,
  insert_at, modify_at, find_index, length-remove_at, length-insert_at, length-modify_at,
  find_index-lt, Option-cases, inl, inr, lt-of-get_elem?,
}
use web_sync_play.Room.State.{RoomState, PlaylistItem}
use web_sync_play.Room.Timeline.{media_id_at}
use web_sync_play.Room.Playlist.{
  has_id, apply_playlist_select, apply_playlist_reorder, apply_playlist_remove, reindex,
  settle_removal,
}
use web_sync_play.Room.Catalog.{
  apply_playlist_item_error, mark_item_error, clear_item_error, advance_past,
}

-- 0 in an empty playlist, and the place of an item in any other.
abbrev pub IsIndexed : RoomState → Type 0
IsIndexed s = s.current_index ≤ length s.playlist - 1

reindex-le :
    (m : Option String) (items : List PlaylistItem) (index : ℕ)
    → index ≤ length items - 1
    → reindex m items index ≤ length items - 1
unfolding reindex
reindex-le none items index h = h
reindex-le (some m) items index h = elim (Option-cases (find_index (has_id m) items)) [
  | inl e ↦ ground arith
  | inr (i, e) ↦ ground (arith, find_index-lt (has_id m) items {i = i} e)
]

settle_removal-IsIndexed :
    (s : RoomState) (index now : ℕ)
    → s.current_index ≤ length s.playlist
    → index ≤ length s.playlist
    → IsIndexed (settle_removal s index now)
unfolding settle_removal
settle_removal-IsIndexed s index now h k = ground arith

advance_past-IsIndexed :
    (s : RoomState) (index now : ℕ) → IsIndexed s → IsIndexed (advance_past s index now)
unfolding advance_past
advance_past-IsIndexed s index now h = ground arith

pub select-IsIndexed :
    (s t : RoomState) (index now : ℕ) → apply_playlist_select s index now ≡ some t → IsIndexed t
unfolding apply_playlist_select
select-IsIndexed s t index now e = ground arith

pub reorder-IsIndexed :
    (s t : RoomState) (from to : ℕ) (item : PlaylistItem)
    → IsIndexed s
    → apply_playlist_reorder s from to ≡ some (t, item)
    → IsIndexed t
unfolding apply_playlist_reorder
reorder-IsIndexed s t from to item h e = elim (Option-cases (get_elem? s.playlist from)) [
  | inl q ↦ ground arith
  | inr (v, q) ↦
      let items : List PlaylistItem = insert_at (remove_at s.playlist from) to v in
      ground (
        arith,
        reindex-le (media_id_at s.playlist s.current_index) items s.current_index,
        length-insert_at (remove_at s.playlist from) to v,
        length-remove_at s.playlist from,
      )
]

pub remove-IsIndexed :
    (s t : RoomState) (item_id : String) (now index : ℕ) (item : PlaylistItem)
    → IsIndexed s
    → apply_playlist_remove s item_id now ≡ some (t, item, index)
    → IsIndexed t
unfolding apply_playlist_remove
remove-IsIndexed s t item_id now index item h e =
    elim (Option-cases (find_index (has_id item_id) s.playlist)) [
      | inl q ↦ ground arith
      | inr (i, q) ↦ elim (Option-cases (get_elem? s.playlist i)) [
        | inl g ↦ ground arith
        | inr (v, g) ↦ ground (
          arith,
          settle_removal-IsIndexed (record s { playlist = remove_at s.playlist i }) i now,
          lt-of-get_elem? s.playlist i {a = v} g,
          length-remove_at s.playlist i,
        )
      ]
    ]

pub item_error-IsIndexed :
    (s t : RoomState) (item_id : String) (message : Option String) (now : ℕ) (item : PlaylistItem)
    (cleared : Bool)
    → IsIndexed s
    → apply_playlist_item_error s item_id message now ≡ some (t, item, cleared)
    → IsIndexed t
unfolding apply_playlist_item_error
item_error-IsIndexed s t item_id message now item cleared h e =
    elim (Option-cases (find_index (has_id item_id) s.playlist)) [
      | inl q ↦ ground arith
      | inr (i, q) ↦ elim (Option-cases (get_elem? s.playlist i)) [
        | inl g ↦ ground arith
        | inr (v, g) ↦ elim (Option-cases message) [
          | inl n ↦ ground (arith, length-modify_at s.playlist i clear_item_error)
          | inr (m, n) ↦
              let items : List PlaylistItem = modify_at s.playlist i (mark_item_error m) in
              ground (
                arith,
                advance_past-IsIndexed (record s { playlist = items }) i now,
                length-modify_at s.playlist i (mark_item_error m),
              )
        ]
      ]
    ]
