-- ===== src/Room/Handlers/Items.antt =====
-- The bodies of src/server/realtime/handlers/playlist.ts. The messages are parsed.
use web_sync_play.Prelude.{
  ℕ, String, true, false, Option, none, some, List, [], ◌∷◌, ◌++◌, if◌then◌else◌, length, get_elem?,
  ◌==◌,
}
use web_sync_play.Room.State.{
  PlaylistItem, PayloadValue, text, number, flag, undefined, Limits, Stamp,
}
use web_sync_play.Room.ActionLog.{append_action_log}
use web_sync_play.Room.Playlist.{
  apply_playlist_select, apply_playlist_reorder, apply_playlist_remove,
}
use web_sync_play.Room.Catalog.{
  apply_playlist_rename, apply_playlist_item_error, apply_playlist_item_duration,
  apply_playlist_item_title, is_playlist_at_limit, build_remote_url_playlist_item,
  build_local_file_playlist_item, LocalFile,
}
use web_sync_play.Room.Mutate.{abort, write, Body, MessageContext}
use web_sync_play.Room.Handlers.Playback.{draft}

-- `state.playlist[index]?.name` and `?.id`
abbrev pub name_at : List PlaylistItem → ℕ → PayloadValue
name_at items i = elim (get_elem? items i) [ none ↦ undefined | some item ↦ text item.name ]

abbrev pub id_at : List PlaylistItem → ℕ → PayloadValue
id_at items i = elim (get_elem? items i) [ none ↦ undefined | some item ↦ text item.id ]

unfoldable pub playlist_select : Limits → Stamp → MessageContext → ℕ → Body
playlist_select limits stamp ctx index s p = elim (apply_playlist_select s index stamp.now) [
  | none ↦ abort
  | some t ↦ write (
      append_action_log limits stamp t (
        draft ctx p "media:played" (
          ("index", number index)
          ∷ ("mediaName", name_at t.playlist index)
          ∷ ("mediaId", id_at t.playlist index)
          ∷ [])))
]

unfoldable pub playlist_add_url : Limits → Stamp → MessageContext → String → Body
playlist_add_url limits stamp ctx url s p =
    if is_playlist_at_limit s limits.room_playlist_limit
    then abort
    else write (
        append_action_log limits stamp
          (record s {
            playlist =
                s.playlist
                ++ build_remote_url_playlist_item stamp.new_id url ctx.user_id stamp.now ∷ [];
          })
          (draft ctx p "playlist:add" (
            ("itemId", text stamp.new_id)
            ∷ ("itemName", text url)
            ∷ ("index", number (length s.playlist))
            ∷ ("pending", flag true)
            ∷ [])))

unfoldable pub playlist_add_local : Limits → Stamp → MessageContext → LocalFile → Body
playlist_add_local limits stamp ctx file s p =
    let was_empty = length s.playlist == 0 in
    if is_playlist_at_limit s limits.room_playlist_limit
    then abort
    else write (
        append_action_log limits stamp
          (record s {
            playlist =
                s.playlist
                ++ build_local_file_playlist_item stamp.new_id file ctx.user_id stamp.now ∷ [];
            current_index = if was_empty then 0 else s.current_index;
            playback = if was_empty then record (s.playback) { paused = false } else s.playback;
          })
          (draft ctx p "playlist:add" (
            ("itemId", text stamp.new_id)
            ∷ ("itemName", text file.name)
            ∷ ("index", number (length s.playlist))
            ∷ ("sourceKind", text "local_file")
            ∷ [])))

-- `error` is `null` where a failure is cleared.
unfoldable pub playlist_item_error : Limits → Stamp → MessageContext → String → Option String → Body
playlist_item_error limits stamp ctx item_id message s p =
    elim (apply_playlist_item_error s item_id message stamp.now) [
      | none ↦ abort
      | some (t, item, cleared) ↦
          if cleared
          then write t
          else write (
              append_action_log limits stamp t
                (record (draft ctx p "participant:error"
                  (("itemId", text item.id) ∷ ("mediaName", text item.name) ∷ [])) {
                    error = message;
                  }))
    ]

unfoldable pub playlist_item_duration : Stamp → String → ℕ → Body
playlist_item_duration stamp item_id duration s p =
    elim (apply_playlist_item_duration s item_id duration) [
      | none ↦ abort
      | some (t, item) ↦ write t
    ]

unfoldable pub playlist_item_title : Stamp → String → String → Body
playlist_item_title stamp item_id name s p = elim (apply_playlist_item_title s item_id name) [
  | none ↦ abort
  | some (t, item) ↦ write t
]

unfoldable pub playlist_reorder : Limits → Stamp → MessageContext → ℕ → ℕ → Body
playlist_reorder limits stamp ctx from to s p = elim (apply_playlist_reorder s from to) [
  | none ↦ abort
  | some (t, entry) ↦ write (
      append_action_log limits stamp t (
        draft ctx p "playlist:reorder" (
          ("itemId", text entry.id)
          ∷ ("itemName", text entry.name)
          ∷ ("from", number from)
          ∷ ("to", number to)
          ∷ [])))
]

unfoldable pub playlist_rename : Limits → Stamp → MessageContext → String → String → Body
playlist_rename limits stamp ctx item_id name s p = elim (apply_playlist_rename s item_id name) [
  | none ↦ abort
  | some (t, item, previous_name, next_name) ↦ write (
      append_action_log limits stamp t (
        draft ctx p "playlist:rename" (
          ("itemId", text item.id)
          ∷ ("previousName", text previous_name)
          ∷ ("nextName", text next_name)
          ∷ [])))
]

unfoldable pub playlist_remove : Limits → Stamp → MessageContext → String → Body
playlist_remove limits stamp ctx item_id s p = elim (apply_playlist_remove s item_id stamp.now) [
  | none ↦ abort
  | some (t, removed, index) ↦ write (
      append_action_log limits stamp t (
        draft ctx p "playlist:remove" (
          ("itemId", text removed.id)
          ∷ ("itemName", text removed.name)
          ∷ ("index", number index)
          ∷ [])))
]
