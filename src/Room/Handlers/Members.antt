-- ===== src/Room/Handlers/Members.antt =====
-- The bodies of src/server/realtime/handlers/viewer-media.ts, room-security.ts and, in participant.ts,
-- of the role update. The messages are parsed.
pub mod Preferences
use web_sync_play.Prelude.{
  ℕ, String, Bool, true, false, not, Option, none, some, List, [], ◌∷◌, ◌++◌, if◌then◌else◌, length,
  ltb, str_eq, is_empty, any, find, take_last, lookup, insert, modify, or_else,
}
use web_sync_play.Room.State.{
  RoomState, RoomRole, owner, moderator, guest, DefaultJoinRole, join_moderator, join_guest,
  same_role, Participant, PlaylistItem, MediaStream, TextTrack, ViewerItemPreference, ViewerMedia,
  PayloadValue, text, flag, Limits, Stamp,
}
use web_sync_play.Room.ActionLog.{append_action_log}
use web_sync_play.Room.Playlist.{has_id}
use web_sync_play.Room.Ownership.{with_role}
use web_sync_play.Room.Security.{
  Crypto, set_join_password, clear_join_password, set_default_join_role,
}
use web_sync_play.Room.Mutate.{Attempt, abort, write, Body, MessageContext}
use web_sync_play.Room.Handlers.Playback.{draft}

abbrev pub viewer_media_by_item_limit : ℕ
viewer_media_by_item_limit = 32

unfoldable pub cap_viewer_media_by_item_id : ℕ → ViewerMedia → ViewerMedia
cap_viewer_media_by_item_id limit by_item_id =
    if ltb limit (length by_item_id) then take_last limit by_item_id else by_item_id

-- A field of a patch may be absent, `null` or a text.
pub record ViewerMediaPatch : Type 0 where
  pub item_id : String
  pub stream_id : Option (Option String)
  pub text_track_id : Option (Option String)
  pub audio_language : Option String

abbrev pub stream_listed : String → PlaylistItem → Bool
stream_listed id item = any (λ (e : MediaStream). str_eq e.id id) (or_else item.media_streams [])

abbrev pub track_listed : String → PlaylistItem → Bool
track_listed id item = any (λ (e : TextTrack). str_eq e.id id) (or_else item.text_tracks [])

abbrev pub no_preference : ViewerItemPreference
no_preference = record { stream_id = none; text_track_id = none; audio_language = none }

abbrev pub merge_stream :
    PlaylistItem → Option (Option String) → ViewerItemPreference → Option ViewerItemPreference
merge_stream item none next = some next
merge_stream item (some none) next = some (record next { stream_id = none })
merge_stream item (some (some id)) next =
    if not (stream_listed id item) then none else some (record next { stream_id = some id })

abbrev pub merge_track :
    PlaylistItem → Option (Option String) → ViewerItemPreference → Option ViewerItemPreference
merge_track item none next = some next
merge_track item (some none) next = some (record next { text_track_id = some none })
merge_track item (some (some id)) next =
    if not (track_listed id item)
    then none
    else some (record next { text_track_id = some (some id) })

abbrev pub merge_language : Option String → ViewerItemPreference → ViewerItemPreference
merge_language none next = next
merge_language (some language) next = record next {
  audio_language = if is_empty language then none else some language;
}

unfoldable pub merge_viewer_media_item_preference :
    PlaylistItem → Option ViewerItemPreference → ViewerMediaPatch → Option ViewerItemPreference
merge_viewer_media_item_preference item previous patch =
    elim (merge_stream item patch.stream_id (or_else previous no_preference)) [
      | none ↦ none
      | some streamed ↦ elim (merge_track item patch.text_track_id streamed) [
        | none ↦ none
        | some next ↦ some (merge_language patch.audio_language next)
      ]
    ]

unfoldable pub apply_viewer_media_preferences :
    Participant → PlaylistItem → ViewerMediaPatch → Option Participant
unfolding cap_viewer_media_by_item_id
apply_viewer_media_preferences p item patch =
    let by_item_id = or_else p.viewer_media [] in
    elim (merge_viewer_media_item_preference item (lookup patch.item_id by_item_id) patch) [
      | none ↦ none
      | some next ↦ some (record p {
        viewer_media = some (
            cap_viewer_media_by_item_id viewer_media_by_item_limit
              (insert patch.item_id next by_item_id));
      })
    ]

unfoldable pub viewer_media_preferences : Stamp → MessageContext → ViewerMediaPatch → Body
viewer_media_preferences stamp ctx patch s p = elim (lookup ctx.user_id s.participants) [
  | none ↦ abort
  | some viewer ↦ elim (find (has_id patch.item_id) s.playlist) [
    | none ↦ abort
    | some item ↦ elim (apply_viewer_media_preferences viewer item patch) [
      | none ↦ abort
      | some next ↦ write (record s {
        participants = modify ctx.user_id (λ _. next) s.participants;
        updated_at = stamp.now;
      })
    ]
  ]
]

abbrev pub role_text : RoomRole → String
role_text owner = "owner"
role_text moderator = "moderator"
role_text guest = "guest"

abbrev pub role_of : DefaultJoinRole → RoomRole
role_of join_moderator = moderator
role_of join_guest = guest

unfoldable pub participant_role_update :
    Limits → Stamp → MessageContext → String → DefaultJoinRole → Body
participant_role_update limits stamp ctx target_id role s p =
    elim (lookup target_id s.participants) [
      | none ↦ abort
      | some target ↦
          if str_eq target.user_id s.owner_id
          then abort
          else if same_role target.role (role_of role)
          then write s
          else write (
              append_action_log limits stamp
                (record s {
                  participants = modify target_id (with_role (role_of role)) s.participants;
                })
                (draft ctx p "participant:role:changed" (
                  ("targetUserId", text target.user_id)
                  ∷ ("targetUsername", text target.username)
                  ∷ ("fromRole", text (role_text target.role))
                  ∷ ("toRole", text (role_text (role_of role)))
                  ∷ [])))
    ]

unfoldable pub room_password_set : Crypto → Limits → Stamp → MessageContext → String → String → Body
room_password_set crypto limits stamp ctx salt password s p = write (
    append_action_log limits stamp (set_join_password crypto s password salt stamp.now)
      (draft ctx p "room:password:set" (("joinPasswordEnabled", flag true) ∷ [])))

unfoldable pub room_password_clear : Limits → Stamp → MessageContext → Body
room_password_clear limits stamp ctx s p =
    let (t, changed) = clear_join_password s stamp.now in
    if not changed
    then abort
    else write (
        append_action_log limits stamp t
          (draft ctx p "room:password:cleared" (("joinPasswordEnabled", flag false) ∷ [])))

unfoldable pub room_default_role_set : Limits → Stamp → MessageContext → DefaultJoinRole → Body
room_default_role_set limits stamp ctx role s p = elim (set_default_join_role s role) [
  | none ↦ abort
  | some t ↦ write (
      append_action_log limits stamp t (
        draft ctx p "room:default-role:set"
          (("defaultJoinRole", text (role_text (role_of role))) ∷ [])))
]
