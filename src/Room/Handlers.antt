-- ===== src/Room/Handlers.antt =====
-- src/server/realtime/handlers: the messages that write the room, once they are parsed. Each is a body,
-- the gate in front of it, the hint of its publication and the calls that follow.
mod Tests
pub mod Playback
pub mod Items
pub mod Members
pub mod Update
pub mod Advance
pub mod Authority
use web_sync_play.Prelude.{
  ℕ, String, Bool, true, false, not, Option, none, some, List, [], ◌∷◌, ◌++◌, if◌then◌else◌, find,
}
use web_sync_play.Room.State.{LocalPlayback, RoomState, DefaultJoinRole, LoopMode, Limits, Stamp}
use web_sync_play.Room.Messages.{
  PublishHint, control, snapshot, control_snapshot, Effect, resolve_item, reresolve_item,
  publish_admission_changed, AdmissionChanged, nack, unauthorized, rate_limited,
}
use web_sync_play.Room.Permissions.{can_control_from_connection_context}
use web_sync_play.Room.Playlist.{has_id, can_retry_remote_playlist_item}
use web_sync_play.Room.Catalog.{LocalFile}
use web_sync_play.Room.Security.{Crypto}
use web_sync_play.Room.Mutate.{
  Attempt, abort, deny, write, Body, Commit, MessageContext, mutate_room_message, controlled,
  owner_only,
}
use web_sync_play.Room.Handlers.Playback.{
  LoopScope, playback_seek, set_playback_paused_state, playback_rate_set, set_playback_loop_mode,
}
use web_sync_play.Room.Handlers.Items.{
  playlist_select, playlist_add_url, playlist_add_local, playlist_item_error,
  playlist_item_duration, playlist_item_title, playlist_reorder, playlist_rename, playlist_remove,
}
use web_sync_play.Room.Handlers.Members.{
  ViewerMediaPatch, viewer_media_preferences, participant_role_update, room_password_set,
  room_password_clear, room_default_role_set,
}
use web_sync_play.Room.Handlers.Update.{ParticipantUpdate, participant_update}

-- A password comes with the salt of its run of `randomBytes`. An update of a participant comes with
-- what it changes, the playback of all the user's connections, and the error as it was sent.
pub data RoomMessage : Type 0 where
  seek : ℕ → RoomMessage
  play pause : Option ℕ → RoomMessage
  rate : ℕ → RoomMessage
  loop : LoopScope → LoopMode → RoomMessage
  select : ℕ → RoomMessage
  add_url : String → RoomMessage
  add_local : LocalFile → RoomMessage
  item_error : String → Option String → RoomMessage
  item_duration : String → ℕ → RoomMessage
  item_title : String → String → RoomMessage
  reorder : ℕ → ℕ → RoomMessage
  rename : String → String → RoomMessage
  remove : String → RoomMessage
  viewer_media : ViewerMediaPatch → RoomMessage
  role_update : String → DefaultJoinRole → RoomMessage
  password_set : String → String → RoomMessage
  password_clear : RoomMessage
  default_role_set : DefaultJoinRole → RoomMessage
  update : ParticipantUpdate → LocalPlayback → Option (Option String) → RoomMessage

unfoldable pub body_of : Crypto → Limits → Stamp → MessageContext → RoomMessage → Body
body_of crypto limits stamp ctx (seek target) = playback_seek limits stamp ctx target
body_of crypto limits stamp ctx (play at) = set_playback_paused_state limits stamp ctx at false
body_of crypto limits stamp ctx (pause at) = set_playback_paused_state limits stamp ctx at true
body_of crypto limits stamp ctx (rate r) = playback_rate_set limits stamp ctx r
body_of crypto limits stamp ctx (loop scope mode) =
    set_playback_loop_mode limits stamp ctx scope mode
body_of crypto limits stamp ctx (select index) = playlist_select limits stamp ctx index
body_of crypto limits stamp ctx (add_url url) = playlist_add_url limits stamp ctx url
body_of crypto limits stamp ctx (add_local file) = playlist_add_local limits stamp ctx file
body_of crypto limits stamp ctx (item_error id message) =
    playlist_item_error limits stamp ctx id message
body_of crypto limits stamp ctx (item_duration id d) = playlist_item_duration stamp id d
body_of crypto limits stamp ctx (item_title id name) = playlist_item_title stamp id name
body_of crypto limits stamp ctx (reorder from to) = playlist_reorder limits stamp ctx from to
body_of crypto limits stamp ctx (rename id name) = playlist_rename limits stamp ctx id name
body_of crypto limits stamp ctx (remove id) = playlist_remove limits stamp ctx id
body_of crypto limits stamp ctx (viewer_media patch) = viewer_media_preferences stamp ctx patch
body_of crypto limits stamp ctx (role_update target role) =
    participant_role_update limits stamp ctx target role
body_of crypto limits stamp ctx (password_set salt password) =
    room_password_set crypto limits stamp ctx salt password
body_of crypto limits stamp ctx password_clear = room_password_clear limits stamp ctx
body_of crypto limits stamp ctx (default_role_set role) =
    room_default_role_set limits stamp ctx role
body_of crypto limits stamp ctx (update changes playback error) =
    participant_update limits stamp ctx changes playback error

pub data Gate : Type 0 where
  anyone controller owner_alone : Gate

abbrev pub gate_of : RoomMessage → Gate
gate_of (item_duration id d) = anyone
gate_of (item_title id name) = anyone
gate_of (viewer_media patch) = anyone
gate_of (update changes playback error) = anyone
gate_of (role_update target role) = owner_alone
gate_of (password_set salt password) = owner_alone
gate_of password_clear = owner_alone
gate_of (default_role_set role) = owner_alone
gate_of _ = controller

abbrev pub behind : Gate → MessageContext → Body → Body
behind anyone ctx body = body
behind controller ctx body = controlled ctx body
behind owner_alone ctx body = owner_only ctx body

abbrev pub hint_of : RoomMessage → PublishHint
hint_of (seek target) = control
hint_of (play at) = control
hint_of (pause at) = control
hint_of (rate r) = control
hint_of (loop scope mode) = control
hint_of (select index) = control
hint_of (add_local file) = control_snapshot
hint_of (item_error id message) = control_snapshot
hint_of _ = snapshot

-- `publishAdmissionEviction`
abbrev pub admission_eviction : RoomState → Effect
admission_eviction s = publish_admission_changed (record {
  admission_version = s.room_security.admission_version;
  owner_id = s.owner_id;
  join_password_enabled = s.room_security.join_password_enabled;
})

abbrev pub follow_up : Stamp → RoomMessage → Attempt Commit → List Effect
follow_up stamp (password_set salt password) (write c) = admission_eviction c.state ∷ []
follow_up stamp password_clear (write c) = admission_eviction c.state ∷ []
follow_up stamp (add_url url) (write c) = resolve_item stamp.new_id url ∷ []
follow_up stamp _ _ = []

unfoldable pub handle_message :
    Crypto
    → Limits
    → Stamp
    → List String
    → MessageContext
    → RoomMessage
    → Option RoomState
    → Attempt Commit × List Effect
unfolding body_of
handle_message crypto limits stamp active ctx m stored =
    let (result, effects) =
      mutate_room_message limits stamp active ctx.user_id
        (behind (gate_of m) ctx (body_of crypto limits stamp ctx m)) (hint_of m) stored in
    (result, effects ++ follow_up stamp m result)

-- `handlePlaylistRetry`, with the answers of the rate limit and of `store.get`. It writes no room
-- itself.
unfoldable pub handle_playlist_retry :
    Bool → MessageContext → String → Option RoomState → List Effect
handle_playlist_retry allowed ctx item_id stored =
    if not allowed then nack rate_limited ∷ [] else elim stored [
      | none ↦ []
      | some s ↦
          if not (can_control_from_connection_context s ctx.user_id ctx.auth)
          then nack unauthorized ∷ []
          else if not (can_retry_remote_playlist_item (find (has_id item_id) s.playlist))
          then []
          else reresolve_item item_id ∷ []
    ]
