-- ===== src/Client.antt =====
-- src/client/realtime/room-state-merge.ts: how a client folds the server's envelopes into its room.
-- An absent revision is 0, as in the source.
mod Tests
pub mod Revisions
pub mod Current
use web_sync_play.Prelude.{
  ℕ, max, String, Bool, true, false, not, ◌&&◌, Option, none, some, List, [], ◌∷◌, ltb, leb,
  if◌then◌else◌, or_else, first_some, lookup, modify, str_eq, is_empty, get_elem?, find_index,
  is_some,
}
use web_sync_play.Room.State.{
  RoomSnapshot, Participant, Participants, PlaybackState, PlaylistItem, SeekPreview,
}
use web_sync_play.Room.Messages.{RoomControl, PresencePatch, PresenceBatch}
use web_sync_play.Room.Playlist.{has_id}

-- `pickDefined`: an optional field is left as it is by a patch without it.
abbrev pub patched : PresencePatch → Participant → Participant
patched patch p = record p {
  connected = or_else patch.connected p.connected;
  last_seen_at = first_some patch.last_seen_at p.last_seen_at;
  disconnected_at = first_some patch.disconnected_at p.disconnected_at;
  username = or_else patch.username p.username;
  avatar_style = or_else patch.avatar_style p.avatar_style;
  local_playback = or_else patch.local_playback p.local_playback;
}

-- A patch of an unknown user changes nothing.
unfoldable pub merge_participant_presence :
    Participants → List (String × PresencePatch) → Participants
merge_participant_presence ps [] = ps
merge_participant_presence ps ((user_id, patch) ∷ patches) =
    merge_participant_presence (modify user_id (patched patch) ps) patches

abbrev pub names_item : List PlaylistItem → ℕ → String → Bool
names_item items i media_id = elim (get_elem? items i) [
  | none ↦ false
  | some item ↦ str_eq item.id media_id
]

unfoldable pub reconcile_control_current_index : RoomSnapshot → RoomControl → ℕ
reconcile_control_current_index prev payload = elim payload.playback.media_id [
  | none ↦ payload.current_index
  | some media_id ↦
      if is_empty media_id
      then payload.current_index
      else if names_item prev.playlist payload.current_index media_id
      then payload.current_index
      else or_else (find_index (has_id media_id) prev.playlist) prev.current_index
]

unfoldable pub apply_room_control : RoomSnapshot → RoomControl → RoomSnapshot
unfolding reconcile_control_current_index
apply_room_control prev payload =
    if ltb payload.generation prev.generation then prev else record prev {
      playback = payload.playback;
      current_index = reconcile_control_current_index prev payload;
      updated_at = payload.updated_at;
      generation = payload.generation;
    }

unfoldable pub apply_presence_batch : RoomSnapshot → PresenceBatch → RoomSnapshot
unfolding merge_participant_presence
apply_presence_batch prev payload =
    if leb payload.presence_revision (or_else prev.presence_revision 0) then prev else record prev {
      participants = merge_participant_presence prev.participants payload.participants;
      presence_revision = some payload.presence_revision;
    }

pub apply_presence_batches : RoomSnapshot → List PresenceBatch → RoomSnapshot
unfolding apply_presence_batch
apply_presence_batches prev [] = prev
apply_presence_batches prev (payload ∷ payloads) =
    apply_presence_batches (apply_presence_batch prev payload) payloads

abbrev pub is_active_preview : Option SeekPreview → Bool
is_active_preview none = false
is_active_preview (some preview) = preview.active

unfoldable pub merged_playback : RoomSnapshot → RoomSnapshot → PlaybackState
merged_playback prev payload =
    let applies = leb prev.generation payload.generation in
    let playback = if applies then payload.playback else prev.playback in
    if applies
      && (is_active_preview prev.playback.seek_preview
          && (not (is_active_preview payload.playback.seek_preview)
              && leb payload.generation prev.generation))
    then record playback { seek_preview = prev.playback.seek_preview }
    else playback

unfoldable pub apply_room_snapshot : RoomSnapshot → RoomSnapshot → RoomSnapshot
unfolding merged_playback
apply_room_snapshot prev payload = record payload {
  playback = merged_playback prev payload;
  current_index =
      if leb prev.generation payload.generation then payload.current_index else prev.current_index;
  generation = max prev.generation payload.generation;
  structural_revision = max prev.structural_revision payload.structural_revision;
  presence_revision =
      some (max (or_else prev.presence_revision 0) (or_else payload.presence_revision 0));
}

pub data Envelope : Type 0 where
  room_control : RoomControl → Envelope
  presence_batch : PresenceBatch → Envelope
  room_snapshot : RoomSnapshot → Envelope

-- A client without a room drops all but a snapshot.
unfoldable pub receive : Option RoomSnapshot → Envelope → Option RoomSnapshot
unfolding apply_room_control apply_presence_batch apply_room_snapshot
receive none (room_control payload) = none
receive none (presence_batch payload) = none
receive none (room_snapshot payload) = some payload
receive (some prev) (room_control payload) = some (apply_room_control prev payload)
receive (some prev) (presence_batch payload) = some (apply_presence_batch prev payload)
receive (some prev) (room_snapshot payload) = some (apply_room_snapshot prev payload)

pub receive_all : Option RoomSnapshot → List Envelope → Option RoomSnapshot
unfolding receive
receive_all prev [] = prev
receive_all prev (e ∷ es) = receive_all (receive prev e) es
