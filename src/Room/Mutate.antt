-- ===== src/Room/Mutate.antt =====
-- src/server/realtime/handlers/mutate-room.ts and mutate-controlled.ts: the frame of every message
-- that writes the room. One stamp stands for the clock reads of a message.
mod Tests
pub mod Frame
pub mod Gate
use web_sync_play.Prelude.{
  ℕ, ◌+◌, String, Bool, true, false, Option, none, some, List, [], ◌∷◌, ◌++◌, map, if◌then◌else◌,
  lookup, modify,
}
use web_sync_play.Room.State.{RoomState, Participant, Participants, LocalPlayback, Limits, Stamp}
use web_sync_play.Room.Messages.{
  RoomControl, PublishHint, control, control_ephemeral, presence, snapshot, control_snapshot,
  action_log, Effect, clear_prune, schedule_prune, publish_control, mark_snapshot_dirty,
  mark_action_log_dirty, mark_presence_dirty, nack, unauthorized,
}
use web_sync_play.Room.Timeline.{mark_current_media}
use web_sync_play.Room.Participants.{reconcile_participants_connectivity}
use web_sync_play.Room.Permissions.{
  ConnectionAuth, can_control_from_connection_context,
  can_manage_room_security_from_connection_context,
}
use web_sync_play.Room.Repair.{repair_cleanup_and_check_room_state}

-- The answer of a body: `false`, `false` with `denied` set, or `true` with the room it leaves.
pub data Attempt {ℓ} (A : Type ℓ) : Type ℓ where
  abort deny : Attempt A
  write : A → Attempt A

abbrev pub Body : Type 0
Body = RoomState → Participant → Attempt RoomState

-- The fields of `RoomMessageContext` that the bodies read.
pub record MessageContext : Type 0 where
  pub room_id : String
  pub user_id : String
  pub connection_id : String
  pub auth : ConnectionAuth

-- The room that is written, with the lists that the closure sets.
pub record Commit : Type 0 where
  pub state : RoomState
  pub disconnecting : List String
  pub reconnecting : List String

abbrev pub bumps_structural_revision : PublishHint → Bool
bumps_structural_revision snapshot = true
bumps_structural_revision control_snapshot = true
bumps_structural_revision action_log = true
bumps_structural_revision _ = false

abbrev pub mark_present : ℕ → Participant → Participant
mark_present now p = record p { connected = true; last_seen_at = some now; disconnected_at = none }

-- What follows the repair.
unfoldable pub close_message : ℕ → String → PublishHint → RoomState → RoomState
close_message now user_id hint s =
    let present = record s { participants = modify user_id (mark_present now) s.participants } in
    let marked = mark_current_media present in
    record marked {
      updated_at = now;
      generation = marked.generation + 1;
      structural_revision =
          marked.structural_revision + (if bumps_structural_revision hint then 1 else 0);
    }

-- What follows a body that answers `true`.
unfoldable pub finish_message : Limits → Stamp → String → PublishHint → RoomState → RoomState
unfolding close_message
finish_message limits stamp user_id hint s =
    close_message stamp.now user_id hint (repair_cleanup_and_check_room_state limits stamp s).0

-- The closure of `updateRoom`.
unfoldable pub mutate_once :
    Limits → Stamp → List String → String → Body → PublishHint → Option RoomState → Attempt Commit
unfolding finish_message
mutate_once limits stamp active user_id body hint none = abort
mutate_once limits stamp active user_id body hint (some s) =
    let recon = reconcile_participants_connectivity s active stamp.now in
    elim (lookup user_id recon.state.participants) [
      | none ↦ abort
      | some p ↦ elim (body recon.state p) [
        | abort ↦ abort
        | deny ↦ deny
        | write next ↦ write (record {
          state = finish_message limits stamp user_id hint next;
          disconnecting = recon.disconnecting;
          reconnecting = recon.reconnecting;
        })
      ]
    ]

-- `controlPayloadFromState` of src/server/realtime/broadcast/room-broadcast-bus.ts
unfoldable pub control_payload_from_state : ℕ → RoomState → RoomControl
control_payload_from_state now s = record {
  generation = s.generation;
  playback = s.playback;
  current_index = s.current_index;
  updated_at = s.updated_at;
  server_wall_now_ms = some now;
}

abbrev pub seen_at : Option Participant → Option ℕ
seen_at none = none
seen_at (some p) = p.last_seen_at

abbrev pub playback_of : Option Participant → Option LocalPlayback
playback_of none = none
playback_of (some p) = some p.local_playback

unfoldable pub publish_after_mutation : ℕ → String → RoomState → PublishHint → List Effect
unfolding control_payload_from_state
publish_after_mutation now user_id next control =
    publish_control (control_payload_from_state now next) ∷ mark_action_log_dirty ∷ []
publish_after_mutation now user_id next control_snapshot =
    publish_control (control_payload_from_state now next) ∷ mark_snapshot_dirty ∷ []
publish_after_mutation now user_id next snapshot = mark_snapshot_dirty ∷ []
publish_after_mutation now user_id next action_log = mark_action_log_dirty ∷ []
publish_after_mutation now user_id next presence =
    mark_presence_dirty user_id (record {
      connected = some true;
      last_seen_at = seen_at (lookup user_id next.participants);
      disconnected_at = none;
      username = none;
      avatar_style = none;
      local_playback = playback_of (lookup user_id next.participants);
    })
    ∷ []
publish_after_mutation now user_id next control_ephemeral = []

-- What follows the store's answer, `denied` included.
unfoldable pub after_update : ℕ → String → PublishHint → Attempt Commit → List Effect
unfolding publish_after_mutation
after_update now user_id hint abort = []
after_update now user_id hint deny = nack unauthorized ∷ []
after_update now user_id hint (write commit) =
    map clear_prune commit.reconnecting
    ++ (map schedule_prune commit.disconnecting
        ++ publish_after_mutation now user_id commit.state hint)

-- `mutateRoomMessage` of the room that the store gives the deciding attempt.
unfoldable pub mutate_room_message :
    Limits
    → Stamp
    → List String
    → String
    → Body
    → PublishHint
    → Option RoomState
    → Attempt Commit × List Effect
unfolding mutate_once after_update
mutate_room_message limits stamp active user_id body hint stored =
    let result = mutate_once limits stamp active user_id body hint stored in
    (result, after_update stamp.now user_id hint result)

abbrev pub gated : (RoomState → Bool) → Body → Body
gated gate body s p = if gate s then body s p else deny

unfoldable pub controlled : MessageContext → Body → Body
controlled ctx body = gated (λ s. can_control_from_connection_context s ctx.user_id ctx.auth) body

unfoldable pub owner_only : MessageContext → Body → Body
owner_only ctx body =
    gated (λ s. can_manage_room_security_from_connection_context s ctx.user_id ctx.auth) body
