-- ===== src/Room/Sweep.antt =====
-- The end of a room: the marker of src/server/realtime/services/empty-room.ts, and the sweep of one room in
-- src/server/realtime/services/cleanup.ts. Whether Redis answers, whether the process drains, and who has
-- a socket are arguments. A marker is the time that it holds; its expiry is an event.
mod Tests
pub mod Grace
pub mod Quiet
use web_sync_play.Prelude.{
  ℕ, ◌+◌, ◌-◌, String, Bool, true, false, not, ◌&&◌, ◌||◌, Option, none, some, List, [], ◌∷◌, ◌++◌,
  map, leb, if◌then◌else◌, is_some, or_else, any, str_eq,
}
use web_sync_play.Room.State.{RoomState, Limits, Stamp}
use web_sync_play.Room.Messages.{
  Effect, clear_prune, schedule_prune, schedule_prune_due, mark_snapshot_dirty,
}
use web_sync_play.Room.Timeline.{bump_room_revisions}
use web_sync_play.Room.Ownership.{transfer_ownership_if_needed, cleanup}
use web_sync_play.Room.Participants.{
  reconcile_participants_connectivity, list_participants_past_prune_grace, after_transfer,
}
use web_sync_play.Room.Repair.{Finding, repair_cleanup_and_check_room_state}

abbrev pub empty_room_destroy_grace_ms : ℕ
empty_room_destroy_grace_ms = 15000

abbrev pub Marker : Type 0
Marker = Option ℕ

-- `NX`: the first time stays.
unfoldable pub mark_room_empty_if_absent : Bool → ℕ → Marker → Marker
mark_room_empty_if_absent up now marker = if up then some (or_else marker now) else marker

unfoldable pub clear_room_empty_marker : Bool → Marker → Marker
clear_room_empty_marker up marker = if up then none else marker

unfoldable pub is_empty_room_grace_elapsed : Bool → ℕ → Marker → Bool
is_empty_room_grace_elapsed up now none = false
is_empty_room_grace_elapsed up now (some empty_at) =
    up && leb empty_room_destroy_grace_ms (now - empty_at)

unfoldable pub note_empty_presence_and_should_destroy :
    Bool → Bool → Bool → ℕ → Marker → Bool × Marker
unfolding mark_room_empty_if_absent is_empty_room_grace_elapsed
note_empty_presence_and_should_destroy up up_again draining now marker =
    let marked = mark_room_empty_if_absent up now marker in
    (if draining then false else is_empty_room_grace_elapsed up_again now marked, marked)

-- `has_presence` is `none` if its reading fails.
unfoldable pub confirm_empty_room_destroy_allowed :
    Bool → Bool → Option Bool → ℕ → Marker → Bool × Marker
unfolding clear_room_empty_marker is_empty_room_grace_elapsed
confirm_empty_room_destroy_allowed up draining none now marker = (false, marker)
confirm_empty_room_destroy_allowed up draining (some present) now marker =
    if draining
    then (false, marker)
    else if present
    then (false, clear_room_empty_marker up marker)
    else (is_empty_room_grace_elapsed up now marker, marker)

abbrev pub has_any {ℓ} : {A : Type ℓ} → List A → Bool
has_any [] = false
has_any (x ∷ rest) = true

-- The closure of `updateRoom` writes `state`, if any.
pub record Swept : Type 0 where
  pub state : Option RoomState
  pub disconnecting : List String
  pub reconnecting : List String
  pub past_grace : List String

unfoldable pub sweep_write : Limits → Stamp → List String → RoomState → Swept
sweep_write limits stamp active current =
    let (repaired, findings) = repair_cleanup_and_check_room_state limits stamp current in
    let recon = reconcile_participants_connectivity repaired active stamp.now in
    let transfer = transfer_ownership_if_needed limits stamp recon.state cleanup in
    let did_mutate =
      has_any findings
      || (has_any recon.disconnecting || (has_any recon.reconnecting || is_some transfer)) in
    record {
      state =
          if did_mutate
          then some (
              bump_room_revisions
                (record (after_transfer recon.state transfer) { updated_at = stamp.now }))
          else none;
      disconnecting = recon.disconnecting;
      reconnecting = recon.reconnecting;
      past_grace = list_participants_past_prune_grace recon.state stamp.now;
    }

abbrev pub due_calls : List String → List String → List Effect
due_calls disconnecting [] = []
due_calls disconnecting (k ∷ rest) =
    if any (str_eq k) disconnecting
    then due_calls disconnecting rest
    else schedule_prune_due k ∷ due_calls disconnecting rest

abbrev pub prune_calls : Swept → List Effect
prune_calls swept =
    map clear_prune swept.reconnecting
    ++ (map schedule_prune swept.disconnecting ++ due_calls swept.disconnecting swept.past_grace)

-- What the sweep finds beside the room: whether Redis answers each of the calls, whether the process
-- drains, and who has a socket when it is asked again.
pub record SweepReads : Type 0 where
  pub up_clear : Bool
  pub up_mark : Bool
  pub up_read : Bool
  pub up_confirm : Bool
  pub draining : Bool
  pub present_again : Option Bool
  pub later : ℕ

pub record RoomSweep : Type 0 where
  pub swept : Swept
  pub calls : List Effect
  pub destroyed : Bool
  pub marker : Marker

-- Whether the room is to be destroyed, and its marker.
unfoldable pub sweep_empty : SweepReads → ℕ → Bool → Marker → Bool × Marker
unfolding clear_room_empty_marker note_empty_presence_and_should_destroy
    confirm_empty_room_destroy_allowed
sweep_empty reads now has_connections marker =
    let (should, marked) =
      note_empty_presence_and_should_destroy reads.up_mark reads.up_read reads.draining now
        marker in
    if has_connections
    then (false, clear_room_empty_marker reads.up_clear marker)
    else if should
    then confirm_empty_room_destroy_allowed reads.up_confirm reads.draining reads.present_again
        reads.later marked
    else (false, marked)

abbrev pub nothing_swept : Swept
nothing_swept = record { state = none; disconnecting = []; reconnecting = []; past_grace = [] }

-- One room of the sweep.
unfoldable pub cleanup_inactive_room :
    Limits → Stamp → List String → SweepReads → Option RoomState → Marker → RoomSweep
unfolding sweep_write sweep_empty
cleanup_inactive_room limits stamp active reads stored marker =
    let swept : Swept = elim stored [
      | none ↦ nothing_swept
      | some s ↦ sweep_write limits stamp active s
    ] in
    let (destroyed, next) = sweep_empty reads stamp.now (has_any active) marker in
    record {
      swept = swept;
      calls =
          prune_calls swept
          ++ (if destroyed
              then []
              else if is_some swept.state
              then mark_snapshot_dirty ∷ []
              else []);
      destroyed = destroyed;
      marker = next;
    }
