-- ===== src/Room/Ownership.antt =====
-- src/server/realtime/services/ownership.ts
mod Tests
pub mod Order
pub mod Choice
pub mod Succession
use web_sync_play.Prelude.{
  ℕ, ◌^◌, ◌-◌, String, Bool, true, false, not, ◌&&◌, ◌||◌, Option, none, some, List, [], ◌∷◌, ltb,
  str_eq, if◌then◌else◌, is_some, or_else, first_some, lookup, modify, keep, length, ◌==◌,
}
use web_sync_play.Room.State.{
  RoomState, Participant, Participants, RoomRole, owner, moderator, guest, same_role, Limits, Stamp,
  text,
}
use web_sync_play.Room.ActionLog.{append_action_log, LogDraft}

pub data TransferReason : Type 0 where
  disconnect cleanup join prune : TransferReason

abbrev pub reason_text : TransferReason → String
reason_text disconnect = "disconnect"
reason_text cleanup = "cleanup"
reason_text join = "join"
reason_text prune = "prune"

-- `Number.MAX_SAFE_INTEGER`
abbrev max_safe_integer : ℕ
max_safe_integer = 2 ^ 53 - 1

unfoldable pub participant_sort_key : Participant → ℕ
participant_sort_key p =
    or_else (first_some p.joined_at (first_some p.connected_at p.last_seen_at)) max_safe_integer

-- An entry of `state.participants`: a write to the participant is a write at its key.
abbrev pub Entry : Type 0
Entry = String × Participant

-- The loop of `pickNextOwner`: there is no best while `bestKey` is infinite.
abbrev pub better : RoomRole → Option Entry → Entry → Option Entry
better role none e = if same_role e.1.role role then some e else none
better role (some b) e =
    if same_role e.1.role role && ltb (participant_sort_key e.1) (participant_sort_key b.1)
    then some e
    else some b

pub pick_from : RoomRole → Option Entry → List Entry → Option Entry
pick_from role best [] = best
pick_from role best (e ∷ rest) = pick_from role (better role best e) rest

unfoldable pub pick_next_owner : List Entry → RoomRole → Option Entry
pick_next_owner entries role = pick_from role none entries

-- The early returns before the pool of candidates.
abbrev pub needs_transfer : TransferReason → Option Participant → Bool
needs_transfer disconnect p = false
needs_transfer join p = not (is_some p)
needs_transfer cleanup none = true
needs_transfer cleanup (some p) = not p.connected
needs_transfer prune none = true
needs_transfer prune (some p) = not p.connected

abbrev pub is_connected : Entry → Bool
is_connected e = e.1.connected

abbrev pub is_prune : TransferReason → Bool
is_prune prune = true
is_prune _ = false

unfoldable pub transfer_candidates : TransferReason → Participants → List Entry
transfer_candidates reason participants =
    if ltb 0 (length (keep is_connected participants))
    then keep is_connected participants
    else if is_prune reason
    then participants
    else []

unfoldable pub choose_next_owner : TransferReason → List Entry → Option Entry
choose_next_owner reason candidates = first_some (pick_next_owner candidates moderator) (
    first_some (pick_next_owner candidates guest)
      (if is_prune reason then pick_next_owner candidates owner else none))

abbrev pub with_role : RoomRole → Participant → Participant
with_role role p = record p { role = role }

-- The next owner's role, then the previous owner's.
unfoldable pub hand_over_roles : String → Entry → Participants → Participants
hand_over_roles previous next participants =
    let granted = modify next.0 (with_role owner) participants in
    elim (lookup previous granted) [
      | none ↦ granted
      | some p ↦
          if not (str_eq p.user_id next.1.user_id)
          then modify previous (with_role guest) granted
          else granted
    ]

unfoldable pub transfer_log : RoomState → Entry → TransferReason → LogDraft
transfer_log s next reason = record {
  room_id = s.room_id;
  actor_user_id = next.1.user_id;
  actor_username = some next.1.username;
  action = "participant:owner:transferred";
  payload =
      ("previousOwnerId", text s.owner_id)
      ∷ ("nextOwnerId", text next.1.user_id)
      ∷ ("reason", text (reason_text reason))
      ∷ [];
  error = none;
}

-- `none` is the answer `false`, which leaves the room as it is.
unfoldable pub transfer_ownership_if_needed :
    Limits → Stamp → RoomState → TransferReason → Option RoomState
transfer_ownership_if_needed limits stamp s reason =
    if not (needs_transfer reason (lookup s.owner_id s.participants))
    then none
    else elim (choose_next_owner reason (transfer_candidates reason s.participants)) [
      | none ↦ none
      | some next ↦ some (
          append_action_log limits stamp
            (record s {
              owner_id = next.1.user_id;
              participants = hand_over_roles s.owner_id next s.participants;
            })
            (transfer_log s next reason))
    ]
