-- ===== src/Room/Participants.antt =====
-- src/server/realtime/services/participants.ts: connectivity, and the prune of those who stay away.
mod Tests
pub mod Connectivity
pub mod Grace
pub mod PruneMember
use Prim.Native.Char.{code}
use web_sync_play.Prelude.{
  ℕ, ◌+◌, ◌-◌, String, Bool, true, false, not, ◌&&◌, ◌||◌, Option, none, some, List, [], ◌∷◌, ltb,
  str_eq, is_empty, concat, if◌then◌else◌, is_some, or_else, first_some, lookup, erase, map_values,
  any, ◌==◌,
}
use web_sync_play.Room.State.{RoomState, Participant, Participants, Limits, Stamp}
use web_sync_play.Room.Timeline.{bump_room_revisions}
use web_sync_play.Room.Ownership.{transfer_ownership_if_needed, prune, Entry}

abbrev pub participant_prune_ms : ℕ
participant_prune_ms = 60000

-- `${roomId}\t${userId}`
unfoldable pub encode_prune_member : String → String → String
encode_prune_member room_id user_id = concat room_id (concat "\t" user_id)

-- The text before the first tab and the text behind it.
pub split_tab : String → Option (String × String)
split_tab String.[] = none
split_tab (String.◌∷◌ c s) =
    let rest = split_tab s in
    if code c == 9
    then some (String.[], s)
    else elim rest [ none ↦ none | some (a, b) ↦ some (String.◌∷◌ c a, b) ]

-- No tab, a tab at the start and a tab at the end are refused.
unfoldable pub parse_prune_member : String → Option (String × String)
unfolding split_tab
parse_prune_member member = elim (split_tab member) [
  | none ↦ none
  | some (room_id, user_id) ↦
      if is_empty room_id || is_empty user_id then none else some (room_id, user_id)
]

-- A difference that is negative in the source is below the grace period, as 0 is.
unfoldable pub is_past_prune_grace : ℕ → Participant → Bool
is_past_prune_grace now p =
    if p.connected
    then false
    else if away == 0
    then false
    else not (ltb (now - away) participant_prune_ms)
  where
    away : ℕ
    away = or_else (first_some p.disconnected_at p.last_seen_at) 0

pub past_grace_ids : ℕ → List Entry → List String
past_grace_ids now [] = []
past_grace_ids now (e ∷ rest) =
    if is_past_prune_grace now e.1 then e.0 ∷ past_grace_ids now rest else past_grace_ids now rest

unfoldable pub list_participants_past_prune_grace : RoomState → ℕ → List String
unfolding past_grace_ids
list_participants_past_prune_grace s now = past_grace_ids now s.participants

pub erase_all : List String → Participants → Participants
erase_all [] ps = ps
erase_all (k ∷ ks) ps = erase_all ks (erase k ps)

-- The room and the ids that were removed.
unfoldable pub prune_offline_participants : RoomState → ℕ → RoomState × List String
unfolding erase_all list_participants_past_prune_grace
prune_offline_participants s now =
    let due = list_participants_past_prune_grace s now in
    (record s { participants = erase_all due s.participants }, due)

abbrev pub after_transfer : RoomState → Option RoomState → RoomState
after_transfer s none = s
after_transfer s (some t) = t

-- The write of `removeDisconnectedParticipant`; `none` aborts it.
unfoldable pub remove_disconnected_participant :
    Limits → Stamp → RoomState → String → Option RoomState
remove_disconnected_participant limits stamp s user_id = elim (lookup user_id s.participants) [
  | none ↦ none
  | some p ↦
      if p.connected
      then none
      else let left = record s { participants = erase user_id s.participants } in
        let owned = after_transfer left (transfer_ownership_if_needed limits stamp left prune) in
        some (record (bump_room_revisions owned) { updated_at = stamp.now })
]

-- The write of the fallback without Redis, with the number of participants that it removes.
unfoldable pub prune_by_disconnected_at :
    Limits → Stamp → RoomState → Option (RoomState × List String)
prune_by_disconnected_at limits stamp s =
    let (left, removed) = prune_offline_participants s stamp.now in
    elim removed [
      | [] ↦ none
      | k ∷ ks ↦
          let owned = after_transfer left (transfer_ownership_if_needed limits stamp left prune) in
          some (record (bump_room_revisions owned) { updated_at = stamp.now }, k ∷ ks)
    ]

-- `activeUserIds.has(id)`
abbrev pub is_active : List String → String → Bool
is_active active user_id = any (str_eq user_id) active

-- `!participant.joinedAt`
abbrev pub with_joined_at : ℕ → Participant → Participant
with_joined_at now p =
    if or_else p.joined_at 0 == 0
    then record p { joined_at = some (or_else (first_some p.connected_at p.last_seen_at) now) }
    else p

unfoldable pub reconcile_participant : List String → ℕ → Participant → Participant
reconcile_participant active now p =
    let q = with_joined_at now p in
    if q.connected && not (is_active active q.user_id)
    then record q { connected = false; disconnected_at = some now; last_seen_at = some now }
    else if not q.connected && is_active active q.user_id
    then record q { connected = true; disconnected_at = none; last_seen_at = some now }
    else q

unfoldable pub disconnecting_ids : List String → List Entry → List String
disconnecting_ids active [] = []
disconnecting_ids active (e ∷ rest) =
    if e.1.connected && not (is_active active e.1.user_id)
    then e.1.user_id ∷ disconnecting_ids active rest
    else disconnecting_ids active rest

unfoldable pub reconnecting_ids : List String → List Entry → List String
reconnecting_ids active [] = []
reconnecting_ids active (e ∷ rest) =
    if not e.1.connected && is_active active e.1.user_id
    then e.1.user_id ∷ reconnecting_ids active rest
    else reconnecting_ids active rest

pub record Reconciled : Type 0 where
  pub state : RoomState
  pub disconnecting : List String
  pub reconnecting : List String

unfoldable pub reconcile_participants_connectivity : RoomState → List String → ℕ → Reconciled
unfolding reconcile_participant disconnecting_ids reconnecting_ids
reconcile_participants_connectivity s active now = record {
  state = record s { participants = map_values (reconcile_participant active now) s.participants };
  disconnecting = disconnecting_ids active s.participants;
  reconnecting = reconnecting_ids active s.participants;
}
