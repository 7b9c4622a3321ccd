-- ===== src/Room/Permissions.antt =====
-- src/server/realtime/services/permissions.ts with src/shared/permissions-utils.ts: who may mutate.
mod Tests
pub mod Agreement
use web_sync_play.Prelude.{
  ℕ, String, Bool, true, false, not, ◌&&◌, ◌||◌, Option, none, some, List, str_eq, if◌then◌else◌,
  lookup,
}
use web_sync_play.Room.State.{
  RoomState, RoomRole, owner, moderator, guest, SessionKind, player_session, is_owner_role,
  is_moderator_role,
}

pub record ConnectionAuth : Type 0 where
  pub is_control_session : Bool
  pub control_authorized : Bool
  pub session_kind : Option SessionKind

pub record SessionCapabilities : Type 0 where
  pub can_control_playback : Bool
  pub can_manage_playlist : Bool
  pub can_manage_room_security : Bool
  pub is_control_session : Bool
  pub control_authorized : Bool
  pub session_kind : SessionKind

-- `isOwner` and `canMutateByRole` of a role that is there
unfoldable pub can_mutate_by_role : RoomRole → Bool
can_mutate_by_role role = is_owner_role role || is_moderator_role role

abbrev is_player : Option SessionKind → Bool
is_player (some player_session) = true
is_player _ = false

unfoldable pub passes_session_gate : ConnectionAuth → Bool
passes_session_gate c =
    if is_player c.session_kind
    then false
    else if not c.is_control_session
    then true
    else c.control_authorized

-- A role is one of the three by its type, so `normalizeRole` leaves it.
unfoldable pub has_playback_and_playlist_control : RoomState → String → Bool
unfolding can_mutate_by_role
has_playback_and_playlist_control s user_id = elim (lookup user_id s.participants) [
  | none ↦ false
  | some p ↦ can_mutate_by_role p.role
]

unfoldable pub can_control_from_connection_context : RoomState → String → ConnectionAuth → Bool
unfolding passes_session_gate has_playback_and_playlist_control
can_control_from_connection_context s user_id c =
    if not (passes_session_gate c) then false else has_playback_and_playlist_control s user_id

unfoldable pub can_manage_room_security_from_connection_context :
    RoomState → String → ConnectionAuth → Bool
unfolding passes_session_gate
can_manage_room_security_from_connection_context s user_id c =
    if not (passes_session_gate c) then false else str_eq s.owner_id user_id

unfoldable pub compute_session_capabilities :
    RoomRole → SessionKind → Bool → Bool → SessionCapabilities
unfolding passes_session_gate can_mutate_by_role
compute_session_capabilities role kind is_control authorized = record {
  can_control_playback = session_ok && can_mutate_by_role role;
  can_manage_playlist = session_ok && can_mutate_by_role role;
  can_manage_room_security = session_ok && is_owner_role role;
  is_control_session = is_control;
  control_authorized = authorized;
  session_kind = kind;
}
  where
    session_ok : Bool
    session_ok = passes_session_gate (record {
      is_control_session = is_control;
      control_authorized = authorized;
      session_kind = some kind;
    })

-- The client's gate.
unfoldable pub is_client_control_authorized : Bool → Bool → Bool
is_client_control_authorized is_control authorized = not is_control || authorized

unfoldable pub can_mutate_from_client_session : Option RoomRole → ConnectionAuth → Bool
unfolding is_client_control_authorized can_mutate_by_role
can_mutate_from_client_session role c =
    if is_player c.session_kind
    then false
    else elim role [ none ↦ false | some r ↦ can_mutate_by_role r ]
      && is_client_control_authorized c.is_control_session c.control_authorized
