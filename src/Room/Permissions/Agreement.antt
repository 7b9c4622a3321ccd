-- ===== src/Room/Permissions/Agreement.antt =====
-- The gates of src/server/realtime/services/permissions.ts agree with one another and with the client.
use web_sync_play.Prelude.{
  ◌≡◌, String, Bool, true, some, arith, lookup, str_eq, Option-cases, inl, inr,
}
use web_sync_play.Room.State.{RoomState, Participant, SessionKind, is_owner_role, player_session}
use web_sync_play.Room.Permissions.{
  ConnectionAuth, can_mutate_by_role, can_control_from_connection_context,
  can_manage_room_security_from_connection_context, compute_session_capabilities,
  can_mutate_from_client_session,
}

abbrev pub connection : SessionKind → Bool → Bool → ConnectionAuth
connection kind is_control authorized = record {
  is_control_session = is_control;
  control_authorized = authorized;
  session_kind = some kind;
}

-- What a session is told it may do is what the server lets it do: for a participant of the room, in a
-- room where exactly the owner has the owner's role.
pub capabilities_agree :
    (s : RoomState) (user_id : String) (p : Participant) (kind : SessionKind)
    (is_control authorized : Bool)
    → lookup user_id s.participants ≡ some p
    → is_owner_role p.role ≡ str_eq s.owner_id user_id
    → let told = compute_session_capabilities p.role kind is_control authorized in
      let auth = connection kind is_control authorized in
      (told.can_control_playback ≡ can_control_from_connection_context s user_id auth)
      × (told.can_manage_playlist ≡ can_control_from_connection_context s user_id auth)
      × (told.can_manage_room_security
          ≡ can_manage_room_security_from_connection_context s user_id auth)
unfolding compute_session_capabilities can_control_from_connection_context
    can_manage_room_security_from_connection_context
capabilities_agree s user_id p kind is_control authorized h k = ground arith

-- The client's gate and the server's give one answer for a participant.
pub client_gate_agrees :
    (s : RoomState) (user_id : String) (p : Participant) (auth : ConnectionAuth)
    → lookup user_id s.participants ≡ some p
    → can_mutate_from_client_session (some p.role) auth
      ≡ can_control_from_connection_context s user_id auth
unfolding can_mutate_from_client_session can_control_from_connection_context
client_gate_agrees s user_id p auth h = ground arith

-- Whoever passes the control gate is in the room, is owner or moderator, is no display player, and
-- holds a token if the session is a control session.
pub control_needs :
    (s : RoomState) (user_id : String) (auth : ConnectionAuth)
    → can_control_from_connection_context s user_id auth ≡ true
    → (p : Participant) × (lookup user_id s.participants ≡ some p)
      × (can_mutate_by_role p.role ≡ true)
      × (auth.session_kind ≡ some player_session → ⊥)
      × (auth.is_control_session ≡ true → auth.control_authorized ≡ true)
unfolding can_control_from_connection_context
control_needs s user_id auth h = elim (Option-cases (lookup user_id s.participants)) [
  | inl q ↦ absurd (ground arith)
  | inr (p, q) ↦ (p, q, ground arith, λ e. ground arith, λ e. ground arith)
]
