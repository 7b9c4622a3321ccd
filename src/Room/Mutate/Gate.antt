-- ===== src/Room/Mutate/Gate.antt =====
-- The gates of src/server/realtime/handlers/mutate-controlled.ts around any body.
use web_sync_play.Prelude.{
  sym, is_some, if◌then◌else◌, ◌&&◌, ℕ, ◌≡◌, refl, String, Bool, true, some, List, [], ◌∷◌, arith,
  Option-cases, Bool-cases, inl, inr, lookup, lookup-map_values, str_eq,
}
use web_sync_play.Room.State.{RoomState, Participant, Limits, Stamp}
use web_sync_play.Room.Messages.{PublishHint, nack, unauthorized}
use web_sync_play.Room.Participants.{reconcile_participant, reconcile_participants_connectivity}
use web_sync_play.Room.Permissions.{
  ConnectionAuth, can_control_from_connection_context, has_playback_and_playlist_control,
  can_manage_room_security_from_connection_context, passes_session_gate,
}
use web_sync_play.Room.Mutate.{
  abort, deny, write, Body, Commit, MessageContext, mutate_once, finish_message,
  mutate_room_message, after_update, gated, controlled, owner_only,
}

reconcile_role :
    (active : List String) (now : ℕ) (p : Participant)
    → (reconcile_participant active now p).role ≡ p.role
unfolding reconcile_participant
reconcile_role active now p = ground arith

-- The gate answers of the reconciled room as of the stored one.
reconcile_control :
    (s : RoomState) (active : List String) (now : ℕ) (user_id : String) (c : ConnectionAuth)
    → can_control_from_connection_context
        (reconcile_participants_connectivity s active now).state
        user_id
        c
      ≡ can_control_from_connection_context s user_id c
unfolding can_control_from_connection_context has_playback_and_playlist_control
    reconcile_participants_connectivity
reconcile_control s active now user_id c = elim (Option-cases (lookup user_id s.participants)) [
  | inl e ↦
      ground (arith, lookup-map_values user_id (reconcile_participant active now) s.participants)
  | inr (p, e) ↦ ground (
    arith,
    reconcile_role active now p,
    lookup-map_values user_id (reconcile_participant active now) s.participants,
  )
]

reconcile_member :
    (s : RoomState) (active : List String) (now : ℕ) (user_id : String) (p : Participant)
    → lookup user_id s.participants ≡ some p
    → lookup user_id (reconcile_participants_connectivity s active now).state.participants
      ≡ some (reconcile_participant active now p)
unfolding reconcile_participants_connectivity
reconcile_member s active now user_id p e =
    ground (arith, lookup-map_values user_id (reconcile_participant active now) s.participants)

-- A gate that answers of the reconciled room as it does of the stored one.
module _ (limits : Limits) (stamp : Stamp) (active : List String) (user_id : String)
    (gate : RoomState → Bool) (body : Body) (hint : PublishHint) (s : RoomState) where
  gated_message :
      gate (reconcile_participants_connectivity s active stamp.now).state ≡ gate s
      → mutate_room_message limits stamp active user_id (gated gate body) hint (some s) ≡ (
          if is_some (lookup user_id s.participants)
          then (if gate s
              then mutate_room_message limits stamp active user_id body hint (some s)
              else (deny, nack unauthorized ∷ []))
          else (abort, []))
  unfolding mutate_room_message mutate_once after_update reconcile_participants_connectivity
  gated_message same = elim (Option-cases (lookup user_id s.participants)) [
    | inl e ↦
        ground
          (arith, lookup-map_values user_id (reconcile_participant active stamp.now) s.participants)
    | inr (p, e) ↦ elim (Bool-cases (gate s)) [
      | inl t ↦ ground (arith, t, same, reconcile_member s active stamp.now user_id p e)
      | inr f ↦ ground (arith, f, same, reconcile_member s active stamp.now user_id p e)
    ]
  ]

-- Who may control the room gets the body's write through.
pub controlled_writes :
    (limits : Limits) (stamp : Stamp) (active : List String) (ctx : MessageContext) (body : Body)
    (hint : PublishHint) (s next : RoomState) (p : Participant)
    → lookup ctx.user_id s.participants ≡ some p
    → can_control_from_connection_context s ctx.user_id ctx.auth ≡ true
    → body
        (reconcile_participants_connectivity s active stamp.now).state
        (reconcile_participant active stamp.now p)
      ≡ write next
    → (c : Commit) × (mutate_once limits stamp active ctx.user_id
          (controlled ctx body)
          hint
          (some s)
        ≡ write c)
      × (c.state ≡ finish_message limits stamp ctx.user_id hint next)
unfolding mutate_once controlled
controlled_writes limits stamp active ctx body hint s next p e g run =
    let recon = reconcile_participants_connectivity s active stamp.now in
    (
      record {
        state = finish_message limits stamp ctx.user_id hint next;
        disconnecting = recon.disconnecting;
        reconnecting = recon.reconnecting;
      },
      ground (
        arith,
        run,
        reconcile_member s active stamp.now ctx.user_id p e,
        reconcile_control s active stamp.now ctx.user_id ctx.auth,
      ),
      refl,
    )

-- Behind the control gate a message of a participant who may control the stored room, by the role and
-- the connection's session, is the body's own message; any other participant's writes nothing and is
-- answered by one `unauthorized`; and a message from outside the room does nothing.
pub control_gate :
    (limits : Limits) (stamp : Stamp) (active : List String) (ctx : MessageContext) (body : Body)
    (hint : PublishHint) (s : RoomState)
    → mutate_room_message limits stamp active ctx.user_id (controlled ctx body) hint (some s) ≡ (
        if is_some (lookup ctx.user_id s.participants)
        then (if can_control_from_connection_context s ctx.user_id ctx.auth
            then mutate_room_message limits stamp active ctx.user_id body hint (some s)
            else (deny, nack unauthorized ∷ []))
        else (abort, []))
unfolding controlled
control_gate limits stamp active ctx body hint s =
    gated_message limits stamp active ctx.user_id
      (λ t. can_control_from_connection_context t ctx.user_id ctx.auth) body hint s
      (reconcile_control s active stamp.now ctx.user_id ctx.auth)

-- Behind the owner's gate a message of the stored room's owner, in a session that may act, is the body's
-- own message; any other participant's writes nothing and is answered by one `unauthorized`; and a
-- message from outside the room does nothing.
pub owner_gate :
    (limits : Limits) (stamp : Stamp) (active : List String) (ctx : MessageContext) (body : Body)
    (hint : PublishHint) (s : RoomState)
    → mutate_room_message limits stamp active ctx.user_id (owner_only ctx body) hint (some s) ≡ (
        if is_some (lookup ctx.user_id s.participants)
        then (if passes_session_gate ctx.auth && str_eq s.owner_id ctx.user_id
            then mutate_room_message limits stamp active ctx.user_id body hint (some s)
            else (deny, nack unauthorized ∷ []))
        else (abort, []))
unfolding owner_only can_manage_room_security_from_connection_context
    reconcile_participants_connectivity
owner_gate limits stamp active ctx body hint s =
    let same : can_manage_room_security_from_connection_context s ctx.user_id ctx.auth
        ≡ (passes_session_gate ctx.auth && str_eq s.owner_id ctx.user_id) =
      ground arith in
    rw (sym same) (
      gated_message limits stamp active ctx.user_id
        (λ t. can_manage_room_security_from_connection_context t ctx.user_id ctx.auth) body hint s
        refl)
