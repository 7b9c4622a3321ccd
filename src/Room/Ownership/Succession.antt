-- ===== src/Room/Ownership/Succession.antt =====
-- What a transfer of src/server/realtime/services/ownership.ts leaves behind.
use web_sync_play.Room.Ownership.Choice.{choose-All, candidates-All, candidates_connected}
use web_sync_play.Prelude.{
  ◌≡◌, refl, String, true, none, some, arith, All, is_some, Option-cases, inl, inr, ◌⊎◌, lookup,
  modify, lookup-modify, eq_iff, str_eq, map_some, if◌then◌else◌, subst, sym, ◌∙◌,
}
use web_sync_play.Room.State.{
  Participant, Participants, owner, guest, is_owner_role, RoomState, Limits, Stamp,
}
use web_sync_play.Room.ActionLog.{append_action_log}
use web_sync_play.Room.Ownership.{
  Entry, TransferReason, disconnect, cleanup, join, prune, transfer_candidates, choose_next_owner,
  with_role, hand_over_roles, transfer_ownership_if_needed,
}

-- The entries of a JavaScript record have different keys: each is the one found at its key.
abbrev pub IsRecord : Participants → Type 0
IsRecord ps = All (λ (e : Entry). lookup e.0 ps ≡ some e.1) ps

-- Each participant stands under its own id.
abbrev pub IsNamed : Participants → Type 0
IsNamed ps = (k : String) (p : Participant) → lookup k ps ≡ some p → p.user_id ≡ k

-- The owner's role is held by the owner, and by nobody else in the room.
abbrev pub IsOwned : String → Participants → Type 0
IsOwned owner_id ps =
    (k : String) (p : Participant) → lookup k ps ≡ some p → is_owner_role p.role ≡ str_eq owner_id k

-- Roles after a hand-over: the next owner has the owner's role, and nobody else has.
hand_over-IsOwned :
    (ps : Participants) (previous : String) (next : Entry)
    → IsNamed ps
    → IsOwned previous ps
    → lookup next.0 ps ≡ some next.1
    → IsOwned next.1.user_id (hand_over_roles previous next ps)
unfolding hand_over_roles
hand_over-IsOwned ps previous next named owned found k p h =
    elim (Option-cases (lookup previous ps)) [
      | inl gone ↦ elim (Option-cases (lookup k ps)) [
        | inl q ↦
            ground (arith, at_next k, at_next previous, eq_iff next.0 k, eq_iff next.0 previous)
        | inr (a, q) ↦ ground (
          arith,
          at_next k,
          at_next previous,
          eq_iff next.0 k,
          eq_iff next.0 previous,
          eq_iff previous k,
          owned k a,
          named next.0 next.1,
        )
      ]
      | inr (old, o) ↦ elim (Option-cases (lookup k ps)) [
        | inl q ↦
            ground
              (arith, at_next k, at_next previous, at_previous, eq_iff next.0 k, eq_iff previous k)
        | inr (a, q) ↦ ground (
          arith,
          at_next k,
          at_next previous,
          at_previous,
          eq_iff next.0 k,
          eq_iff next.0 previous,
          eq_iff previous k,
          eq_iff old.user_id next.1.user_id,
          owned k a,
          named next.0 next.1,
          named previous old,
        )
      ]
    ]
  where
    granted : Participants
    granted = modify next.0 (with_role owner) ps

    at_next :
        (j : String)
        → lookup j granted
          ≡ (if str_eq next.0 j then map_some (with_role owner) (lookup j ps) else lookup j ps)
    at_next j = lookup-modify next.0 j (with_role owner) ps

    at_previous : lookup k (modify previous (with_role guest) granted) ≡ (
        if str_eq previous k
        then map_some (with_role guest) (lookup k granted)
        else lookup k granted)
    at_previous = lookup-modify previous k (with_role guest) granted

hand_over-lookup :
    (ps : Participants) (previous : String) (next : Entry) (k : String)
    → is_some (lookup k (hand_over_roles previous next ps)) ≡ is_some (lookup k ps)
unfolding hand_over_roles
hand_over-lookup ps previous next k =
    let granted : Participants = modify next.0 (with_role owner) ps in
    ground (
      arith,
      lookup-modify next.0 k (with_role owner) ps,
      lookup-modify previous k (with_role guest) granted,
    )

-- A transfer keeps everybody in the room, and the owner that it names is one of them.
pub transfer_keeps :
    (limits : Limits) (stamp : Stamp) (s t : RoomState) (reason : TransferReason)
    → IsRecord s.participants
    → IsNamed s.participants
    → transfer_ownership_if_needed limits stamp s reason ≡ some t
    → (is_some (lookup t.owner_id t.participants) ≡ true)
      × ((k : String) → is_some (lookup k t.participants) ≡ is_some (lookup k s.participants))
      × (t.generation ≡ s.generation)
      × (t.structural_revision ≡ s.structural_revision)
unfolding transfer_ownership_if_needed append_action_log
transfer_keeps limits stamp s t reason distinct named e =
    elim (Option-cases (choose_next_owner reason (transfer_candidates reason s.participants))) [
      | inl q ↦ absurd (ground arith)
      | inr (next, q) ↦
          let at : lookup next.0 s.participants ≡ some next.1 =
            choose-All (λ e'. lookup e'.0 s.participants ≡ some e'.1) reason
              (transfer_candidates reason s.participants) next
              (candidates-All (λ e'. lookup e'.0 s.participants ≡ some e'.1) reason s.participants
                distinct)
              q in
          let o : t.owner_id ≡ next.0 = ground (arith, named next.0 next.1 at) in
          let ps : t.participants ≡ hand_over_roles s.owner_id next s.participants = ground arith in
          (
            rw (o, ps, hand_over-lookup s.participants s.owner_id next next.0, at) refl,
            λ k. rw ps (hand_over-lookup s.participants s.owner_id next k),
            ground arith,
            ground arith,
          )
    ]

-- In a room whose participants stand once each under their own ids, and where the owner alone holds
-- the owner's role, a transfer gives that role to a participant of the room and leaves nobody else
-- with it. The new owner is connected, except on a prune.
pub transfer-IsOwned :
    (limits : Limits) (stamp : Stamp) (s t : RoomState) (reason : TransferReason)
    → IsRecord s.participants
    → IsNamed s.participants
    → IsOwned s.owner_id s.participants
    → transfer_ownership_if_needed limits stamp s reason ≡ some t
    → IsOwned t.owner_id t.participants
      × ((p : Participant) × (lookup t.owner_id s.participants ≡ some p)
          × ((p.connected ≡ true) ⊎ (reason ≡ prune)))
unfolding transfer_ownership_if_needed append_action_log
transfer-IsOwned limits stamp s t reason distinct named owned e =
    elim (Option-cases (choose_next_owner reason (transfer_candidates reason s.participants))) [
      | inl q ↦ absurd (ground arith)
      | inr (next, q) ↦
          let at : lookup next.0 s.participants ≡ some next.1 =
            choose-All (λ e'. lookup e'.0 s.participants ≡ some e'.1) reason
              (transfer_candidates reason s.participants) next
              (candidates-All (λ e'. lookup e'.0 s.participants ≡ some e'.1) reason s.participants
                distinct)
              q in
          let same : next.1.user_id ≡ next.0 = named next.0 next.1 at in
          let o : t.owner_id ≡ next.1.user_id = ground arith in
          let ps : t.participants ≡ hand_over_roles s.owner_id next s.participants = ground arith in
          (
            rw (o, ps) (hand_over-IsOwned s.participants s.owner_id next named owned at),
            (
              next.1,
              subst (λ k. lookup k s.participants ≡ some next.1) (sym (o ∙ same)) at,
              elim (candidates_connected reason s.participants) [
                | inl all ↦ inl (
                    choose-All (λ e'. e'.1.connected ≡ true) reason
                      (transfer_candidates reason s.participants) next all q)
                | inr p ↦ inr p
              ],
            ),
          )
    ]

-- While the owner is in the room, no transfer happens on a disconnect or a join, nor for any reason as
-- long as the owner is connected.
pub transfer_declines :
    (limits : Limits) (stamp : Stamp) (s : RoomState) (p : Participant) (reason : TransferReason)
    → lookup s.owner_id s.participants ≡ some p
    → (p.connected ≡ true) ⊎ ((reason ≡ join) ⊎ (reason ≡ disconnect))
    → transfer_ownership_if_needed limits stamp s reason ≡ none
unfolding transfer_ownership_if_needed
transfer_declines limits stamp s p disconnect h c = refl
transfer_declines limits stamp s p join h c = ground arith
transfer_declines limits stamp s p cleanup h c = ground arith
transfer_declines limits stamp s p prune h c = ground arith
