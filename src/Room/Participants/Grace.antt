-- ===== src/Room/Participants/Grace.antt =====
-- Whom the prunes of src/server/realtime/services/participants.ts remove.
use web_sync_play.Prelude.{
  ℕ, ◌+◌, ◌≡◌, ◌≢◌, refl, String, true, false, none, some, List, [], ◌∷◌, arith, lookup, erase,
  lookup-erase, All, Option-cases, nil-cases, inl, inr, any, Bool-cases, str_eq, eq_iff,
  if◌then◌else◌, keep, is_some,
}
use web_sync_play.Room.State.{
  RoomState, Participant, Participants, Limits, Stamp, owner, moderator, guest,
}
use web_sync_play.Room.Timeline.{bump_room_revisions}
use web_sync_play.Room.Ownership.{
  Entry, transfer_ownership_if_needed, prune, choose_next_owner, transfer_candidates,
  pick_next_owner, is_connected,
}
use web_sync_play.Room.Ownership.Order.{has_role, pick_from-none}
use web_sync_play.Room.Ownership.Succession.{IsRecord, IsNamed, transfer_keeps}
use web_sync_play.Room.Participants.{
  is_past_prune_grace, past_grace_ids, erase_all, prune_offline_participants,
  remove_disconnected_participant, after_transfer,
}

lookup-erase_all :
    (ks : List String) (j : String) (ps : Participants)
    → lookup j (erase_all ks ps) ≡ (if any (str_eq j) ks then none else lookup j ps)
unfolding erase_all
lookup-erase_all [] j ps = refl
lookup-erase_all (k ∷ ks) j ps =
    ground (arith, lookup-erase_all ks j (erase k ps), lookup-erase k j ps, eq_iff k j, eq_iff j k)

past_grace_sound :
    (now : ℕ) (j : String) (ps whole : Participants)
    → All (λ (e : Entry). lookup e.0 whole ≡ some e.1) ps
    → any (str_eq j) (past_grace_ids now ps) ≡ true
    → (p : Participant) × (lookup j whole ≡ some p) × (is_past_prune_grace now p ≡ true)
unfolding past_grace_ids
past_grace_sound now j [] whole h t = absurd (ground arith)
past_grace_sound now j ((k, p) ∷ ps) whole h t = elim (Bool-cases (is_past_prune_grace now p)) [
  | inl due ↦ elim (Bool-cases (str_eq j k)) [
    | inl same ↦ (p, rw ((eq_iff j k).0 same) h.0, due)
    | inr other ↦ past_grace_sound now j ps whole h.1 (ground arith)
  ]
  | inr kept ↦ past_grace_sound now j ps whole h.1 (ground arith)
]

past_grace_complete :
    (now : ℕ) (j : String) (ps : Participants) (p : Participant)
    → lookup j ps ≡ some p
    → is_past_prune_grace now p ≡ true
    → any (str_eq j) (past_grace_ids now ps) ≡ true
unfolding past_grace_ids
past_grace_complete now j [] p l due = absurd (ground arith)
past_grace_complete now j ((k, q) ∷ ps) p l due =
    ground (arith, past_grace_complete now j ps p, eq_iff k j, eq_iff j k)

-- In a room whose participants stand once each, the prune without Redis removes whoever has been away
-- for the grace period, and leaves everybody else as they were.
pub prune_exact :
    (s : RoomState) (now : ℕ) (j : String) (p : Participant)
    → IsRecord s.participants
    → lookup j s.participants ≡ some p
    → lookup j (prune_offline_participants s now).0.participants
      ≡ (if is_past_prune_grace now p then none else some p)
unfolding prune_offline_participants
prune_exact s now j p distinct l =
    elim (Bool-cases (any (str_eq j) (past_grace_ids now s.participants))) [
      | inl gone ↦
          let (q, m, due) = past_grace_sound now j s.participants s.participants distinct gone in
          ground (arith, lookup-erase_all (past_grace_ids now s.participants) j s.participants)
      | inr kept ↦ ground (
        arith,
        lookup-erase_all (past_grace_ids now s.participants) j s.participants,
        past_grace_complete now j s.participants p,
      )
    ]

three_roles :
    (e : Entry)
    → has_role moderator e ≡ false
    → has_role guest e ≡ false
    → has_role owner e ≡ false
    → ⊥
three_roles e a b c = ground arith

-- A prune finds a successor among any candidates at all.
choose_total : (e : Entry) (rest : List Entry) → choose_next_owner prune (e ∷ rest) ≢ none
unfolding choose_next_owner pick_next_owner
choose_total e rest h =
    three_roles e (pick_from-none moderator none (e ∷ rest) (ground arith)).1.0
      (pick_from-none guest none (e ∷ rest) (ground arith)).1.0
      (pick_from-none owner none (e ∷ rest) (ground arith)).1.0

erase-All :
    (k : String) (ps whole : Participants)
    → All (λ (e : Entry). lookup e.0 whole ≡ some e.1) ps
    → All (λ (e : Entry). lookup e.0 (erase k whole) ≡ some e.1) (erase k ps)
erase-All k [] whole h = tt
erase-All k ((j, p) ∷ ps) whole h = elim (Bool-cases (str_eq j k)) [
  | inl same ↦ rw same (erase-All k ps whole h.1)
  | inr other ↦
      rw other
        (ground (arith, lookup-erase k j whole, eq_iff k j, eq_iff j k), erase-All k ps whole h.1)
]

pub erase-IsNamed : (k : String) (ps : Participants) → IsNamed ps → IsNamed (erase k ps)
erase-IsNamed k ps named j p l = named j p (ground (arith, lookup-erase k j ps))

transfer_none :
    (limits : Limits) (stamp : Stamp) (s : RoomState)
    → transfer_ownership_if_needed limits stamp s prune ≡ none
    → s.participants ≢ []
    → is_some (lookup s.owner_id s.participants) ≡ true
unfolding transfer_ownership_if_needed transfer_candidates
transfer_none limits stamp s e h = elim (nil-cases s.participants) [
  | inl q ↦ absurd (h q)
  | inr (x, xs, q) ↦ elim (nil-cases (keep is_connected s.participants)) [
    | inl c ↦ ground (arith, choose_total x xs)
    | inr (y, ys, c) ↦ ground (arith, choose_total y ys)
  ]
]

owner_after :
    (limits : Limits) (stamp : Stamp) (s : RoomState)
    → IsRecord s.participants
    → IsNamed s.participants
    → s.participants ≢ []
    → let t = after_transfer s (transfer_ownership_if_needed limits stamp s prune) in
      (is_some (lookup t.owner_id t.participants) ≡ true)
      × ((k : String) → is_some (lookup k t.participants) ≡ is_some (lookup k s.participants))
      × (t.generation ≡ s.generation)
      × (t.structural_revision ≡ s.structural_revision)
owner_after limits stamp s distinct named h =
    elim (Option-cases (transfer_ownership_if_needed limits stamp s prune)) [
      | inl q ↦ rw q (transfer_none limits stamp s q h, λ k. refl, refl, refl)
      | inr (t, q) ↦ rw q (transfer_keeps limits stamp s t prune distinct named q)
    ]

-- In a room whose participants stand once each under their own ids, and where somebody else is left,
-- a prune takes out one participant, who is offline, keeps the others, and raises the generation and
-- the structural revision by one; the owner that the room then names is in the room.
pub removal_keeps_owner :
    (limits : Limits) (stamp : Stamp) (s t : RoomState) (user_id : String)
    → IsRecord s.participants
    → IsNamed s.participants
    → erase user_id s.participants ≢ []
    → remove_disconnected_participant limits stamp s user_id ≡ some t
    → (is_some (lookup t.owner_id t.participants) ≡ true)
      × ((k : String)
          → is_some (lookup k t.participants)
            ≡ (if str_eq user_id k then false else is_some (lookup k s.participants)))
      × ((p : Participant) × (lookup user_id s.participants ≡ some p) × (p.connected ≡ false))
      × (t.generation ≡ s.generation + 1)
      × (t.structural_revision ≡ s.structural_revision + 1)
unfolding remove_disconnected_participant bump_room_revisions
removal_keeps_owner limits stamp s t user_id distinct named h e =
    elim (Option-cases (lookup user_id s.participants)) [
      | inl q ↦ absurd (ground arith)
      | inr (p, q) ↦
          let left : RoomState = record s { participants = erase user_id s.participants } in
          let after : RoomState =
            after_transfer left (transfer_ownership_if_needed limits stamp left prune) in
          let (a, b, c, d) =
            owner_after limits stamp left (erase-All user_id s.participants s.participants distinct)
              (erase-IsNamed user_id s.participants named) h in
          let o : t.owner_id ≡ after.owner_id = ground arith in
          let ps : t.participants ≡ after.participants = ground arith in
          (
            rw (o, ps) a,
            λ k. rw (ps, b k) (ground (arith, lookup-erase user_id k s.participants)),
            (p, q, ground arith),
            ground arith,
            ground arith,
          )
    ]
