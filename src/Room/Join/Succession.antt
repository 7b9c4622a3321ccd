-- ===== src/Room/Join/Succession.antt =====
-- Who owns a room after a join: src/server/realtime/handlers/join/commit-membership.ts with
-- src/server/realtime/services/ownership.ts.
use web_sync_play.Prelude.{
  ap, nil-cases, ◌≡◌, refl, ◌∙◌, subst, inl, inr, String, Bool, true, false, Option, none, some,
  List, [], ◌∷◌, arith, All, Bool-cases, Option-cases, if◌then◌else◌, lookup, insert, lookup-insert,
  str_eq, eq_iff, eq_refl, is_some, keep,
}
use web_sync_play.Room.State.{
  RoomState, moderator, guest, join_moderator, join_guest, DefaultJoinRole, Participant,
  Participants, LocalPlayback, Limits, Stamp, is_owner_role,
}
use web_sync_play.Room.Ownership.{
  Entry, join, is_connected, transfer_candidates, choose_next_owner, pick_next_owner, pick_from,
  transfer_ownership_if_needed,
}
use web_sync_play.Room.Ownership.Order.{has_role, pick_from-none}
use web_sync_play.Room.Ownership.Succession.{
  IsRecord, IsNamed, IsOwned, transfer_keeps, transfer-IsOwned,
}
use web_sync_play.Room.Security.{ensure_room_security}
use web_sync_play.Room.Handlers.Members.{role_of}
use web_sync_play.Room.Join.{JoinRequest, join_participant, seat, close_join}
use web_sync_play.Room.Join.Seat.{seated, owned, close_participants, close_owner}

tail :
    (P : Entry → Type 0) (f : Entry → Bool) (e : Entry) (rest : List Entry)
    → All P (keep f (e ∷ rest))
    → All P (keep f rest)
tail P f e rest h = elim (Bool-cases (f e)) [ inl t ↦ (rw t at h).1 | inr n ↦ rw n at h ]

-- What holds of everything that a filter leaves holds of an entry that passes it.
keep_lookup :
    (P : Entry → Type 0) (f : Entry → Bool) (ps : Participants) (k : String) (p : Participant)
    → All P (keep f ps)
    → lookup k ps ≡ some p
    → f (k, p) ≡ true
    → P (k, p)
keep_lookup P f [] k p h e t = absurd (ground arith)
keep_lookup P f ((j, q) ∷ rest) k p h e t = elim (Bool-cases (str_eq j k)) [
  | inl same ↦
      let x : (j, q) ≡ (k, p) = ground (arith, eq_iff j k) in
      let kept : All P ((j, q) ∷ keep f rest) =
        subst (λ (b : Bool). All P (if b then (j, q) ∷ keep f rest else keep f rest)) (ap f x ∙ t)
          h in
      subst P x kept.0
  | inr other ↦ keep_lookup P f rest k p (tail P f (j, q) rest h) (ground arith) t
]

-- Nobody is chosen only if nobody connected is a moderator or a guest.
choose_some :
    (ps : Participants) (k : String) (p : Participant)
    → lookup k ps ≡ some p
    → p.connected ≡ true
    → is_owner_role p.role ≡ false
    → choose_next_owner join (transfer_candidates join ps) ≡ none
    → ⊥
unfolding choose_next_owner pick_next_owner transfer_candidates
choose_some ps k p at here not_owner q = elim (nil-cases (keep is_connected ps)) [
  | inl e ↦ keep_lookup (λ x. ⊥) is_connected ps k p (rw e tt) at here
  | inr (x, rest, e) ↦ elim (Option-cases (pick_from moderator none (keep is_connected ps))) [
    | inr (a, m) ↦ ground arith
    | inl m ↦ elim (Option-cases (pick_from guest none (keep is_connected ps))) [
      | inr (a, g) ↦ ground arith
      | inl g ↦ ground (
        arith,
        keep_lookup (λ x. has_role moderator x ≡ false) is_connected ps k p
            (pick_from-none moderator none (keep is_connected ps) m).1 at here,
        keep_lookup (λ x. has_role guest x ≡ false) is_connected ps k p
            (pick_from-none guest none (keep is_connected ps) g).1 at here,
      )
    ]
  ]
]

-- The keys of a JavaScript record are different.
abbrev pub IsDistinct : Participants → Type 0
IsDistinct [] = Unit
IsDistinct ((j, p) ∷ rest) = (lookup j rest ≡ none) × IsDistinct rest

lookup-below :
    (j : String) (p : Participant) (rest xs : Participants)
    → lookup j rest ≡ none
    → All (λ (e : Entry). lookup e.0 rest ≡ some e.1) xs
    → All (λ (e : Entry). lookup e.0 ((j, p) ∷ rest) ≡ some e.1) xs
lookup-below j p rest [] h all = tt
lookup-below j p rest ((k, q) ∷ xs) h (first, all) =
    (ground (arith, eq_iff j k), lookup-below j p rest xs h all)

IsDistinct-IsRecord : (ps : Participants) → IsDistinct ps → IsRecord ps
IsDistinct-IsRecord [] d = tt
IsDistinct-IsRecord ((j, p) ∷ rest) (new, d) =
    (ground (arith, eq_iff j j), lookup-below j p rest rest new (IsDistinct-IsRecord rest d))

insert-IsDistinct :
    (k : String) (p : Participant) (ps : Participants) → IsDistinct ps → IsDistinct (insert k p ps)
insert-IsDistinct k p [] d = (refl, tt)
insert-IsDistinct k p ((j, q) ∷ rest) (new, d) = elim (Bool-cases (str_eq j k)) [
  | inl same ↦ rw same (new, d)
  | inr other ↦ rw other (
    ground (arith, lookup-insert k j p rest, eq_iff j k, eq_iff k j),
    insert-IsDistinct k p rest d,
  )
]

-- A role that is given on joining is not the owner's.
given_role : (role : DefaultJoinRole) → is_owner_role (role_of role) ≡ false
given_role join_moderator = refl
given_role join_guest = refl

module _ (limits : Limits) (stamp : Stamp) (req : JoinRequest) (overlay : Option LocalPlayback)
    (s : RoomState) (distinct : IsDistinct s.participants) (named : IsNamed s.participants)
    (roles : IsOwned s.owner_id s.participants) where
  abbrev before : RoomState
  before = seated limits stamp req overlay s

  abbrev joiner : Participant
  joiner =
      join_participant req stamp.now overlay (ensure_room_security s)
        (lookup req.user_id s.participants)

  seated_at :
      (k : String)
      → lookup k before.participants
        ≡ (if str_eq req.user_id k then some joiner else lookup k s.participants)
  unfolding seat
  seated_at k = lookup-insert req.user_id k joiner s.participants

  seated_owner : before.owner_id ≡ s.owner_id
  unfolding seat ensure_room_security
  seated_owner = refl

  seated-IsDistinct : IsDistinct before.participants
  unfolding seat
  seated-IsDistinct = insert-IsDistinct req.user_id joiner s.participants distinct

  joiner_role : is_owner_role joiner.role ≡ str_eq s.owner_id req.user_id
  unfolding join_participant ensure_room_security
  joiner_role = elim (Option-cases (lookup req.user_id s.participants)) [
    | inl e ↦ ground (
      arith,
      given_role s.room_security.default_join_role,
      given_role (ensure_room_security s).room_security.default_join_role,
    )
    | inr (p, e) ↦ ground (arith, roles req.user_id p e)
  ]

  joiner_id : (joiner.user_id ≡ req.user_id) × (joiner.connected ≡ true)
  unfolding join_participant
  joiner_id = ground arith

  seated-IsNamed : IsNamed before.participants
  seated-IsNamed k p e = ground (arith, seated_at k, eq_iff req.user_id k, named k p, joiner_id)

  seated-IsOwned : IsOwned before.owner_id before.participants
  seated-IsOwned k p e =
      ground (arith, seated_owner, seated_at k, eq_iff req.user_id k, roles k p, joiner_role)

  joiner_at : lookup req.user_id before.participants ≡ some joiner
  joiner_at = rw (seated_at req.user_id, eq_refl)

  -- The joiner is not an owner who is not there.
  gone : lookup before.owner_id before.participants ≡ none → str_eq s.owner_id req.user_id ≡ false
  gone q = ground (
    arith,
    eq_iff s.owner_id req.user_id,
    joiner_at,
    seated_owner,
    eq_iff before.owner_id req.user_id,
  )

  -- Without a transfer the owner is there already.
  stays_owned :
      transfer_ownership_if_needed limits stamp before join ≡ none
      → is_some (lookup before.owner_id before.participants) ≡ true
  unfolding transfer_ownership_if_needed
  stays_owned e = elim (Option-cases (lookup before.owner_id before.participants)) [
    | inr (p, q) ↦ rw q
    | inl q ↦
        elim (Option-cases
          (choose_next_owner join (transfer_candidates join before.participants))) [
            | inr (x, n) ↦ ground arith
            | inl n ↦ absurd (
                choose_some before.participants req.user_id joiner joiner_at joiner_id.1
                  (joiner_role ∙ gone q) n)
          ]
  ]

  after_join :
      IsOwned
        (owned limits stamp req overlay s).owner_id
        (owned limits stamp req overlay s).participants
      × (is_some (
            lookup
              (owned limits stamp req overlay s).owner_id
              (owned limits stamp req overlay s).participants)
          ≡ true)
  after_join = elim (Option-cases (transfer_ownership_if_needed limits stamp before join)) [
    | inl q ↦ rw q (seated-IsOwned, stays_owned q)
    | inr (t, q) ↦
        let distinct' = IsDistinct-IsRecord before.participants seated-IsDistinct in
        rw q (
          (transfer-IsOwned limits stamp before t join distinct' seated-IsNamed seated-IsOwned q).0,
          (transfer_keeps limits stamp before t join distinct' seated-IsNamed q).0,
        )
  ]

-- A join leaves a room with an owner. In a room whose participants stand once each under their own
-- ids, and where nobody but the owner, who may have left, holds the owner's role, the owner that the
-- room names after the repaired and reconciled room took the user in is one of its participants and
-- holds that role, and nobody else does.
pub join_keeps_owner :
    (limits : Limits) (stamp : Stamp) (req : JoinRequest) (overlay : Option LocalPlayback)
    (s : RoomState)
    → IsDistinct s.participants
    → IsNamed s.participants
    → IsOwned s.owner_id s.participants
    → let t = (close_join limits stamp req overlay s).0 in
      IsOwned t.owner_id t.participants × (is_some (lookup t.owner_id t.participants) ≡ true)
join_keeps_owner limits stamp req overlay s distinct named roles =
    rw (close_owner limits stamp req overlay s, close_participants limits stamp req overlay s)
      (after_join limits stamp req overlay s distinct named roles)
