-- ===== src/Room/Ownership/Choice.antt =====
-- Whom a transfer of src/server/realtime/services/ownership.ts chooses.
use web_sync_play.Prelude.{
  ◌≤◌, ◌≡◌, true, false, none, some, List, arith, All, All-keep, All-keep_self, Option-cases,
  Bool-cases, inl, inr, ◌⊎◌, ltb, keep, length,
}
use web_sync_play.Room.State.{Participants, RoomRole, owner, moderator, guest}
use web_sync_play.Room.Ownership.{
  Entry, pick_next_owner, pick_from, TransferReason, prune, is_connected, is_prune,
  transfer_candidates, choose_next_owner,
}
use web_sync_play.Room.Ownership.Order.{
  key_of, has_role, pick_from-All, pick_from-least, pick_from-none, pick_from-role,
}

pub choose-All :
    (P : Entry → Type 0) (reason : TransferReason) (candidates : List Entry) (e : Entry)
    → All P candidates
    → choose_next_owner reason candidates ≡ some e
    → P e
unfolding choose_next_owner pick_next_owner
choose-All P reason candidates e h q = elim (Option-cases (pick_from moderator none candidates)) [
  | inr (a, m) ↦ let k : a ≡ e = ground arith in rw (← k) (by_role moderator a m)
  | inl m ↦ elim (Option-cases (pick_from guest none candidates)) [
    | inr (a, g) ↦ let k : a ≡ e = ground arith in rw (← k) (by_role guest a g)
    | inl g ↦ elim (Option-cases (pick_from owner none candidates)) [
      | inr (a, o) ↦ let k : a ≡ e = ground arith in rw (← k) (by_role owner a o)
      | inl o ↦ absurd (ground arith)
    ]
  ]
]
  where
    by_role : (role : RoomRole) (a : Entry) → pick_from role none candidates ≡ some a → P a
    by_role role a k =
        pick_from-All P role none candidates (λ b (n : none ≡ some b). absurd (ground arith)) h a k

pub candidates-All :
    (P : Entry → Type 0) (reason : TransferReason) (ps : Participants)
    → All P ps
    → All P (transfer_candidates reason ps)
unfolding transfer_candidates
candidates-All P reason ps h = elim (Bool-cases (ltb 0 (length (keep is_connected ps)))) [
  | inl t ↦ rw t (All-keep P is_connected ps h)
  | inr t ↦ elim (Bool-cases (is_prune reason)) [ inl p ↦ rw (t, p) h | inr p ↦ rw (t, p) tt ]
]

-- The candidates are connected, but for a prune that finds nobody connected.
pub candidates_connected :
    (reason : TransferReason) (ps : Participants)
    → All (λ (e : Entry). e.1.connected ≡ true) (transfer_candidates reason ps) ⊎ (reason ≡ prune)
unfolding transfer_candidates
candidates_connected reason ps = elim (Bool-cases (ltb 0 (length (keep is_connected ps)))) [
  | inl t ↦ inl (rw t (All-keep_self is_connected ps))
  | inr t ↦ elim (Bool-cases (is_prune reason)) [
    | inl p ↦ inr (ground arith)
    | inr p ↦ inl (rw (t, p) tt)
  ]
]

-- Moderators come before guests, and within a role the one who has been there longest; an owner is
-- chosen only by a prune that finds neither.
pub choose_by_seniority :
    (reason : TransferReason) (candidates : List Entry) (e : Entry)
    → choose_next_owner reason candidates ≡ some e
    → ((has_role moderator e ≡ true)
        × All (λ x. has_role moderator x ≡ true → key_of e ≤ key_of x) candidates)
      ⊎ (All (λ x. has_role moderator x ≡ false) candidates
          × (has_role guest e ≡ true)
          × All (λ x. has_role guest x ≡ true → key_of e ≤ key_of x) candidates)
      ⊎ ((reason ≡ prune)
          × All (λ x. has_role moderator x ≡ false) candidates
          × All (λ x. has_role guest x ≡ false) candidates)
unfolding choose_next_owner pick_next_owner
choose_by_seniority reason candidates e q =
    elim (Option-cases (pick_from moderator none candidates)) [
      | inr (a, m) ↦
          let k : pick_from moderator none candidates ≡ some e = ground arith in
          inl (picked moderator k, (pick_from-least moderator none candidates e k).1)
      | inl m ↦ elim (Option-cases (pick_from guest none candidates)) [
        | inr (a, g) ↦
            let k : pick_from guest none candidates ≡ some e = ground arith in
            inr (
              inl (
                (pick_from-none moderator none candidates m).1,
                picked guest k,
                (pick_from-least guest none candidates e k).1,
              ))
        | inl g ↦ inr (
            inr (
              ground arith,
              (pick_from-none moderator none candidates m).1,
              (pick_from-none guest none candidates g).1,
            ))
      ]
    ]
  where
    picked : (role : RoomRole) → pick_from role none candidates ≡ some e → has_role role e ≡ true
    picked role k =
        pick_from-role role none candidates e (λ b (n : none ≡ some b). absurd (ground arith)) k
