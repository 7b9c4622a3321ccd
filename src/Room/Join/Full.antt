-- ===== src/Room/Join/Full.antt =====
-- A join into a room that has as many participants as src/env.ts allows: the limit stands in
-- src/server/repair.ts alone.
use web_sync_play.Prelude.{
  ℕ, ◌≡◌, refl, ◌∙◌, String, true, Option, none, some, [], ◌∷◌, ◌++◌, arith, All, Option-cases,
  lookup-insert, inl, inr, if◌then◌else◌, lookup, insert, lookup-map_values, str_eq, keep, take,
  length, is_some,
}
use web_sync_play.Room.State.{RoomState, Participant, Participants, LocalPlayback, Limits, Stamp}
use web_sync_play.Room.Ownership.{Entry, join}
use web_sync_play.Room.Ownership.Succession.{transfer_declines}
use web_sync_play.Room.Security.{ensure_room_security}
use web_sync_play.Room.Repair.{
  has_key, repair_joined_at, repair_participants, repair_cleanup_and_check_room_state,
}
use web_sync_play.Room.Join.{JoinRequest, join_participant, seat, close_join}
use web_sync_play.Room.Join.Seat.{seated, close_participants, close_seats}

insert_new :
    (k : String) (p : Participant) (ps : Participants)
    → lookup k ps ≡ none
    → insert k p ps ≡ ps ++ (k, p) ∷ []
insert_new k p [] h = refl
insert_new k p ((j, q) ∷ rest) h = ground (arith, insert_new k p rest)

keep_keys :
    (e : Entry) (ps : Participants)
    → All (λ x. has_key x ≡ true) ps
    → keep has_key (ps ++ e ∷ []) ≡ ps ++ keep has_key (e ∷ [])
keep_keys e [] h = refl
keep_keys e (x ∷ rest) (first, all) = rw (first, keep_keys e rest all)

take_prefix : (ps qs : Participants) → take (length ps) (ps ++ qs) ≡ ps
take_prefix [] qs = refl
take_prefix (x ∷ rest) qs = rw (take_prefix rest qs)

full_repair :
    (limits : Limits) (now : ℕ) (k : String) (p : Participant) (ps : Participants)
    → All (λ x. has_key x ≡ true) ps
    → lookup k ps ≡ none
    → limits.room_participants_limit ≡ length ps
    → lookup k (repair_participants limits now (insert k p ps)).0 ≡ none
unfolding repair_participants
full_repair limits now k p ps keys new full = rw (
  insert_new k p ps new,
  keep_keys (k, p) ps keys,
  full,
  take_prefix ps (keep has_key ((k, p) ∷ [])),
  lookup-map_values k (repair_joined_at now) ps,
  new,
)

module _ (limits : Limits) (stamp : Stamp) (req : JoinRequest) (overlay : Option LocalPlayback)
    (s : RoomState) where
  seated_owner :
      is_some (lookup s.owner_id s.participants) ≡ true
      → (p : Participant) × (lookup
            (seated limits stamp req overlay s).owner_id
            (seated limits stamp req overlay s).participants
          ≡ some p)
  unfolding seat
  seated_owner h =
      let joiner : Participant =
        join_participant req stamp.now overlay (ensure_room_security s)
          (lookup req.user_id s.participants) in
      elim (Option-cases (lookup s.owner_id s.participants)) [
        | inl n ↦ absurd (ground arith)
        | inr (p, n) ↦ (
          if str_eq req.user_id s.owner_id then joiner else p,
          ground (arith, lookup-insert req.user_id s.owner_id joiner s.participants),
        )
      ]

  join_inserts :
      is_some (lookup s.owner_id s.participants) ≡ true
      → (close_join limits stamp req overlay s).0.participants
        ≡ insert req.user_id
            (join_participant req stamp.now overlay
              (ensure_room_security s)
              (lookup req.user_id s.participants))
            s.participants
  unfolding seat
  join_inserts present =
      let (p, at) = seated_owner present in
      close_participants limits stamp req overlay s
      ∙ rw (
          transfer_declines limits stamp (seated limits stamp req overlay s) p join at
            (inr (inl refl)))

repair_lookup :
    (limits : Limits) (stamp : Stamp) (s : RoomState) (ps : Participants) (k : String)
    → s.participants ≡ ps
    → lookup k (repair_participants limits stamp.now ps).0 ≡ none
    → lookup k (repair_cleanup_and_check_room_state limits stamp s).0.participants ≡ none
unfolding repair_cleanup_and_check_room_state
repair_lookup limits stamp s ps k e h = rw e h

-- A join into a full room does not last. The room has as many participants as the limit allows, its
-- owner among them, and each has a key that is not empty. Then whoever joins for the first time is
-- let in, but the repair of the next write, at whatever time, takes that user out of the room again.
pub full_room_drops :
    (limits : Limits) (stamp later : Stamp) (req : JoinRequest) (overlay : Option LocalPlayback)
    (s : RoomState)
    → is_some (lookup s.owner_id s.participants) ≡ true
    → All (λ x. has_key x ≡ true) s.participants
    → limits.room_participants_limit ≡ length s.participants
    → lookup req.user_id s.participants ≡ none
    → let t = (close_join limits stamp req overlay s).0 in
      (is_some (lookup req.user_id t.participants) ≡ true)
      × (lookup req.user_id (repair_cleanup_and_check_room_state limits later t).0.participants
          ≡ none)
full_room_drops limits stamp later req overlay s present keys full new =
    let t = (close_join limits stamp req overlay s).0 in
    let joiner : Participant =
      join_participant req stamp.now overlay (ensure_room_security s)
        (lookup req.user_id s.participants) in
    let (seats, _) = close_seats limits stamp req overlay s in
    (
      rw (seats.1),
      repair_lookup limits later t (insert req.user_id joiner s.participants) req.user_id
          (join_inserts limits stamp req overlay s present)
          (full_repair limits later.now req.user_id joiner s.participants keys new full),
    )
