-- ===== src/Room/Join/Seat.antt =====
-- What a join leaves of the room: src/server/realtime/handlers/join/commit-membership.ts.
use web_sync_play.Prelude.{
  ℕ, ◌+◌, ◌≡◌, refl, subst, ◌∙◌, ◌⊎◌, inl, inr, String, Bool, true, false, Option, none, some, List,
  arith, Bool-cases, Option-cases, if◌then◌else◌, lookup, modify, lookup-insert, lookup-modify,
  str_eq, eq_refl,
}
use web_sync_play.Room.State.{
  RoomState, RoomRole, owner, guest, Participant, Participants, LocalPlayback, Limits, Stamp,
}
use web_sync_play.Room.Timeline.{mark_current_media, bump_room_revisions}
use web_sync_play.Room.ActionLog.{append_action_log}
use web_sync_play.Room.Ownership.{
  Entry, TransferReason, join, with_role, hand_over_roles, transfer_ownership_if_needed,
  needs_transfer, choose_next_owner, transfer_candidates,
}
use web_sync_play.Room.Participants.{after_transfer, reconcile_participants_connectivity}
use web_sync_play.Room.Security.{
  Crypto, evaluate_join_admission, ensure_room_security, normalize_room_security,
}
use web_sync_play.Room.Repair.{
  repair_cleanup_and_check_room_state, repair_playlist_state, sanitize_playback,
}
use web_sync_play.UrlSafety.{Net}
use web_sync_play.Room.Join.{
  JoinRequest, JoinCommit, refused, joined, is_allowed, join_participant, seat, close_join,
  join_commit, commit_join_membership, should_append_participant_joined_log,
}
use web_sync_play.Room.Creation.{DailyDefault}

modify_role :
    (ps : Participants) (j k : String) (role : RoomRole) (p : Participant)
    → lookup k ps ≡ some p
    → (r : RoomRole) × (lookup k (modify j (with_role role) ps) ≡ some (with_role r p))
modify_role ps j k role p h = elim (Bool-cases (str_eq j k)) [
  | inl t ↦ (role, rw (lookup-modify j k (with_role role) ps, t, h))
  | inr f ↦ (p.role, rw (lookup-modify j k (with_role role) ps, f, h))
]

-- A hand-over changes roles alone.
hand_over_roles_only :
    (ps : Participants) (previous : String) (next : Entry) (k : String) (p : Participant)
    → lookup k ps ≡ some p
    → (r : RoomRole) × (lookup k (hand_over_roles previous next ps) ≡ some (with_role r p))
unfolding hand_over_roles
hand_over_roles_only ps previous next k p h =
    let granted : Participants = modify next.0 (with_role owner) ps in
    let (r, q) = modify_role ps next.0 k owner p h in
    elim (Option-cases (lookup previous granted)) [
      | inl n ↦ (r, ground (arith, q))
      | inr (old, n) ↦ elim (Bool-cases (str_eq old.user_id next.1.user_id)) [
        | inl same ↦ (r, ground (arith, q))
        | inr other ↦
            let (r', q') = modify_role granted previous k guest (with_role r p) q in
            (r', ground (arith, q'))
      ]
    ]

-- So does a transfer, to the participants.
transfer_roles_only :
    (limits : Limits) (stamp : Stamp) (s : RoomState) (reason : TransferReason) (k : String)
    (p : Participant)
    → lookup k s.participants ≡ some p
    → (r : RoomRole) × (lookup k
          (after_transfer s (transfer_ownership_if_needed limits stamp s reason)).participants
        ≡ some (with_role r p))
unfolding transfer_ownership_if_needed append_action_log
transfer_roles_only limits stamp s reason k p h =
    elim (Bool-cases (needs_transfer reason (lookup s.owner_id s.participants))) [
      | inl t ↦
          elim (Option-cases
            (choose_next_owner reason (transfer_candidates reason s.participants))) [
              | inl n ↦ (p.role, rw (t, n) h)
              | inr (e, n) ↦
                  let (r, q) = hand_over_roles_only s.participants s.owner_id e k p h in
                  (r, rw (t, n) q)
            ]
      | inr f ↦ (p.role, rw f h)
    ]

-- The numbers and the owner that a join leaves alone.
abbrev pub IsCounted : Bool → RoomState → RoomState → Type 0
IsCounted pure s t =
    (t.room_id ≡ s.room_id)
    × (t.generation ≡ s.generation + (if pure then 0 else 1))
    × (t.structural_revision ≡ s.structural_revision + (if pure then 0 else 1))
    × (t.playback.server_now_ms ≡ s.playback.server_now_ms)
    × (t.room_security.admission_version ≡ s.room_security.admission_version)

counts_trans :
    (pure : Bool) (s t u : RoomState) → IsCounted true s t → IsCounted pure t u → IsCounted pure s u
counts_trans pure s t u (a, b, c, d, e) (a', b', c', d', e') =
    (a' ∙ a, ground arith, ground arith, d' ∙ d, e' ∙ e)

transfer_counts :
    (limits : Limits) (stamp : Stamp) (s : RoomState) (reason : TransferReason)
    → IsCounted true s (after_transfer s (transfer_ownership_if_needed limits stamp s reason))
unfolding transfer_ownership_if_needed append_action_log
transfer_counts limits stamp s reason =
    (ground arith, ground arith, ground arith, ground arith, ground arith)

-- A participant who is there now, by the clock `now`.
abbrev pub IsPresent : String → ℕ → Participant → Type 0
IsPresent user_id now p =
    (p.user_id ≡ user_id)
    × (p.connected ≡ true)
    × (p.connected_at ≡ some now)
    × (p.last_seen_at ≡ some now)
    × (p.disconnected_at ≡ none)

pub joiner-IsPresent :
    (req : JoinRequest) (now : ℕ) (overlay : Option LocalPlayback) (s : RoomState)
    (existing : Option Participant)
    → IsPresent req.user_id now (join_participant req now overlay s existing)
unfolding join_participant
joiner-IsPresent req now overlay s none = (refl, refl, refl, refl, refl)
joiner-IsPresent req now overlay s (some p) = (refl, refl, refl, refl, refl)

module _ (limits : Limits) (stamp : Stamp) (req : JoinRequest) (overlay : Option LocalPlayback)
    (s : RoomState) where
  abbrev pub existing : Option Participant
  existing = lookup req.user_id s.participants

  abbrev pub seated : RoomState
  seated = seat req stamp.now overlay s existing

  abbrev pub owned : RoomState
  owned = after_transfer seated (transfer_ownership_if_needed limits stamp seated join)

  seated_counts : IsCounted true s seated
  unfolding seat ensure_room_security normalize_room_security
  seated_counts = (refl, ground arith, ground arith, refl, ground arith)

  seated_at :
      lookup req.user_id seated.participants
      ≡ some (join_participant req stamp.now overlay (ensure_room_security s) existing)
  unfolding seat
  seated_at = rw (
    lookup-insert req.user_id req.user_id
        (join_participant req stamp.now overlay (ensure_room_security s) existing) s.participants,
    eq_refl,
  )

  pub close_participants :
      (close_join limits stamp req overlay s).0.participants ≡ owned.participants
  unfolding close_join append_action_log mark_current_media bump_room_revisions
  close_participants = ground arith

  pub close_owner : (close_join limits stamp req overlay s).0.owner_id ≡ owned.owner_id
  unfolding close_join append_action_log mark_current_media bump_room_revisions
  close_owner = ground arith

  close_counts :
      IsCounted
        (close_join limits stamp req overlay s).1
        owned
        (close_join limits stamp req overlay s).0
  unfolding close_join append_action_log mark_current_media bump_room_revisions
  close_counts = (ground arith, ground arith, ground arith, ground arith, ground arith)

  close_tracked :
      (close_join limits stamp req overlay s).1 ≡ true → req.is_presence_already_tracked ≡ true
  unfolding close_join should_append_participant_joined_log
  close_tracked h = ground arith

  pub close_seats :
      let (t, pure) = close_join limits stamp req overlay s in
      ((p : Participant) × (lookup req.user_id t.participants ≡ some p)
        × IsPresent req.user_id stamp.now p)
      × IsCounted pure s t
  close_seats =
      let (t, pure) = close_join limits stamp req overlay s in
      let p : Participant =
        join_participant req stamp.now overlay (ensure_room_security s) existing in
      let (r, q) = transfer_roles_only limits stamp seated join req.user_id p seated_at in
      (
        (
          with_role r p,
          rw close_participants q,
          joiner-IsPresent req stamp.now overlay (ensure_room_security s) existing,
        ),
        counts_trans pure s seated t seated_counts (
            counts_trans pure seated owned t (transfer_counts limits stamp seated join)
              close_counts),
      )

-- The repair and the reconciliation do not count as writes.
pub repair_counts :
    (limits : Limits) (stamp : Stamp) (s : RoomState) (active : List String)
    → IsCounted true s
        (reconcile_participants_connectivity
          (repair_cleanup_and_check_room_state limits stamp s).0
          active
          stamp.now).state
unfolding repair_cleanup_and_check_room_state repair_playlist_state sanitize_playback
    normalize_room_security reconcile_participants_connectivity
repair_counts limits stamp s active =
    (ground arith, ground arith, ground arith, ground arith, ground arith)

-- A request to join a room that exists is refused, with the reason, exactly if the password does not
-- admit it, and then nothing is written. Otherwise the room is written with the user in it: connected
-- since now, and under the user's id. The generation and the structural revision rise by one each,
-- but not for a pure reconnect, which only a connection whose presence is tracked
-- can be; the room's id, its playback clock and its admission version stay.
pub join_seats :
    (crypto : Crypto) (limits : Limits) (stamp : Stamp) (net : Net) (defaults : List DailyDefault)
    (active : List String) (overlay : Option LocalPlayback) (req : JoinRequest) (s : RoomState)
    → let outcome =
        commit_join_membership crypto limits stamp net defaults active overlay req (some s) in
      let admission = evaluate_join_admission crypto (some s) req.password in
      ((is_allowed admission ≡ false) × (outcome ≡ refused admission))
      ⊎ ((is_allowed admission ≡ true)
          × ((c : JoinCommit) × (outcome ≡ joined c)
              × ((p : Participant) × (lookup req.user_id c.state.participants ≡ some p)
                  × IsPresent req.user_id stamp.now p)
              × IsCounted c.pure_reconnect s c.state
              × (c.pure_reconnect ≡ true → req.is_presence_already_tracked ≡ true)))
unfolding commit_join_membership join_commit
join_seats crypto limits stamp net defaults active overlay req s =
    let recon =
      reconcile_participants_connectivity (repair_cleanup_and_check_room_state limits stamp s).0
        active stamp.now in
    let (seats, counts) = close_seats limits stamp req overlay recon.state in
    elim (Bool-cases (is_allowed (evaluate_join_admission crypto (some s) req.password))) [
      | inl t ↦ inr (
        t,
        (
          join_commit limits stamp active overlay req s,
          rw t,
          seats,
          counts_trans (close_join limits stamp req overlay recon.state).1 s recon.state
              (close_join limits stamp req overlay recon.state).0
              (repair_counts limits stamp s active) counts,
          close_tracked limits stamp req overlay recon.state,
        ),
      )
      | inr f ↦ inl (f, rw f)
    ]

pub joined_counts :
    (crypto : Crypto) (limits : Limits) (stamp : Stamp) (net : Net) (defaults : List DailyDefault)
    (active : List String) (overlay : Option LocalPlayback) (req : JoinRequest) (s : RoomState)
    (c : JoinCommit)
    → commit_join_membership crypto limits stamp net defaults active overlay req (some s) ≡ joined c
    → IsCounted c.pure_reconnect s c.state
joined_counts crypto limits stamp net defaults active overlay req s c e =
    elim (join_seats crypto limits stamp net defaults active overlay req s) [
      | inl (f, q) ↦ absurd (ground arith)
      | inr (t, (d, q, seats, counts, tracked)) ↦
          let same : d ≡ c = ground arith in
          subst (λ x. IsCounted x.pure_reconnect s x.state) same counts
    ]
