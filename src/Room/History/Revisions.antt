-- ===== src/Room/History/Revisions.antt =====
-- What the writes of a room's life do to its revisions and its clock.
use web_sync_play.Prelude.{
  Bool, true, false, if◌then◌else◌, nil-cases, erase, ℕ, ◌+◌, ◌≤◌, ◌≡◌, refl, String, some, List,
  arith, Option-cases, Bool-cases, inl, inr, lookup,
}
use web_sync_play.Room.State.{RoomState, Limits, Stamp}
use web_sync_play.Room.Timeline.{bump_room_revisions, next_monotonic_ms}
use web_sync_play.Room.ActionLog.{append_action_log}
use web_sync_play.Room.Security.{Crypto}
use web_sync_play.Room.Ownership.{
  transfer_ownership_if_needed, TransferReason, prune, cleanup, needs_transfer, choose_next_owner,
  transfer_candidates,
}
use web_sync_play.Room.Offline.{
  disconnect_write, apply_user_went_offline, invalidate_local_media_for_owner,
}
use web_sync_play.Room.Participants.{
  remove_disconnected_participant, prune_by_disconnected_at, prune_offline_participants,
  after_transfer, reconcile_participants_connectivity,
}
use web_sync_play.Room.Sweep.{sweep_write}
use web_sync_play.Room.Repair.{repair_cleanup_and_check_room_state}
use web_sync_play.Room.Handlers.Authority.{message_moves}
use web_sync_play.Room.Join.Seat.{IsCounted, joined_counts, repair_counts}
use web_sync_play.Room.History.{
  Step, message, disconnects, pruned, all_pruned, joins, sweeps, Reaches, stays, writes, reconnects,
}

-- A write that counts: the same room, one generation up, nothing else back.
abbrev pub IsWrite : ℕ → RoomState → RoomState → Type 0
IsWrite n s t =
    (t.room_id ≡ s.room_id)
    × (t.generation ≡ s.generation + n)
    × (s.structural_revision ≤ t.structural_revision)
    × (s.playback.server_now_ms ≤ t.playback.server_now_ms)
    × (s.room_security.admission_version ≤ t.room_security.admission_version)

transfer-IsWrite :
    (limits : Limits) (stamp : Stamp) (s : RoomState) (reason : TransferReason)
    → IsWrite 0 s (after_transfer s (transfer_ownership_if_needed limits stamp s reason))
unfolding transfer_ownership_if_needed append_action_log
transfer-IsWrite limits stamp s reason =
    elim (Bool-cases (needs_transfer reason (lookup s.owner_id s.participants))) [
      | inl t ↦
          elim (Option-cases
            (choose_next_owner reason (transfer_candidates reason s.participants))) [
              | inl n ↦ ground arith
              | inr (e, n) ↦ ground arith
            ]
      | inr f ↦ ground arith
    ]

offline-IsWrite :
    (limits : Limits) (stamp : Stamp) (s : RoomState) (user_id : String)
    → IsWrite 0 s (apply_user_went_offline limits stamp s user_id).0
unfolding apply_user_went_offline invalidate_local_media_for_owner append_action_log
    next_monotonic_ms
offline-IsWrite limits stamp s user_id = elim (Option-cases (lookup user_id s.participants)) [
  | inl n ↦ ground arith
  | inr (p, n) ↦ ground arith
]

disconnect-IsWrite :
    (limits : Limits) (stamp : Stamp) (active : List String) (user_id : String) (s t : RoomState)
    → disconnect_write limits stamp active user_id s ≡ some t
    → IsWrite 1 s t
unfolding disconnect_write bump_room_revisions
disconnect-IsWrite limits stamp active user_id s t e =
    ground (arith, offline-IsWrite limits stamp s user_id)

removed-IsWrite :
    (limits : Limits) (stamp : Stamp) (user_id : String) (s t : RoomState)
    → remove_disconnected_participant limits stamp s user_id ≡ some t
    → IsWrite 1 s t
unfolding remove_disconnected_participant bump_room_revisions
removed-IsWrite limits stamp user_id s t e =
    let left = record s { participants = erase user_id s.participants } in
    elim (Option-cases (lookup user_id s.participants)) [
      | inl n ↦ ground arith
      | inr (p, n) ↦ ground (arith, transfer-IsWrite limits stamp left prune)
    ]

all_removed-IsWrite :
    (limits : Limits) (stamp : Stamp) (removed : List String) (s t : RoomState)
    → prune_by_disconnected_at limits stamp s ≡ some (t, removed)
    → IsWrite 1 s t
unfolding prune_by_disconnected_at bump_room_revisions prune_offline_participants
all_removed-IsWrite limits stamp removed s t e =
    let left = (prune_offline_participants s stamp.now).0 in
    elim (nil-cases (prune_offline_participants s stamp.now).1) [
      | inl n ↦ ground arith
      | inr (k, ks, n) ↦ ground (arith, transfer-IsWrite limits stamp left prune)
    ]

counted-IsWrite :
    (n : ℕ) (pure b : Bool) (s t : RoomState)
    → pure ≡ b
    → n ≡ (if b then 0 else 1)
    → IsCounted pure s t
    → IsWrite n s t
counted-IsWrite n pure b s t e k (room, g, r, clock, version) =
    (room, ground arith, ground arith, omega arith, omega arith)

sweep-IsWrite :
    (limits : Limits) (stamp : Stamp) (active : List String) (s t : RoomState)
    → (sweep_write limits stamp active s).state ≡ some t
    → IsWrite 1 s t
unfolding sweep_write bump_room_revisions
sweep-IsWrite limits stamp active s t e =
    let (repaired, findings) = repair_cleanup_and_check_room_state limits stamp s in
    let recon = reconcile_participants_connectivity repaired active stamp.now in
    ground (
      arith,
      counted-IsWrite 0 true true s recon.state refl refl (repair_counts limits stamp s active),
      transfer-IsWrite limits stamp recon.state cleanup,
    )

Step-IsWrite :
    (crypto : Crypto) (limits : Limits) (s t : RoomState) → Step crypto limits s t → IsWrite 1 s t
Step-IsWrite crypto limits _ _ (message stamp active ctx m s c e) =
    ground (arith, message_moves crypto limits stamp active ctx m s c e)
Step-IsWrite crypto limits _ _ (disconnects stamp active user_id s t e) =
    disconnect-IsWrite limits stamp active user_id s t e
Step-IsWrite crypto limits _ _ (pruned stamp user_id s t e) =
    removed-IsWrite limits stamp user_id s t e
Step-IsWrite crypto limits _ _ (all_pruned stamp removed s t e) =
    all_removed-IsWrite limits stamp removed s t e
Step-IsWrite crypto limits _ _ (joins stamp net defaults active overlay req s c e pure) =
    counted-IsWrite 1 c.pure_reconnect false s c.state pure refl
      (joined_counts crypto limits stamp net defaults active overlay req s c e)
Step-IsWrite crypto limits _ _ (sweeps stamp active s t e) = sweep-IsWrite limits stamp active s t e

-- The generation counts the writes of a room: after any `n` messages, disconnects, prunes, joins and sweeps,
-- in any order and by any senders, and any pure reconnects between them, it is the same room, its
-- generation is `n` higher, and neither the structural revision, nor the playback clock, nor the
-- admission version has moved back.
pub Reaches-IsWrite :
    (crypto : Crypto) (limits : Limits) (n : ℕ) (s t : RoomState)
    → Reaches crypto limits n s t
    → IsWrite n s t
Reaches-IsWrite crypto limits _ _ _ (stays s) =
    (refl, ground arith, ground arith, ground arith, ground arith)
Reaches-IsWrite crypto limits _ _ _ (writes n s t u step rest) =
    ground (arith, Step-IsWrite crypto limits s t step, Reaches-IsWrite crypto limits n t u rest)
Reaches-IsWrite crypto limits n _ _
      (reconnects _ stamp net defaults active overlay req s u c e pure rest) =
    ground (
      arith,
      counted-IsWrite 0 c.pure_reconnect true s c.state pure refl
          (joined_counts crypto limits stamp net defaults active overlay req s c e),
      Reaches-IsWrite crypto limits n c.state u rest,
    )
