-- ===== src/Room/Ownership/Tests.antt =====
-- The theorems on src/server/realtime/services/ownership.ts, applied to concrete rooms, people and messages.
use web_sync_play.Room.Ownership.{
  guest, Participant, prune, moderator, transfer_ownership_if_needed,
}
use web_sync_play.Prelude.{lookup, or_else, refl, arith, ◌≡◌, ◌⊎◌, true, some, eq_iff}
use web_sync_play.Room.Samples.{small_limits, ownerless, noon}
use web_sync_play.Room.Ownership.Succession.{IsOwned, IsNamed, transfer-IsOwned}

ownerless-IsNamed : IsNamed ownerless.participants
ownerless-IsNamed k p h = ground (arith, eq_iff "ann" k, eq_iff "bob" k, eq_iff "cal" k)

ownerless-IsOwned : IsOwned ownerless.owner_id ownerless.participants
ownerless-IsOwned k p h = ground (arith, eq_iff "ann" k, eq_iff "bob" k, eq_iff "cal" k)

transfer-IsOwned_example :
    IsOwned
      (or_else (transfer_ownership_if_needed small_limits noon ownerless prune) ownerless).owner_id
      (or_else
        (transfer_ownership_if_needed small_limits noon ownerless prune)
        ownerless).participants
    × ((p : Participant) × (lookup
            (or_else
              (transfer_ownership_if_needed small_limits noon ownerless prune)
              ownerless).owner_id
            ownerless.participants
          ≡ some p)
        × ((p.connected ≡ true) ⊎ (prune ≡ prune)))
unfolding transfer_ownership_if_needed web_sync_play.Room.Ownership.choose_next_owner
    web_sync_play.Room.Ownership.pick_next_owner web_sync_play.Room.Ownership.pick_from
    web_sync_play.Room.Ownership.transfer_candidates
transfer-IsOwned_example =
    transfer-IsOwned small_limits noon ownerless
      (or_else (transfer_ownership_if_needed small_limits noon ownerless prune) ownerless) prune
      (refl, (refl, (refl, tt))) (ownerless-IsNamed) (ownerless-IsOwned) refl
