-- ===== src/Room/Sweep/Quiet.antt =====
-- A sweep of a room in order: src/server/realtime/services/cleanup.ts.
use web_sync_play.Prelude.{
  ℕ, ◌≡◌, ◌<◌, refl, String, true, false, none, some, List, [], ◌∷◌, arith, All, is_empty, length,
  lookup, map_values, ◌==◌,
}
use web_sync_play.Room.State.{RoomState, Participant, Limits, Stamp}
use web_sync_play.Room.Ownership.{Entry, transfer_ownership_if_needed}
use web_sync_play.Room.Participants.{
  is_active, reconcile_participant, reconcile_participants_connectivity, disconnecting_ids,
  reconnecting_ids,
}
use web_sync_play.Room.Repair.{is_joined, has_key}
use web_sync_play.Room.Repair.Sound.{IsSound}
use web_sync_play.Room.Repair.Settled.{repair_settled}
use web_sync_play.Room.Sweep.{sweep_write}

-- Who is connected is who has a socket.
abbrev pub IsCurrent : List String → List Entry → Type 0
IsCurrent active ps = All (λ (e : Entry). e.1.connected ≡ is_active active e.1.user_id) ps

reconcile_settled :
    (active : List String) (now : ℕ) (ps : List Entry)
    → IsCurrent active ps
    → All (λ (e : Entry). (has_key e ≡ true) × (is_joined e.1 ≡ true)) ps
    → (map_values (reconcile_participant active now) ps ≡ ps)
      × (disconnecting_ids active ps ≡ [])
      × (reconnecting_ids active ps ≡ [])
unfolding reconcile_participant disconnecting_ids reconnecting_ids
reconcile_settled active now [] current joined = (refl, refl, refl)
reconcile_settled active now ((k, p) ∷ rest) (c, current) (j, joined) =
    let (same, gone, back) = reconcile_settled active now rest current joined in
    (ground arith, ground arith, ground arith)

-- A sweep leaves a room in order alone: a sound room with an id and a playlist, whose participants are
-- marked connected exactly if they have a socket, and whose owner is one of them and connected, is not
-- written, and the sweep finds nobody who came or left.
pub sweep_settled :
    (limits : Limits) (stamp : Stamp) (active : List String) (s : RoomState) (p : Participant)
    → IsSound limits stamp.now s
    → is_empty s.room_id ≡ false
    → 0 < length s.playlist
    → IsCurrent active s.participants
    → lookup s.owner_id s.participants ≡ some p
    → p.connected ≡ true
    → let swept = sweep_write limits stamp active s in
      (swept.state ≡ none) × (swept.disconnecting ≡ []) × (swept.reconnecting ≡ [])
unfolding sweep_write reconcile_participants_connectivity transfer_ownership_if_needed
sweep_settled limits stamp active s p v id listed current owned here =
    let (same, gone, back) = reconcile_settled active stamp.now s.participants current v.people in
    let full : (length s.playlist == 0) ≡ false = ground arith in
    rw (repair_settled limits stamp s v id, same, gone, back, full, owned, here) (refl, refl, refl)
