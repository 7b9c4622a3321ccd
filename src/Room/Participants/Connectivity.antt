-- ===== src/Room/Participants/Connectivity.antt =====
-- What `reconcileParticipantsConnectivity` of src/server/realtime/services/participants.ts leaves.
use web_sync_play.Prelude.{
  ℕ, ◌≡◌, refl, String, some, List, [], ◌∷◌, arith, lookup, map_values, lookup-map_values,
}
use web_sync_play.Room.State.{RoomState, Participant}
use web_sync_play.Room.Ownership.{Entry}
use web_sync_play.Room.Participants.{
  is_active, reconcile_participant, disconnecting_ids, reconnecting_ids,
  reconcile_participants_connectivity,
}

reconcile_one :
    (active : List String) (now : ℕ) (p : Participant)
    → let q = reconcile_participant active now p in
      (q.connected ≡ is_active active p.user_id) × (q.user_id ≡ p.user_id) × (q.role ≡ p.role)
unfolding reconcile_participant
reconcile_one active now p = ground arith

disconnecting_settled :
    (active : List String) (now : ℕ) (ps : List Entry)
    → disconnecting_ids active (map_values (reconcile_participant active now) ps) ≡ []
unfolding disconnecting_ids
disconnecting_settled active now [] = refl
disconnecting_settled active now ((k, p) ∷ ps) =
    ground (arith, reconcile_one active now p, disconnecting_settled active now ps)

reconnecting_settled :
    (active : List String) (now : ℕ) (ps : List Entry)
    → reconnecting_ids active (map_values (reconcile_participant active now) ps) ≡ []
unfolding reconnecting_ids
reconnecting_settled active now [] = refl
reconnecting_settled active now ((k, p) ∷ ps) =
    ground (arith, reconcile_one active now p, reconnecting_settled active now ps)

-- After a reconciliation a participant of the room is connected exactly if the user has a live socket,
-- under the role and the id of before, and a second one with the same sockets finds nobody to change.
pub reconcile_agrees :
    (s : RoomState) (active : List String) (now later : ℕ) (k : String) (p : Participant)
    → lookup k s.participants ≡ some p
    → let r = reconcile_participants_connectivity s active now in
      ((q : Participant) × (lookup k r.state.participants ≡ some q)
        × (q.connected ≡ is_active active p.user_id)
        × (q.user_id ≡ p.user_id)
        × (q.role ≡ p.role))
      × ((reconcile_participants_connectivity r.state active later).disconnecting ≡ [])
      × ((reconcile_participants_connectivity r.state active later).reconnecting ≡ [])
unfolding reconcile_participants_connectivity
reconcile_agrees s active now later k p h =
    let (a, b, c) = reconcile_one active now p in
    (
      (
        reconcile_participant active now p,
        ground (arith, lookup-map_values k (reconcile_participant active now) s.participants),
        a,
        b,
        c,
      ),
      disconnecting_settled active now s.participants,
      reconnecting_settled active now s.participants,
    )
