-- ===== src/Store/Messages.antt =====
-- A message through the store: src/server/realtime/handlers over `updateRoom` of
-- src/server/redis/state-store.ts.
use web_sync_play.Prelude.{
  refl, ℕ, ◌+◌, ◌≤◌, ◌<◌, ◌≡◌, Option, none, some, List, String, All, arith, subst, ap,
  if◌then◌else◌,
}
use web_sync_play.Room.State.{RoomState, Limits, Stamp}
use web_sync_play.Room.Mutate.{
  Attempt, write, Commit, MessageContext, bumps_structural_revision, mutate_room_message,
  mutate_once,
}
use web_sync_play.Room.Security.{Crypto}
use web_sync_play.Room.Handlers.{RoomMessage, handle_message, hint_of}
use web_sync_play.Room.Handlers.Authority.{message_moves}
use web_sync_play.Store.{Redis, Round, OnConflict, stored, update_room}
use web_sync_play.Store.Atomic.{IsAlone, storing_at, update_atomic}

module _ (crypto : Crypto) (limits : Limits) (stamp : Stamp) (active : List String)
    (ctx : MessageContext) (m : RoomMessage) where
  -- What the handler of a message gives to `updateRoom`.
  abbrev pub closure_of : Option RoomState → Attempt Commit
  closure_of o = (handle_message crypto limits stamp active ctx m o).0

  -- A room that is not there is not written.
  write_finds :
      (o : Option RoomState) (c : Commit) → closure_of o ≡ write c → (s : RoomState) × (o ≡ some s)
  unfolding handle_message mutate_room_message mutate_once
  write_finds none c e = absurd (ground arith)
  write_finds (some s) c e = (s, refl)

abbrev pub state_of : Commit → RoomState
state_of c = c.state

-- A message that the store has kept is a change of the room that stood in Redis right before, whatever the
-- other processes and the other calls of this one did meanwhile, as long as none of those ended a watch of
-- the shared connection between the WATCH and the EXEC of an attempt: the room in Redis is then that
-- very room with the generation raised by one, the structural revision by one exactly if the message's
-- hint asks for a snapshot or a log, the same id, and no earlier clock or admission version.
pub stored_message_advances :
    (crypto : Crypto) (limits : Limits) (stamp : Stamp) (active : List String)
    (ctx : MessageContext) (m : RoomMessage) (on_conflict : OnConflict)
    (rounds : List (Round RoomState)) (r after : Redis RoomState) (c : Commit)
    → All IsAlone rounds
    → update_room state_of (closure_of crypto limits stamp active ctx m) on_conflict rounds r
      ≡ (stored c, after)
    → (n : ℕ) × (s : RoomState) × (n < 12)
      × ((storing_at n rounds r).value ≡ some s)
      × (after.value ≡ some c.state)
      × (c.state.room_id ≡ s.room_id)
      × (c.state.generation ≡ s.generation + 1)
      × (c.state.structural_revision
          ≡ s.structural_revision + (if bumps_structural_revision (hint_of m) then 1 else 0))
      × (s.playback.server_now_ms ≤ c.state.playback.server_now_ms)
      × (s.room_security.admission_version ≤ c.state.room_security.admission_version)
stored_message_advances crypto limits stamp active ctx m on_conflict rounds r after c alone e =
    let closure = closure_of crypto limits stamp active ctx m in
    let (n, below, run, left) =
      update_atomic state_of closure on_conflict rounds r after c alone e in
    let (s, there) =
      write_finds crypto limits stamp active ctx m (storing_at n rounds r).value c run in
    let (id, generation, structure, clock, version, owner) =
      message_moves crypto limits stamp active ctx m s c
        (subst (λ (o : Option RoomState). closure o ≡ write c) there run) in
    (
      n,
      s,
      below,
      there,
      ap (λ (x : Redis RoomState). x.value) left,
      id,
      generation,
      structure,
      clock,
      version,
    )
