-- ===== src/Room/History.antt =====
-- The life of a room: the writes of src/server/realtime/handlers, join among them, of handleSocketDisconnect in
-- src/server/realtime/services/disconnect.ts, of the prunes in participants.ts and of the sweep in cleanup.ts,
-- one after the other in any order, each by its own clock, sockets and sender.
mod Tests
pub mod Revisions
use web_sync_play.Prelude.{ℕ, zero, suc, ◌≡◌, String, Option, some, List, true, false}
use web_sync_play.UrlSafety.{Net}
use web_sync_play.Room.State.{LocalPlayback, RoomState, Limits, Stamp}
use web_sync_play.Room.Security.{Crypto}
use web_sync_play.Room.Mutate.{MessageContext, Commit, write}
use web_sync_play.Room.Handlers.{RoomMessage, handle_message}
use web_sync_play.Room.Offline.{disconnect_write}
use web_sync_play.Room.Participants.{remove_disconnected_participant, prune_by_disconnected_at}
use web_sync_play.Room.Sweep.{sweep_write}
use web_sync_play.Room.Join.{JoinRequest, JoinCommit, joined, commit_join_membership}
use web_sync_play.Room.Creation.{DailyDefault}

pub data Step (crypto : Crypto) (limits : Limits) : RoomState → RoomState → Type 0 where
  message :
      (stamp : Stamp) (active : List String) (ctx : MessageContext) (m : RoomMessage)
      (s : RoomState) (c : Commit)
      → (handle_message crypto limits stamp active ctx m (some s)).0 ≡ write c
      → Step crypto limits s c.state
  disconnects :
      (stamp : Stamp) (active : List String) (user_id : String) (s t : RoomState)
      → disconnect_write limits stamp active user_id s ≡ some t
      → Step crypto limits s t
  pruned :
      (stamp : Stamp) (user_id : String) (s t : RoomState)
      → remove_disconnected_participant limits stamp s user_id ≡ some t
      → Step crypto limits s t
  all_pruned :
      (stamp : Stamp) (removed : List String) (s t : RoomState)
      → prune_by_disconnected_at limits stamp s ≡ some (t, removed)
      → Step crypto limits s t
  -- A join that is not a pure reconnect.
  joins :
      (stamp : Stamp) (net : Net) (defaults : List DailyDefault) (active : List String)
      (overlay : Option LocalPlayback) (req : JoinRequest) (s : RoomState) (c : JoinCommit)
      → commit_join_membership crypto limits stamp net defaults active overlay req (some s)
        ≡ joined c
      → c.pure_reconnect ≡ false
      → Step crypto limits s c.state
  sweeps :
      (stamp : Stamp) (active : List String) (s t : RoomState)
      → (sweep_write limits stamp active s).state ≡ some t
      → Step crypto limits s t

-- `n` writes lead from one state to another.
pub data Reaches (crypto : Crypto) (limits : Limits) : ℕ → RoomState → RoomState → Type 0 where
  stays : (s : RoomState) → Reaches crypto limits zero s s
  writes :
      (n : ℕ) (s t u : RoomState)
      → Step crypto limits s t
      → Reaches crypto limits n t u
      → Reaches crypto limits (suc n) s u
  reconnects :
      (n : ℕ) (stamp : Stamp) (net : Net) (defaults : List DailyDefault) (active : List String)
      (overlay : Option LocalPlayback) (req : JoinRequest) (s u : RoomState) (c : JoinCommit)
      → commit_join_membership crypto limits stamp net defaults active overlay req (some s)
        ≡ joined c
      → c.pure_reconnect ≡ true
      → Reaches crypto limits n c.state u
      → Reaches crypto limits n s u
