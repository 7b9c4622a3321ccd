-- ===== src/Broadcast/Tests.antt =====
-- The theorems on src/server/realtime/broadcast/room-broadcast-bus.ts, applied to concrete values.
use web_sync_play.Broadcast.Scheduled.{newest_snapshot}
use web_sync_play.Room.Messages.{PresencePatch}
use web_sync_play.Broadcast.{
  snapshot_fires, ensure, presence_timer_fires, marks_action_log, new_bus, marks_presence,
  snapshot_timer_fires, marks_snapshot, action_log_timer_fires, run_bus,
}
use web_sync_play.Prelude.{refl, ◌∷◌, [], ◌≡◌, ◌<◌, true, false, some, none}
use web_sync_play.Broadcast.Delivery.{batches_of, presence_delivered, snapshot_delivered}

abbrev bob_here : PresencePatch
bob_here = record {
  connected = some true;
  last_seen_at = some 100000;
  disconnected_at = none;
  username = none;
  avatar_style = none;
  local_playback = none;
}

presence_delivered_example :
    let at = run_bus (marks_snapshot ∷ []) new_bus in
    batches_of "bob" at.published
    < batches_of "bob"
        (presence_timer_fires (
          run_bus
            (marks_presence "bob" bob_here ∷ (marks_action_log ∷ snapshot_fires (some "h1") ∷ []))
            at)).published
presence_delivered_example =
    presence_delivered (marks_snapshot ∷ []) (marks_action_log ∷ snapshot_fires (some "h1") ∷ [])
      "bob" bob_here refl

snapshot_delivered_example :
    let told = action_log_timer_fires (some "h1") (
      snapshot_timer_fires
        (some "h1")
        (run_bus (marks_presence "bob" bob_here ∷ marks_action_log ∷ []) new_bus)) in
    (newest_snapshot told.published ≡ some "h1")
    × ((ensure told).snapshot ≡ false)
    × ((ensure told).action_log ≡ false)
unfolding run_bus
snapshot_delivered_example =
    snapshot_delivered (marks_presence "bob" bob_here ∷ marks_action_log ∷ []) "h1" refl
