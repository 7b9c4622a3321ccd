-- ===== src/Room/Sweep/Tests.antt =====
-- The theorems on src/server/realtime/services/cleanup.ts and empty-room.ts, applied to concrete rooms, people
-- and messages.
use web_sync_play.Room.Sweep.{empty_room_destroy_grace_ms, SweepReads, sweep_write}
use web_sync_play.Prelude.{refl, arith, ◌-◌, ◌∷◌, ◌++◌, [], ◌≡◌, ◌≤◌, true, false, some, none, ℕ}
use web_sync_play.Room.Samples.{cinema-IsSound, online, small_limits, ann, cinema, noon}
use web_sync_play.Room.Sweep.Grace.{somebody, nobody, WasEmpty, destroyed_after_grace}
use web_sync_play.Room.Sweep.Quiet.{sweep_settled}

-- Redis answers, and nobody comes back.
abbrev calm : SweepReads
calm = record {
  up_clear = true;
  up_mark = true;
  up_read = true;
  up_confirm = true;
  draining = false;
  present_again = some false;
  later = 20010;
}

destroyed_after_grace_example :
    (false ≡ false)
    × (calm.draining ≡ false)
    × (calm.present_again ≡ some false)
    × (at : ℕ) × (empty_room_destroy_grace_ms ≤ calm.later - at)
    × WasEmpty ((nobody true 1000 ∷ somebody false ∷ []) ++ (nobody calm.up_mark 20000 ∷ [])) at
unfolding web_sync_play.Room.Sweep.sweep_empty web_sync_play.Room.Sweep.Grace.run_marker
destroyed_after_grace_example =
    destroyed_after_grace calm 20000 false (nobody true 1000 ∷ somebody false ∷ []) refl

sweep_settled_example :
    let swept = sweep_write small_limits noon online cinema in
    (swept.state ≡ none) × (swept.disconnecting ≡ []) × (swept.reconnecting ≡ [])
sweep_settled_example =
    sweep_settled small_limits noon online cinema ann (cinema-IsSound) refl (omega arith)
      (refl, (refl, (refl, tt))) refl refl
