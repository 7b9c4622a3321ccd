-- ===== src/Room/Repair/Tests.antt =====
-- The theorems on src/server/repair.ts, applied to concrete rooms, people and messages.
use web_sync_play.Room.Repair.{playlist_index_clamped, when, repair_cleanup_and_check_room_state}
use web_sync_play.Prelude.{refl, arith, ◌≡◌, ◌==◌, length}
use web_sync_play.Room.Samples.{cinema-IsSound, small_limits, cinema, noon}
use web_sync_play.Room.Repair.Sound.{IsSound, repair-IsSound}
use web_sync_play.Room.Repair.Settled.{repair_settled}

repair-IsSound_example :
    IsSound small_limits noon.now (repair_cleanup_and_check_room_state small_limits noon cinema).0
repair-IsSound_example = repair-IsSound small_limits noon cinema (omega arith) (omega arith) refl

repair_settled_example :
    repair_cleanup_and_check_room_state small_limits noon cinema
    ≡ (cinema, when (length cinema.playlist == 0) playlist_index_clamped)
repair_settled_example = repair_settled small_limits noon cinema (cinema-IsSound) refl
