-- ===== src/Room/History/Tests.antt =====
-- The theorems on the writes of a room's life, applied to concrete rooms, people and messages.
use web_sync_play.Room.Handlers.{seek, handle_message}
use web_sync_play.Room.History.{stays, disconnects, message, writes}
use web_sync_play.Room.Offline.{disconnect_write}
use web_sync_play.Room.Mutate.{write, Commit}
use web_sync_play.Room.State.{RoomState}
use web_sync_play.Prelude.{or_else, refl, [], some}
use web_sync_play.Room.Samples.{plain_crypto, sender, online, small_limits, commit_of, cinema, noon}
use web_sync_play.Room.History.Revisions.{IsWrite, Reaches-IsWrite}

abbrev sought : Commit
sought =
    commit_of
      (handle_message plain_crypto small_limits noon online (sender "bob") (seek 5000)
        (some cinema)).0

abbrev after_seek : RoomState
after_seek = sought.state

abbrev after_leave : RoomState
after_leave = or_else (disconnect_write small_limits noon [] "bob" after_seek) after_seek

Reaches-IsWrite_example : IsWrite 2 cinema after_leave
unfolding handle_message web_sync_play.Room.Mutate.mutate_room_message
    web_sync_play.Room.Participants.reconcile_participants_connectivity
    web_sync_play.Room.Mutate.controlled
    web_sync_play.Room.Permissions.can_control_from_connection_context
    web_sync_play.Room.Handlers.Playback.playback_seek disconnect_write
Reaches-IsWrite_example = Reaches-IsWrite plain_crypto small_limits 2 cinema after_leave (
    writes 1 cinema after_seek after_leave
      (message noon online (sender "bob") (seek 5000) cinema sought refl)
      (writes 0 after_seek after_leave after_leave
        (disconnects noon [] "bob" after_seek after_leave refl) (stays after_leave)))
