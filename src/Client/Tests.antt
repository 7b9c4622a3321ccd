-- ===== src/Client/Tests.antt =====
-- The theorems on src/client/realtime/room-state-merge.ts, applied to concrete values.
use web_sync_play.Room.Samples.{roll_call, screen, remote_control}
use web_sync_play.Room.State.{RoomSnapshot}
use web_sync_play.Client.{room_control, presence_batch, receive_all, apply_room_control, names_item}
use web_sync_play.Prelude.{refl, arith, ◌∷◌, [], ◌≡◌, true, some}
use web_sync_play.Client.Revisions.{IsLater, receive_all-IsLater}
use web_sync_play.Client.Current.{control_names_media}

receive_all-IsLater_example :
    (t : RoomSnapshot) × (receive_all
        (some screen)
        (presence_batch roll_call ∷ room_control remote_control ∷ [])
      ≡ some t)
    × IsLater screen t
receive_all-IsLater_example =
    receive_all-IsLater screen (presence_batch roll_call ∷ room_control remote_control ∷ [])

control_names_media_example :
    names_item
      (apply_room_control screen remote_control).playlist
      (apply_room_control screen remote_control).current_index
      "b"
    ≡ true
control_names_media_example =
    control_names_media screen remote_control "b" (omega arith) refl refl refl
