-- ===== src/Room/Permissions/Tests.antt =====
-- The theorems on src/server/realtime/services/permissions.ts, applied to concrete rooms, people and messages.
use web_sync_play.Room.State.{room_session}
use web_sync_play.Room.Permissions.{
  can_manage_room_security_from_connection_context, can_control_from_connection_context,
  compute_session_capabilities,
}
use web_sync_play.Prelude.{refl, ◌≡◌, false}
use web_sync_play.Room.Samples.{bob, cinema}
use web_sync_play.Room.Permissions.Agreement.{connection, capabilities_agree}

capabilities_agree_example :
    let told = compute_session_capabilities bob.role room_session false false in
    let auth = connection room_session false false in
    (told.can_control_playback ≡ can_control_from_connection_context cinema "bob" auth)
    × (told.can_manage_playlist ≡ can_control_from_connection_context cinema "bob" auth)
    × (told.can_manage_room_security
        ≡ can_manage_room_security_from_connection_context cinema "bob" auth)
capabilities_agree_example = capabilities_agree cinema "bob" bob room_session false false refl refl
