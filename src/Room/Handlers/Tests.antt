-- ===== src/Room/Handlers/Tests.antt =====
-- The theorems on src/server/realtime/handlers, applied to concrete rooms, people and messages.
use web_sync_play.Room.Handlers.{
  write, control, hint_of, playback_rate_set, set_playback_paused_state, playback_seek, seek,
  controlled, handle_message,
}
use web_sync_play.Room.Timeline.{resolve_current_timeline_ms}
use web_sync_play.Room.Handlers.Members.{ViewerMediaPatch}
use web_sync_play.Room.Mutate.{bumps_structural_revision, mutate_once, Commit}
use web_sync_play.Prelude.{refl, ◌+◌, ◌-◌, ◌*◌, ◌≡◌, ◌≤◌, if◌then◌else◌, true, some, none, min, max}
use web_sync_play.Room.Samples.{
  plain_crypto, sender, online, small_limits, commit_of, bob, cinema, noon,
}
use web_sync_play.Room.Handlers.Authority.{messages_advance}
use web_sync_play.Room.Handlers.Playback.Continuity.{set_paused_continues}

abbrev english : ViewerMediaPatch
english = record {
  item_id = "b";
  stream_id = none;
  text_track_id = some none;
  audio_language = some "de";
}

messages_advance_example :
    ((commit_of
        (handle_message plain_crypto small_limits noon online
          (sender "bob")
          (seek 5000)
          (some cinema)).0).state.room_id
      ≡ cinema.room_id)
    × ((commit_of
          (handle_message plain_crypto small_limits noon online
            (sender "bob")
            (seek 5000)
            (some cinema)).0).state.owner_id
        ≡ cinema.owner_id)
    × ((commit_of
          (handle_message plain_crypto small_limits noon online
            (sender "bob")
            (seek 5000)
            (some cinema)).0).state.generation
        ≡ cinema.generation + 1)
    × ((commit_of
          (handle_message plain_crypto small_limits noon online
            (sender "bob")
            (seek 5000)
            (some cinema)).0).state.structural_revision
        ≡ cinema.structural_revision
          + (if bumps_structural_revision (hint_of (seek 5000)) then 1 else 0))
    × (cinema.playback.server_now_ms
        ≤ (commit_of
            (handle_message plain_crypto small_limits noon online
              (sender "bob")
              (seek 5000)
              (some cinema)).0).state.playback.server_now_ms)
    × (cinema.room_security.admission_version
        ≤ (commit_of
            (handle_message plain_crypto small_limits noon online
              (sender "bob")
              (seek 5000)
              (some cinema)).0).state.room_security.admission_version)
unfolding handle_message web_sync_play.Room.Mutate.mutate_room_message
    web_sync_play.Room.Participants.reconcile_participants_connectivity
    web_sync_play.Room.Mutate.controlled
    web_sync_play.Room.Permissions.can_control_from_connection_context
    web_sync_play.Room.Handlers.Playback.playback_seek
messages_advance_example =
    messages_advance plain_crypto small_limits noon online (sender "bob") (seek 5000) cinema
      (commit_of
        (handle_message plain_crypto small_limits noon online (sender "bob") (seek 5000)
          (some cinema)).0)
      refl refl

set_paused_continues_example :
    let was = resolve_current_timeline_ms cinema.playback noon.now in
    let clock = max (cinema.playback.server_now_ms + 1) noon.now in
    let rate = min 300 (max 25 cinema.playback.playback_rate) in
    (c : Commit) × (mutate_once small_limits noon online
        (sender "bob").user_id
        (controlled
          (sender "bob")
          (set_playback_paused_state small_limits noon (sender "bob") none true))
        control
        (some cinema)
      ≡ write c)
    × (resolve_current_timeline_ms c.state.playback 200000
        ≡ (if true then was else was + (200000 - clock) * rate))
unfolding web_sync_play.Room.Permissions.can_control_from_connection_context
set_paused_continues_example =
    set_paused_continues small_limits noon online (sender "bob") none true cinema bob 200000 refl
      refl
