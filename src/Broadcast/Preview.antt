-- ===== src/Broadcast/Preview.antt =====
-- `handleSeekPreview` of src/server/realtime/handlers/seek-preview.ts: what a scrub shows to the room, on the
-- state of its bus. The target is 0 if the message has none. The flag of the socket is `none` without a
-- socket's data, and may be unset.
use web_sync_play.Prelude.{ℕ, Bool, true, false, Option, none, some, not, if◌then◌else◌}
use web_sync_play.Room.State.{RoomState, PlaybackState}
use web_sync_play.Room.Messages.{RoomControl}
use web_sync_play.Room.Permissions.{can_control_from_connection_context}
use web_sync_play.Room.Mutate.{MessageContext}
use web_sync_play.Broadcast.{
  RoomBus, CachedControlProjection, publish_control, remember_control_projection,
}

-- The flag that the socket keeps, and the bus.
pub record Previewed : Type 0 where
  pub can_control_playback : Option (Option Bool)
  pub bus : RoomBus

abbrev pub shown_control : MessageContext → ℕ → ℕ → ℕ → ℕ → PlaybackState → RoomControl
shown_control ctx target_ms now generation current_index playback = record {
  generation = generation;
  playback = record playback {
    seek_preview =
        some (record {
          user_id = ctx.user_id;
          target_ms = target_ms;
          active = true;
          updated_at = now;
        });
  };
  current_index = current_index;
  updated_at = now;
  server_wall_now_ms = some now;
}

-- The way without the cache, with the room that the store holds.
unfoldable pub preview_from_store :
    MessageContext → ℕ → ℕ → Option (Option Bool) → Option RoomState → RoomBus → Previewed
preview_from_store ctx target_ms now flag none bus = record {
  can_control_playback = flag;
  bus = bus;
}
preview_from_store ctx target_ms now flag (some s) bus =
    let allowed = can_control_from_connection_context s ctx.user_id ctx.auth in
    let kept : Option (Option Bool) = elim flag [ none ↦ none | some old ↦ some (some allowed) ] in
    let base : RoomControl = record {
      generation = s.generation;
      playback = s.playback;
      current_index = s.current_index;
      updated_at = now;
      server_wall_now_ms = some now;
    } in
    if allowed
    then record {
      can_control_playback = kept;
      bus =
          publish_control (shown_control ctx target_ms now s.generation s.current_index s.playback)
            (remember_control_projection base bus);
    }
    else record { can_control_playback = kept; bus = bus }

-- The way of a socket that may control.
unfoldable pub preview_from_cache :
    MessageContext → ℕ → ℕ → Option CachedControlProjection → Option RoomState → RoomBus → Previewed
unfolding preview_from_store
preview_from_cache ctx target_ms now (some cached) stored bus = record {
  can_control_playback = some (some true);
  bus =
      publish_control
        (shown_control ctx target_ms now cached.generation cached.current_index cached.playback)
        bus;
}
preview_from_cache ctx target_ms now none stored bus =
    preview_from_store ctx target_ms now (some (some true)) stored bus

unfoldable pub preview_active :
    MessageContext → ℕ → ℕ → Option (Option Bool) → Option RoomState → RoomBus → Previewed
unfolding preview_from_cache preview_from_store
preview_active ctx target_ms now (some (some false)) stored bus = record {
  can_control_playback = some (some false);
  bus = bus;
}
preview_active ctx target_ms now (some (some true)) stored bus =
    preview_from_cache ctx target_ms now bus.projection stored bus
preview_active ctx target_ms now flag stored bus =
    preview_from_store ctx target_ms now flag stored bus

unfoldable pub handle_seek_preview :
    MessageContext → Bool → ℕ → ℕ → Option (Option Bool) → Option RoomState → RoomBus → Previewed
unfolding preview_active
handle_seek_preview ctx active target_ms now flag stored bus =
    if not active
    then record { can_control_playback = flag; bus = bus }
    else preview_active ctx target_ms now flag stored bus
