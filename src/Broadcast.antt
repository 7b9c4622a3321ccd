-- ===== src/Broadcast.antt =====
-- src/server/realtime/broadcast/room-broadcast-bus.ts for one room, with mergePresenceDirty of
-- presence-publisher.ts and flushSnapshotPublish of snapshot-publisher.ts: what is marked, which timers
-- run, and what is published, the newest first. A flush is one step. What the store answers at the flush
-- of a snapshot is an argument: the hash of the room's structure, `none` without a room.
mod Tests
pub mod Scheduled
pub mod Delivery
pub mod Preview
use web_sync_play.Prelude.{
  ℕ, String, Bool, true, false, Option, none, some, List, [], ◌∷◌, str_eq, if◌then◌else◌, or_else,
  first_some, lookup, insert,
}
use web_sync_play.Room.State.{PlaybackState}
use web_sync_play.Room.Messages.{PresencePatch, RoomControl}

pub record RoomDirty : Type 0 where
  pub presence : List (String × PresencePatch)
  pub snapshot : Bool
  pub action_log : Bool
  pub presence_timer : Bool
  pub snapshot_timer : Bool
  pub action_log_timer : Bool
  pub last_structural_hash : Option String

pub record CachedControlProjection : Type 0 where
  pub generation : ℕ
  pub current_index : ℕ
  pub playback : PlaybackState

pub data Publication : Type 0 where
  control_sent : RoomControl → Publication
  presence_sent : List (String × PresencePatch) → Publication
  snapshot_sent : String → Publication

pub record RoomBus : Type 0 where
  pub dirty : Option RoomDirty
  pub projection : Option CachedControlProjection
  pub published : List Publication

abbrev pub new_bus : RoomBus
new_bus = record { dirty = none; projection = none; published = [] }

abbrev pub clean_dirty : RoomDirty
clean_dirty = record {
  presence = [];
  snapshot = false;
  action_log = false;
  presence_timer = false;
  snapshot_timer = false;
  action_log_timer = false;
  last_structural_hash = none;
}

abbrev pub ensure : RoomBus → RoomDirty
ensure bus = or_else bus.dirty clean_dirty

abbrev pub with_dirty : RoomDirty → RoomBus → RoomBus
with_dirty dirty bus = record bus { dirty = some dirty }

-- The timers go with the marks.
unfoldable pub clear_room : RoomBus → RoomBus
clear_room bus = elim bus.dirty [
  | none ↦ bus
  | some dirty ↦ record bus { dirty = none; projection = none }
]

unfoldable pub remember_control_projection : RoomControl → RoomBus → RoomBus
remember_control_projection payload bus = record bus {
  projection = some (record {
    generation = payload.generation;
    current_index = payload.current_index;
    playback = record (payload.playback) { seek_preview = none };
  });
}

unfoldable pub publish_control : RoomControl → RoomBus → RoomBus
unfolding remember_control_projection
publish_control payload bus =
    let remembered = remember_control_projection payload bus in
    record remembered { published = control_sent payload ∷ remembered.published }

-- The fields that a patch leaves out stay.
abbrev pub merged_patch : PresencePatch → PresencePatch → PresencePatch
merged_patch prev patch = record {
  connected = first_some patch.connected prev.connected;
  last_seen_at = first_some patch.last_seen_at prev.last_seen_at;
  disconnected_at = first_some patch.disconnected_at prev.disconnected_at;
  username = first_some patch.username prev.username;
  avatar_style = first_some patch.avatar_style prev.avatar_style;
  local_playback = first_some patch.local_playback prev.local_playback;
}

abbrev pub merged_onto : Option PresencePatch → PresencePatch → PresencePatch
merged_onto none patch = patch
merged_onto (some prev) patch = merged_patch prev patch

unfoldable pub merge_presence_dirty :
    List (String × PresencePatch) → String → PresencePatch → List (String × PresencePatch)
merge_presence_dirty dirty user_id patch =
    insert user_id (merged_onto (lookup user_id dirty) patch) dirty

unfoldable pub mark_presence_dirty : String → PresencePatch → RoomBus → RoomBus
unfolding merge_presence_dirty
mark_presence_dirty user_id patch bus =
    let dirty = ensure bus in
    with_dirty
      (record dirty {
        presence = merge_presence_dirty dirty.presence user_id patch;
        presence_timer = true;
      })
      bus

unfoldable pub mark_snapshot_dirty : RoomBus → RoomBus
mark_snapshot_dirty bus =
    with_dirty (record (ensure bus) { snapshot = true; snapshot_timer = true }) bus

unfoldable pub mark_action_log_dirty : RoomBus → RoomBus
mark_action_log_dirty bus =
    with_dirty (record (ensure bus) { action_log = true; action_log_timer = true }) bus

unfoldable pub flush_presence : RoomBus → RoomBus
flush_presence bus = elim bus.dirty [
  | none ↦ bus
  | some dirty ↦ elim dirty.presence [
    | [] ↦ bus
    | e ∷ rest ↦ record bus {
      dirty = some (record dirty { presence = [] });
      published = presence_sent (e ∷ rest) ∷ bus.published;
    }
  ]
]

abbrev pub same_hash : Option String → String → Bool
same_hash none hash = false
same_hash (some last) hash = str_eq last hash

-- The publications, and the hash to remember.
unfoldable pub flush_snapshot_publish :
    Option String → Option String → List Publication → List Publication × Option String
flush_snapshot_publish answer last published = elim answer [
  | none ↦ (published, last)
  | some hash ↦
      if same_hash last hash then (published, last) else (snapshot_sent hash ∷ published, some hash)
]

unfoldable pub flush_snapshot : Option String → RoomBus → RoomBus
unfolding flush_snapshot_publish
flush_snapshot answer bus =
    let dirty = ensure bus in
    let (sent, hash) = flush_snapshot_publish answer dirty.last_structural_hash bus.published in
    record bus {
      dirty = some (record dirty {
        snapshot = false;
        action_log = false;
        action_log_timer = false;
        last_structural_hash = hash;
      });
      published = sent;
    }

-- A timer that does not run does not fire.
unfoldable pub presence_timer_fires : RoomBus → RoomBus
unfolding flush_presence
presence_timer_fires bus = elim bus.dirty [
  | none ↦ bus
  | some dirty ↦
      if dirty.presence_timer
      then flush_presence (with_dirty (record dirty { presence_timer = false }) bus)
      else bus
]

unfoldable pub snapshot_timer_fires : Option String → RoomBus → RoomBus
unfolding flush_snapshot
snapshot_timer_fires answer bus = elim bus.dirty [
  | none ↦ bus
  | some dirty ↦
      if dirty.snapshot_timer
      then flush_snapshot answer (with_dirty (record dirty { snapshot_timer = false }) bus)
      else bus
]

unfoldable pub action_log_timer_fires : Option String → RoomBus → RoomBus
unfolding flush_snapshot
action_log_timer_fires answer bus = elim bus.dirty [
  | none ↦ bus
  | some dirty ↦
      let stopped = record dirty { action_log_timer = false } in
      if dirty.action_log_timer
      then if dirty.action_log
        then flush_snapshot answer
            (with_dirty (record stopped { action_log = false; snapshot = true }) bus)
        else with_dirty stopped bus
      else bus
]

-- The calls of the bus, and its timers.
pub data BusEvent : Type 0 where
  marks_presence : String → PresencePatch → BusEvent
  marks_snapshot marks_action_log : BusEvent
  publishes_control : RoomControl → BusEvent
  remembers_control : RoomControl → BusEvent
  flushes_presence : BusEvent
  flushes_snapshot : Option String → BusEvent
  presence_fires : BusEvent
  snapshot_fires action_log_fires : Option String → BusEvent
  clears : BusEvent

unfoldable pub bus_step : BusEvent → RoomBus → RoomBus
unfolding mark_presence_dirty mark_snapshot_dirty mark_action_log_dirty publish_control
    remember_control_projection flush_presence flush_snapshot presence_timer_fires
    snapshot_timer_fires action_log_timer_fires clear_room
bus_step (marks_presence user_id patch) bus = mark_presence_dirty user_id patch bus
bus_step marks_snapshot bus = mark_snapshot_dirty bus
bus_step marks_action_log bus = mark_action_log_dirty bus
bus_step (publishes_control payload) bus = publish_control payload bus
bus_step (remembers_control payload) bus = remember_control_projection payload bus
bus_step flushes_presence bus = flush_presence bus
bus_step (flushes_snapshot answer) bus = flush_snapshot answer bus
bus_step presence_fires bus = presence_timer_fires bus
bus_step (snapshot_fires answer) bus = snapshot_timer_fires answer bus
bus_step (action_log_fires answer) bus = action_log_timer_fires answer bus
bus_step clears bus = clear_room bus

pub run_bus : List BusEvent → RoomBus → RoomBus
unfolding bus_step
run_bus [] bus = bus
run_bus (e ∷ events) bus = run_bus events (bus_step e bus)
