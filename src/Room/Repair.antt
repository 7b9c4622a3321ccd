-- ===== src/Room/Repair.antt =====
-- src/server/repair.ts on a state whose fields have their types, as each write of the server leaves it.
-- The branches for values of another type (a missing object, a number that is not finite, a legacy
-- field) cannot be taken there.
mod Tests
pub mod Sound
pub mod Settled
use web_sync_play.Prelude.{
  ℕ, ◌+◌, ◌-◌, min, max, String, Bool, true, false, not, ◌&&◌, ◌||◌, Option, none, some, List, [],
  ◌∷◌, ◌++◌, ltb, leb, ◌==◌, is_empty, if◌then◌else◌, or_else, first_some, length, keep, take,
  take_last, map, map_values,
}
use web_sync_play.Room.State.{
  RoomState, PlaylistItem, Participant, Participants, PlaybackState, RoomSecurity, ActionLogEntry,
  Limits, Stamp, PlaybackMode, direct, relay, ready, is_local_file,
}
use web_sync_play.Room.ActionLog.{prune_action_log, is_tracked, is_recent}
use web_sync_play.Room.Ownership.{Entry}
use web_sync_play.Room.Security.{normalize_room_security, is_present}

pub data Finding : Type 0 where
  room_id_invalid owner_repaired room_security_disabled_missing_secret : Finding
  item_local_playback_mode_repaired item_ingest_status_repaired : Finding
  playlist_index_clamped playlist_trimmed : Finding
  participants_cleaned participant_joined_at_repaired participants_trimmed : Finding
  action_log_filtered action_log_trimmed updated_at_repaired : Finding

abbrev pub when : Bool → Finding → List Finding
when true f = f ∷ []
when false f = []

abbrev pub is_relay : PlaybackMode → Bool
is_relay relay = true
is_relay direct = false

-- A shared file is never relayed by its mode, and an item without a status is ready.
abbrev pub is_relayed_file : PlaylistItem → Bool
is_relayed_file item = is_local_file item.source_kind && is_relay item.playback_mode

abbrev pub has_no_status : PlaylistItem → Bool
has_no_status item = elim item.ingest_status [ none ↦ true | some st ↦ false ]

abbrev pub repair_playlist_item_fields : PlaylistItem → PlaylistItem
repair_playlist_item_fields item = record item {
  playback_mode = if is_relayed_file item then direct else item.playback_mode;
  ingest_status = elim item.ingest_status [ none ↦ some ready | some st ↦ some st ];
}

abbrev pub item_findings : PlaylistItem → List Finding
item_findings item =
    when (is_relayed_file item) item_local_playback_mode_repaired
    ++ when (has_no_status item) item_ingest_status_repaired

abbrev pub playlist_findings : List PlaylistItem → List Finding
playlist_findings [] = []
playlist_findings (item ∷ rest) = item_findings item ++ playlist_findings rest

abbrev pub clamp_index : ℕ → ℕ → ℕ
clamp_index size index = if leb size index then size - 1 else index

-- The truncated differences are the source's `Math.max(0, …)`.
unfoldable pub repair_playlist_state : Limits → RoomState → RoomState × List Finding
repair_playlist_state limits s =
    let items = map repair_playlist_item_fields s.playlist in
    let clamped = clamp_index (length items) s.current_index in
    let found =
      playlist_findings s.playlist
      ++ when (leb (length items) s.current_index) playlist_index_clamped in
    if ltb limits.room_playlist_limit (length items)
    then (
      record s {
        playlist = take_last limits.room_playlist_limit items;
        current_index =
            min (clamped - (length items - limits.room_playlist_limit))
              (limits.room_playlist_limit - 1);
      },
      found ++ playlist_trimmed ∷ [],
    )
    else (record s { playlist = items; current_index = clamped }, found)

abbrev pub has_key : Entry → Bool
has_key e = not (is_empty e.0)

-- A positive number, if there is one.
abbrev pub positive : Option ℕ → Option ℕ
positive none = none
positive (some n) = if ltb 0 n then some n else none

abbrev pub is_joined : Participant → Bool
is_joined p = ltb 0 (or_else p.joined_at 0)

abbrev pub repair_joined_at : ℕ → Participant → Participant
repair_joined_at now p = if is_joined p then p else record p {
  joined_at = some (or_else (first_some (positive p.connected_at) (positive p.last_seen_at)) now);
}

abbrev pub joined_findings : Participants → List Finding
joined_findings [] = []
joined_findings (e ∷ rest) =
    when (not (is_joined e.1)) participant_joined_at_repaired ++ joined_findings rest

unfoldable pub repair_participants : Limits → ℕ → Participants → Participants × List Finding
repair_participants limits now ps =
    let entries = keep has_key ps in
    let kept = take limits.room_participants_limit entries in
    (
      map_values (repair_joined_at now) kept,
      when (not (length entries == length ps)) participants_cleaned
          ++ (joined_findings kept
              ++ when (ltb limits.room_participants_limit (length entries)) participants_trimmed),
    )

abbrev pub is_kept_entry : ℕ → ActionLogEntry → Bool
is_kept_entry now entry = is_recent now entry && is_tracked entry.action

unfoldable pub repair_action_log :
    Limits → ℕ → List ActionLogEntry → List ActionLogEntry × List Finding
repair_action_log limits now log =
    let valid = keep (is_kept_entry now) log in
    let pruned = prune_action_log limits valid now in
    (
      pruned,
      when (not (length valid == length log)) action_log_filtered
          ++ when (ltb (length pruned) (length valid)) action_log_trimmed,
    )

-- Rates lie between 0.25 and 3. The other numbers are not negative by their type.
unfoldable pub sanitize_playback : PlaybackState → PlaybackState
sanitize_playback p = record p { playback_rate = min 300 (max 25 p.playback_rate) }

abbrev pub lost_secret : RoomSecurity → Bool
lost_secret c =
    c.join_password_enabled
    && (not (is_present c.join_password_hash) || not (is_present c.join_password_salt))

unfoldable pub repair_cleanup_and_check_room_state :
    Limits → Stamp → RoomState → RoomState × List Finding
unfolding repair_playlist_state repair_participants repair_action_log sanitize_playback
repair_cleanup_and_check_room_state limits stamp s =
    let (listed, list_findings) = repair_playlist_state limits s in
    let (ps, participant_findings) = repair_participants limits stamp.now s.participants in
    let (log, log_findings) = repair_action_log limits stamp.now s.action_log in
    (
      record listed {
        owner_id = if is_empty s.owner_id then stamp.new_id else s.owner_id;
        room_security = normalize_room_security s.room_security;
        participants = ps;
        action_log = log;
        playback = sanitize_playback s.playback;
        updated_at = if s.updated_at == 0 then stamp.now else s.updated_at;
      },
      when (is_empty s.room_id) room_id_invalid
          ++ (when (is_empty s.owner_id) owner_repaired
              ++ (when (lost_secret s.room_security) room_security_disabled_missing_secret
                  ++ (list_findings
                      ++ (participant_findings
                          ++ (log_findings ++ when (s.updated_at == 0) updated_at_repaired))))),
    )
