-- ===== src/Room/Catalog.antt =====
-- src/server/realtime/services/playlist-ops.ts: what is written in one item, and new items.
pub mod Items
use web_sync_play.Prelude.{
  ℕ, suc, ◌+◌, ◌-◌, ◌*◌, ◌/◌, ◌≡◌, min, String, Bool, true, false, not, ◌&&◌, ◌||◌, Option, none,
  some, List, [], ◌∷◌, ◌++◌, ltb, leb, ◌==◌, str_eq, is_empty, trim, if◌then◌else◌, is_some, ◌>>=◌,
  length, get_elem?, remove_at, insert_at, modify_at, find_index, concat, lookup, erase, map_values,
}
use web_sync_play.Room.State.{
  RoomState, PlaylistItem, Participant, Participants, ViewerMedia, MediaStream, remote_url,
  local_file, direct, ready, resolving, error, combined, is_local_file, is_blocked, is_error_status,
}
use web_sync_play.Room.Timeline.{reset_playback_timeline, media_id_at}
use web_sync_play.Room.Playlist.{has_id, is_truthy}

-- The changed item, its previous name and its next name.
unfoldable pub apply_playlist_rename :
    RoomState → String → String → Option (RoomState × PlaylistItem × String × String)
apply_playlist_rename s item_id raw_name = elim (find_index (has_id item_id) s.playlist) [
  | none ↦ none
  | some i ↦ elim (get_elem? s.playlist i) [
    | none ↦ none
    | some item ↦
        if is_empty (trim raw_name) || str_eq (trim raw_name) item.name
        then none
        else some (
          record s { playlist = modify_at s.playlist i (λ it. record it { name = trim raw_name }) },
          record item { name = trim raw_name },
          item.name,
          trim raw_name,
        )
  ]
]

abbrev pub mark_item_error : String → PlaylistItem → PlaylistItem
mark_item_error message item = record item {
  ingest_status = some error;
  ingest_error = some message;
}

abbrev pub clear_item_error : PlaylistItem → PlaylistItem
clear_item_error item = record item { ingest_status = some ready; ingest_error = none }

-- The next item becomes current if the failed one is, and another follows.
unfoldable pub advance_past : RoomState → ℕ → ℕ → RoomState
advance_past s index now =
    if s.current_index == index && ltb 1 (length s.playlist)
    then if not (min (length s.playlist - 1) (index + 1) == index)
      then record s {
        current_index = min (length s.playlist - 1) (index + 1);
        playback = reset_playback_timeline s.playback now false;
      }
      else s
    else s

-- The changed item, and whether its error was cleared.
unfoldable pub apply_playlist_item_error :
    RoomState → String → Option String → ℕ → Option (RoomState × PlaylistItem × Bool)
unfolding advance_past
apply_playlist_item_error s item_id message now = elim (find_index (has_id item_id) s.playlist) [
  | none ↦ none
  | some index ↦ elim (get_elem? s.playlist index) [
    | none ↦ none
    | some item ↦ elim message [
      | none ↦
          if not (is_error_status item.ingest_status) && not (is_truthy item.ingest_error)
          then none
          else some (
            record s { playlist = modify_at s.playlist index clear_item_error },
            clear_item_error item,
            true,
          )
      | some m ↦
          if is_error_status item.ingest_status && is_truthy item.ingest_error
          then some (s, item, false)
          else some (
            advance_past (record s { playlist = modify_at s.playlist index (mark_item_error m) })
                index now,
            mark_item_error m item,
            false,
          )
    ]
  ]
]

-- `Math.round` to whole seconds, in milliseconds
abbrev pub round_seconds : ℕ → ℕ
round_seconds duration = (duration + 500) / 1000 * 1000

abbrev pub is_positive : Option ℕ → Bool
is_positive none = false
is_positive (some n) = ltb 0 n

abbrev pub is_true : Option Bool → Bool
is_true none = false
is_true (some b) = b

unfoldable pub apply_playlist_item_duration :
    RoomState → String → ℕ → Option (RoomState × PlaylistItem)
apply_playlist_item_duration s item_id duration = elim (find_index (has_id item_id) s.playlist) [
  | none ↦ none
  | some i ↦ elim (get_elem? s.playlist i) [
    | none ↦ none
    | some item ↦
        if is_true item.is_live || (duration == 0 || is_positive item.duration)
        then none
        else some (
          record s {
            playlist =
                modify_at s.playlist i
                  (λ it. record it { duration = some (round_seconds duration) });
          },
          record item { duration = some (round_seconds duration) },
        )
  ]
]

unfoldable pub is_playlist_item_name_placeholder : PlaylistItem → Bool
is_playlist_item_name_placeholder item = str_eq (trim item.name) (trim item.source_url)

unfoldable pub apply_playlist_item_title :
    RoomState → String → String → Option (RoomState × PlaylistItem)
unfolding is_playlist_item_name_placeholder
apply_playlist_item_title s item_id raw_name = elim (find_index (has_id item_id) s.playlist) [
  | none ↦ none
  | some i ↦ elim (get_elem? s.playlist i) [
    | none ↦ none
    | some item ↦
        if not (is_playlist_item_name_placeholder item)
          || (is_empty (trim raw_name)
              || (str_eq (trim raw_name) (trim item.name)
                  || str_eq (trim raw_name) (trim item.source_url)))
        then none
        else some (
          record s { playlist = modify_at s.playlist i (λ it. record it { name = trim raw_name }) },
          record item { name = trim raw_name },
        )
  ]
]

unfoldable pub is_playlist_at_limit : RoomState → ℕ → Bool
is_playlist_at_limit s limit = leb limit (length s.playlist)

unfoldable pub build_remote_url_playlist_item : String → String → String → ℕ → PlaylistItem
build_remote_url_playlist_item id source_url created_by created_at = record {
  id = id;
  name = source_url;
  source_kind = remote_url;
  playback_mode = direct;
  source_url = source_url;
  playable_url = source_url;
  duration = none;
  ingest_status = some resolving;
  ingest_error = none;
  blocked_reason = none;
  media_streams = none;
  text_tracks = none;
  default_stream_id = none;
  default_text_track_id = none;
  is_live = none;
  local_media_id = none;
  local_origin_user_id = none;
  local_mime_type = none;
  local_size_bytes = none;
  created_by = created_by;
  created_at = created_at;
}

-- The fields that the caller gives for a shared file.
pub record LocalFile : Type 0 where
  pub name : String
  pub local_media_id : String
  pub mime_type : String
  pub size_bytes : ℕ
  pub duration : Option ℕ

-- A media id is a UUID, which `encodeURIComponent` leaves as it is.
unfoldable pub build_local_file_playlist_item : String → LocalFile → String → ℕ → PlaylistItem
build_local_file_playlist_item id file created_by created_at = record {
  id = id;
  name = file.name;
  source_kind = local_file;
  playback_mode = direct;
  source_url = url;
  playable_url = url;
  duration = elim file.duration [
    | none ↦ none
    | some d ↦ if ltb 0 d then some (round_seconds d) else none
  ];
  ingest_status = some ready;
  ingest_error = none;
  blocked_reason = none;
  media_streams = some (stream ∷ []);
  text_tracks = none;
  default_stream_id = some "local-default";
  default_text_track_id = none;
  is_live = none;
  local_media_id = some file.local_media_id;
  local_origin_user_id = some created_by;
  local_mime_type = some file.mime_type;
  local_size_bytes = some file.size_bytes;
  created_by = created_by;
  created_at = created_at;
}
  where
    url : String
    url = concat "/api/media/local/" file.local_media_id

    stream : MediaStream
    stream = record {
      id = "local-default";
      src = url;
      type = some file.mime_type;
      protocol = none;
      width = none;
      height = none;
      bitrate = none;
      audio_bitrate = none;
      label = some "Local";
      is_default = some true;
      kind = some combined;
      vcodec = none;
      acodec = none;
      audio_language = none;
    }
