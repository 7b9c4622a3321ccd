-- ===== src/Room/Creation.antt =====
-- A new room: src/server/realtime/services/room.ts. The default media of the day are an argument.
use web_sync_play.Prelude.{
  ℕ, String, Bool, true, false, not, ◌&&◌, Option, none, some, List, [], ◌∷◌, map, is_empty, trim,
  if◌then◌else◌,
}
use web_sync_play.Room.State.{RoomState, PlaylistItem, remote_url, direct, resolving, off, Stamp}
use web_sync_play.Room.Security.{create_default_room_security}
use web_sync_play.UrlSafety.{Net, UrlSafety, safe, assert_public_http_url}

-- An entry of `store.getDailyDefaults()`, with the id that its item is given.
pub record DailyDefault : Type 0 where
  pub item_id : String
  pub url : String
  pub title : String

abbrev pub playlist_item_from_url : ℕ → String → String → String → String → PlaylistItem
playlist_item_from_url now id url name owner_id = record {
  id = id;
  name = name;
  source_kind = remote_url;
  playback_mode = direct;
  source_url = url;
  playable_url = url;
  duration = none;
  ingest_status = some resolving;
  ingest_error = none;
  blocked_reason = none;
  media_streams = none;
  text_tracks = none;
  default_stream_id = none;
  default_text_track_id = none;
  is_live = none;
  local_media_id = none;
  local_origin_user_id = none;
  local_mime_type = none;
  local_size_bytes = none;
  created_by = owner_id;
  created_at = now;
}

-- `{ seedUrl, skipDefaultMedia }`; `none` is the answer `media_url_unsupported`.
unfoldable pub evaluate_create_media_seed :
    Net → Bool → Option String → Bool → Option (Option String × Bool)
evaluate_create_media_seed net exists (some url) skip =
    if exists
    then some (none, false)
    else elim (assert_public_http_url net url) [ safe u ↦ some (some u.href, false) | _ ↦ none ]
evaluate_create_media_seed net exists none skip =
    if exists then some (none, false) else some (none, skip)

abbrev pub is_safe : UrlSafety → Bool
is_safe (safe u) = true
is_safe _ = false

abbrev pub seeded_url : Net → Option String → Option String
seeded_url net none = none
seeded_url net (some url) =
    if not (is_empty (trim url)) && is_safe (assert_public_http_url net (trim url))
    then some (trim url)
    else none

abbrev pub default_item : ℕ → String → DailyDefault → PlaylistItem
default_item now owner_id entry =
    playlist_item_from_url now entry.item_id entry.url entry.title owner_id

abbrev pub initial_playlist :
    Net → Stamp → List DailyDefault → String → Option String → Bool → List PlaylistItem
initial_playlist net stamp defaults owner_id seed skip = elim (seeded_url net seed) [
  | some url ↦ playlist_item_from_url stamp.now stamp.new_id url url owner_id ∷ []
  | none ↦ if skip then [] else map (default_item stamp.now owner_id) defaults
]

abbrev pub has_no_items : List PlaylistItem → Bool
has_no_items [] = true
has_no_items (item ∷ rest) = false

unfoldable pub create_initial_room_state :
    Net → Stamp → List DailyDefault → String → String → Option String → Bool → RoomState
create_initial_room_state net stamp defaults room_id owner_id seed skip =
    let playlist = initial_playlist net stamp defaults owner_id seed skip in
    record {
      room_id = room_id;
      owner_id = owner_id;
      room_security = create_default_room_security;
      playback = record {
        media_id = none;
        paused = has_no_items playlist;
        playback_rate = 100;
        timeline_anchor_ms = 0;
        server_now_ms = stamp.now;
        video_loop = off;
        playlist_loop = off;
        seek_preview = none;
      };
      playlist = playlist;
      current_index = 0;
      participants = [];
      action_log = [];
      updated_at = stamp.now;
      generation = 0;
      structural_revision = 0;
      presence_revision = none;
    }
