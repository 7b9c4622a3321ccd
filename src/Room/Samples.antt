-- ===== src/Room/Samples.antt =====
-- Rooms, people and messages for the tests.
use web_sync_play.Room.Repair.Sound.{IsSound}
use web_sync_play.Room.Ownership.Succession.{IsNamed, IsOwned}
use web_sync_play.Room.Security.{Crypto}
use web_sync_play.Prelude.{
  refl, eq_iff, arith, str_eq, if◌then◌else◌, concat, ℕ, String, Bool, true, false, Option, none,
  some, List, [], ◌∷◌,
}
use web_sync_play.Room.State.{
  RoomState, RoomRole, owner, moderator, guest, Participant, PlaylistItem, remote_url, local_file,
  direct, ready, LocalPlayback, PlaybackState, off, join_guest, Limits, Stamp, RoomSecurity,
  room_session, RoomSnapshot, SourceKind, ViewerItemPreference,
}
use web_sync_play.Room.Permissions.{ConnectionAuth}
use web_sync_play.Room.Mutate.{MessageContext, Attempt, abort, deny, write, Commit}
use web_sync_play.Room.Messages.{RoomControl, PresenceBatch}

abbrev pub small_limits : Limits
small_limits = record {
  room_participants_limit = 4;
  room_action_log_limit = 3;
  room_playlist_limit = 4;
}

abbrev pub noon : Stamp
noon = record { now = 100000; log_id = "log-9"; new_id = "id-9" }

abbrev pub item_named : SourceKind → Option String → String → PlaylistItem
item_named kind origin id = record {
  id = id;
  name = id;
  source_kind = kind;
  playback_mode = direct;
  source_url = "https://example.org/v";
  playable_url = "https://example.org/v";
  duration = none;
  ingest_status = some ready;
  ingest_error = none;
  blocked_reason = none;
  media_streams = none;
  text_tracks = none;
  default_stream_id = none;
  default_text_track_id = none;
  is_live = none;
  local_media_id = none;
  local_origin_user_id = origin;
  local_mime_type = none;
  local_size_bytes = none;
  created_by = "ann";
  created_at = 1000;
}

abbrev pub clip : String → PlaylistItem
clip id = item_named remote_url none id

abbrev pub shared_file : PlaylistItem
shared_file = item_named local_file (some "bob") "b"

abbrev pub idle : LocalPlayback
idle = record {
  paused = true;
  current_time_ms = 0;
  loading = false;
  error = none;
  updated_at = 1000;
}

abbrev pub no_choice : ViewerItemPreference
no_choice = record { stream_id = none; text_track_id = none; audio_language = some "en" }

abbrev pub person : String → RoomRole → Bool → ℕ → Participant
person id role connected joined = record {
  user_id = id;
  username = id;
  avatar_style = "plain";
  role = role;
  connected = connected;
  joined_at = some joined;
  connected_at = some joined;
  disconnected_at = none;
  last_seen_at = some joined;
  local_playback = idle;
  viewer_media = some (("b", no_choice) ∷ ("c", no_choice) ∷ []);
}

abbrev pub ann : Participant
ann = person "ann" owner true 1000

abbrev pub bob : Participant
bob = person "bob" moderator true 2000

abbrev pub cal : Participant
cal = person "cal" guest false 3000

abbrev pub playing : PlaybackState
playing = record {
  media_id = some "b";
  paused = false;
  playback_rate = 100;
  timeline_anchor_ms = 2000;
  server_now_ms = 99000;
  video_loop = off;
  playlist_loop = off;
  seek_preview = none;
}

abbrev pub open_door : RoomSecurity
open_door = record {
  join_password_enabled = false;
  join_password_updated_at = none;
  admission_version = 1;
  default_join_role = join_guest;
  join_password_hash = none;
  join_password_salt = none;
}

abbrev pub cinema : RoomState
cinema = record {
  room_id = "r1";
  owner_id = "ann";
  room_security = open_door;
  playback = playing;
  playlist = clip "a" ∷ shared_file ∷ clip "c" ∷ [];
  current_index = 1;
  participants = ("ann", ann) ∷ ("bob", bob) ∷ ("cal", cal) ∷ [];
  action_log = [];
  updated_at = 99000;
  generation = 7;
  structural_revision = 4;
  presence_revision = some 2;
}

-- The room once its owner is offline.
abbrev pub ownerless : RoomState
ownerless = record cinema {
  participants = ("ann", person "ann" owner false 1000) ∷ ("bob", bob) ∷ ("cal", cal) ∷ [];
}

abbrev pub in_room : ConnectionAuth
in_room = record {
  is_control_session = false;
  control_authorized = false;
  session_kind = some room_session;
}

abbrev pub sender : String → MessageContext
sender id = record { room_id = "r1"; user_id = id; connection_id = "c1"; auth = in_room }

abbrev pub online : List String
online = "ann" ∷ "bob" ∷ []

abbrev pub no_commit : Commit
no_commit = record { state = cinema; disconnecting = []; reconnecting = [] }

-- What an attempt writes.
abbrev pub commit_of : Attempt Commit → Commit
commit_of (write c) = c
commit_of abort = no_commit
commit_of deny = no_commit

abbrev pub screen : RoomSnapshot
screen = record {
  room_id = "r1";
  owner_id = "ann";
  room_security = record {
    join_password_enabled = false;
    join_password_updated_at = none;
    admission_version = 1;
    default_join_role = join_guest;
  };
  playback = playing;
  playlist = clip "a" ∷ clip "b" ∷ [];
  current_index = 0;
  participants = ("ann", ann) ∷ [];
  action_log = [];
  updated_at = 98000;
  generation = 6;
  structural_revision = 4;
  presence_revision = some 2;
  server_wall_now_ms = none;
}

abbrev pub remote_control : RoomControl
remote_control = record {
  generation = 7;
  playback = playing;
  current_index = 2;
  updated_at = 99000;
  server_wall_now_ms = some 99000;
}

abbrev pub roll_call : PresenceBatch
roll_call = record {
  presence_revision = 3;
  participants =
      (
        "ann",
        record {
          connected = some false;
          last_seen_at = some 99000;
          disconnected_at = none;
          username = none;
          avatar_style = none;
          local_playback = none;
        },
      )
      ∷ [];
}

abbrev pub plain_crypto : Crypto
plain_crypto = record {
  hash_join_password = λ password salt. concat password salt;
  from_hex = λ hash. if str_eq hash "opens1" then 1 ∷ [] else 2 ∷ [];
}

pub cinema-IsNamed : IsNamed cinema.participants
cinema-IsNamed k p h = ground (arith, eq_iff "ann" k, eq_iff "bob" k, eq_iff "cal" k)

pub cinema-IsOwned : IsOwned cinema.owner_id cinema.participants
cinema-IsOwned k p h = ground (arith, eq_iff "ann" k, eq_iff "bob" k, eq_iff "cal" k)

pub cinema-IsSound : IsSound small_limits noon.now cinema
cinema-IsSound = record {
  owned = refl;
  secured = refl;
  indexed = ground arith;
  list_fits = omega arith;
  items = ((refl, refl), ((refl, refl), ((refl, refl), tt)));
  people_fit = omega arith;
  people = ((refl, refl), ((refl, refl), ((refl, refl), tt)));
  log_fits = omega arith;
  log = tt;
  rate_low = omega arith;
  rate_high = omega arith;
  dated = omega arith;
}
