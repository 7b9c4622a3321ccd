-- ===== src/Room/State.antt =====
-- The room state: src/contracts/s2c.ts, src/contracts/schemas.ts and src/contracts/types.ts.
-- Times are milliseconds since the epoch. A rate is in hundredths (`1` is 100), and a place on the
-- media timeline in hundredths of a millisecond, so that a span of time times a rate is exact.
-- A duration is in milliseconds, where the source has seconds.
use web_sync_play.Prelude.{ℕ, String, Bool, Option, none, List, true, false}

pub data RoomRole : Type 0 where
  owner moderator guest : RoomRole

-- `defaultJoinRoleSchema`: a room role but `owner`
pub data DefaultJoinRole : Type 0 where
  join_moderator join_guest : DefaultJoinRole

pub data LoopMode : Type 0 where
  off once always : LoopMode

pub data SessionKind : Type 0 where
  room_session player_session control_session embed_session : SessionKind

pub data SourceKind : Type 0 where
  remote_url local_file : SourceKind

pub data PlaybackMode : Type 0 where
  direct relay : PlaybackMode

pub data IngestStatus : Type 0 where
  ready resolving error : IngestStatus

pub data BlockedReason : Type 0 where
  local_owner_offline : BlockedReason

pub data StreamKind : Type 0 where
  adaptive combined : StreamKind

pub data TrackKind : Type 0 where
  captions subtitles chapters descriptions metadata : TrackKind

pub record MediaStream : Type 0 where
  pub id : String
  pub src : String
  pub type : Option String
  pub protocol : Option String
  pub width : Option ℕ
  pub height : Option ℕ
  pub bitrate : Option ℕ
  pub audio_bitrate : Option ℕ
  pub label : Option String
  pub is_default : Option Bool
  pub kind : Option StreamKind
  pub vcodec : Option String
  pub acodec : Option String
  pub audio_language : Option String

pub record TextTrack : Type 0 where
  pub id : String
  pub src : String
  pub label : String
  pub language : Option String
  pub kind : Option TrackKind
  pub type : Option String
  pub is_default : Option Bool

pub record PlaylistItem : Type 0 where
  pub id : String
  pub name : String
  pub source_kind : SourceKind
  pub playback_mode : PlaybackMode
  pub source_url : String
  pub playable_url : String
  pub duration : Option ℕ
  pub ingest_status : Option IngestStatus
  pub ingest_error : Option String
  pub blocked_reason : Option BlockedReason
  pub media_streams : Option (List MediaStream)
  pub text_tracks : Option (List TextTrack)
  pub default_stream_id : Option String
  pub default_text_track_id : Option String
  pub is_live : Option Bool
  pub local_media_id : Option String
  pub local_origin_user_id : Option String
  pub local_mime_type : Option String
  pub local_size_bytes : Option ℕ
  pub created_by : String
  pub created_at : ℕ

-- `textTrackId` may be absent, `null` (captions off) or a track.
pub record ViewerItemPreference : Type 0 where
  pub stream_id : Option String
  pub text_track_id : Option (Option String)
  pub audio_language : Option String

-- `viewerMedia.byItemId`
abbrev pub ViewerMedia : Type 0
ViewerMedia = List (String × ViewerItemPreference)

pub record SeekPreview : Type 0 where
  pub user_id : String
  pub target_ms : ℕ
  pub active : Bool
  pub updated_at : ℕ

pub record PlaybackState : Type 0 where
  pub media_id : Option String
  pub paused : Bool
  pub playback_rate : ℕ
  pub timeline_anchor_ms : ℕ
  pub server_now_ms : ℕ
  pub video_loop : LoopMode
  pub playlist_loop : LoopMode
  pub seek_preview : Option SeekPreview

pub record LocalPlayback : Type 0 where
  pub paused : Bool
  pub current_time_ms : ℕ
  pub loading : Bool
  pub error : Option String
  pub updated_at : ℕ

pub record Participant : Type 0 where
  pub user_id : String
  pub username : String
  pub avatar_style : String
  pub role : RoomRole
  pub connected : Bool
  pub joined_at : Option ℕ
  pub connected_at : Option ℕ
  pub disconnected_at : Option ℕ
  pub last_seen_at : Option ℕ
  pub local_playback : LocalPlayback
  pub viewer_media : Option ViewerMedia

abbrev pub Participants : Type 0
Participants = List (String × Participant)

-- The values of a log entry's payload.
pub data PayloadValue : Type 0 where
  text : String → PayloadValue
  number : ℕ → PayloadValue
  hundredths : ℕ → PayloadValue
  flag : Bool → PayloadValue
  undefined : PayloadValue

pub record ActionLogEntry : Type 0 where
  pub id : String
  pub at : ℕ
  pub room_id : String
  pub actor_user_id : String
  pub actor_username : Option String
  pub action : String
  pub payload : List (String × PayloadValue)
  pub error : Option String

pub record RoomSecurity : Type 0 where
  pub join_password_enabled : Bool
  pub join_password_updated_at : Option ℕ
  pub admission_version : ℕ
  pub default_join_role : DefaultJoinRole
  pub join_password_hash : Option String
  pub join_password_salt : Option String

pub record PublicRoomSecurity : Type 0 where
  pub join_password_enabled : Bool
  pub join_password_updated_at : Option ℕ
  pub admission_version : ℕ
  pub default_join_role : DefaultJoinRole

-- `RoomSnapshotPayload`, which is also the state that a client holds.
pub record RoomSnapshot : Type 0 where
  pub room_id : String
  pub owner_id : String
  pub room_security : PublicRoomSecurity
  pub playback : PlaybackState
  pub playlist : List PlaylistItem
  pub current_index : ℕ
  pub participants : Participants
  pub action_log : List ActionLogEntry
  pub updated_at : ℕ
  pub generation : ℕ
  pub structural_revision : ℕ
  pub presence_revision : Option ℕ
  pub server_wall_now_ms : Option ℕ

pub record RoomState : Type 0 where
  pub room_id : String
  pub owner_id : String
  pub room_security : RoomSecurity
  pub playback : PlaybackState
  pub playlist : List PlaylistItem
  pub current_index : ℕ
  pub participants : Participants
  pub action_log : List ActionLogEntry
  pub updated_at : ℕ
  pub generation : ℕ
  pub structural_revision : ℕ
  pub presence_revision : Option ℕ

-- `env.ROOM_*_LIMIT` of src/env.ts
pub record Limits : Type 0 where
  pub room_participants_limit : ℕ
  pub room_action_log_limit : ℕ
  pub room_playlist_limit : ℕ

-- One clock read and one source of identifiers for each mutation: `Date.now()` and `randomUUID()`.
pub record Stamp : Type 0 where
  pub now : ℕ
  pub log_id : String
  pub new_id : String

abbrev pub is_owner_role : RoomRole → Bool
is_owner_role owner = true
is_owner_role _ = false

abbrev pub is_moderator_role : RoomRole → Bool
is_moderator_role moderator = true
is_moderator_role _ = false

-- `a === b`
abbrev pub same_role : RoomRole → RoomRole → Bool
same_role owner owner = true
same_role moderator moderator = true
same_role guest guest = true
same_role _ _ = false

abbrev pub is_local_file : SourceKind → Bool
is_local_file local_file = true
is_local_file remote_url = false

abbrev pub is_blocked : Option BlockedReason → Bool
is_blocked none = false
is_blocked _ = true

-- `status === "error"`
abbrev pub is_error_status : Option IngestStatus → Bool
is_error_status (Option.some error) = true
is_error_status _ = false

-- `status === "resolving"`
abbrev pub is_resolving : Option IngestStatus → Bool
is_resolving (Option.some resolving) = true
is_resolving _ = false

abbrev pub same_loop : LoopMode → LoopMode → Bool
same_loop off off = true
same_loop once once = true
same_loop always always = true
same_loop _ _ = false
