-- ===== src/Room/Messages.antt =====
-- What the server sends and does besides its writes: the payloads of src/contracts/schemas.ts and
-- the hints of src/server/realtime/broadcast/channels.ts.
use web_sync_play.Prelude.{ℕ, String, Bool, Option, List}
use web_sync_play.Room.State.{PlaybackState, LocalPlayback}

pub record RoomControl : Type 0 where
  pub generation : ℕ
  pub playback : PlaybackState
  pub current_index : ℕ
  pub updated_at : ℕ
  pub server_wall_now_ms : Option ℕ

pub record PresencePatch : Type 0 where
  pub connected : Option Bool
  pub last_seen_at : Option ℕ
  pub disconnected_at : Option ℕ
  pub username : Option String
  pub avatar_style : Option String
  pub local_playback : Option LocalPlayback

pub record PresenceBatch : Type 0 where
  pub presence_revision : ℕ
  pub participants : List (String × PresencePatch)

pub record AdmissionChanged : Type 0 where
  pub admission_version : ℕ
  pub owner_id : String
  pub join_password_enabled : Bool

-- `RoomPublishHint`
pub data PublishHint : Type 0 where
  control control_ephemeral presence snapshot control_snapshot action_log : PublishHint

pub data ErrorCode : Type 0 where
  unauthorized rate_limited invalid_payload not_joined : ErrorCode

-- A call of the broadcast bus, of the prune schedule or of the socket.
pub data Effect : Type 0 where
  clear_prune : String → Effect
  schedule_prune : String → Effect
  schedule_prune_due : String → Effect
  publish_control : RoomControl → Effect
  mark_snapshot_dirty : Effect
  mark_action_log_dirty : Effect
  mark_presence_dirty : String → PresencePatch → Effect
  publish_admission_changed : AdmissionChanged → Effect
  resolve_item : String → String → Effect
  reresolve_item : String → Effect
  nack : ErrorCode → Effect
