-- ===== src/Room/Join.antt =====
-- Joining a room: src/server/realtime/handlers/join (admit.ts, profile.ts, membership-timing.ts and
-- commit-membership.ts). The limits' answers and the presence that is stored are arguments, and so is the
-- secret's check.
mod Tests
pub mod Seat
pub mod Succession
pub mod Full
pub mod Creator
use web_sync_play.Prelude.{
  ℕ, ◌+◌, String, Bool, true, false, not, ◌&&◌, ◌||◌, Option, none, some, List, [], ◌∷◌, map,
  str_eq, is_empty, trim, if◌then◌else◌, or_else, first_some, is_some, lookup, insert,
}
use web_sync_play.Room.State.{
  RoomState, RoomRole, owner, moderator, guest, DefaultJoinRole, Participant, LocalPlayback,
  PlaylistItem, remote_url, direct, resolving, off, SessionKind, Limits, Stamp,
}
use web_sync_play.Room.Timeline.{mark_current_media, bump_room_revisions}
use web_sync_play.Room.ActionLog.{append_action_log, LogDraft}
use web_sync_play.Room.Permissions.{SessionCapabilities, compute_session_capabilities}
use web_sync_play.Room.Ownership.{transfer_ownership_if_needed, join}
use web_sync_play.Room.Participants.{reconcile_participants_connectivity, after_transfer}
use web_sync_play.Room.Security.{
  Crypto, JoinAdmission, allowed, evaluate_join_admission, create_default_room_security,
  ensure_room_security,
}
use web_sync_play.Room.Repair.{repair_cleanup_and_check_room_state}
use web_sync_play.Room.Handlers.Members.{role_of}
use web_sync_play.UrlSafety.{Net, UrlSafety, safe, assert_public_http_url}
use web_sync_play.Room.Creation.{
  DailyDefault, evaluate_create_media_seed, create_initial_room_state,
}

pub data JoinRejectedReason : Type 0 where
  join_rate_limited media_url_unsupported : JoinRejectedReason
  not_admitted : JoinAdmission → JoinRejectedReason

pub data AdmitResult : Type 0 where
  admitted : Option String → Bool → AdmitResult
  rejected : JoinRejectedReason → AdmitResult

abbrev pub is_allowed : JoinAdmission → Bool
is_allowed allowed = true
is_allowed _ = false

-- The answers of the limits of the room and of the address.
unfoldable pub admit_join :
    Crypto
    → Net
    → Bool
    → Bool
    → Option String
    → Option String
    → Bool
    → Option RoomState
    → AdmitResult
admit_join crypto net room_ok ip_ok password initial_url skip existing =
    if not room_ok
    then rejected join_rate_limited
    else if not ip_ok
    then rejected join_rate_limited
    else elim (evaluate_create_media_seed net (is_some existing) initial_url skip) [
      | none ↦ rejected media_url_unsupported
      | some (seed, skips) ↦
          if is_allowed (evaluate_join_admission crypto existing password)
          then admitted seed skips
          else rejected (not_admitted (evaluate_join_admission crypto existing password))
    ]

-- What `commitJoinMembership` is given. The avatar is resolved.
pub record JoinRequest : Type 0 where
  pub room_id : String
  pub user_id : String
  pub username : String
  pub avatar_style : String
  pub password : Option String
  pub seed_url : Option String
  pub skip_default_media : Bool
  pub session_kind : SessionKind
  pub is_control_session : Bool
  pub control_authorized : Bool
  pub is_presence_already_tracked : Bool

pub record JoinCommit : Type 0 where
  pub state : RoomState
  pub disconnecting : List String
  pub reconnecting : List String
  pub capabilities : SessionCapabilities
  pub pure_reconnect : Bool

pub data JoinOutcome : Type 0 where
  refused : JoinAdmission → JoinOutcome
  joined : JoinCommit → JoinOutcome

-- `wasConnected` is the flag of the participant, if there is one.
abbrev pub was_connected : Option Participant → Bool
was_connected none = false
was_connected (some p) = p.connected

unfoldable pub should_append_participant_joined_log : Bool → Option Participant → Bool
should_append_participant_joined_log tracked existing = not tracked || not (was_connected existing)

abbrev pub role_on_join : JoinRequest → RoomState → Option Participant → RoomRole
role_on_join req s (some p) = p.role
role_on_join req s none =
    if str_eq s.owner_id req.user_id
    then owner
    else role_of (ensure_room_security s).room_security.default_join_role

abbrev pub playback_on_join : ℕ → Option LocalPlayback → Option Participant → LocalPlayback
playback_on_join now (some overlay) existing = record overlay {
  error =
      first_some overlay.error (elim existing [ none ↦ none | some p ↦ p.local_playback.error ]);
  updated_at = now;
}
playback_on_join now none (some p) = record (p.local_playback) { updated_at = now }
playback_on_join now none none = record {
  paused = true;
  current_time_ms = 0;
  loading = false;
  error = none;
  updated_at = now;
}

-- The name and the avatar of a participant who was there before stay.
unfoldable pub join_participant :
    JoinRequest → ℕ → Option LocalPlayback → RoomState → Option Participant → Participant
join_participant req now overlay s none = record {
  user_id = req.user_id;
  username = if is_empty req.username then "guest" else req.username;
  avatar_style = req.avatar_style;
  role = role_on_join req s none;
  connected = true;
  joined_at = some now;
  connected_at = some now;
  disconnected_at = none;
  last_seen_at = some now;
  local_playback = playback_on_join now overlay none;
  viewer_media = none;
}
join_participant req now overlay s (some p) = record {
  user_id = req.user_id;
  username = p.username;
  avatar_style = p.avatar_style;
  role = p.role;
  connected = true;
  joined_at = some (or_else p.joined_at now);
  connected_at = some now;
  disconnected_at = none;
  last_seen_at = some now;
  local_playback = playback_on_join now overlay (some p);
  viewer_media = p.viewer_media;
}

abbrev pub joined_draft : JoinRequest → String → LogDraft
joined_draft req username = record {
  room_id = req.room_id;
  actor_user_id = req.user_id;
  actor_username = some username;
  action = "participant:joined";
  payload = [];
  error = none;
}

-- The room with the participant in it, before ownership is healed.
unfoldable pub seat :
    JoinRequest → ℕ → Option LocalPlayback → RoomState → Option Participant → RoomState
unfolding join_participant ensure_room_security
seat req now overlay s existing =
    let secured = ensure_room_security s in
    record secured {
      participants =
          insert req.user_id (join_participant req now overlay secured existing) s.participants;
    }

abbrev pub final_role : String → RoomRole → RoomState → RoomRole
final_role user_id role s = elim (lookup user_id s.participants) [ none ↦ role | some p ↦ p.role ]

-- What follows the repair and the reconciliation. The role of a participant who was there before is
-- kept, and the owner changes only with a transfer, so a pure reconnect needs no further test of them.
unfoldable pub close_join :
    Limits → Stamp → JoinRequest → Option LocalPlayback → RoomState → RoomState × Bool
unfolding seat should_append_participant_joined_log
close_join limits stamp req overlay s =
    let existing = lookup req.user_id s.participants in
    let seated = seat req stamp.now overlay s existing in
    let transfer = transfer_ownership_if_needed limits stamp seated join in
    let owned = after_transfer seated transfer in
    let logs = should_append_participant_joined_log req.is_presence_already_tracked existing in
    let logged =
      if logs
      then append_action_log limits stamp owned
          (joined_draft req (join_participant req stamp.now overlay s existing).username)
      else owned in
    let marked = record (mark_current_media logged) { updated_at = stamp.now } in
    let pure_reconnect = is_some existing && (not logs && not (is_some transfer)) in
    (if pure_reconnect then marked else bump_room_revisions marked, pure_reconnect)

-- What is written once the user is admitted. `normalizeParticipantRoles` keeps a role that has its type.
unfoldable pub join_commit :
    Limits → Stamp → List String → Option LocalPlayback → JoinRequest → RoomState → JoinCommit
unfolding close_join
join_commit limits stamp active overlay req s =
    let repaired = (repair_cleanup_and_check_room_state limits stamp s).0 in
    let recon = reconcile_participants_connectivity repaired active stamp.now in
    let (next, pure_reconnect) = close_join limits stamp req overlay recon.state in
    record {
      state = next;
      disconnecting = recon.disconnecting;
      reconnecting = recon.reconnecting;
      capabilities =
          compute_session_capabilities
            (final_role req.user_id
              (role_on_join req recon.state (lookup req.user_id recon.state.participants)) next)
            req.session_kind req.is_control_session req.control_authorized;
      pure_reconnect = pure_reconnect;
    }

-- The closure of `updateRoom`. `overlay` is the playback that the presence of the user holds.
unfoldable pub commit_join_membership :
    Crypto
    → Limits
    → Stamp
    → Net
    → List DailyDefault
    → List String
    → Option LocalPlayback
    → JoinRequest
    → Option RoomState
    → JoinOutcome
unfolding join_commit create_initial_room_state
commit_join_membership crypto limits stamp net defaults active overlay req stored =
    let s = or_else stored (
      create_initial_room_state net stamp defaults req.room_id req.user_id req.seed_url
        req.skip_default_media) in
    let admission = evaluate_join_admission crypto (some s) req.password in
    if is_allowed admission
    then joined (join_commit limits stamp active overlay req s)
    else refused admission
