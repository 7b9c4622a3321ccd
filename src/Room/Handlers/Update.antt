-- ===== src/Room/Handlers/Update.antt =====
-- `participant:update` of src/server/realtime/handlers/participant.ts: what a parsed update changes, and
-- the body of its write; with `resolveStyle` of src/shared/avatar.ts.
use web_sync_play.Prelude.{
  ℕ, ◌+◌, ◌-◌, String, Bool, true, false, not, ◌||◌, Option, none, some, List, [], ◌∷◌, leb, str_eq,
  is_empty, trim, any, if◌then◌else◌, or_else, modify,
}
use web_sync_play.Room.State.{
  RoomState, Participant, LocalPlayback, text, hundredths, Limits, Stamp,
}
use web_sync_play.Room.ActionLog.{append_action_log, LogDraft}
use web_sync_play.Room.Mutate.{write, Body, MessageContext}

abbrev pub avatar_styles : List String
avatar_styles = "adventurer" ∷ "avataaars" ∷ "lorelei" ∷ []

unfoldable pub resolve_style : String → String
resolve_style style = if any (str_eq style) avatar_styles then style else "adventurer"

-- `error` may be absent, `null` or a text.
pub record ParticipantPatch : Type 0 where
  pub username : Option String
  pub avatar_style : Option String
  pub paused : Option Bool
  pub current_time_ms : Option ℕ
  pub loading : Option Bool
  pub error : Option (Option String)

-- 750 ms, in hundredths
abbrev pub playback_time_dirty : ℕ
playback_time_dirty = 75000

abbrev pub text_or_none : String → Option String
text_or_none t = if is_empty t then none else some t

unfoldable pub resolve_local_playback_error : Option (Option String) → Option String → Option String
resolve_local_playback_error none previous = previous
resolve_local_playback_error (some none) previous = none
resolve_local_playback_error (some (some t)) previous = text_or_none (trim t)

-- `a === b` of texts that may be absent
abbrev pub same_text : Option String → Option String → Bool
same_text none none = true
same_text (some a) (some b) = str_eq a b
same_text _ _ = false

abbrev pub same_flag : Bool → Bool → Bool
same_flag a b = if a then b else not b

pub record ParticipantUpdate : Type 0 where
  pub previous_username : String
  pub previous_error : Option String
  pub next_username : String
  pub next_avatar_style : String
  pub local_playback : LocalPlayback
  pub identity_dirty : Bool
  pub playback_dirty : Bool
  pub now : ℕ

-- `Math.abs(a - b)` is the sum of the truncated differences.
unfoldable pub resolve_participant_update : Participant → ParticipantPatch → ℕ → ParticipantUpdate
unfolding resolve_style resolve_local_playback_error
resolve_participant_update p patch now =
    let old = p.local_playback in
    let username = or_else patch.username p.username in
    let avatar = resolve_style (or_else patch.avatar_style p.avatar_style) in
    let paused = or_else patch.paused old.paused in
    let time = or_else patch.current_time_ms old.current_time_ms in
    let loading = or_else patch.loading old.loading in
    let error = resolve_local_playback_error patch.error old.error in
    record {
      previous_username = p.username;
      previous_error = old.error;
      next_username = username;
      next_avatar_style = avatar;
      local_playback = record {
        paused = paused;
        current_time_ms = time;
        loading = loading;
        error = error;
        updated_at = now;
      };
      identity_dirty = not (str_eq username p.username) || not (str_eq avatar p.avatar_style);
      playback_dirty =
          not (same_flag paused old.paused)
          || (not (same_flag loading old.loading)
              || (not (same_text error old.error)
                  || leb playback_time_dirty
                      ((time - old.current_time_ms) + (old.current_time_ms - time))));
      now = now;
    }

abbrev pub username_draft : MessageContext → ParticipantUpdate → LogDraft
username_draft ctx update = record {
  room_id = ctx.room_id;
  actor_user_id = ctx.user_id;
  actor_username = some update.next_username;
  action = "participant:username";
  payload =
      ("previousUsername", text update.previous_username)
      ∷ ("nextUsername", text update.next_username)
      ∷ [];
  error = none;
}

abbrev pub error_draft : MessageContext → String → ℕ → String → LogDraft
error_draft ctx username time error = record {
  room_id = ctx.room_id;
  actor_user_id = ctx.user_id;
  actor_username = some username;
  action = "participant:error";
  payload = ("currentTimeMs", hundredths time) ∷ [];
  error = some error;
}

abbrev pub with_update : ParticipantUpdate → LocalPlayback → Participant → Participant
with_update update playback p =
    if update.identity_dirty
    then record p {
      username = update.next_username;
      avatar_style = update.next_avatar_style;
      local_playback = playback;
    }
    else record p { local_playback = playback }

unfoldable pub log_username :
    Limits → Stamp → MessageContext → ParticipantUpdate → RoomState → RoomState
log_username limits stamp ctx update s =
    if update.identity_dirty
    then if str_eq update.next_username update.previous_username
      then s
      else append_action_log limits stamp s (username_draft ctx update)
    else s

-- The text of `participantResult.error`, before it is trimmed.
unfoldable pub log_error :
    Limits
    → Stamp
    → MessageContext
    → Option String
    → Option (Option String)
    → String
    → ℕ
    → RoomState
    → RoomState
log_error limits stamp ctx previous none username time s = s
log_error limits stamp ctx previous (some none) username time s = s
log_error limits stamp ctx previous (some (some error)) username time s =
    if same_text previous (some error)
    then s
    else append_action_log limits stamp s (error_draft ctx username time error)

-- The closure that is given to `mutateRoomMessage`, with the aggregated playback.
unfoldable pub participant_update :
    Limits
    → Stamp
    → MessageContext
    → ParticipantUpdate
    → LocalPlayback
    → Option (Option String)
    → Body
unfolding log_username log_error
participant_update limits stamp ctx update playback error s p =
    let updated = record s {
      participants = modify ctx.user_id (with_update update playback) s.participants;
    } in
    write (
      log_error limits stamp ctx update.previous_error error
        (with_update update playback p).username playback.current_time_ms
        (log_username limits stamp ctx update updated))
