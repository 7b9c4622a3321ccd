-- ===== src/Room/ActionLog.antt =====
-- src/server/log.ts, with `trackedActionTypes` from src/shared/log-format.ts and the age from
-- src/shared/room-lifecycle.ts.
pub mod Bounds
use web_sync_play.Prelude.{
  ℕ, suc, ◌+◌, ◌-◌, ◌*◌, String, Bool, Option, none, some, List, [], ◌∷◌, ◌++◌, ltb, leb, str_eq,
  if◌then◌else◌, length, keep, any, take_last,
}
use web_sync_play.Room.State.{RoomState, ActionLogEntry, PayloadValue, Limits, Stamp}

abbrev pub visible_action_types : List String
visible_action_types =
    "participant:joined" ∷ "participant:disconnected" ∷ "participant:username"
    ∷ "participant:role:changed" ∷ "participant:owner:transferred" ∷ "participant:error"
    ∷ "playback:pause" ∷ "playback:unpause" ∷ "playback:rate" ∷ "playback:seek" ∷ "playback:loop"
    ∷ "playlist:add" ∷ "playlist:remove" ∷ "playlist:reorder" ∷ "media:played" ∷ []

abbrev pub server_only_action_types : List String
server_only_action_types =
    "room:password:set" ∷ "room:password:cleared" ∷ "room:default-role:set" ∷ []

unfoldable pub is_tracked : String → Bool
is_tracked action = any (str_eq action) (visible_action_types ++ server_only_action_types)

abbrev pub room_action_log_max_age_ms : ℕ
room_action_log_max_age_ms = 3600 * 1000

-- An entry is kept if `entry.at >= now - maxAge`; the sum avoids the difference below zero.
abbrev pub is_recent : ℕ → ActionLogEntry → Bool
is_recent now entry = leb now (entry.at + room_action_log_max_age_ms)

unfoldable pub prune_action_log : Limits → List ActionLogEntry → ℕ → List ActionLogEntry
prune_action_log limits log now =
    let next = keep (is_recent now) log in
    if ltb limits.room_action_log_limit (length next)
    then take_last limits.room_action_log_limit next
    else next

-- What the callers give; `id` and `at` come from the stamp.
pub record LogDraft : Type 0 where
  pub room_id : String
  pub actor_user_id : String
  pub actor_username : Option String
  pub action : String
  pub payload : List (String × PayloadValue)
  pub error : Option String

unfoldable pub logged : Limits → Stamp → List ActionLogEntry → LogDraft → List ActionLogEntry
unfolding is_tracked prune_action_log
logged limits stamp log draft =
    if is_tracked draft.action then prune_action_log limits (log ++ entry ∷ []) stamp.now else log
  where
    entry : ActionLogEntry
    entry = record {
      id = stamp.log_id;
      at = stamp.now;
      room_id = draft.room_id;
      actor_user_id = draft.actor_user_id;
      actor_username = draft.actor_username;
      action = draft.action;
      payload = draft.payload;
      error = draft.error;
    }

unfoldable pub append_action_log : Limits → Stamp → RoomState → LogDraft → RoomState
append_action_log limits stamp s draft = record s {
  action_log = logged limits stamp s.action_log draft;
}
