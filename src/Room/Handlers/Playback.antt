-- ===== src/Room/Handlers/Playback.antt =====
-- The bodies of src/server/realtime/handlers/playback.ts. The messages are parsed.
pub mod Continuity
use web_sync_play.Prelude.{
  ℕ, String, Bool, true, not, Option, none, some, List, [], ◌∷◌, ◌++◌, if◌then◌else◌,
}
use web_sync_play.Room.State.{
  RoomState, Participant, PayloadValue, text, number, hundredths, flag, LoopMode, off, once, always,
  same_loop, Limits, Stamp,
}
use web_sync_play.Room.Timeline.{
  resolve_current_timeline_ms, next_monotonic_ms, commit_playback_seek, reanchor_playback_at_now,
}
use web_sync_play.Room.ActionLog.{append_action_log, LogDraft}
use web_sync_play.Room.Mutate.{Attempt, write, Body, MessageContext}

-- `{ roomId, actorUserId, actorUsername, action, payload }` of a handler's log entry
abbrev pub draft : MessageContext → Participant → String → List (String × PayloadValue) → LogDraft
draft ctx p action payload = record {
  room_id = ctx.room_id;
  actor_user_id = ctx.user_id;
  actor_username = some p.username;
  action = action;
  payload = payload;
  error = none;
}

unfoldable pub playback_seek : Limits → Stamp → MessageContext → ℕ → Body
playback_seek limits stamp ctx target s p =
    let (playback, from_ms, to_ms) = commit_playback_seek s.playback target stamp.now in
    write (
      append_action_log limits stamp (record s { playback = playback })
        (draft ctx p "playback:seek"
          (("fromMs", number from_ms) ∷ ("toMs", hundredths to_ms) ∷ [])))

abbrev pub client_time : Option ℕ → List (String × PayloadValue)
client_time none = []
client_time (some at) = ("clientCurrentTimeMs", hundredths at) ∷ []

unfoldable pub set_playback_paused_state : Limits → Stamp → MessageContext → Option ℕ → Bool → Body
set_playback_paused_state limits stamp ctx client_ms paused s p =
    let anchor = resolve_current_timeline_ms s.playback stamp.now in
    write (
      append_action_log limits stamp
        (record s {
          playback = record (s.playback) {
            timeline_anchor_ms = anchor;
            paused = paused;
            server_now_ms = next_monotonic_ms s.playback.server_now_ms stamp.now;
          };
        })
        (draft ctx p (if paused then "playback:pause" else "playback:unpause")
          (("atMs", hundredths anchor) ∷ client_time client_ms)))

unfoldable pub playback_rate_set : Limits → Stamp → MessageContext → ℕ → Body
playback_rate_set limits stamp ctx rate s p = write (
    append_action_log limits stamp
      (record s {
        playback = record (reanchor_playback_at_now s.playback stamp.now) { playback_rate = rate };
      })
      (draft ctx p "playback:rate" (("playbackRate", hundredths rate) ∷ [])))

pub data LoopScope : Type 0 where
  video playlist : LoopScope

abbrev pub scope_text : LoopScope → String
scope_text video = "video"
scope_text playlist = "playlist"

abbrev pub loop_text : LoopMode → String
loop_text off = "off"
loop_text once = "once"
loop_text always = "always"

-- `state.playback[field]`
abbrev pub loop_mode : LoopScope → RoomState → LoopMode
loop_mode video s = s.playback.video_loop
loop_mode playlist s = s.playback.playlist_loop

abbrev pub with_loop_mode : LoopScope → LoopMode → RoomState → RoomState
with_loop_mode video mode s = record s { playback = record (s.playback) { video_loop = mode } }
with_loop_mode playlist mode s = record s {
  playback = record (s.playback) { playlist_loop = mode };
}

unfoldable pub set_playback_loop_mode :
    Limits → Stamp → MessageContext → LoopScope → LoopMode → Body
set_playback_loop_mode limits stamp ctx scope mode s p =
    let t = with_loop_mode scope mode s in
    write (
      if same_loop (loop_mode scope s) mode
      then t
      else append_action_log limits stamp t (
          draft ctx p "playback:loop" (
            ("scope", text (scope_text scope))
            ∷ ("previousMode", text (loop_text (loop_mode scope s)))
            ∷ ("nextMode", text (loop_text mode))
            ∷ ("enabled", flag (not (same_loop mode off)))
            ∷ [])))
