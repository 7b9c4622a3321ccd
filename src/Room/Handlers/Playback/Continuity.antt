-- ===== src/Room/Handlers/Playback/Continuity.antt =====
-- What the messages of src/server/realtime/handlers/playback.ts do to the place on the timeline.
use web_sync_play.Prelude.{
  lookup, ℕ, ◌+◌, ◌-◌, ◌*◌, ◌≡◌, refl, max, min, String, Bool, true, Option, none, some, List,
  arith, if◌then◌else◌, sym, subst,
}
use web_sync_play.Room.State.{RoomState, PlaybackState, Participant, Limits, Stamp}
use web_sync_play.Room.Messages.{PublishHint, control}
use web_sync_play.Room.Timeline.{
  resolve_current_timeline_ms, commit_playback_seek, reanchor_playback_at_now, next_monotonic_ms,
  mark_current_media,
}
use web_sync_play.Room.ActionLog.{append_action_log}
use web_sync_play.Room.Participants.{reconcile_participant, reconcile_participants_connectivity}
use web_sync_play.Room.Repair.{
  repair_cleanup_and_check_room_state, repair_playlist_state, sanitize_playback,
}
use web_sync_play.Room.Mutate.{
  write, Body, MessageContext, mutate_once, finish_message, close_message, Commit, controlled,
}
use web_sync_play.Room.Mutate.Gate.{controlled_writes}
use web_sync_play.Room.Permissions.{can_control_from_connection_context}
use web_sync_play.Room.Handlers.Playback.{
  playback_seek, set_playback_paused_state, playback_rate_set,
}

-- What the frame leaves of the playback that a body sets.
abbrev IsFramed : PlaybackState → PlaybackState → Type 0
IsFramed pb t =
    (t.paused ≡ pb.paused)
    × (t.timeline_anchor_ms ≡ pb.timeline_anchor_ms)
    × (t.server_now_ms ≡ pb.server_now_ms)
    × (t.seek_preview ≡ pb.seek_preview)
    × (t.playback_rate ≡ min 300 (max 25 pb.playback_rate))

finish_playback :
    (limits : Limits) (stamp : Stamp) (user_id : String) (hint : PublishHint) (s : RoomState)
    → IsFramed s.playback (finish_message limits stamp user_id hint s).playback
unfolding finish_message close_message mark_current_media repair_cleanup_and_check_room_state
    repair_playlist_state sanitize_playback
finish_playback limits stamp user_id hint s =
    (ground arith, ground arith, ground arith, ground arith, ground arith)

-- What the room plays once a body that leaves the playback `pb` is written.
playback_written :
    (limits : Limits) (stamp : Stamp) (active : List String) (ctx : MessageContext) (body : Body)
    (s next : RoomState) (p : Participant) (pb : PlaybackState)
    → lookup ctx.user_id s.participants ≡ some p
    → can_control_from_connection_context s ctx.user_id ctx.auth ≡ true
    → body
        (reconcile_participants_connectivity s active stamp.now).state
        (reconcile_participant active stamp.now p)
      ≡ write next
    → next.playback ≡ pb
    → (c : Commit) × (mutate_once limits stamp active ctx.user_id
          (controlled ctx body)
          control
          (some s)
        ≡ write c)
      × IsFramed pb c.state.playback
playback_written limits stamp active ctx body s next p pb e g run left =
    let (c, w, f) = controlled_writes limits stamp active ctx body control s next p e g run in
    let framed =
      subst (λ x. IsFramed x (finish_message limits stamp ctx.user_id control next).playback) left
        (finish_playback limits stamp ctx.user_id control next) in
    (c, w, subst (λ t. IsFramed pb t.playback) (sym f) framed)

-- A pause or a play of a participant who may control the room is written, and keeps the place that the
-- room had when the message came: from then on a paused room stays there, and a playing one moves on
-- from there at its rate, kept between 0.25 and 3, once the new clock is reached.
pub set_paused_continues :
    (limits : Limits) (stamp : Stamp) (active : List String) (ctx : MessageContext)
    (client_ms : Option ℕ) (paused : Bool) (s : RoomState) (p : Participant) (later : ℕ)
    → lookup ctx.user_id s.participants ≡ some p
    → can_control_from_connection_context s ctx.user_id ctx.auth ≡ true
    → let was = resolve_current_timeline_ms s.playback stamp.now in
      let clock = max (s.playback.server_now_ms + 1) stamp.now in
      let rate = min 300 (max 25 s.playback.playback_rate) in
      (c : Commit) × (mutate_once limits stamp active ctx.user_id
          (controlled ctx (set_playback_paused_state limits stamp ctx client_ms paused))
          control
          (some s)
        ≡ write c)
      × (resolve_current_timeline_ms c.state.playback later
          ≡ (if paused then was else was + (later - clock) * rate))
unfolding set_playback_paused_state resolve_current_timeline_ms append_action_log next_monotonic_ms
    reconcile_participants_connectivity
set_paused_continues limits stamp active ctx client_ms paused s p later e g =
    let (c, w, facts) =
      playback_written limits stamp active ctx
        (set_playback_paused_state limits stamp ctx client_ms paused) s _ p _ e g refl refl in
    (c, w, ground (arith, facts))

-- A seek of a participant who may control the room is written. At the new clock the room stands at the
-- target, it is paused as before, and the seek preview is gone.
pub seek_lands :
    (limits : Limits) (stamp : Stamp) (active : List String) (ctx : MessageContext) (target : ℕ)
    (s : RoomState) (p : Participant)
    → lookup ctx.user_id s.participants ≡ some p
    → can_control_from_connection_context s ctx.user_id ctx.auth ≡ true
    → (c : Commit) × (mutate_once limits stamp active ctx.user_id
          (controlled ctx (playback_seek limits stamp ctx target))
          control
          (some s)
        ≡ write c)
      × (resolve_current_timeline_ms c.state.playback c.state.playback.server_now_ms ≡ target)
      × (c.state.playback.server_now_ms ≡ max (s.playback.server_now_ms + 1) stamp.now)
      × (c.state.playback.paused ≡ s.playback.paused)
      × (c.state.playback.seek_preview ≡ none)
unfolding playback_seek commit_playback_seek resolve_current_timeline_ms append_action_log
    next_monotonic_ms reconcile_participants_connectivity
seek_lands limits stamp active ctx target s p e g =
    let (c, w, facts) =
      playback_written limits stamp active ctx (playback_seek limits stamp ctx target) s _ p _ e g
        refl refl in
    (
      c,
      w,
      ground (arith, facts),
      ground (arith, facts),
      ground (arith, facts),
      ground (arith, facts),
    )

-- A change of the rate by a participant who may control the room is written, and is continuous: at the
-- new clock the room stands where it stood when the message came, and from there a playing room moves
-- at the new rate, kept between 0.25 and 3.
pub rate_continues :
    (limits : Limits) (stamp : Stamp) (active : List String) (ctx : MessageContext) (rate : ℕ)
    (s : RoomState) (p : Participant) (later : ℕ)
    → lookup ctx.user_id s.participants ≡ some p
    → can_control_from_connection_context s ctx.user_id ctx.auth ≡ true
    → let was = resolve_current_timeline_ms s.playback stamp.now in
      let clock = max (s.playback.server_now_ms + 1) stamp.now in
      (c : Commit) × (mutate_once limits stamp active ctx.user_id
          (controlled ctx (playback_rate_set limits stamp ctx rate))
          control
          (some s)
        ≡ write c)
      × (resolve_current_timeline_ms c.state.playback later
          ≡ (if s.playback.paused then was else was + (later - clock) * min 300 (max 25 rate)))
unfolding playback_rate_set reanchor_playback_at_now resolve_current_timeline_ms append_action_log
    next_monotonic_ms reconcile_participants_connectivity
rate_continues limits stamp active ctx rate s p later e g =
    let (c, w, facts) =
      playback_written limits stamp active ctx (playback_rate_set limits stamp ctx rate) s _ p _ e g
        refl refl in
    (c, w, ground (arith, facts))
