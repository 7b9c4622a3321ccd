-- ===== src/Room/Presence.antt =====
-- `handleParticipantUpdate` of src/server/realtime/handlers/participant.ts, with the presence that it
-- stores, and src/server/realtime/services/local-playback-report-lifecycle.ts. What the store holds of
-- a user's presence is an argument.
mod Tests
pub mod Ticks
use web_sync_play.Prelude.{
  ℕ, String, Bool, true, not, ◌&&◌, ◌||◌, Option, none, some, List, [], ◌∷◌, ◌++◌, if◌then◌else◌,
  or_else, first_some, is_some, lookup,
}
use web_sync_play.Room.State.{RoomState, Participant, LocalPlayback, SessionKind, Limits, Stamp}
use web_sync_play.Room.Messages.{PresencePatch, Effect, mark_presence_dirty}
use web_sync_play.Room.Security.{Crypto}
use web_sync_play.Room.Mutate.{Attempt, abort, Commit, MessageContext}
use web_sync_play.Room.Reports.{
  LocalPlaybackReport, Reports, aggregate_local_playback_reports, upsert_local_playback_report,
  remove_local_playback_report,
}
use web_sync_play.Room.Handlers.{RoomMessage, update, handle_message}
use web_sync_play.Room.Handlers.Update.{
  ParticipantPatch, ParticipantUpdate, resolve_participant_update, same_text,
}

-- `PresencePatch` with its `localPlaybackReports`, which clients never get.
pub record StoredPresence : Type 0 where
  pub patch : PresencePatch
  pub reports : Option Reports

abbrev pub playback_of_report : LocalPlaybackReport → LocalPlayback
playback_of_report r = record {
  paused = r.paused;
  current_time_ms = r.current_time_ms;
  loading = r.loading;
  error = r.error;
  updated_at = r.updated_at;
}

abbrev pub reports_of : Option StoredPresence → Reports
reports_of none = []
reports_of (some presence) = or_else presence.reports []

-- The last sample of the connection, or else the participant's.
abbrev pub previous_for_connection : Reports → String → Participant → Participant
previous_for_connection reports connection_id p = elim (lookup connection_id reports) [
  | none ↦ p
  | some r ↦ record p { local_playback = playback_of_report r }
]

unfoldable pub presence_patch_from_aggregated : ParticipantUpdate → LocalPlayback → PresencePatch
presence_patch_from_aggregated changes playback = record {
  connected = some true;
  last_seen_at = some changes.now;
  disconnected_at = none;
  username = some changes.next_username;
  avatar_style = some changes.next_avatar_style;
  local_playback = some playback;
}

-- What an update stores of the presence, and the message that it sends to the room, if any.
pub record UpdatePlan : Type 0 where
  pub presence : Option StoredPresence
  pub message : Option RoomMessage

abbrev pub is_heartbeat : ParticipantUpdate → Bool
is_heartbeat changes = not changes.identity_dirty && not changes.playback_dirty

abbrev pub stored_presence : ParticipantUpdate → LocalPlayback → Reports → StoredPresence
stored_presence changes playback reports = record {
  patch = presence_patch_from_aggregated changes playback;
  reports = some reports;
}

-- What follows `resolveParticipantUpdate`.
unfoldable pub plan_of :
    String → SessionKind → Option (Option String) → Reports → ParticipantUpdate → UpdatePlan
plan_of connection_id kind error old changes =
    let reports = upsert_local_playback_report old connection_id kind changes.local_playback in
    let aggregated =
      or_else (aggregate_local_playback_reports reports changes.now) changes.local_playback in
    let stored = changes.playback_dirty || is_heartbeat changes in
    let playback = if stored then aggregated else changes.local_playback in
    record {
      presence = if stored then some (stored_presence changes aggregated reports) else none;
      message =
          if changes.identity_dirty
            || (changes.playback_dirty
                && not (same_text changes.local_playback.error changes.previous_error))
          then some (update changes playback error)
          else none;
    }

unfoldable pub plan_participant_update :
    MessageContext → SessionKind → ParticipantPatch → ℕ → Participant → Reports → UpdatePlan
unfolding plan_of
plan_participant_update ctx kind patch now p old =
    plan_of ctx.connection_id kind patch.error old
      (resolve_participant_update (previous_for_connection old ctx.connection_id p) patch now)

abbrev pub mark_stored : String → Option StoredPresence → List Effect
mark_stored user_id none = []
mark_stored user_id (some presence) = mark_presence_dirty user_id presence.patch ∷ []

abbrev pub run_message :
    Crypto
    → Limits
    → Stamp
    → List String
    → MessageContext
    → Option RoomMessage
    → Option RoomState
    → Attempt Commit × List Effect
run_message crypto limits stamp active ctx none stored = (abort, [])
run_message crypto limits stamp active ctx (some m) stored =
    handle_message crypto limits stamp active ctx m stored

abbrev pub participant_in : String → Option RoomState → Option Participant
participant_in user_id none = none
participant_in user_id (some s) = lookup user_id s.participants

-- `seen` is the answer of `store.get`, and `stored` the room of the deciding attempt. The first part
-- is what `mergePresenceData` is given.
unfoldable pub handle_participant_update :
    Crypto
    → Limits
    → Stamp
    → List String
    → MessageContext
    → SessionKind
    → ParticipantPatch
    → Option RoomState
    → Option StoredPresence
    → Option RoomState
    → Option StoredPresence × Attempt Commit × List Effect
unfolding plan_participant_update
handle_participant_update crypto limits stamp active ctx kind patch seen presence stored =
    elim (participant_in ctx.user_id seen) [
      | none ↦ (none, abort, [])
      | some p ↦
          let plan = plan_participant_update ctx kind patch stamp.now p (reports_of presence) in
          let (result, effects) = run_message crypto limits stamp active ctx plan.message stored in
          (plan.presence, result, mark_stored ctx.user_id plan.presence ++ effects)
    ]

-- `none` where the connection had no report.
unfoldable pub clear_connection_local_playback_report :
    Option StoredPresence → String → ℕ → Option StoredPresence
clear_connection_local_playback_report none connection_id now = none
clear_connection_local_playback_report (some existing) connection_id now =
    let reports = or_else existing.reports [] in
    let next = remove_local_playback_report reports connection_id now in
    if is_some (lookup connection_id reports)
    then some (record {
      patch = record (existing.patch) {
        last_seen_at = some now;
        local_playback =
            first_some (aggregate_local_playback_reports next now) existing.patch.local_playback;
      };
      reports = some next;
    })
    else none
