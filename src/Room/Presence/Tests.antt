-- ===== src/Room/Presence/Tests.antt =====
-- The theorems on src/server/realtime/handlers/participant.ts, applied to concrete rooms, people and messages.
use web_sync_play.Room.State.{room_session, player_session}
use web_sync_play.Room.Handlers.Update.{resolve_participant_update, ParticipantPatch}
use web_sync_play.Room.Reports.{is_fresh, report_of, Reports}
use web_sync_play.Room.Presence.{StoredPresence, previous_for_connection, plan_participant_update}
use web_sync_play.Prelude.{All, lookup, refl, ◌∷◌, [], ◌≡◌, true, false, some, none}
use web_sync_play.Room.Samples.{sender, bob}
use web_sync_play.Room.Presence.Ticks.{tick_stays_out}

abbrev heartbeat : ParticipantPatch
heartbeat = record {
  username = none;
  avatar_style = none;
  paused = some false;
  current_time_ms = some 5000;
  loading = some false;
  error = none;
}

abbrev one_tab : Reports
one_tab =
    (
      "c2",
      record {
        session_kind = player_session;
        paused = false;
        current_time_ms = 4000;
        loading = false;
        error = none;
        updated_at = 99000;
      },
    )
    ∷ []

tick_stays_out_example :
    let plan =
      plan_participant_update
        (sender "bob")
        room_session
        heartbeat
        100000
        (record bob { avatar_style = "lorelei" })
        one_tab in
    let changes =
      resolve_participant_update
        (previous_for_connection one_tab
          (sender "bob").connection_id
          (record bob { avatar_style = "lorelei" }))
        heartbeat
        100000 in
    (plan.message ≡ none)
    × ((w : StoredPresence) × (reports : Reports) × (plan.presence ≡ some w)
        × (w.reports ≡ some reports)
        × (lookup (sender "bob").connection_id reports
            ≡ some (report_of room_session changes.local_playback))
        × All (λ e. is_fresh 100000 e ≡ true) reports)
unfolding web_sync_play.Room.Handlers.Update.resolve_style
tick_stays_out_example =
    tick_stays_out (sender "bob") room_session heartbeat 100000
      (record bob { avatar_style = "lorelei" }) one_tab refl refl refl refl
