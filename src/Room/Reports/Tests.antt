-- ===== src/Room/Reports/Tests.antt =====
-- The theorems on src/server/realtime/services/local-playback-presence.ts, applied to concrete rooms, people
-- and messages.
use web_sync_play.Room.State.{SessionKind}
use web_sync_play.Room.Reports.{
  room_session, aggregate_local_playback_reports, LocalPlaybackReport, player_session,
  fresh_reports, Reports,
}
use web_sync_play.Prelude.{get_elem?, All, ◌∷◌, [], ◌≡◌, ◌⊎◌, ◌≤◌, true, false, some, none, ℕ, Bool}
use web_sync_play.Room.Reports.Aggregate.{IsPreferred, aggregate-IsPrimary}

abbrev sample : SessionKind → Bool → ℕ → LocalPlaybackReport
sample kind loading at = record {
  session_kind = kind;
  paused = false;
  current_time_ms = 5000;
  loading = loading;
  error = none;
  updated_at = at;
}

-- A player that loads, and an older tab of the room that is ready.
abbrev two_tabs : Reports
two_tabs = ("c1", sample player_session true 99000) ∷ ("c2", sample room_session false 98000) ∷ []

aggregate-IsPrimary_example :
    let fresh = fresh_reports two_tabs 100000 in
    ((fresh ≡ []) × (aggregate_local_playback_reports two_tabs 100000 ≡ none))
    ⊎ ((r : LocalPlaybackReport) × (last : LocalPlaybackReport) × ((i : ℕ) × (get_elem? fresh i
            ≡ some r))
        × All (IsPreferred r) fresh
        × ((j : ℕ) × (get_elem? fresh j ≡ some last))
        × All (λ q. q.updated_at ≤ last.updated_at) fresh
        × (aggregate_local_playback_reports two_tabs 100000
            ≡ some (record {
              paused = r.paused;
              current_time_ms = r.current_time_ms;
              loading = r.loading;
              error = r.error;
              updated_at = last.updated_at;
            })))
aggregate-IsPrimary_example = aggregate-IsPrimary two_tabs 100000
