-- ===== src/Room/Reports.antt =====
-- src/server/realtime/services/local-playback-presence.ts: the playback samples of one user's
-- connections, and the one sample that the room sees. Times are as in Room.State.
mod Tests
pub mod Aggregate
use web_sync_play.Prelude.{
  ℕ, ◌-◌, max, String, Bool, true, false, not, ◌&&◌, Option, none, some, List, [], ◌∷◌, ltb, leb,
  if◌then◌else◌, lookup, insert, erase, is_some, keep, map,
}
use web_sync_play.Room.State.{
  SessionKind, player_session, room_session, embed_session, control_session, LocalPlayback,
}

pub record LocalPlaybackReport : Type 0 where
  pub session_kind : SessionKind
  pub paused : Bool
  pub current_time_ms : ℕ
  pub loading : Bool
  pub error : Option String
  pub updated_at : ℕ

abbrev pub Reports : Type 0
Reports = List (String × LocalPlaybackReport)

abbrev pub local_playback_report_stale_ms : ℕ
local_playback_report_stale_ms = 15000

abbrev pub session_priority : SessionKind → ℕ
session_priority player_session = 3
session_priority room_session = 2
session_priority embed_session = 2
session_priority control_session = 1

-- A difference that is negative in the source is below the limit, as 0 is.
abbrev pub is_fresh : ℕ → String × LocalPlaybackReport → Bool
is_fresh now e = leb (now - e.1.updated_at) local_playback_report_stale_ms

unfoldable pub prune_local_playback_reports : Reports → ℕ → Reports
prune_local_playback_reports reports now = keep (is_fresh now) reports

-- `Object.values(pruneLocalPlaybackReports(reports, now))`
unfoldable pub fresh_reports : Reports → ℕ → List LocalPlaybackReport
unfolding prune_local_playback_reports
fresh_reports reports now = map (λ e. e.1) (prune_local_playback_reports reports now)

-- The comparison of the sort is negative.
abbrev pub ranks_before : LocalPlaybackReport → LocalPlaybackReport → Bool
ranks_before a b =
    if a.loading
    then b.loading && ranks_in_session
    else if b.loading
    then true
    else ranks_in_session
  where
    ranks_in_session : Bool
    ranks_in_session =
        if ltb (session_priority b.session_kind) (session_priority a.session_kind)
        then true
        else if ltb (session_priority a.session_kind) (session_priority b.session_kind)
        then false
        else ltb b.updated_at a.updated_at

-- `sort`, which is stable.
pub rank_in : LocalPlaybackReport → List LocalPlaybackReport → List LocalPlaybackReport
rank_in r [] = r ∷ []
rank_in r (q ∷ rest) = if ranks_before q r then q ∷ rank_in r rest else r ∷ q ∷ rest

pub ranked : List LocalPlaybackReport → List LocalPlaybackReport
unfolding rank_in
ranked [] = []
ranked (r ∷ rest) = rank_in r (ranked rest)

abbrev pub all_loading : List LocalPlaybackReport → Bool
all_loading [] = true
all_loading (r ∷ rest) = r.loading && all_loading rest

abbrev pub latest : List LocalPlaybackReport → ℕ
latest [] = 0
latest (r ∷ rest) = max r.updated_at (latest rest)

-- What the first of the ranking makes of the fresh reports.
unfoldable pub collapse : List LocalPlaybackReport → List LocalPlaybackReport → Option LocalPlayback
collapse fresh [] = none
collapse fresh (primary ∷ rest) = some (record {
  paused = primary.paused;
  current_time_ms = primary.current_time_ms;
  loading = all_loading fresh;
  error = primary.error;
  updated_at = latest fresh;
})

unfoldable pub aggregate_local_playback_reports : Reports → ℕ → Option LocalPlayback
unfolding fresh_reports ranked collapse
aggregate_local_playback_reports reports now =
    collapse (fresh_reports reports now) (ranked (fresh_reports reports now))

abbrev pub report_of : SessionKind → LocalPlayback → LocalPlaybackReport
report_of kind snapshot = record {
  session_kind = kind;
  paused = snapshot.paused;
  current_time_ms = snapshot.current_time_ms;
  loading = snapshot.loading;
  error = snapshot.error;
  updated_at = snapshot.updated_at;
}

unfoldable pub upsert_local_playback_report :
    Reports → String → SessionKind → LocalPlayback → Reports
unfolding prune_local_playback_reports
upsert_local_playback_report reports connection_id kind snapshot =
    prune_local_playback_reports (insert connection_id (report_of kind snapshot) reports)
      snapshot.updated_at

unfoldable pub remove_local_playback_report : Reports → String → ℕ → Reports
unfolding prune_local_playback_reports
remove_local_playback_report reports connection_id now =
    if not (is_some (lookup connection_id reports))
    then prune_local_playback_reports reports now
    else prune_local_playback_reports (erase connection_id reports) now
