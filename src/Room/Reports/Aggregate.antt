-- ===== src/Room/Reports/Aggregate.antt =====
-- Which sample stands for a user: src/server/realtime/services/local-playback-presence.ts.
use native.Mathlib.Decide.{dec_lt}
use web_sync_play.Prelude.{
  ap, ◌⊎◌, sym, ◌∙◌, ℕ, zero, suc, ◌≡◌, ◌≤◌, ◌<◌, ◌+◌, refl, true, false, none, some, List, [], ◌∷◌,
  arith, inl, inr, Bool-cases, get_elem?, All,
}
use web_sync_play.Room.State.{
  SessionKind, player_session, room_session, embed_session, control_session,
}
use web_sync_play.Room.Reports.{
  session_priority, LocalPlaybackReport, Reports, ranks_before, rank_in, ranked, all_loading,
  latest, fresh_reports, collapse, aggregate_local_playback_reports,
}

-- A report of the list that no other ranks before.
abbrev pub IsPrimary : LocalPlaybackReport → List LocalPlaybackReport → Type 0
IsPrimary r reports =
    ((i : ℕ) × (get_elem? reports i ≡ some r)) × All (λ q. ranks_before q r ≡ false) reports

ranks_trans :
    (p q r : LocalPlaybackReport)
    → ranks_before p q ≡ false
    → ranks_before q r ≡ false
    → ranks_before p r ≡ false
ranks_trans p q r h k = ground arith

ranks_refl : (r : LocalPlaybackReport) → ranks_before r r ≡ false
ranks_refl r = ground arith

All-ranks :
    (p r : LocalPlaybackReport) (reports : List LocalPlaybackReport)
    → ranks_before r p ≡ false
    → All (λ q. ranks_before q r ≡ false) reports
    → All (λ q. ranks_before q p ≡ false) reports
All-ranks p r [] h all = tt
All-ranks p r (q ∷ rest) h (first, all) = (ranks_trans q r p first h, All-ranks p r rest h all)

ranks_asym : (p r : LocalPlaybackReport) → ranks_before r p ≡ true → ranks_before p r ≡ false
ranks_asym p r h = ground arith

-- The first of the ranking is primary.
ranked_head :
    (reports : List LocalPlaybackReport)
    → (reports ≡ [])
      ⊎ ((r : LocalPlaybackReport) × (rest : List LocalPlaybackReport) × (ranked reports ≡ r ∷ rest)
          × IsPrimary r reports)
unfolding ranked rank_in
ranked_head [] = inl refl
ranked_head (p ∷ []) = inr (p, [], refl, ((0, refl), (ranks_refl p, tt)))
ranked_head (p ∷ q ∷ rest) = elim (ranked_head (q ∷ rest)) [
  | inl e ↦ cc
  | inr (r, tail, e, ((i, at), all)) ↦ elim (Bool-cases (ranks_before r p)) [
    | inl t ↦ inr (r, rank_in p tail, rw (e, t), ((suc i, at), (ranks_asym p r t, all)))
    | inr f ↦
        inr (p, r ∷ tail, rw (e, f), ((0, refl), (ranks_refl p, All-ranks p r (q ∷ rest) f all)))
  ]
]

all_loading_primary :
    (r : LocalPlaybackReport) (reports : List LocalPlaybackReport)
    → r.loading ≡ true
    → All (λ q. ranks_before q r ≡ false) reports
    → all_loading reports ≡ true
all_loading_primary r [] h all = refl
all_loading_primary r (q ∷ rest) h (first, all) = ground (arith, all_loading_primary r rest h all)

all_loading_ready :
    (r : LocalPlaybackReport) (reports : List LocalPlaybackReport) (i : ℕ)
    → r.loading ≡ false
    → get_elem? reports i ≡ some r
    → all_loading reports ≡ false
all_loading_ready r [] i h e = cc
all_loading_ready r (q ∷ rest) zero h e = ground arith
all_loading_ready r (q ∷ rest) (suc i) h e = ground (arith, all_loading_ready r rest i h e)

primary_loading :
    (r : LocalPlaybackReport) (reports : List LocalPlaybackReport)
    → IsPrimary r reports
    → all_loading reports ≡ r.loading
primary_loading r reports ((i, at), all) = elim (Bool-cases r.loading) [
  | inl e ↦ all_loading_primary r reports e all ∙ sym e
  | inr e ↦ all_loading_ready r reports i e at ∙ sym e
]

collapse_primary :
    (r : LocalPlaybackReport) (rest fresh : List LocalPlaybackReport)
    → IsPrimary r fresh
    → collapse fresh (r ∷ rest)
      ≡ some (record {
        paused = r.paused;
        current_time_ms = r.current_time_ms;
        loading = r.loading;
        error = r.error;
        updated_at = latest fresh;
      })
unfolding collapse
collapse_primary r rest fresh primary = rw (primary_loading r fresh primary)

All-latest :
    (reports : List LocalPlaybackReport) (n : ℕ)
    → latest reports ≤ n
    → All (λ q. q.updated_at ≤ n) reports
All-latest [] n h = tt
All-latest (q ∷ rest) n h = (omega arith, All-latest rest n (omega arith))

-- How close a session is to the playback: a player, a page of the room or an embedded one, a remote
-- control.
abbrev pub level : SessionKind → ℕ
level control_session = 0
level embed_session = 1
level room_session = 1
level player_session = 2

-- Nothing speaks for `q` against `r`: `r` is ready while `q` loads, or both load or neither does, and then
-- the session of `r` is closer to the playback, or as close with a report that is not older.
abbrev pub IsPreferred : LocalPlaybackReport → LocalPlaybackReport → Type 0
IsPreferred r q =
    ((r.loading ≡ false) × (q.loading ≡ true))
    ⊎ ((r.loading ≡ q.loading)
        × ((level q.session_kind < level r.session_kind)
            ⊎ ((level q.session_kind ≡ level r.session_kind) × (q.updated_at ≤ r.updated_at))))

session_priority-level : (k : SessionKind) → session_priority k ≡ level k + 1
session_priority-level control_session = omega arith
session_priority-level embed_session = omega arith
session_priority-level room_session = omega arith
session_priority-level player_session = omega arith

unbeaten_session :
    (r q : LocalPlaybackReport)
    → r.loading ≡ q.loading
    → ranks_before q r ≡ false
    → (level q.session_kind < level r.session_kind)
      ⊎ ((level q.session_kind ≡ level r.session_kind) × (q.updated_at ≤ r.updated_at))
unbeaten_session r q same h = elim (dec_lt (level q.session_kind) (level r.session_kind)) [
  | yes below ↦ inl below
  | no above ↦ inr (
    ground (arith, session_priority-level r.session_kind, session_priority-level q.session_kind),
    ground (arith, session_priority-level r.session_kind, session_priority-level q.session_kind),
  )
]

unbeaten-IsPreferred : (r q : LocalPlaybackReport) → ranks_before q r ≡ false → IsPreferred r q
unbeaten-IsPreferred r q h = elim (Bool-cases r.loading) [
  | inl loads ↦ elim (Bool-cases q.loading) [
    | inl both ↦ inr (loads ∙ sym both, unbeaten_session r q (loads ∙ sym both) h)
    | inr ready ↦ absurd (ground arith)
  ]
  | inr ready ↦ elim (Bool-cases q.loading) [
    | inl loads ↦ inl (ready, loads)
    | inr both ↦ inr (ready ∙ sym both, unbeaten_session r q (ready ∙ sym both) h)
  ]
]

All-IsPreferred :
    (r : LocalPlaybackReport) (reports : List LocalPlaybackReport)
    → All (λ q. ranks_before q r ≡ false) reports
    → All (IsPreferred r) reports
All-IsPreferred r [] all = tt
All-IsPreferred r (q ∷ rest) (first, all) =
    (unbeaten-IsPreferred r q first, All-IsPreferred r rest all)

-- The latest time is that of a report.
latest_of :
    (q : LocalPlaybackReport) (rest : List LocalPlaybackReport)
    → (i : ℕ) × (p : LocalPlaybackReport) × (get_elem? (q ∷ rest) i ≡ some p)
      × (p.updated_at ≡ latest (q ∷ rest))
latest_of q [] = (0, q, refl, omega arith)
latest_of q (r ∷ rest) =
    let (i, p, at, e) = latest_of r rest in
    elim (dec_lt q.updated_at (latest (r ∷ rest))) [
      | yes later ↦ (suc i, p, at, omega arith)
      | no first ↦ (0, q, refl, omega arith)
    ]

latest_among :
    (reports : List LocalPlaybackReport) (r : LocalPlaybackReport) (i : ℕ)
    → get_elem? reports i ≡ some r
    → (j : ℕ) × (p : LocalPlaybackReport) × (get_elem? reports j ≡ some p)
      × (p.updated_at ≡ latest reports)
latest_among [] r i e = cc
latest_among (q ∷ rest) r i e = latest_of q rest

-- The sample that the room sees is that of one connection, but for its time. The connection is one of
-- those that reported within the last fifteen seconds, and none of these is preferred to it: a ready one
-- goes before one that loads, then a player before a page of the room or an embedded one, and these
-- before a remote control, then the later report. The time is the latest among the reports.
-- There is no such sample only if no connection reported so lately.
pub aggregate-IsPrimary :
    (reports : Reports) (now : ℕ)
    → let fresh = fresh_reports reports now in
      ((fresh ≡ []) × (aggregate_local_playback_reports reports now ≡ none))
      ⊎ ((r : LocalPlaybackReport) × (last : LocalPlaybackReport) × ((i : ℕ) × (get_elem? fresh i
              ≡ some r))
          × All (IsPreferred r) fresh
          × ((j : ℕ) × (get_elem? fresh j ≡ some last))
          × All (λ q. q.updated_at ≤ last.updated_at) fresh
          × (aggregate_local_playback_reports reports now
              ≡ some (record {
                paused = r.paused;
                current_time_ms = r.current_time_ms;
                loading = r.loading;
                error = r.error;
                updated_at = last.updated_at;
              })))
unfolding aggregate_local_playback_reports
aggregate-IsPrimary reports now =
    let fresh = fresh_reports reports now in
    elim (ranked_head fresh) [
      | inl e ↦ inl (e, ap (collapse fresh) (ap ranked e))
      | inr (r, rest, e, primary) ↦
          let ((i, at), best) = primary in
          let (j, last, there, time) = latest_among fresh r i at in
          inr (
            r,
            last,
            (i, at),
            All-IsPreferred r fresh best,
            (j, there),
            All-latest fresh last.updated_at (omega arith),
            rw time (ap (collapse fresh) e ∙ collapse_primary r rest fresh primary),
          )
    ]
