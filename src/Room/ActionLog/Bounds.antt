-- ===== src/Room/ActionLog/Bounds.antt =====
-- The size and age of the action log of src/server/log.ts.
use web_sync_play.Prelude.{
  All-keep, ℕ, ◌+◌, ◌-◌, ◌≤◌, arith, inl, inr, Bool-cases, leb→le, length, ltb, length-drop, keep,
  All, All-drop, List, [], ◌∷◌,
}
use web_sync_play.Room.State.{ActionLogEntry, Limits}
use web_sync_play.Room.ActionLog.{is_recent, prune_action_log, room_action_log_max_age_ms}

abbrev pub IsRecent : ℕ → ActionLogEntry → Type 0
IsRecent now entry = now ≤ entry.at + room_action_log_max_age_ms

All-keep-IsRecent :
    (now : ℕ) (log : List ActionLogEntry) → All (IsRecent now) (keep (is_recent now) log)
All-keep-IsRecent now [] = tt
All-keep-IsRecent now (e ∷ log) = elim (Bool-cases (is_recent now e)) [
  | inl t ↦ rw t (leb→le _ _ t, All-keep-IsRecent now log)
  | inr t ↦ rw t (All-keep-IsRecent now log)
]

-- A pruned log fits its limit and holds nothing older than an hour.
pub prune_bounds :
    (limits : Limits) (log : List ActionLogEntry) (now : ℕ)
    → (length (prune_action_log limits log now) ≤ limits.room_action_log_limit)
      × All (IsRecent now) (prune_action_log limits log now)
unfolding prune_action_log
prune_bounds limits log now =
    elim (Bool-cases (ltb limits.room_action_log_limit (length (keep (is_recent now) log)))) [
      | inl t ↦ rw t (
        ground (arith, length-drop (length next - limit) next),
        All-drop _ _ next (All-keep-IsRecent now log),
      )
      | inr t ↦ rw t (ground arith, All-keep-IsRecent now log)
    ]
  where
    next : List ActionLogEntry
    next = keep (is_recent now) log

    limit : ℕ
    limit = limits.room_action_log_limit

-- What holds of every entry holds after a prune.
pub prune-All :
    (P : ActionLogEntry → Type 0) (limits : Limits) (log : List ActionLogEntry) (now : ℕ)
    → All P log
    → All P (prune_action_log limits log now)
unfolding prune_action_log
prune-All P limits log now h =
    elim (Bool-cases (ltb limits.room_action_log_limit (length (keep (is_recent now) log)))) [
      | inl t ↦ rw t (All-drop P _ _ (All-keep P (is_recent now) log h))
      | inr t ↦ rw t (All-keep P (is_recent now) log h)
    ]
