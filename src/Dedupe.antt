-- ===== src/Dedupe.antt =====
-- src/server/ws/request-dedupe.ts: the map of request ids, in order of insertion. The timer that prunes
-- it is an event.
mod Tests
pub mod Window
use web_sync_play.Prelude.{
  ℕ, ◌-◌, String, Bool, true, false, Option, none, some, List, [], ◌∷◌, ltb, if◌then◌else◌, lookup,
  insert, keep, length, drop,
}

abbrev pub Seen : Type 0
Seen = List (String × ℕ)

abbrev pub dedupe_window_ms : ℕ
dedupe_window_ms = 3000

abbrev pub max_entries : ℕ
max_entries = 10000

abbrev pub in_window : ℕ → String × ℕ → Bool
in_window now e = ltb (now - e.1) dedupe_window_ms

unfoldable pub prune_expired : Seen → ℕ → Seen
prune_expired map now = keep (in_window now) map

-- The loop deletes the first key while there are too many.
unfoldable pub evict_oldest : Seen → Seen
evict_oldest map = drop (length map - max_entries) map

abbrev pub was_seen : ℕ → Option ℕ → Bool
was_seen now none = false
was_seen now (some at) = ltb (now - at) dedupe_window_ms

unfoldable pub should_skip_duplicate_request : String → ℕ → Seen → Bool × Seen
unfolding prune_expired evict_oldest
should_skip_duplicate_request id now map =
    let added = insert id now map in
    if was_seen now (lookup id map)
    then (true, map)
    else if ltb max_entries (length added)
    then (false, evict_oldest (prune_expired added now))
    else (false, added)
