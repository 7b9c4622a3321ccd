-- ===== src/Dedupe/Window.antt =====
-- What src/server/ws/request-dedupe.ts remembers, and for how long.
use web_sync_play.Prelude.{
  ℕ, ◌+◌, ◌-◌, ◌≤◌, ◌<◌, ◌≡◌, String, true, false, some, List, [], ◌∷◌, arith, lookup, insert,
  lookup-insert, length, length-drop, length-keep-le, eq_iff,
}
use web_sync_play.Dedupe.{
  Seen, dedupe_window_ms, max_entries, in_window, prune_expired, evict_oldest,
  should_skip_duplicate_request,
}

length-insert-le :
    (id : String) (now : ℕ) (map : Seen) → length (insert id now map) ≤ length map + 1
length-insert-le id now [] = omega arith
length-insert-le id now ((j, at) ∷ rest) = ground (arith, length-insert-le id now rest)

lookup-prune :
    (id : String) (at now : ℕ) (map : Seen)
    → lookup id map ≡ some at
    → now - at < dedupe_window_ms
    → lookup id (prune_expired map now) ≡ some at
unfolding prune_expired
lookup-prune id at now [] e h = e
lookup-prune id at now ((j, x) ∷ rest) e h =
    ground (arith, eq_iff j id, lookup-prune id at now rest)

length-prune-le : (now : ℕ) (map : Seen) → length (prune_expired map now) ≤ length map
unfolding prune_expired
length-prune-le now map = length-keep-le (in_window now) map

-- The map never holds more than its limit.
pub skip_bounded :
    (id : String) (now : ℕ) (map : Seen)
    → length map ≤ max_entries
    → length (should_skip_duplicate_request id now map).1 ≤ max_entries
unfolding should_skip_duplicate_request evict_oldest
skip_bounded id now map h = ground (
  arith,
  length-drop (length (prune_expired (insert id now map) now) - max_entries)
      (prune_expired (insert id now map) now),
)

-- A request, or a round of the timer.
pub data Event : Type 0 where
  request : String → ℕ → Event
  tick : ℕ → Event

abbrev pub time_of : Event → ℕ
time_of (request id now) = now
time_of (tick now) = now

abbrev pub step : Event → Seen → Seen
step (request id now) map = (should_skip_duplicate_request id now map).1
step (tick now) map = prune_expired map now

abbrev pub steps : List Event → Seen → Seen
steps [] map = map
steps (e ∷ events) map = steps events (step e map)

abbrev pub IsWithin : ℕ → ℕ → List Event → Type 0
IsWithin from to [] = Unit
IsWithin from to (e ∷ events) = (from ≤ time_of e) × (time_of e ≤ to) × IsWithin from to events

step_keeps :
    (id : String) (at : ℕ) (e : Event) (map : Seen)
    → lookup id map ≡ some at
    → time_of e - at < dedupe_window_ms
    → length map + 1 ≤ max_entries
    → (lookup id (step e map) ≡ some at) × (length (step e map) ≤ length map + 1)
unfolding should_skip_duplicate_request
step_keeps id at (tick now) map e h room =
    (lookup-prune id at now map e h, omega (arith, length-prune-le now map))
step_keeps id at (request other now) map e h room =
    ground (arith, eq_iff other id, length-insert-le other now map, lookup-insert other id now map)

steps_keep :
    (id : String) (at to : ℕ) (events : List Event) (map : Seen)
    → lookup id map ≡ some at
    → to < at + dedupe_window_ms
    → IsWithin at to events
    → length map + length events ≤ max_entries
    → lookup id (steps events map) ≡ some at
steps_keep id at to [] map e h within room = e
steps_keep id at to (x ∷ events) map e h (from, until, within) room =
    let (kept, size) = step_keeps id at x map e (omega arith) (omega arith) in
    steps_keep id at to events (step x map) kept h within (omega (arith, size))

accepted :
    (id : String) (now : ℕ) (map : Seen)
    → (should_skip_duplicate_request id now map).0 ≡ false
    → length map + 1 ≤ max_entries
    → let next = (should_skip_duplicate_request id now map).1 in
      (lookup id next ≡ some now) × (length next ≤ length map + 1)
unfolding should_skip_duplicate_request
accepted id now map e room =
    ground (arith, eq_iff id id, length-insert-le id now map, lookup-insert id id now map)

skips :
    (id : String) (at later : ℕ) (map : Seen)
    → lookup id map ≡ some at
    → later < at + dedupe_window_ms
    → (should_skip_duplicate_request id later map).0 ≡ true
unfolding should_skip_duplicate_request
skips id at later map e h = ground arith

-- A request that was let through is skipped when it comes again within three seconds, whatever requests
-- and rounds of the timer come between. The map has room for all of them, and the times of those
-- between lie between the two.
pub skipped_again :
    (id : String) (now later : ℕ) (map : Seen) (events : List Event)
    → (should_skip_duplicate_request id now map).0 ≡ false
    → IsWithin now later events
    → later < now + dedupe_window_ms
    → length map + 1 + length events ≤ max_entries
    → (should_skip_duplicate_request id later
        (steps events (should_skip_duplicate_request id now map).1)).0
      ≡ true
skipped_again id now later map events e within h room =
    let (at, size) = accepted id now map e (omega arith) in
    let kept =
      steps_keep id now later events (should_skip_duplicate_request id now map).1 at h within
        (omega (arith, size)) in
    skips id now later (steps events (should_skip_duplicate_request id now map).1) kept h
