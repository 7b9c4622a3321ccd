-- ===== src/Room/Sweep/Grace.antt =====
-- When an empty room may be destroyed: src/server/realtime/services/empty-room.ts and cleanup.ts.
use web_sync_play.Prelude.{
  ℕ, ◌-◌, ◌≤◌, ◌≡◌, refl, ap, ◌∙◌, Bool, true, false, not, ◌&&◌, none, some, List, [], ◌∷◌, ◌++◌,
  arith, inl, inr, ◌⊎◌, Option-cases,
}
use web_sync_play.Room.Sweep.{
  Marker, mark_room_empty_if_absent, clear_room_empty_marker, is_empty_room_grace_elapsed,
  note_empty_presence_and_should_destroy, confirm_empty_room_destroy_allowed, SweepReads,
  sweep_empty, empty_room_destroy_grace_ms,
}

-- What happens to the marker of a room, on any node: nobody is there at a time, somebody is there, or the
-- key expires. `up` says whether Redis answers.
pub data EmptyEvent : Type 0 where
  nobody : (up : Bool) → ℕ → EmptyEvent
  somebody : (up : Bool) → EmptyEvent
  expires : EmptyEvent

unfoldable pub marker_step : EmptyEvent → Marker → Marker
unfolding mark_room_empty_if_absent clear_room_empty_marker
marker_step (nobody up now) marker = mark_room_empty_if_absent up now marker
marker_step (somebody up) marker = clear_room_empty_marker up marker
marker_step expires marker = none

unfoldable pub run_marker : List EmptyEvent → Marker → Marker
unfolding marker_step
run_marker [] marker = marker
run_marker (e ∷ events) marker = run_marker events (marker_step e marker)

-- Nobody came, as far as Redis was told.
abbrev pub is_quiet : List EmptyEvent → Bool
is_quiet [] = true
is_quiet (nobody up now ∷ events) = is_quiet events
is_quiet (somebody up ∷ events) = not up && is_quiet events
is_quiet (expires ∷ events) = false

-- Since `at` the room has been empty.
abbrev pub WasEmpty : List EmptyEvent → ℕ → Type 0
WasEmpty events at =
    (before : List EmptyEvent) × (after : List EmptyEvent) × (events
      ≡ before ++ (nobody true at ∷ after))
    × (is_quiet after ≡ true)

later :
    (e : EmptyEvent) (events : List EmptyEvent) (at : ℕ)
    → WasEmpty events at
    → WasEmpty (e ∷ events) at
later e events at (before, after, q, quiet) = (e ∷ before, after, ap (λ xs. e ∷ xs) q, quiet)

marker_since :
    (events : List EmptyEvent) (marker : Marker) (at : ℕ)
    → run_marker events marker ≡ some at
    → ((marker ≡ some at) × (is_quiet events ≡ true)) ⊎ WasEmpty events at
unfolding run_marker marker_step mark_room_empty_if_absent clear_room_empty_marker
marker_since [] marker at h = inl (h, refl)
marker_since (nobody false now ∷ events) marker at h = elim (marker_since events marker at h) [
  | inl (m, q) ↦ inl (m, q)
  | inr w ↦ inr (later (nobody false now) events at w)
]
marker_since (nobody true now ∷ events) none at h = elim (marker_since events (some now) at h) [
  | inl (m, q) ↦ inr ([], events, ground arith, q)
  | inr w ↦ inr (later (nobody true now) events at w)
]
marker_since (nobody true now ∷ events) (some since) at h =
    elim (marker_since events (some since) at h) [
      | inl (m, q) ↦ inl (m, q)
      | inr w ↦ inr (later (nobody true now) events at w)
    ]
marker_since (somebody true ∷ events) marker at h = elim (marker_since events none at h) [
  | inl (m, q) ↦ absurd (ground arith)
  | inr w ↦ inr (later (somebody true) events at w)
]
marker_since (somebody false ∷ events) marker at h = elim (marker_since events marker at h) [
  | inl (m, q) ↦ inl (m, q)
  | inr w ↦ inr (later (somebody false) events at w)
]
marker_since (expires ∷ events) marker at h = elim (marker_since events none at h) [
  | inl (m, q) ↦ absurd (ground arith)
  | inr w ↦ inr (later expires events at w)
]

run_marker-append :
    (events more : List EmptyEvent) (marker : Marker)
    → run_marker (events ++ more) marker ≡ run_marker more (run_marker events marker)
unfolding run_marker
run_marker-append [] more marker = refl
run_marker-append (e ∷ events) more marker = run_marker-append events more (marker_step e marker)

-- What a sweep that destroys has seen.
destroying :
    (reads : SweepReads) (now : ℕ) (has_connections : Bool) (marker : Marker)
    → (sweep_empty reads now has_connections marker).0 ≡ true
    → (has_connections ≡ false)
      × (reads.draining ≡ false)
      × (reads.present_again ≡ some false)
      × (at : ℕ) × (empty_room_destroy_grace_ms ≤ reads.later - at)
      × (mark_room_empty_if_absent reads.up_mark now marker ≡ some at)
unfolding sweep_empty note_empty_presence_and_should_destroy confirm_empty_room_destroy_allowed
    is_empty_room_grace_elapsed
destroying reads now has_connections marker h = elim (Option-cases reads.present_again) [
  | inl n ↦ absurd (ground arith)
  | inr (p, n) ↦ elim (Option-cases (mark_room_empty_if_absent reads.up_mark now marker)) [
    | inl m ↦ absurd (ground arith)
    | inr (at, m) ↦ (ground arith, ground arith, ground arith, at, ground arith, m)
  ]
]

-- A room is destroyed only after its grace. Whatever happened to its marker before: if a sweep destroys the
-- room, then it saw no connection, the process does not drain, and nobody has a socket when it asks
-- again; and the room was marked empty, earlier or by this sweep, at least fifteen seconds before that,
-- and Redis has not since been told of anybody who came.
pub destroyed_after_grace :
    (reads : SweepReads) (now : ℕ) (has_connections : Bool) (events : List EmptyEvent)
    → (sweep_empty reads now has_connections (run_marker events none)).0 ≡ true
    → (has_connections ≡ false)
      × (reads.draining ≡ false)
      × (reads.present_again ≡ some false)
      × (at : ℕ) × (empty_room_destroy_grace_ms ≤ reads.later - at)
      × WasEmpty (events ++ (nobody reads.up_mark now ∷ [])) at
unfolding run_marker marker_step
destroyed_after_grace reads now has_connections events h =
    let (free, stays, gone, at, grace, m) =
      destroying reads now has_connections (run_marker events none) h in
    let all = events ++ (nobody reads.up_mark now ∷ []) in
    let marked : run_marker all none ≡ some at =
      run_marker-append events (nobody reads.up_mark now ∷ []) none ∙ m in
    elim (marker_since all none at marked) [
      | inl (n, q) ↦ absurd (ground arith)
      | inr w ↦ (free, stays, gone, at, grace, w)
    ]
