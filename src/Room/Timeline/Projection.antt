-- ===== src/Room/Timeline/Projection.antt =====
-- The projected playhead across the writes of src/server/realtime/services/timeline.ts.
use native.Mathlib.Nat.{add-mul}
use web_sync_play.Prelude.{
  ℕ, ◌+◌, ◌-◌, ◌*◌, ◌≤◌, ◌<◌, ◌≡◌, ap, max, Bool, arith, inl, inr, Bool-cases, ltb,
}
use web_sync_play.Room.State.{PlaybackState}
use web_sync_play.Room.Timeline.{
  resolve_current_timeline_ms, commit_playback_seek, reanchor_playback_at_now,
  reset_playback_timeline,
}

span_split : (a b c r : ℕ) → a ≤ b → b ≤ c → (b - a) * r + (c - b) * r ≡ (c - a) * r
span_split a b c r h k =
    let e : (b - a) + (c - b) ≡ c - a = omega arith in
    omega (arith, add-mul (b - a) (c - b) r, ap (λ (n : ℕ). n * r) e)

span_step : (a c r : ℕ) → (c - (a + 1)) * r ≤ (c - a) * r
span_step a c r = grind arith

span_step_back : (a c r : ℕ) → (c - a) * r ≤ (c - (a + 1)) * r + r
span_step_back a c r = elim (Bool-cases (ltb a c)) [
  | inl h ↦
      let e : c - a ≡ (c - (a + 1)) + 1 = ground arith in
      omega (arith, add-mul (c - (a + 1)) 1 r, ap (λ (n : ℕ). n * r) e)
  | inr h ↦ let e : c - a ≡ 0 = ground arith in omega (arith, ap (λ (n : ℕ). n * r) e)
]

-- A freeze of the playhead at a time after the last stamp changes no later reading of the timeline.
pub resolve-reanchor :
    (p : PlaybackState) (now later : ℕ)
    → p.server_now_ms < now
    → now ≤ later
    → resolve_current_timeline_ms (reanchor_playback_at_now p now) later
      ≡ resolve_current_timeline_ms p later
unfolding reanchor_playback_at_now
resolve-reanchor p now later h k =
    ground (arith, span_split p.server_now_ms now later p.playback_rate)

-- Whatever the clocks say, a freeze never moves a later reading forward, and moves it back by one
-- millisecond of play at most.
pub reanchor_drift :
    (p : PlaybackState) (now later : ℕ)
    → now ≤ later
    → (resolve_current_timeline_ms (reanchor_playback_at_now p now) later
        ≤ resolve_current_timeline_ms p later)
      × (resolve_current_timeline_ms p later
          ≤ resolve_current_timeline_ms (reanchor_playback_at_now p now) later + p.playback_rate)
unfolding reanchor_playback_at_now
reanchor_drift p now later k = elim (Bool-cases (ltb p.server_now_ms now)) [
  | inl h ↦ ground (arith, span_split p.server_now_ms now later p.playback_rate)
  | inr h ↦ ground (
    arith,
    span_step p.server_now_ms later p.playback_rate,
    span_step_back p.server_now_ms later p.playback_rate,
  )
]

-- The playhead of a room never runs backwards between two reads.
pub resolve_mono :
    (p : PlaybackState) (now later : ℕ)
    → now ≤ later
    → resolve_current_timeline_ms p now ≤ resolve_current_timeline_ms p later
unfolding resolve_current_timeline_ms
resolve_mono p now later h = grind arith

-- A seek, a freeze and a reset each move the stamp of the timeline forward, and not behind the clock.
pub stamps_advance :
    (p : PlaybackState) (target now : ℕ) (pause : Bool)
    → let seeked = (commit_playback_seek p target now).0 in
      let frozen = reanchor_playback_at_now p now in
      let restarted = reset_playback_timeline p now pause in
      (p.server_now_ms < seeked.server_now_ms)
      × (now ≤ seeked.server_now_ms)
      × (p.server_now_ms < frozen.server_now_ms)
      × (now ≤ frozen.server_now_ms)
      × (p.server_now_ms < restarted.server_now_ms)
      × (now ≤ restarted.server_now_ms)
unfolding commit_playback_seek reanchor_playback_at_now reset_playback_timeline
stamps_advance p target now pause = omega arith

-- After a seek the playhead reads the target until the stamp, whether the room plays or not.
pub resolve-seek :
    (p : PlaybackState) (target now later : ℕ)
    → let q = (commit_playback_seek p target now).0 in
      later ≤ q.server_now_ms → resolve_current_timeline_ms q later ≡ target
unfolding commit_playback_seek
resolve-seek p target now later h =
    let e : later - (max (p.server_now_ms + 1) now) ≡ 0 = omega arith in
    ground (arith, e, ap (λ (n : ℕ). n * p.playback_rate) e)
