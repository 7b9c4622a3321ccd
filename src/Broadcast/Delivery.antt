-- ===== src/Broadcast/Delivery.antt =====
-- What becomes of the marks: src/server/realtime/broadcast/room-broadcast-bus.ts.
use web_sync_play.Prelude.{
  ℕ, ◌+◌, ◌≤◌, ◌<◌, ◌≡◌, refl, String, Bool, true, false, ◌||◌, Option, none, some, List, [], ◌∷◌,
  arith, inl, inr, Bool-cases, if◌then◌else◌, or_else, is_some, lookup, eq_refl, lookup-insert,
  nil-cases,
}
use web_sync_play.Room.Messages.{PresencePatch}
use web_sync_play.Broadcast.{
  RoomBus, RoomDirty, ensure, new_bus, BusEvent, bus_step, run_bus, Publication, presence_sent,
  snapshot_sent, control_sent, presence_timer_fires, snapshot_timer_fires, action_log_timer_fires,
  mark_presence_dirty, mark_snapshot_dirty, mark_action_log_dirty, publish_control,
  remember_control_projection, flush_presence, flush_snapshot, flush_snapshot_publish,
  merge_presence_dirty, merged_onto, clean_dirty, marks_presence, marks_snapshot, marks_action_log,
  publishes_control, remembers_control, flushes_presence, flushes_snapshot, presence_fires,
  snapshot_fires, action_log_fires, clears, CachedControlProjection,
}
use web_sync_play.Broadcast.Scheduled.{
  IsReady, run-IsReady, new_bus-IsReady, bus_of, newest_snapshot, flush_told,
}

-- The batches that name a user.
abbrev pub batches_of : String → List Publication → ℕ
batches_of user_id [] = 0
batches_of user_id (presence_sent batch ∷ rest) =
    (if is_some (lookup user_id batch) then 1 else 0) + batches_of user_id rest
batches_of user_id (control_sent payload ∷ rest) = batches_of user_id rest
batches_of user_id (snapshot_sent hash ∷ rest) = batches_of user_id rest

-- With one that is still to come.
abbrev due : String → RoomBus → ℕ
due user_id bus =
    batches_of user_id bus.published
    + (if is_some (lookup user_id (ensure bus).presence) then 1 else 0)

abbrev pub is_clear : BusEvent → Bool
is_clear clears = true
is_clear _ = false

abbrev pub has_clear : List BusEvent → Bool
has_clear [] = false
has_clear (e ∷ events) = is_clear e || has_clear events

flush_due :
    (user_id : String) (presence : List (String × PresencePatch)) (timer : Bool) (d : RoomDirty)
    (projection : Option CachedControlProjection) (published : List Publication)
    → let bus =
        bus_of
          (some (record d { presence = presence; presence_timer = timer }))
          projection
          published in
      (due user_id bus ≤ batches_of user_id (flush_presence bus).published)
      × (due user_id bus ≤ due user_id (flush_presence bus))
unfolding flush_presence
flush_due user_id [] timer d projection published = (omega arith, omega arith)
flush_due user_id (e ∷ rest) timer d projection published = (omega arith, omega arith)

publish_due :
    (user_id : String) (answer last : Option String) (published : List Publication)
    → batches_of user_id (flush_snapshot_publish answer last published).0
      ≡ batches_of user_id published
unfolding flush_snapshot_publish
publish_due user_id none last published = refl
publish_due user_id (some h) none published = refl
publish_due user_id (some h) (some last) published = ground arith

step_due :
    (user_id : String) (e : BusEvent) (dirty : Option RoomDirty)
    (projection : Option CachedControlProjection) (published : List Publication)
    → is_clear e ≡ false
    → due user_id (bus_of dirty projection published)
      ≤ due user_id (bus_step e (bus_of dirty projection published))
unfolding bus_step flush_presence mark_presence_dirty mark_snapshot_dirty mark_action_log_dirty
    publish_control remember_control_projection flush_snapshot presence_timer_fires
    snapshot_timer_fires action_log_timer_fires merge_presence_dirty
step_due user_id (marks_presence k patch) dirty projection published h =
    let old = (or_else dirty clean_dirty).presence in
    ground (arith, lookup-insert k user_id (merged_onto (lookup k old) patch) old)
step_due user_id marks_snapshot dirty projection published h = omega arith
step_due user_id marks_action_log dirty projection published h = omega arith
step_due user_id (publishes_control payload) dirty projection published h = omega arith
step_due user_id (remembers_control payload) dirty projection published h = omega arith
step_due user_id flushes_presence none projection published h = omega arith
step_due user_id flushes_presence (some d) projection published h =
    (flush_due user_id d.presence d.presence_timer d projection published).1
step_due user_id (flushes_snapshot answer) dirty projection published h =
    omega
      (arith, publish_due user_id answer (or_else dirty clean_dirty).last_structural_hash published)
step_due user_id presence_fires none projection published h = omega arith
step_due user_id presence_fires (some d) projection published h =
    ground (arith, (flush_due user_id d.presence false d projection published).1)
step_due user_id (snapshot_fires answer) none projection published h = omega arith
step_due user_id (snapshot_fires answer) (some d) projection published h =
    ground (arith, publish_due user_id answer d.last_structural_hash published)
step_due user_id (action_log_fires answer) none projection published h = omega arith
step_due user_id (action_log_fires answer) (some d) projection published h =
    ground (arith, publish_due user_id answer d.last_structural_hash published)
step_due user_id clears dirty projection published h = absurd (ground arith)

run_due :
    (user_id : String) (events : List BusEvent) (bus : RoomBus)
    → has_clear events ≡ false
    → due user_id bus ≤ due user_id (run_bus events bus)
unfolding run_bus
run_due user_id [] bus h = omega arith
run_due user_id (e ∷ events) bus h =
    let first = step_due user_id e bus.dirty bus.projection bus.published (ground arith) in
    omega (arith, first, run_due user_id events (bus_step e bus) (ground arith))

-- The timer of a room that has one leaves nothing due.
fires_due :
    (user_id : String) (dirty : Option RoomDirty) (projection : Option CachedControlProjection)
    (published : List Publication)
    → IsReady (bus_of dirty projection published)
    → due user_id (bus_of dirty projection published)
      ≤ batches_of user_id (presence_timer_fires (bus_of dirty projection published)).published
unfolding presence_timer_fires
fires_due user_id none projection published ready = omega arith
fires_due user_id (some d) projection published ready = elim (Bool-cases d.presence_timer) [
  | inl t ↦ ground (arith, (flush_due user_id d.presence false d projection published).0)
  | inr f ↦ elim (nil-cases d.presence) [
    | inl e ↦ ground arith
    | inr (e, rest, q) ↦ absurd (ground (arith, ready.presence))
  ]
]

mark_due :
    (user_id : String) (patch : PresencePatch) (bus : RoomBus)
    → batches_of user_id bus.published < due user_id (mark_presence_dirty user_id patch bus)
unfolding mark_presence_dirty merge_presence_dirty
mark_due user_id patch bus =
    let old = (ensure bus).presence in
    ground (
      arith,
      lookup-insert user_id user_id (merged_onto (lookup user_id old) patch) old,
      eq_refl user_id,
    )

-- A presence mark is delivered. Whatever the bus of a room did before, and whatever it does after the mark
-- short of clearing the room: once the presence timer, if it still runs, fires, there is one more batch
-- that names the user than there was before the mark.
pub presence_delivered :
    (before after : List BusEvent) (user_id : String) (patch : PresencePatch)
    → has_clear after ≡ false
    → let at = run_bus before new_bus in
      batches_of user_id at.published
      < batches_of user_id
          (presence_timer_fires (run_bus (marks_presence user_id patch ∷ after) at)).published
unfolding run_bus bus_step
presence_delivered before after user_id patch h =
    let at = run_bus before new_bus in
    let last = run_bus (marks_presence user_id patch ∷ after) at in
    let ready =
      run-IsReady (marks_presence user_id patch ∷ after) at
        (run-IsReady before new_bus new_bus-IsReady) in
    omega (
      arith,
      mark_due user_id patch at,
      run_due user_id after (mark_presence_dirty user_id patch at) h,
      fires_due user_id last.dirty last.projection last.published ready,
    )

snapshot_fired :
    (hash : String) (dirty : Option RoomDirty) (projection : Option CachedControlProjection)
    (published : List Publication)
    → IsReady (bus_of dirty projection published)
    → (ensure (bus_of dirty projection published)).snapshot
        || (ensure (bus_of dirty projection published)).action_log
      ≡ true
    → let told =
        action_log_timer_fires
          (some hash)
          (snapshot_timer_fires (some hash) (bus_of dirty projection published)) in
      (newest_snapshot told.published ≡ some hash)
      × ((ensure told).snapshot ≡ false)
      × ((ensure told).action_log ≡ false)
unfolding snapshot_timer_fires action_log_timer_fires flush_snapshot
snapshot_fired hash none projection published ready marked = absurd (ground arith)
snapshot_fired hash (some d) projection published ready marked =
    let (_, told) = flush_told (some hash) d.last_structural_hash published ready.told in
    elim (Bool-cases d.snapshot_timer) [
      | inl t ↦ rw t (told hash refl, refl, refl)
      | inr f ↦
          let quiet : d.snapshot ≡ false = ground (arith, ready.snapshot) in
          let logs : d.action_log ≡ true = ground arith in
          rw (f, ready.action_log logs, logs) (told hash refl, refl, refl)
    ]

-- A snapshot that is marked, or a log that is, goes out. In any state that the bus of a room can get into,
-- once the timers that run have fired, and found a room with that hash, the newest snapshot that
-- was published has the hash, and neither mark is left.
pub snapshot_delivered :
    (events : List BusEvent) (hash : String)
    → (ensure (run_bus events new_bus)).snapshot || (ensure (run_bus events new_bus)).action_log
      ≡ true
    → let told =
        action_log_timer_fires
          (some hash)
          (snapshot_timer_fires (some hash) (run_bus events new_bus)) in
      (newest_snapshot told.published ≡ some hash)
      × ((ensure told).snapshot ≡ false)
      × ((ensure told).action_log ≡ false)
snapshot_delivered events hash marked =
    let bus = run_bus events new_bus in
    snapshot_fired hash bus.dirty bus.projection bus.published
      (run-IsReady events new_bus new_bus-IsReady) marked
