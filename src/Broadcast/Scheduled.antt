-- ===== src/Broadcast/Scheduled.antt =====
-- Every mark has a timer: src/server/realtime/broadcast/room-broadcast-bus.ts.
use web_sync_play.Prelude.{
  ◌≡◌, refl, subst, sym, String, Bool, true, false, Option, none, some, List, [], ◌∷◌, arith, inl,
  inr, Bool-cases, eq_iff, str_eq,
}
use web_sync_play.Room.Messages.{PresencePatch}
use web_sync_play.Broadcast.{
  RoomBus, RoomDirty, ensure, new_bus, BusEvent, bus_step, run_bus, Publication, presence_sent,
  snapshot_sent, control_sent, presence_timer_fires, snapshot_timer_fires, action_log_timer_fires,
  mark_presence_dirty, mark_snapshot_dirty, mark_action_log_dirty, publish_control,
  remember_control_projection, flush_presence, flush_snapshot, clear_room, flush_snapshot_publish,
  clean_dirty, marks_presence, marks_snapshot, marks_action_log, publishes_control,
  remembers_control, flushes_presence, flushes_snapshot, presence_fires, snapshot_fires,
  action_log_fires, clears, CachedControlProjection,
}

-- The hash of the newest snapshot.
abbrev pub newest_snapshot : List Publication → Option String
newest_snapshot [] = none
newest_snapshot (snapshot_sent hash ∷ rest) = some hash
newest_snapshot (control_sent payload ∷ rest) = newest_snapshot rest
newest_snapshot (presence_sent batch ∷ rest) = newest_snapshot rest

abbrev pub is_marked : List (String × PresencePatch) → Bool
is_marked [] = false
is_marked (e ∷ rest) = true

-- A mark has a timer that runs, and the hash that is remembered is that of the newest snapshot.
pub record IsScheduled (published : List Publication) (dirty : RoomDirty) : Type 0 where
  pub presence : is_marked dirty.presence ≡ true → dirty.presence_timer ≡ true
  pub snapshot : dirty.snapshot ≡ true → dirty.snapshot_timer ≡ true
  pub action_log : dirty.action_log ≡ true → dirty.action_log_timer ≡ true
  pub told : (h : String) → dirty.last_structural_hash ≡ some h → newest_snapshot published ≡ some h

abbrev pub IsReady : RoomBus → Type 0
IsReady bus = IsScheduled bus.published (ensure bus)

no_mark : (published : List Publication) → IsScheduled published clean_dirty
no_mark published = record {
  presence = λ e. e;
  snapshot = λ e. e;
  action_log = λ e. e;
  told = λ h e. absurd (ground arith);
}

-- A flush with a snapshot in hand tells its hash.
pub flush_told :
    (answer last : Option String) (published : List Publication)
    → ((h : String) → last ≡ some h → newest_snapshot published ≡ some h)
    → let (sent, hash) = flush_snapshot_publish answer last published in
      ((h : String) → hash ≡ some h → newest_snapshot sent ≡ some h)
      × ((h : String) → answer ≡ some h → newest_snapshot sent ≡ some h)
unfolding flush_snapshot_publish
flush_told none last published told = (told, λ h e. absurd (ground arith))
flush_told (some new) none published told = (λ h e. e, λ h e. e)
flush_told (some new) (some last) published told = elim (Bool-cases (str_eq last new)) [
  | inl same ↦ rw same (told, λ h e. ground (arith, eq_iff last new, told last refl))
  | inr other ↦ rw other (λ h e. e, λ h e. e)
]

flush-IsReady :
    (answer : Option String) (bus : RoomBus) → IsReady bus → IsReady (flush_snapshot answer bus)
unfolding flush_snapshot
flush-IsReady answer bus ready = record {
  presence = ready.presence;
  snapshot = λ e. absurd (ground arith);
  action_log = λ e. absurd (ground arith);
  told = (flush_told answer (ensure bus).last_structural_hash bus.published ready.told).0;
}

abbrev pub bus_of : Option RoomDirty → Option CachedControlProjection → List Publication → RoomBus
bus_of dirty projection published = record {
  dirty = dirty;
  projection = projection;
  published = published;
}

presence-IsReady :
    (projection : Option CachedControlProjection) (published : List Publication) (d : RoomDirty)
    (presence : List (String × PresencePatch)) (timer : Bool)
    → IsScheduled published d
    → let bus =
        bus_of
          (some (record d { presence = presence; presence_timer = timer }))
          projection
          published in
      IsReady (flush_presence bus) × (is_marked (ensure (flush_presence bus)).presence ≡ false)
unfolding flush_presence
presence-IsReady projection published d [] timer ready = (
  record {
    presence = λ n. absurd (ground arith);
    snapshot = ready.snapshot;
    action_log = ready.action_log;
    told = ready.told;
  },
  refl,
)
presence-IsReady projection published d (e ∷ rest) timer ready = (
  record {
    presence = λ n. absurd (ground arith);
    snapshot = ready.snapshot;
    action_log = ready.action_log;
    told = ready.told;
  },
  refl,
)

flush_now :
    (dirty : Option RoomDirty) (projection : Option CachedControlProjection)
    (published : List Publication)
    → IsReady (bus_of dirty projection published)
    → IsReady (flush_presence (bus_of dirty projection published))
unfolding flush_presence
flush_now none projection published ready = ready
flush_now (some d) projection published ready =
    (presence-IsReady projection published d d.presence d.presence_timer ready).0

presence_fires-IsReady :
    (dirty : Option RoomDirty) (projection : Option CachedControlProjection)
    (published : List Publication)
    → IsReady (bus_of dirty projection published)
    → IsReady (presence_timer_fires (bus_of dirty projection published))
unfolding presence_timer_fires
presence_fires-IsReady none projection published ready = ready
presence_fires-IsReady (some d) projection published ready = elim (Bool-cases d.presence_timer) [
  | inl t ↦ rw t (presence-IsReady projection published d d.presence false ready).0
  | inr f ↦
      let e : presence_timer_fires (bus_of (some d) projection published)
          ≡ bus_of (some d) projection published =
        ground arith in
      subst IsReady (sym e) ready
]

snapshot_fires-IsReady :
    (answer : Option String) (dirty : Option RoomDirty)
    (projection : Option CachedControlProjection) (published : List Publication)
    → IsReady (bus_of dirty projection published)
    → IsReady (snapshot_timer_fires answer (bus_of dirty projection published))
unfolding snapshot_timer_fires flush_snapshot
snapshot_fires-IsReady answer none projection published ready = ready
snapshot_fires-IsReady answer (some d) projection published ready =
    elim (Bool-cases d.snapshot_timer) [
      | inl t ↦ rw t (record {
        presence = ready.presence;
        snapshot = λ e. absurd (ground arith);
        action_log = λ e. absurd (ground arith);
        told = (flush_told answer d.last_structural_hash published ready.told).0;
      })
      | inr f ↦
          let e : snapshot_timer_fires answer (bus_of (some d) projection published)
              ≡ bus_of (some d) projection published =
            ground arith in
          subst IsReady (sym e) ready
    ]

action_log_fires-IsReady :
    (answer : Option String) (dirty : Option RoomDirty)
    (projection : Option CachedControlProjection) (published : List Publication)
    → IsReady (bus_of dirty projection published)
    → IsReady (action_log_timer_fires answer (bus_of dirty projection published))
unfolding action_log_timer_fires flush_snapshot
action_log_fires-IsReady answer none projection published ready = ready
action_log_fires-IsReady answer (some d) projection published ready =
    elim (Bool-cases d.action_log_timer) [
      | inl t ↦ elim (Bool-cases d.action_log) [
        | inl l ↦
            rw (t, l)
              (record {
                presence = ready.presence;
                snapshot = λ e. absurd (ground arith);
                action_log = λ e. absurd (ground arith);
                told = (flush_told answer d.last_structural_hash published ready.told).0;
              })
        | inr l ↦
            rw (t, l)
              (record {
                presence = ready.presence;
                snapshot = ready.snapshot;
                action_log = λ e. absurd (ground arith);
                told = ready.told;
              })
      ]
      | inr f ↦
          let e : action_log_timer_fires answer (bus_of (some d) projection published)
              ≡ bus_of (some d) projection published =
            ground arith in
          subst IsReady (sym e) ready
    ]

clear-IsReady :
    (dirty : Option RoomDirty) (projection : Option CachedControlProjection)
    (published : List Publication)
    → IsReady (bus_of dirty projection published)
    → IsReady (clear_room (bus_of dirty projection published))
unfolding clear_room
clear-IsReady none projection published ready = ready
clear-IsReady (some d) projection published ready = no_mark published

step-IsReady : (e : BusEvent) (bus : RoomBus) → IsReady bus → IsReady (bus_step e bus)
unfolding bus_step mark_presence_dirty mark_snapshot_dirty mark_action_log_dirty publish_control
    remember_control_projection
step-IsReady (marks_presence user_id patch) bus ready = record {
  presence = λ e. refl;
  snapshot = ready.snapshot;
  action_log = ready.action_log;
  told = ready.told;
}
step-IsReady marks_snapshot bus ready = record {
  presence = ready.presence;
  snapshot = λ e. refl;
  action_log = ready.action_log;
  told = ready.told;
}
step-IsReady marks_action_log bus ready = record {
  presence = ready.presence;
  snapshot = ready.snapshot;
  action_log = λ e. refl;
  told = ready.told;
}
step-IsReady (publishes_control payload) bus ready = record {
  presence = ready.presence;
  snapshot = ready.snapshot;
  action_log = ready.action_log;
  told = ready.told;
}
step-IsReady (remembers_control payload) bus ready = record {
  presence = ready.presence;
  snapshot = ready.snapshot;
  action_log = ready.action_log;
  told = ready.told;
}
step-IsReady flushes_presence bus ready = flush_now bus.dirty bus.projection bus.published ready
step-IsReady (flushes_snapshot answer) bus ready = flush-IsReady answer bus ready
step-IsReady presence_fires bus ready =
    presence_fires-IsReady bus.dirty bus.projection bus.published ready
step-IsReady (snapshot_fires answer) bus ready =
    snapshot_fires-IsReady answer bus.dirty bus.projection bus.published ready
step-IsReady (action_log_fires answer) bus ready =
    action_log_fires-IsReady answer bus.dirty bus.projection bus.published ready
step-IsReady clears bus ready = clear-IsReady bus.dirty bus.projection bus.published ready

pub run-IsReady :
    (events : List BusEvent) (bus : RoomBus) → IsReady bus → IsReady (run_bus events bus)
unfolding run_bus
run-IsReady [] bus ready = ready
run-IsReady (e ∷ events) bus ready = run-IsReady events (bus_step e bus) (step-IsReady e bus ready)

pub new_bus-IsReady : IsReady new_bus
new_bus-IsReady = no_mark []
