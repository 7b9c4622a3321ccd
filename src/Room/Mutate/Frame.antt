-- ===== src/Room/Mutate/Frame.antt =====
-- What the frame of src/server/realtime/handlers/mutate-room.ts and mutate-controlled.ts guarantees of
-- any body.
use web_sync_play.Prelude.{
  sym, subst, ◌⊎◌, str_eq, eq_refl, ℕ, ◌+◌, ◌<◌, ◌≡◌, refl, String, true, false, some, List, [],
  ◌∷◌, arith, Option-cases, Bool-cases, inl, inr, lookup, modify, lookup-modify, length-modify, All,
  is_empty, if◌then◌else◌,
}
use web_sync_play.Room.State.{RoomState, Participant, Participants, Limits, Stamp}
use web_sync_play.Room.Messages.{PublishHint}
use web_sync_play.Room.Timeline.{mark_current_media, get_current_media_id}
use web_sync_play.Room.Participants.{reconcile_participants_connectivity}
use web_sync_play.Room.Repair.{
  repair_playlist_state, repair_cleanup_and_check_room_state, has_key, is_joined,
}
use web_sync_play.Room.Repair.Sound.{IsSound, repair-IsSound}
use web_sync_play.Room.Ownership.{Entry}
use web_sync_play.Room.Mutate.{
  close_message, Attempt, abort, deny, write, Body, Commit, mutate_once, mutate_room_message,
  finish_message, mark_present, bumps_structural_revision,
}

pub Attempt-cases {ℓ} :
    {A : Type ℓ} (x : Attempt A) → (x ≡ abort) ⊎ ((x ≡ deny) ⊎ ((a : A) × (x ≡ write a)))
Attempt-cases abort = inl refl
Attempt-cases deny = inr (inl refl)
Attempt-cases (write a) = inr (inr (a, refl))

-- The body's own run behind a write.
abbrev pub IsRun :
    Limits → Stamp → List String → String → Body → PublishHint → RoomState → Commit → Type 0
IsRun limits stamp active user_id body hint s c =
    let r = reconcile_participants_connectivity s active stamp.now in
    (p : Participant) × (next : RoomState) × (lookup user_id r.state.participants ≡ some p)
    × (body r.state p ≡ write next)
    × (c.state ≡ finish_message limits stamp user_id hint next)

pub write_runs :
    (limits : Limits) (stamp : Stamp) (active : List String) (user_id : String) (body : Body)
    (hint : PublishHint) (s : RoomState) (c : Commit)
    → mutate_once limits stamp active user_id body hint (some s) ≡ write c
    → IsRun limits stamp active user_id body hint s c
unfolding mutate_once
write_runs limits stamp active user_id body hint s c h =
    let recon = reconcile_participants_connectivity s active stamp.now in
    elim (Option-cases (lookup user_id recon.state.participants)) [
      | inl e ↦ ground arith
      | inr (p, e) ↦ elim (Attempt-cases (body recon.state p)) [
        | inl b ↦ ground arith
        | inr (inl b) ↦ ground arith
        | inr (inr (next, b)) ↦ (p, next, e, b, ground arith)
      ]
    ]

repair_numbers :
    (limits : Limits) (stamp : Stamp) (s : RoomState)
    → let t = (repair_cleanup_and_check_room_state limits stamp s).0 in
      (t.generation ≡ s.generation) × (t.structural_revision ≡ s.structural_revision)
unfolding repair_cleanup_and_check_room_state repair_playlist_state
repair_numbers limits stamp s = (ground arith, ground arith)

-- A sender who is marked present is still an entry with a key and a time of joining.
All-present :
    (user_id : String) (now : ℕ) (ps : Participants)
    → All (λ (e : Entry). (has_key e ≡ true) × (is_joined e.1 ≡ true)) ps
    → All
        (λ (e : Entry). (has_key e ≡ true) × (is_joined e.1 ≡ true))
        (modify user_id (mark_present now) ps)
All-present user_id now [] h = tt
All-present user_id now ((k, p) ∷ ps) ((a, b), h) = elim (Bool-cases (str_eq k user_id)) [
  | inl e ↦ rw e ((a, b), h)
  | inr e ↦ rw e ((a, b), All-present user_id now ps h)
]

closed-IsSound :
    (limits : Limits) (now : ℕ) (user_id : String) (hint : PublishHint) (s : RoomState)
    → 0 < now
    → IsSound limits now s
    → IsSound limits now (close_message now user_id hint s)
unfolding close_message mark_current_media
closed-IsSound limits now user_id hint s dated sound = record {
  owned = sound.owned;
  secured = sound.secured;
  indexed = sound.indexed;
  list_fits = sound.list_fits;
  items = sound.items;
  people_fit =
      ground (arith, sound.people_fit, length-modify user_id (mark_present now) s.participants);
  people = All-present user_id now s.participants sound.people;
  log_fits = sound.log_fits;
  log = sound.log;
  rate_low = sound.rate_low;
  rate_high = sound.rate_high;
  dated = dated;
}

present_marked :
    (now : ℕ) (user_id : String) (ps : Participants) (q : Participant)
    → lookup user_id (modify user_id (mark_present now) ps) ≡ some q
    → q.connected ≡ true
present_marked now user_id ps q e = elim (Option-cases (lookup user_id ps)) [
  | inl m ↦ ground (arith, eq_refl user_id, lookup-modify user_id user_id (mark_present now) ps)
  | inr (p, m) ↦
      ground (arith, eq_refl user_id, lookup-modify user_id user_id (mark_present now) ps)
]

-- What the frame leaves behind a body whose room is `s`.
pub record IsSettled (limits : Limits) (stamp : Stamp) (user_id : String) (hint : PublishHint)
    (s t : RoomState) : Type 0 where
  pub sound : IsSound limits stamp.now t
  pub media : t.playback.media_id ≡ get_current_media_id t
  pub dated : t.updated_at ≡ stamp.now
  pub numbered : t.generation ≡ s.generation + 1
  pub structured :
      t.structural_revision
      ≡ s.structural_revision + (if bumps_structural_revision hint then 1 else 0)
  pub present : (q : Participant) → lookup user_id t.participants ≡ some q → q.connected ≡ true

finish-IsSettled :
    (limits : Limits) (stamp : Stamp) (user_id : String) (hint : PublishHint) (s : RoomState)
    → 0 < limits.room_playlist_limit
    → 0 < stamp.now
    → is_empty stamp.new_id ≡ false
    → IsSettled limits stamp user_id hint s (finish_message limits stamp user_id hint s)
unfolding finish_message close_message mark_current_media get_current_media_id
finish-IsSettled limits stamp user_id hint s h now id =
    let repaired = (repair_cleanup_and_check_room_state limits stamp s).0 in
    let (g, r) = repair_numbers limits stamp s in
    record {
      sound =
          closed-IsSound limits stamp.now user_id hint repaired now
            (repair-IsSound limits stamp s h now id);
      media = refl;
      dated = refl;
      numbered = ground (arith, g);
      structured = ground (arith, r);
      present = present_marked stamp.now user_id repaired.participants;
    }

-- A room that a message writes comes from a run of the body on the reconciled room, and it is sound: its
-- index, its limits, its secrets and its rates are in order. Its media is the current item, its date is
-- now, its generation is one above the body's, its structural revision is above only under a hint that
-- asks for it, and the sender is connected if the repair has left the sender in the room. The
-- playlist limit and the clock are positive, and new ids are not empty.
pub write-IsSettled :
    (limits : Limits) (stamp : Stamp) (active : List String) (user_id : String) (body : Body)
    (hint : PublishHint) (s : RoomState) (c : Commit)
    → 0 < limits.room_playlist_limit
    → 0 < stamp.now
    → is_empty stamp.new_id ≡ false
    → (mutate_room_message limits stamp active user_id body hint (some s)).0 ≡ write c
    → (p : Participant) × (next : RoomState) × (body
          (reconcile_participants_connectivity s active stamp.now).state
          p
        ≡ write next)
      × IsSettled limits stamp user_id hint next c.state
unfolding mutate_room_message
write-IsSettled limits stamp active user_id body hint s c h now id e =
    let (p, next, _, run, f) = write_runs limits stamp active user_id body hint s c e in
    (
      p,
      next,
      run,
      subst (IsSettled limits stamp user_id hint next) (sym f)
          (finish-IsSettled limits stamp user_id hint next h now id),
    )
