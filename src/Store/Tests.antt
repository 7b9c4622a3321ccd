-- ===== src/Store/Tests.antt =====
-- The theorems on src/server/redis/state-store.ts, applied to concrete values.
use web_sync_play.Room.State.{RoomState}
use web_sync_play.Room.Samples.{
  ownerless, cinema, plain_crypto, small_limits, noon, online, sender, commit_of,
}
use web_sync_play.Room.Handlers.{seek, hint_of, handle_message}
use web_sync_play.Room.Mutate.{Commit, bumps_structural_revision}
use web_sync_play.Store.Messages.{closure_of, state_of, stored_message_advances}
use web_sync_play.Store.Shared.{update_loses, overtaken}
use web_sync_play.Store.Atomic.{update_atomic, storing_at}
use web_sync_play.Store.{
  run_all, stored, watch, run, write, set_key, abort, null_reply, Round, Attempt, Redis,
  update_room,
}
use web_sync_play.Prelude.{
  ◌≤◌, if◌then◌else◌, none, ◌∷◌, [], arith, ◌+◌, ◌≡◌, arith, false, [], some, ◌<◌, Option, ℕ, List,
  refl,
}

-- The number behind the stored one.
abbrev next_number : Option ℕ → Attempt ℕ
next_number none = abort
next_number (some n) = write (n + 1)

abbrev doubled : Option ℕ → Attempt ℕ
doubled none = abort
doubled (some n) = write (n + n)

abbrev same_number : ℕ → ℕ
same_number n = n

-- Another process writes between the read and the store of the first attempt.
abbrev interrupted : List (Round ℕ)
interrupted =
    record {
      before_watch = [];
      before_get = [];
      before_exec = set_key (some 5) ∷ [];
      before_unwatch = [];
    }
    ∷ []

abbrev three : Redis ℕ
three = record { value = some 3; watching = false; dirty = false }

update_atomic_example :
    (n : ℕ) × (n < 12)
    × (next_number (storing_at n interrupted three).value ≡ write 6)
    × (((update_room same_number next_number null_reply interrupted three).1)
        ≡ record { value = some (same_number 6); watching = false; dirty = false })
unfolding update_room
update_atomic_example =
    update_atomic same_number next_number null_reply interrupted three
      ((update_room same_number next_number null_reply interrupted three).1) 6
      (((tt, (refl, tt)), tt)) refl

update_loses_example :
    let overtaking = update_room same_number doubled null_reply [] (run watch three) in
    let slow =
      update_room same_number next_number null_reply (overtaken (same_number 6) ∷ []) three in
    (overtaking.0 ≡ stored 6)
    × (overtaking.1 ≡ run_all (overtaken (same_number 6)).before_exec (run watch three))
    × (overtaking.1.value ≡ some (same_number 6))
    × (slow.0 ≡ stored 4)
    × (slow.1.value ≡ some (same_number 4))
update_loses_example =
    update_loses same_number next_number doubled null_reply three 4 6 refl refl refl

-- Another process writes the room during the first attempt of a seek.
abbrev seek_rounds : List (Round RoomState)
seek_rounds =
    record {
      before_watch = [];
      before_get = [];
      before_exec = set_key (some ownerless) ∷ [];
      before_unwatch = [];
    }
    ∷ []

abbrev cinema_stored : Redis RoomState
cinema_stored = record { value = some cinema; watching = false; dirty = false }

abbrev seek_closure : Option RoomState → Attempt Commit
seek_closure = closure_of plain_crypto small_limits noon online (sender "bob") (seek 5000)

abbrev sought : Redis RoomState
sought = (update_room state_of seek_closure null_reply seek_rounds cinema_stored).1

stored_message_advances_example :
    let c = commit_of (seek_closure (some ownerless)) in
    (n : ℕ) × (s : RoomState) × (n < 12)
    × ((storing_at n seek_rounds cinema_stored).value ≡ some s)
    × (sought.value ≡ some c.state)
    × (c.state.room_id ≡ s.room_id)
    × (c.state.generation ≡ s.generation + 1)
    × (c.state.structural_revision
        ≡ s.structural_revision
          + (if bumps_structural_revision (hint_of (seek 5000)) then 1 else 0))
    × (s.playback.server_now_ms ≤ c.state.playback.server_now_ms)
    × (s.room_security.admission_version ≤ c.state.room_security.admission_version)
unfolding update_room handle_message web_sync_play.Room.Mutate.mutate_room_message
    web_sync_play.Room.Participants.reconcile_participants_connectivity
    web_sync_play.Room.Mutate.controlled
    web_sync_play.Room.Permissions.can_control_from_connection_context
    web_sync_play.Room.Handlers.Playback.playback_seek
stored_message_advances_example =
    stored_message_advances plain_crypto small_limits noon online (sender "bob") (seek 5000)
      null_reply seek_rounds cinema_stored sought (commit_of (seek_closure (some ownerless)))
      (((tt, (refl, tt)), tt)) refl
