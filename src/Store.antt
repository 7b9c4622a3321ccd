-- ===== src/Store.antt =====
-- `updateRoom` of src/server/redis/state-store.ts, over the one connection that a process has by
-- `getCommandClient` of src/server/redis/client.ts. Redis and its client are outside. Of Redis there is the key
-- of one room, and of the connection whether it watches that key and whether a key that it watches was
-- written since. `EXEC` fails if one was, and every `EXEC` and `UNWATCH` ends all watches of the connection,
-- also those of other calls. What happens between two commands of an attempt is a list of commands: of
-- other processes, and of the other calls in this process. What `exec` of the client does when Redis
-- answers that nothing was run is a parameter. The delay between two attempts changes no state.
mod Tests
pub mod Atomic
pub mod Settles
pub mod Shared
pub mod Messages
use web_sync_play.Prelude.{ℕ, zero, suc, Bool, true, false, Option, none, some, List, [], ◌∷◌, ◌||◌}
use web_sync_play.Room.Mutate.{Attempt, abort, deny, write}

pub record Redis {ℓ} (A : Type ℓ) : Type ℓ where
  pub value : Option A
  pub watching : Bool
  pub dirty : Bool

-- `set_key` is a write or a deletion outside of a transaction, by whomever. `touch` is a write of another
-- key that the connection watches. `unwatch` is an UNWATCH, or the EXEC of another room's update. `watch`
-- and `exec` are those of an update of this room.
pub data Command {ℓ} (A : Type ℓ) : Type ℓ where
  watch touch unwatch : Command A
  set_key : Option A → Command A
  exec : A → Command A

-- What the client makes of an EXEC that ran nothing.
pub data OnConflict : Type 0 where
  null_reply watch_error : OnConflict

pub data Outcome {ℓ} (B : Type ℓ) : Type ℓ where
  aborted denied exhausted conflicted : Outcome B
  stored : B → Outcome B

abbrev pub update_room_max_attempts : ℕ
update_room_max_attempts = 12

module _ {ℓ} {A : Type ℓ} where
  abbrev pub released : Redis A → Redis A
  released r = record r { watching = false; dirty = false }

  -- MULTI, SET and EXEC, which reach Redis together.
  abbrev pub exec_set : A → Redis A → Option (Redis A)
  exec_set v r = elim r.dirty [
    | true ↦ none
    | false ↦ some (record { value = some v; watching = false; dirty = false })
  ]

  abbrev pub run : Command A → Redis A → Redis A
  run watch r = record r { watching = true }
  run touch r = record r { dirty = true }
  run unwatch r = released r
  run (set_key v) r = record r { value = v; dirty = r.dirty || r.watching }
  run (exec v) r = elim (exec_set v r) [ none ↦ released r | some r' ↦ r' ]

  abbrev pub run_all : List (Command A) → Redis A → Redis A
  run_all [] r = r
  run_all (c ∷ cs) r = run_all cs (run c r)

-- What happens besides during one attempt: before its WATCH, between that and its GET, from there to its
-- EXEC or UNWATCH, and before the UNWATCH of a failed attempt.
pub record Round {ℓ} (A : Type ℓ) : Type ℓ where
  pub before_watch : List (Command A)
  pub before_get : List (Command A)
  pub before_exec : List (Command A)
  pub before_unwatch : List (Command A)

module _ {ℓ} {A : Type ℓ} where
  abbrev pub calm : Round A
  calm = record { before_watch = []; before_get = []; before_exec = []; before_unwatch = [] }

  -- The round of this attempt and those of the later ones.
  abbrev pub this_round : List (Round A) → Round A
  this_round [] = calm
  this_round (now ∷ later) = now

  abbrev pub later_rounds : List (Round A) → List (Round A)
  later_rounds [] = []
  later_rounds (now ∷ later) = later

  -- When an attempt reads, when it is about to store, and when a failed one is over.
  abbrev pub reading : Round A → Redis A → Redis A
  reading now r = run_all now.before_get (run watch (run_all now.before_watch r))

  abbrev pub storing : Round A → Redis A → Redis A
  storing now r = run_all now.before_exec (reading now r)

  abbrev pub failing : Round A → Redis A → Redis A
  failing now r = run unwatch (run_all now.before_unwatch (released (storing now r)))

module _ {ℓ} {A B : Type ℓ} (value_of : B → A) (mutate : Option A → Attempt B)
    (on_conflict : OnConflict) where
  pub attempts : ℕ → List (Round A) → Redis A → Outcome B × Redis A
  attempts zero rounds r = (exhausted, r)
  attempts (suc left) rounds r =
      let now = this_round rounds in
      let ready = storing now r in
      let retry = attempts left (later_rounds rounds) (failing now r) in
      elim (mutate (reading now r).value) [
        | abort ↦ (aborted, run unwatch ready)
        | deny ↦ (denied, run unwatch ready)
        | write next ↦ elim (exec_set (value_of next) ready) [
          | some done ↦ (stored next, done)
          | none ↦ elim on_conflict [
            | null_reply ↦ retry
            | watch_error ↦ (conflicted, released ready)
          ]
        ]
      ]

  unfoldable pub update_room : List (Round A) → Redis A → Outcome B × Redis A
  unfolding attempts
  update_room rounds r = attempts update_room_max_attempts rounds r
