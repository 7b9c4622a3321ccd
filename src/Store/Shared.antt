-- ===== src/Store/Shared.antt =====
-- Two updates of one room over the connection that they share: src/server/redis/state-store.ts and client.ts.
use web_sync_play.Prelude.{◌≡◌, refl, false, Option, some, [], ◌∷◌}
use web_sync_play.Room.Mutate.{Attempt, write}
use web_sync_play.Store.{
  Redis, watch, exec, OnConflict, stored, run, run_all, Round, attempts, update_room,
}

-- Another update of the process, whole, after the read of an attempt.
abbrev pub overtaken {ℓ} : {A : Type ℓ} → A → Round A
overtaken v = record {
  before_watch = [];
  before_get = [];
  before_exec = watch ∷ exec v ∷ [];
  before_unwatch = [];
}

-- Two updates of one process lose a write. An update reads the room and waits for its closure; meanwhile
-- another update of the same room runs over the same connection and is stored. Its EXEC ends the
-- watch of the first, which is then stored as well, over the value that it read before: both report
-- success, and nothing of the second is left. No watched key was written when the first began.
pub update_loses {ℓ} :
    {A B : Type ℓ} (value_of : B → A) (first second : Option A → Attempt B)
    (on_conflict : OnConflict) (r : Redis A) (b c : B)
    → r.dirty ≡ false
    → first r.value ≡ write b
    → second r.value ≡ write c
    → let overtaking = update_room value_of second on_conflict [] (run watch r) in
      let slow = update_room value_of first on_conflict (overtaken (value_of c) ∷ []) r in
      (overtaking.0 ≡ stored c)
      × (overtaking.1 ≡ run_all (overtaken (value_of c)).before_exec (run watch r))
      × (overtaking.1.value ≡ some (value_of c))
      × (slow.0 ≡ stored b)
      × (slow.1.value ≡ some (value_of b))
unfolding update_room attempts
update_loses value_of first second on_conflict r b c clean m n = (
  rw (n, clean) refl,
  rw (n, clean) refl,
  rw (n, clean) refl,
  rw (m, clean) refl,
  rw (m, clean) refl,
)
