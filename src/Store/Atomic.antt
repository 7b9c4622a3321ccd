-- ===== src/Store/Atomic.antt =====
-- What an update of `updateRoom` in src/server/redis/state-store.ts is that was stored.
use web_sync_play.Prelude.{
  ◌⊎◌, ◌∙◌, ℕ, zero, suc, ◌<◌, ◌≡◌, refl, Bool, true, false, Option, some, List, [], ◌∷◌, arith,
  inl, inr, Bool-cases, All,
}
use web_sync_play.Room.Mutate.{Attempt, write}
use web_sync_play.Room.Mutate.Frame.{Attempt-cases}
use web_sync_play.Store.{
  Redis, Command, watch, touch, unwatch, set_key, exec, OnConflict, null_reply, watch_error, stored,
  run, run_all, Round, this_round, later_rounds, reading, storing, failing, attempts, update_room,
  update_room_max_attempts,
}

module _ {ℓ} {A : Type ℓ} where
  -- A command that ends no watch of the connection.
  abbrev pub keeps_watch : Command A → Bool
  keeps_watch watch = true
  keeps_watch touch = true
  keeps_watch unwatch = false
  keeps_watch (set_key v) = true
  keeps_watch (exec v) = false

  -- From the WATCH of an attempt to its EXEC, no other call ends a watch.
  abbrev pub IsAlone : Round A → Type 0
  IsAlone now =
      All (λ c. keeps_watch c ≡ true) now.before_get
      × All (λ c. keeps_watch c ≡ true) now.before_exec

  -- The state of Redis when attempt `n` is about to store, the ones before it having failed.
  abbrev pub storing_at : ℕ → List (Round A) → Redis A → Redis A
  storing_at zero rounds r = storing (this_round rounds) r
  storing_at (suc n) rounds r = storing_at n (later_rounds rounds) (failing (this_round rounds) r)

  keeps_step :
      (c : Command A) (r : Redis A)
      → keeps_watch c ≡ true
      → r.watching ≡ true
      → ((run c r).watching ≡ true)
        × (r.dirty ≡ true → (run c r).dirty ≡ true)
        × ((run c r).dirty ≡ false → (run c r).value ≡ r.value)
  keeps_step watch r k w = (refl, λ d. d, λ d. refl)
  keeps_step touch r k w = (w, λ d. refl, λ d. refl)
  keeps_step unwatch r k w = absurd (ground arith)
  keeps_step (set_key v) r k w = (w, λ d. ground arith, λ d. absurd (ground arith))
  keeps_step (exec v) r k w = absurd (ground arith)

  dirty_stays :
      (cs : List (Command A)) (r : Redis A)
      → All (λ c. keeps_watch c ≡ true) cs
      → r.watching ≡ true
      → r.dirty ≡ true
      → (run_all cs r).dirty ≡ true
  dirty_stays [] r k w d = d
  dirty_stays (c ∷ cs) r (k, keep) w d =
      let (w', d', _) = keeps_step c r k w in dirty_stays cs (run c r) keep w' (d' d)

  watch_stays :
      (cs : List (Command A)) (r : Redis A)
      → All (λ c. keeps_watch c ≡ true) cs
      → r.watching ≡ true
      → (run_all cs r).watching ≡ true
  watch_stays [] r k w = w
  watch_stays (c ∷ cs) r (k, keep) w = watch_stays cs (run c r) keep (keeps_step c r k w).0

  clean_keeps :
      (cs : List (Command A)) (r : Redis A)
      → All (λ c. keeps_watch c ≡ true) cs
      → r.watching ≡ true
      → (run_all cs r).dirty ≡ false
      → (run_all cs r).value ≡ r.value
  clean_keeps [] r k w d = refl
  clean_keeps (c ∷ cs) r (k, keep) w d =
      let (w', _, same) = keeps_step c r k w in
      elim (Bool-cases (run c r).dirty) [
        | inl t ↦ absurd (ground (arith, dirty_stays cs (run c r) keep w' t))
        | inr f ↦ clean_keeps cs (run c r) keep w' d ∙ same f
      ]

  -- An attempt that may store stores over what it read.
  clean_reads :
      (now : Round A) (r : Redis A)
      → IsAlone now
      → (storing now r).dirty ≡ false
      → (storing now r).value ≡ (reading now r).value
  clean_reads now r (get, store) d =
      clean_keeps now.before_exec (reading now r) store
        (watch_stays now.before_get (run watch (run_all now.before_watch r)) get refl) d

  this_round-IsAlone : (rounds : List (Round A)) → All IsAlone rounds → IsAlone (this_round rounds)
  this_round-IsAlone [] h = (tt, tt)
  this_round-IsAlone (now ∷ later) (h, rest) = h

  later_rounds-IsAlone :
      (rounds : List (Round A)) → All IsAlone rounds → All IsAlone (later_rounds rounds)
  later_rounds-IsAlone [] h = tt
  later_rounds-IsAlone (now ∷ later) (h, rest) = rest

Conflict-cases : (c : OnConflict) → (c ≡ null_reply) ⊎ (c ≡ watch_error)
Conflict-cases null_reply = inl refl
Conflict-cases watch_error = inr refl

module _ {ℓ} {A B : Type ℓ} (value_of : B → A) (mutate : Option A → Attempt B)
    (on_conflict : OnConflict) where
  -- The commit of `b` at attempt `n`.
  abbrev IsCommit : ℕ → List (Round A) → Redis A → B → Redis A → Type ℓ
  IsCommit n rounds r b after =
      (mutate (storing_at n rounds r).value ≡ write b)
      × (after ≡ record { value = some (value_of b); watching = false; dirty = false })

  attempts-IsCommit :
      (left : ℕ) (rounds : List (Round A)) (r after : Redis A) (b : B)
      → All IsAlone rounds
      → attempts value_of mutate on_conflict left rounds r ≡ (stored b, after)
      → (n : ℕ) × (n < left) × IsCommit n rounds r b after
  unfolding attempts
  attempts-IsCommit zero rounds r after b alone e = ground arith
  attempts-IsCommit (suc left) rounds r after b alone e =
      let now = this_round rounds in
      elim (Attempt-cases (mutate (reading now r).value)) [
        | inl m ↦ ground arith
        | inr (inl m) ↦ ground arith
        | inr (inr (next, m)) ↦ elim (Bool-cases (storing now r).dirty) [
          | inr f ↦
              let same = clean_reads now r (this_round-IsAlone rounds alone) f in
              (0, omega arith, (rw same (ground (arith, e, m, f)), ground (arith, e, m, f)))
          | inl t ↦ elim (Conflict-cases on_conflict) [
            | inr err ↦ ground (arith, e, m, t, err)
            | inl retries ↦
                let (n, below, commit) =
                  attempts-IsCommit left (later_rounds rounds) (failing now r) after b
                    (later_rounds-IsAlone rounds alone) (ground (arith, e, m, t, retries)) in
                (suc n, omega arith, commit)
          ]
        ]
      ]

-- An update that is stored is atomic, as long as no other call of the process ends a watch of the shared
-- connection between the WATCH of one of its attempts and that attempt's EXEC. One of its twelve attempts
-- stores the closure's answer to the very value that the key has when the EXEC comes, after whatever all
-- others have written up to then. So none of their writes is lost.
pub update_atomic {ℓ} :
    {A B : Type ℓ} (value_of : B → A) (mutate : Option A → Attempt B) (on_conflict : OnConflict)
    (rounds : List (Round A)) (r after : Redis A) (b : B)
    → All IsAlone rounds
    → update_room value_of mutate on_conflict rounds r ≡ (stored b, after)
    → (n : ℕ) × (n < 12)
      × (mutate (storing_at n rounds r).value ≡ write b)
      × (after ≡ record { value = some (value_of b); watching = false; dirty = false })
unfolding update_room
update_atomic value_of mutate on_conflict rounds r after b alone e =
    let (n, below, commit) =
      attempts-IsCommit value_of mutate on_conflict update_room_max_attempts rounds r after b alone
        e in
    let (answer, left) = commit in (n, below, answer, left)
