-- ===== src/Store/Settles.antt =====
-- When `updateRoom` of src/server/redis/state-store.ts comes to an end, by what the client's `exec` does on a
-- conflict.
use web_sync_play.Prelude.{ℕ, zero, suc, ◌≡◌, Bool, true, false, List, All}
use web_sync_play.Store.{
  Command, watch, touch, unwatch, set_key, exec, Outcome, aborted, denied, exhausted, conflicted,
  stored, Round, this_round, later_rounds,
}

module _ {ℓ} {A : Type ℓ} where
  -- A command that writes no key.
  abbrev pub is_quiet : Command A → Bool
  is_quiet watch = true
  is_quiet touch = false
  is_quiet unwatch = true
  is_quiet (set_key v) = false
  is_quiet (exec v) = false

  -- Nothing that the connection watches is written up to the EXEC.
  abbrev pub IsQuiet : Round A → Type 0
  IsQuiet now =
      All (λ c. is_quiet c ≡ true) now.before_watch
      × All (λ c. is_quiet c ≡ true) now.before_get
      × All (λ c. is_quiet c ≡ true) now.before_exec

  abbrev pub round_at : ℕ → List (Round A) → Round A
  round_at zero rounds = this_round rounds
  round_at (suc n) rounds = round_at n (later_rounds rounds)

-- The caller has the closure's answer, or the room that was stored.
abbrev pub Answers {ℓ} : {B : Type ℓ} → Outcome B → Type 0
Answers aborted = Unit
Answers denied = Unit
Answers exhausted = ⊥
Answers conflicted = ⊥
Answers (stored b) = Unit
