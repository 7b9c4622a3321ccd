-- ===== src/Limit/Bounds.antt =====
-- How many requests a token bucket of src/server/security/rate-limit.ts lets through.
use web_sync_play.Prelude.{
  ℕ, ◌+◌, ◌-◌, ◌*◌, ◌≤◌, ◌≡◌, max, Bool, true, false, some, List, [], ◌∷◌, if◌then◌else◌, sym, ap,
  ◌∙◌, arith,
}
use native.Mathlib.Nat.{add-mul}
use web_sync_play.Limit.{TokenBucket, refilled, consume_bucket}

-- The requests of one key, each at its time of the clock: how many pass, and the bucket after them.
pub run : ℕ → ℕ → ℕ → List ℕ → TokenBucket → ℕ × TokenBucket
unfolding consume_bucket
run capacity refill cost [] bucket = (0, bucket)
run capacity refill cost (now ∷ times) bucket =
    let (result, next) = consume_bucket capacity refill cost now (some bucket) in
    let (passed, last) = run capacity refill cost times next in
    ((if result.allowed then 1 else 0) + passed, last)

-- The clock does not run back.
abbrev pub IsOrdered : ℕ → List ℕ → Type 0
IsOrdered at [] = Unit
IsOrdered at (now ∷ times) = (at ≤ now) × IsOrdered now times

-- One request: it keeps the bucket within its capacity, and what it takes and leaves is covered by
-- what was there and what the time refills.
pub consume_pays :
    (capacity refill cost now : ℕ) (bucket : TokenBucket)
    → bucket.updated_at_ms ≤ now
    → let (result, next) = consume_bucket capacity refill cost now (some bucket) in
      ((if result.allowed then cost * 1000 else 0) + next.tokens
        ≤ bucket.tokens + (now - bucket.updated_at_ms) * refill)
      × (next.updated_at_ms ≡ now)
      × (next.tokens ≤ max 1 capacity * 1000)
unfolding consume_bucket refilled
consume_pays capacity refill cost now bucket h = (ground arith, ground arith, ground arith)

spans_add :
    (u now end r : ℕ) → u ≤ now → now ≤ end → (now - u) * r + (end - now) * r ≡ (end - u) * r
spans_add u now end r h k = sym (add-mul (now - u) (end - now) r) ∙ ap (λ x. x * r) (omega arith)

passed_add : (b : Bool) (n c : ℕ) → ((if b then 1 else 0) + n) * c ≡ (if b then c else 0) + n * c
passed_add true n c = ground arith
passed_add false n c = ground arith

-- Over any run of requests of one key on a clock that does not run back, the tokens of those that pass
-- and those that are left are at most what the bucket had and what the refill rate adds over the time
-- of the run; and the bucket's time does not move back.
pub run_pays :
    (capacity refill cost : ℕ) (times : List ℕ) (bucket : TokenBucket)
    → IsOrdered bucket.updated_at_ms times
    → let (passed, last) = run capacity refill cost times bucket in
      (bucket.updated_at_ms ≤ last.updated_at_ms)
      × (passed * (cost * 1000) + last.tokens
          ≤ bucket.tokens + (last.updated_at_ms - bucket.updated_at_ms) * refill)
unfolding run
run_pays capacity refill cost [] bucket h = (omega arith, omega arith)
run_pays capacity refill cost (now ∷ times) bucket (h, hs) =
    let (result, next) = consume_bucket capacity refill cost now (some bucket) in
    let (pays, at, _) = consume_pays capacity refill cost now bucket h in
    let (passed, last) = run capacity refill cost times next in
    let (le, rest) = run_pays capacity refill cost times next (rw at hs) in
    (
      ground (arith, le, at),
      ground (
        arith,
        pays,
        rest,
        at,
        passed_add result.allowed passed (cost * 1000),
        spans_add bucket.updated_at_ms now last.updated_at_ms refill h (ground (arith, le, at)),
      ),
    )
