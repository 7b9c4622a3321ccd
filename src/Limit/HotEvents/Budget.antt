-- ===== src/Limit/HotEvents/Budget.antt =====
-- How many events the coalesced limit of src/server/security/rate-limit.ts lets through.
use web_sync_play.Prelude.{
  ℕ, ◌+◌, ◌-◌, ◌*◌, ◌≤◌, ◌≡◌, refl, max, Bool, true, false, Option, none, some, List, [], ◌∷◌,
  if◌then◌else◌, sym, subst, ap, ◌∙◌, arith, ltb, Bool-cases, inl, inr,
}
use native.Mathlib.Nat.{add-mul}
use web_sync_play.Limit.{TokenBucket, RateLimitResult}
use web_sync_play.Limit.Redis.{
  RateLimitCounters, Consumed, consume_redis_token_bucket, token_bucket_script,
}
use web_sync_play.Limit.HotEvents.{
  batch_outcome, EventLimit, HotWsCoalesceEntry, HotConsumed, charge_batch, coalesce,
}

-- What a bucket is worth at a time, in thousandths, before the limit of its capacity.
abbrev pub worth : ℕ → ℕ → TokenBucket → ℕ
worth refill now b = b.tokens + (now - b.updated_at_ms) * refill

abbrev pub charge : RateLimitResult → ℕ → ℕ
charge result cost = if result.allowed then cost * 1000 else 0

-- The prepaid events, in thousandths.
abbrev pub credit : Option HotWsCoalesceEntry → ℕ
credit none = 0
credit (some e) = e.remaining_local * 1000

script_pays :
    (capacity refill now cost : ℕ) (b : TokenBucket)
    → b.updated_at_ms ≤ now
    → let (result, next) = token_bucket_script (max 1 capacity) refill now cost (some b) in
      (charge result cost + next.tokens ≤ worth refill now b) × (next.updated_at_ms ≡ now)
unfolding token_bucket_script
script_pays capacity refill now cost b h = (ground arith, ground arith)

worth_now :
    (refill now : ℕ) (b : TokenBucket) → b.updated_at_ms ≡ now → worth refill now b ≡ b.tokens
worth_now refill now b at =
    let none_yet : now - b.updated_at_ms ≡ 0 = omega (arith, at) in rw none_yet (omega arith)

redis_pays :
    (up : Bool) (capacity refill cost now : ℕ) (stored : Option TokenBucket) (b : TokenBucket)
    (counters : RateLimitCounters)
    → stored ≡ some b
    → b.updated_at_ms ≤ now
    → let c = consume_redis_token_bucket up false capacity refill cost now stored counters in
      (next : TokenBucket) × (c.bucket ≡ some next)
      × (next.updated_at_ms ≤ now)
      × (charge c.result cost + worth refill now next ≤ worth refill now b)
unfolding consume_redis_token_bucket
redis_pays true capacity refill cost now stored b counters e h =
    let (result, next) = token_bucket_script (max 1 capacity) refill now cost (some b) in
    let (pays, at) = script_pays capacity refill now cost b h in
    (next, rw e, omega (arith, at), rw e (ground (arith, pays, worth_now refill now next at)))
redis_pays false capacity refill cost now stored b counters e h = (b, e, h, ground arith)

-- What a call of one event leaves, all in thousandths at its time.
abbrev Pays : ℕ → ℕ → Option HotWsCoalesceEntry → TokenBucket → HotConsumed → Type 0
Pays refill now entry b c =
    (next : TokenBucket) × (c.bucket ≡ some next)
    × (next.updated_at_ms ≤ now)
    × (charge c.result 1 + credit c.entry + worth refill now next
        ≤ credit entry + worth refill now b)

outcome-Pays :
    (refill batch now : ℕ) (whole single : Consumed) (b b' b'' : TokenBucket)
    → 1 ≤ batch
    → whole.bucket ≡ some b'
    → b'.updated_at_ms ≤ now
    → charge whole.result batch + worth refill now b' ≤ worth refill now b
    → single.bucket ≡ some b''
    → b''.updated_at_ms ≤ now
    → charge single.result 1 + worth refill now b'' ≤ worth refill now b'
    → Pays refill now none b (batch_outcome batch now whole single)
unfolding batch_outcome
outcome-Pays refill batch now whole single b b' b'' many at before pays at' before' pays' =
    elim (Bool-cases whole.result.allowed) [
      | inl t ↦ (b', rw t at, before, rw t (ground arith))
      | inr f ↦ (b'', rw f at', before', rw f (ground arith))
    ]

module _ (limit : EventLimit) (batch : ℕ) (many : 1 ≤ batch) where
  batch-Pays :
      (up up_again : Bool) (now : ℕ) (b : TokenBucket) (counters : RateLimitCounters)
      → b.updated_at_ms ≤ now
      → Pays limit.refill_per_second now none b
          (charge_batch up up_again limit batch now (some b) counters)
  unfolding charge_batch
  batch-Pays up up_again now b counters h =
      let refill = limit.refill_per_second in
      let whole =
        consume_redis_token_bucket up false limit.capacity refill batch now (some b) counters in
      let (b', at, before, pays) =
        redis_pays up limit.capacity refill batch now (some b) b counters refl h in
      let (b'', at', before', pays') =
        redis_pays up_again limit.capacity refill 1 now whole.bucket b' whole.counters at before in
      outcome-Pays refill batch now whole
        (consume_redis_token_bucket up_again false limit.capacity refill 1 now whole.bucket
          whole.counters)
        b b' b'' many at before pays at' before' pays'

  event-Pays :
      (up up_again : Bool) (now : ℕ) (entry : Option HotWsCoalesceEntry) (b : TokenBucket)
      (counters : RateLimitCounters)
      → b.updated_at_ms ≤ now
      → Pays limit.refill_per_second now entry b
          (coalesce up up_again limit batch now entry (some b) counters)
  unfolding coalesce
  event-Pays up up_again now none b counters h = batch-Pays up up_again now b counters h
  event-Pays up up_again now (some e) b counters h = elim (Bool-cases (ltb now e.denied_until_ms)) [
    | inl t ↦ (b, rw t, h, rw t (omega arith))
    | inr f ↦ elim (Bool-cases (ltb 0 e.remaining_local)) [
      | inl t ↦ (b, rw (f, t), h, rw (f, t) (ground arith))
      | inr g ↦
          let (next, at, before, pays) = batch-Pays up up_again now b counters h in
          (next, rw (f, g) at, before, rw (f, g) (ground (arith, pays)))
    ]
  ]

-- An event at its time, with the answers of Redis to the two charges that it may make.
pub record HotEvent : Type 0 where
  pub now : ℕ
  pub up : Bool
  pub up_again : Bool

-- The clock does not run back, and no event is later than the end.
abbrev pub IsTimed : ℕ → ℕ → List HotEvent → Type 0
IsTimed at end [] = at ≤ end
IsTimed at end (e ∷ events) = (at ≤ e.now) × IsTimed e.now end events

pub record HotRun : Type 0 where
  pub passed : ℕ
  pub entry : Option HotWsCoalesceEntry
  pub bucket : Option TokenBucket

-- The events of one key in one process, one after the other.
pub run_hot :
    EventLimit
    → ℕ
    → List HotEvent
    → Option HotWsCoalesceEntry
    → Option TokenBucket
    → RateLimitCounters
    → HotRun
run_hot limit batch [] entry stored counters = record { passed = 0; entry = entry; bucket = stored }
run_hot limit batch (e ∷ events) entry stored counters =
    let c = coalesce e.up e.up_again limit batch e.now entry stored counters in
    let rest = run_hot limit batch events c.entry c.bucket c.counters in
    record rest { passed = (if c.result.allowed then 1 else 0) + rest.passed }

worth_later :
    (refill now end : ℕ) (b : TokenBucket)
    → b.updated_at_ms ≤ now
    → now ≤ end
    → worth refill end b ≡ worth refill now b + (end - now) * refill
worth_later refill now end b h k =
    let spans : (end - b.updated_at_ms) * refill
        ≡ (now - b.updated_at_ms) * refill + (end - now) * refill =
      ap (λ (x : ℕ). x * refill) (omega arith)
      ∙ add-mul (now - b.updated_at_ms) (end - now) refill in
    omega (arith, spans)

IsTimed-le : (at end : ℕ) (events : List HotEvent) → IsTimed at end events → at ≤ end
IsTimed-le at end [] h = h
IsTimed-le at end (e ∷ events) (h, hs) = omega (arith, IsTimed-le e.now end events hs)

-- An event that comes often is paid for when it passes. Over any run of such events of one key in one
-- process, on a clock that does not run back, and whether Redis answers or not, the events that pass,
-- those that are prepaid at the end and the tokens that the bucket is then worth are at most what was
-- prepaid at first and what the bucket would have been worth at the end. The batch is one at least.
pub hot_events_pay :
    (limit : EventLimit) (batch start end : ℕ) (events : List HotEvent)
    (entry : Option HotWsCoalesceEntry) (stored : Option TokenBucket) (b : TokenBucket)
    (counters : RateLimitCounters)
    → 1 ≤ batch
    → stored ≡ some b
    → b.updated_at_ms ≤ start
    → IsTimed start end events
    → let run = run_hot limit batch events entry stored counters in
      (last : TokenBucket) × (run.bucket ≡ some last)
      × (run.passed * 1000 + credit run.entry + worth limit.refill_per_second end last
          ≤ credit entry + worth limit.refill_per_second end b)
unfolding run_hot
hot_events_pay limit batch start end [] entry stored b counters many e h timed = (b, e, omega arith)
hot_events_pay limit batch start end (x ∷ events) entry stored b counters many e h (k, timed) =
    let refill = limit.refill_per_second in
    let c = coalesce x.up x.up_again limit batch x.now entry stored counters in
    let paid : Pays refill x.now entry b c =
      subst
        (λ o.
          Pays refill x.now entry b (coalesce x.up x.up_again limit batch x.now entry o counters))
        (sym e)
        (event-Pays limit batch many x.up x.up_again x.now entry b counters (omega arith)) in
    let (next, at, before, pays) = paid in
    let (last, at', rest) =
      hot_events_pay limit batch x.now end events c.entry c.bucket next c.counters many at before
        timed in
    (
      last,
      at',
      ground (
        arith,
        pays,
        rest,
        worth_later refill x.now end b (omega arith) (IsTimed-le x.now end events timed),
        worth_later refill x.now end next before (IsTimed-le x.now end events timed),
      ),
    )
