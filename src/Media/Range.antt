-- ===== src/Media/Range.antt =====
-- src/shared/local-media/local-media-range.ts: a parsed range against the length of a file.
use web_sync_play.Prelude.{
  inr, inl, Bool-cases, ℕ, ◌-◌, ◌≤◌, ◌<◌, min, ◌||◌, Option, ltb, leb, if◌then◌else◌, or_else,
  arith, ◌↔◌,
}

pub record RawBytesRange : Type 0 where
  pub start : ℕ
  pub end : Option ℕ

pub data ResolvedBytesRange : Type 0 where
  invalid : ResolvedBytesRange
  bytes : ℕ → ℕ → ResolvedBytesRange

-- Where the source's default end is -1, the start is not below the length.
unfoldable pub resolve_bytes_range_against_length : RawBytesRange → ℕ → ResolvedBytesRange
resolve_bytes_range_against_length range total =
    let last = or_else range.end (total - 1) in
    if ltb last range.start || leb total range.start
    then invalid
    else bytes range.start (min last (total - 1))

-- The range asks for the byte at `i`.
abbrev pub IsAsked : RawBytesRange → ℕ → ℕ → Type 0
IsAsked range total i = (range.start ≤ i) × (i < total) × (i ≤ or_else range.end (total - 1))

-- The resolved range holds the byte at `i`.
abbrev pub IsServed : ResolvedBytesRange → ℕ → Type 0
IsServed invalid i = ⊥
IsServed (bytes a b) i = (a ≤ i) × (i ≤ b)

-- The bytes that a resolved range holds are exactly the bytes of the file that the range asks for; an
-- invalid one holds none.
pub range_serves :
    (range : RawBytesRange) (total i : ℕ)
    → IsServed (resolve_bytes_range_against_length range total) i ↔ IsAsked range total i
unfolding resolve_bytes_range_against_length
range_serves range total i =
    let last = or_else range.end (total - 1) in
    elim (Bool-cases (ltb last range.start || leb total range.start)) [
      | inl t ↦ rw t (λ h. elim h [ ], λ asked. ground arith)
      | inr f ↦ rw f (λ h. ground arith, λ asked. ground arith)
    ]
