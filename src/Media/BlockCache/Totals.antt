-- ===== src/Media/BlockCache/Totals.antt =====
-- The bytes that src/server/media/local-media-block-cache.ts counts.
use web_sync_play.Prelude.{
  ℕ, ◌+◌, ◌-◌, ◌≤◌, ◌≡◌, refl, max, String, false, none, List, [], ◌∷◌, ◌++◌, ltb, lookup, erase,
  starts_with, concat, arith, str_eq, eq_iff, All, Bool-cases, Option-cases, inl, inr, lookup-erase,
}
use web_sync_play.Media.BlockCache.{
  cache_ttl_ms, BlockEntry, CacheSlot, cache_max_bytes, evict, evict_if_needed, touch, length_of,
  put_l1, get_l1, clear_blocks, clear_l1_for_media,
}

unfoldable pub sum_bytes : List (String × BlockEntry) → ℕ
sum_bytes [] = 0
sum_bytes (e ∷ rest) = e.1.byte_length + sum_bytes rest

-- No key stands twice, as in a `Map`.
unfoldable pub IsDistinct : List (String × BlockEntry) → Type 0
IsDistinct [] = Unit
IsDistinct (e ∷ rest) = (lookup e.0 rest ≡ none) × IsDistinct rest

abbrev pub IsExact : CacheSlot → Type 0
IsExact s = IsDistinct s.blocks × (s.total_bytes ≡ sum_bytes s.blocks)

erase_absent : (k : String) (m : List (String × BlockEntry)) → lookup k m ≡ none → erase k m ≡ m
erase_absent k [] h = refl
erase_absent k (e ∷ m) h = ground (arith, erase_absent k m)

sum_bytes-erase :
    (k : String) (m : List (String × BlockEntry))
    → IsDistinct m
    → sum_bytes (erase k m) + length_of (lookup k m) ≡ sum_bytes m
unfolding sum_bytes IsDistinct
sum_bytes-erase k [] h = refl
sum_bytes-erase k (e ∷ m) (a, h) =
    ground (arith, eq_iff e.0 k, erase_absent k m, sum_bytes-erase k m h)

sum_bytes-append :
    (m : List (String × BlockEntry)) (k : String) (b : BlockEntry)
    → sum_bytes (m ++ (k, b) ∷ []) ≡ sum_bytes m + b.byte_length
unfolding sum_bytes
sum_bytes-append [] k b = omega arith
sum_bytes-append (e ∷ m) k b = omega (arith, sum_bytes-append m k b)

lookup_append :
    (j : String) (m : List (String × BlockEntry)) (k : String) (b : BlockEntry)
    → lookup j m ≡ none
    → str_eq k j ≡ false
    → lookup j (m ++ (k, b) ∷ []) ≡ none
lookup_append j [] k b h f = ground arith
lookup_append j (e ∷ m) k b h f = ground (arith, lookup_append j m k b)

touch-IsDistinct :
    (k : String) (b : BlockEntry) (m : List (String × BlockEntry))
    → IsDistinct m
    → IsDistinct (touch k b m)
unfolding IsDistinct
touch-IsDistinct k b [] h = (refl, tt)
touch-IsDistinct k b (e ∷ m) (a, h) = elim (Bool-cases (str_eq e.0 k)) [
  | inl t ↦ rw t (touch-IsDistinct k b m h)
  | inr f ↦ rw f (
    lookup_append e.0 (erase k m) k b (ground (arith, lookup-erase k e.0 m))
        (ground (arith, eq_iff e.0 k, eq_iff k e.0)),
    touch-IsDistinct k b m h,
  )
]

sum_bytes-touch :
    (k : String) (b : BlockEntry) (m : List (String × BlockEntry))
    → IsDistinct m
    → sum_bytes (touch k b m) + length_of (lookup k m) ≡ sum_bytes m + b.byte_length
sum_bytes-touch k b m h = omega (arith, sum_bytes-append (erase k m) k b, sum_bytes-erase k m h)

evict-IsExact :
    (incoming : ℕ) (m : List (String × BlockEntry)) (total : ℕ)
    → IsDistinct m
    → total ≡ sum_bytes m
    → let t = evict incoming m total in
      IsExact t × (t.total_bytes + incoming ≤ max cache_max_bytes incoming)
unfolding evict sum_bytes IsDistinct
evict-IsExact incoming [] total h e = ((tt, e), ground arith)
evict-IsExact incoming (x ∷ m) total (a, h) e =
    elim (Bool-cases (ltb cache_max_bytes (total + incoming))) [
      | inl t ↦ rw t (evict-IsExact incoming m (total - x.1.byte_length) h (omega arith))
      | inr f ↦ rw f (((a, h), e), ground arith)
    ]

clear-IsExact :
    (prefix : String) (m : List (String × BlockEntry)) (total extra : ℕ)
    → IsDistinct m
    → total ≡ sum_bytes m + extra
    → let t = clear_blocks prefix m total in
      IsDistinct t.blocks
      × (t.total_bytes ≡ sum_bytes t.blocks + extra)
      × ((k : String) → lookup k m ≡ none → lookup k t.blocks ≡ none)
      × All (λ (e : String × BlockEntry). starts_with prefix e.0 ≡ false) t.blocks
unfolding clear_blocks sum_bytes IsDistinct
clear-IsExact prefix [] total extra h e = (tt, e, λ k n. refl, tt)
clear-IsExact prefix (x ∷ m) total extra (a, h) e = elim (Bool-cases (starts_with prefix x.0)) [
  | inl t ↦
      let (d, s, l, p) = clear-IsExact prefix m (total - x.1.byte_length) extra h (omega arith) in
      rw t (d, s, λ k n. l k (ground arith), p)
  | inr f ↦
      let (d, s, l, p) = clear-IsExact prefix m total (x.1.byte_length + extra) h (omega arith) in
      rw f ((l x.0 a, d), omega arith, λ k n. ground (arith, l k), (f, p))
]

put-IsExact :
    (key bytes : String) (size now : ℕ) (s : CacheSlot)
    → IsExact s
    → IsExact (put_l1 key bytes size now s)
      × ((put_l1 key bytes size now s).total_bytes ≤ max cache_max_bytes size)
unfolding put_l1 evict_if_needed
put-IsExact key bytes size now s (d, e) =
    let ((d', e'), bound) = evict-IsExact size s.blocks s.total_bytes d e in
    let kept = evict size s.blocks s.total_bytes in
    let entry : BlockEntry = record {
      bytes = bytes;
      byte_length = size;
      expires_at = now + cache_ttl_ms;
    } in
    let touched = sum_bytes-touch key entry kept.blocks d' in
    let erased = sum_bytes-erase key kept.blocks d' in
    (
      (touch-IsDistinct key entry kept.blocks d', omega (arith, e', touched, erased)),
      omega (arith, bound),
    )

get-IsExact :
    (key : String) (now : ℕ) (s : CacheSlot)
    → IsExact s
    → IsExact (get_l1 key now s).1 × ((get_l1 key now s).1.total_bytes ≡ s.total_bytes)
unfolding get_l1
get-IsExact key now s (d, e) = elim (Option-cases (lookup key s.blocks)) [
  | inl n ↦ rw (n, get_l1) ((d, e), refl)
  | inr (hit, n) ↦ elim (Bool-cases (ltb now hit.expires_at)) [
    | inl t ↦
        rw (n, get_l1, t)
          (
            (
              touch-IsDistinct key hit s.blocks d,
              ground (arith, n, e, sum_bytes-touch key hit s.blocks d),
            ),
            refl,
          )
    | inr f ↦ rw (n, get_l1, f) ((d, e), refl)
  ]
]

clear_media-IsExact :
    (media_id : String) (s : CacheSlot)
    → IsExact s
    → IsExact (clear_l1_for_media media_id s)
      × All
          (λ (e : String × BlockEntry). starts_with (concat media_id ":") e.0 ≡ false)
          (clear_l1_for_media media_id s).blocks
unfolding clear_l1_for_media
clear_media-IsExact media_id s (d, e) =
    let (d', e', _, p) =
      clear-IsExact (concat media_id ":") s.blocks s.total_bytes 0 d (omega (arith, e)) in
    ((d', omega (arith, e')), p)

-- Every operation keeps the cache exact, so that no key stands twice and `totalBytes` is the sum of the
-- blocks' bytes: storing a block leaves at most 64 MiB, or that one block's size if it is larger;
-- clearing a file leaves none of its blocks; and a read changes no total.
pub cache_stays-IsExact :
    (key bytes media_id : String) (size now : ℕ) (s : CacheSlot)
    → IsExact s
    → (IsExact (put_l1 key bytes size now s)
        × ((put_l1 key bytes size now s).total_bytes ≤ max cache_max_bytes size))
      × (IsExact (get_l1 key now s).1 × ((get_l1 key now s).1.total_bytes ≡ s.total_bytes))
      × (IsExact (clear_l1_for_media media_id s)
          × All
              (λ (e : String × BlockEntry). starts_with (concat media_id ":") e.0 ≡ false)
              (clear_l1_for_media media_id s).blocks)
cache_stays-IsExact key bytes media_id size now s exact = (
  put-IsExact key bytes size now s exact,
  get-IsExact key now s exact,
  clear_media-IsExact media_id s exact,
)
