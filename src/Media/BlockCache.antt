-- ===== src/Media/BlockCache.antt =====
-- The process-local cache of src/server/media/local-media-block-cache.ts: a map in order of use, and
-- the bytes that it holds. `totalBytes -= entry.byteLength` is a truncated difference, which the
-- invariant keeps exact. Redis and the calls in flight are outside.
pub mod Totals
use web_sync_play.Prelude.{
  ◌*◌, ℕ, ◌+◌, ◌-◌, String, Bool, true, false, not, Option, none, some, List, [], ◌∷◌, ◌++◌, ltb,
  if◌then◌else◌, or_else, lookup, erase, starts_with, concat,
}

-- The bytes themselves are an identifier of their content.
pub record BlockEntry : Type 0 where
  pub bytes : String
  pub byte_length : ℕ
  pub expires_at : ℕ

pub record CacheSlot : Type 0 where
  pub blocks : List (String × BlockEntry)
  pub total_bytes : ℕ

abbrev pub cache_ttl_ms : ℕ
cache_ttl_ms = 120000

abbrev pub cache_max_bytes : ℕ
cache_max_bytes = 64 * 1024 * 1024

-- The oldest entries go first.
pub evict : ℕ → List (String × BlockEntry) → ℕ → CacheSlot
evict incoming [] total = record { blocks = []; total_bytes = total }
evict incoming (e ∷ rest) total =
    let evicted = evict incoming rest (total - e.1.byte_length) in
    if ltb cache_max_bytes (total + incoming)
    then evicted
    else record { blocks = e ∷ rest; total_bytes = total }

unfoldable pub evict_if_needed : ℕ → CacheSlot → CacheSlot
unfolding evict
evict_if_needed incoming s = evict incoming s.blocks s.total_bytes

abbrev pub touch : String → BlockEntry → List (String × BlockEntry) → List (String × BlockEntry)
touch key entry blocks = erase key blocks ++ (key, entry) ∷ []

abbrev pub length_of : Option BlockEntry → ℕ
length_of none = 0
length_of (some e) = e.byte_length

unfoldable pub put_l1 : String → String → ℕ → ℕ → CacheSlot → CacheSlot
unfolding evict_if_needed
put_l1 key bytes byte_length now s =
    let room = evict_if_needed byte_length s in
    record {
      blocks =
          touch key
            (record { bytes = bytes; byte_length = byte_length; expires_at = now + cache_ttl_ms })
            room.blocks;
      total_bytes = (room.total_bytes - length_of (lookup key room.blocks)) + byte_length;
    }

-- The first branch of `getOrFetchLocalMediaBlock`: a hit that has not expired is used last.
unfoldable pub get_l1 : String → ℕ → CacheSlot → Option String × CacheSlot
get_l1 key now s = elim (lookup key s.blocks) [
  | none ↦ (none, s)
  | some hit ↦
      if ltb now hit.expires_at
      then (some hit.bytes, record s { blocks = touch key hit s.blocks })
      else (none, s)
]

pub clear_blocks : String → List (String × BlockEntry) → ℕ → CacheSlot
clear_blocks prefix [] total = record { blocks = []; total_bytes = total }
clear_blocks prefix (e ∷ rest) total =
    let gone = clear_blocks prefix rest (total - e.1.byte_length) in
    let kept = clear_blocks prefix rest total in
    if starts_with prefix e.0
    then gone
    else record { blocks = e ∷ kept.blocks; total_bytes = kept.total_bytes }

unfoldable pub clear_l1_for_media : String → CacheSlot → CacheSlot
unfolding clear_blocks
clear_l1_for_media media_id s = clear_blocks (concat media_id ":") s.blocks s.total_bytes
