-- ===== src/Media/Tests.antt =====
-- The theorems on src/server/media/local-media-block-cache.ts and src/shared/local-media/local-media-range.ts,
-- applied to concrete values.
use web_sync_play.Media.BlockCache.{
  BlockEntry, clear_l1_for_media, get_l1, cache_max_bytes, put_l1, CacheSlot,
}
use web_sync_play.Prelude.{
  concat, starts_with, All, refl, ◌∷◌, [], ◌≡◌, ◌≤◌, false, none, String, ◌↔◌, max,
}
use web_sync_play.Media.BlockCache.Totals.{sum_bytes, IsDistinct, IsExact, cache_stays-IsExact}
use web_sync_play.Media.Range.{
  IsAsked, resolve_bytes_range_against_length, IsServed, RawBytesRange, range_serves,
}

abbrev two_blocks : CacheSlot
two_blocks = record {
  blocks =
      ("m:0", record { bytes = "x"; byte_length = 1; expires_at = 500 })
      ∷ ("n:0", record { bytes = "yz"; byte_length = 2; expires_at = 900 })
      ∷ [];
  total_bytes = 3;
}

two_blocks-IsExact : IsExact two_blocks
unfolding IsDistinct sum_bytes
two_blocks-IsExact = ((refl, (refl, tt)), refl)

abbrev from_ten : RawBytesRange
from_ten = record { start = 10; end = none }

cache_stays-IsExact_example :
    (IsExact (put_l1 "m:0" "bytes" 10 1000 two_blocks)
      × ((put_l1 "m:0" "bytes" 10 1000 two_blocks).total_bytes ≤ max cache_max_bytes 10))
    × (IsExact (get_l1 "m:0" 1000 two_blocks).1
        × ((get_l1 "m:0" 1000 two_blocks).1.total_bytes ≡ two_blocks.total_bytes))
    × (IsExact (clear_l1_for_media "m" two_blocks)
        × All
            (λ (e : String × BlockEntry). starts_with (concat "m" ":") e.0 ≡ false)
            (clear_l1_for_media "m" two_blocks).blocks)
cache_stays-IsExact_example =
    cache_stays-IsExact "m:0" "bytes" "m" 10 1000 two_blocks (two_blocks-IsExact)

range_serves_example :
    IsServed (resolve_bytes_range_against_length from_ten 100) 40 ↔ IsAsked from_ten 100 40
range_serves_example = range_serves from_ten 100 40
