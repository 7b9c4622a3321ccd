-- ===== src/UrlSafety/Tests.antt =====
-- The theorems on src/server/security/url-safety.ts, applied to concrete values.
use web_sync_play.UrlSafety.{codes, is_private_or_local_ipv4}
use web_sync_play.Prelude.{any, refl, arith, ◌∷◌, ◌++◌, ◌≡◌}
use web_sync_play.UrlSafety.Ranges.{private_blocks, address, in_block, ipv4_blocks}

ipv4_blocks_example :
    is_private_or_local_ipv4
      ((codes "172") ++ b'.' ∷ ((codes "20") ++ b'.' ∷ ((codes "0") ++ b'.' ∷ (codes "1"))))
    ≡ any (in_block (address 172 20 0 1)) private_blocks
unfolding web_sync_play.UrlSafety.read_decimal
ipv4_blocks_example =
    ipv4_blocks (codes "172") (codes "20") (codes "0") (codes "1") 172 20 0 1 refl refl refl refl
      (omega arith) (omega arith) (omega arith) (omega arith)
