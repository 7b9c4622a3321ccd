-- ===== src/Dedupe/Tests.antt =====
-- The theorems on src/server/ws/request-dedupe.ts, applied to concrete values.
use web_sync_play.Dedupe.{should_skip_duplicate_request}
use web_sync_play.Prelude.{refl, arith, ◌∷◌, [], ◌≡◌, true}
use web_sync_play.Dedupe.Window.{tick, request, steps, skipped_again}

skipped_again_example :
    (should_skip_duplicate_request "q1" 2000
      (steps (request "q2" 1500 ∷ tick 1800 ∷ []) (should_skip_duplicate_request "q1" 1000 []).1)).0
    ≡ true
unfolding should_skip_duplicate_request
skipped_again_example =
    skipped_again "q1" 1000 2000 [] (request "q2" 1500 ∷ tick 1800 ∷ []) refl
      (omega arith, omega arith, (omega arith, omega arith, tt)) (omega arith) (omega arith)
