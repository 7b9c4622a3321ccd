-- ===== src/Room/Security/Tests.antt =====
-- The theorems on src/server/realtime/services/room-security.ts, applied to concrete rooms, people and
-- messages.
use web_sync_play.Room.Security.{
  invalid_password, password_required, set_join_password, evaluate_join_admission,
}
use web_sync_play.Prelude.{trim, is_empty, refl, arith, ◌≡◌, if◌then◌else◌, some, none}
use web_sync_play.Room.Samples.{plain_crypto, cinema}
use web_sync_play.Room.Security.Admission.{set_password_rejects}

set_password_rejects_example :
    let t = set_join_password plain_crypto cinema "open" "s1" 100000 in
    (evaluate_join_admission plain_crypto (some t) none ≡ password_required)
    × (evaluate_join_admission plain_crypto (some t) (some "sesame")
        ≡ (if is_empty (trim "sesame") then password_required else invalid_password))
unfolding trim
set_password_rejects_example =
    set_password_rejects plain_crypto cinema "open" "sesame" "s1" 100000 refl refl
      (λ e. ground arith)
