-- ===== src/ConnectionRefs/Sockets.antt =====
-- The hash against the sockets that are open: src/server/redis/state-store.ts.
use web_sync_play.Prelude.{
  ℕ, ◌≡◌, ◌<◌, ◌↔◌, refl, ap, String, true, false, not, ◌&&◌, List, [], ◌∷◌, arith, inl, inr,
  Bool-cases, if◌then◌else◌, is_empty, any, str_eq, eq_iff, eq_refl,
}
use web_sync_play.ConnectionRefs.{
  NodeCounts, Hash, Delta, live_only, decoded, bump_presence_node_count, presence_bump_script,
  is_nil, scan_ws_presence, read_ws_presence_user_ids,
}
use web_sync_play.ConnectionRefs.Fields.{parse_decoded, field_decoded}
use web_sync_play.ConnectionRefs.Counts.{
  refs_on, IsCounted, keep_counted, bump_count, bumped, live_count,
}

-- The counts of the hash are those of the sockets.
abbrev pub Agrees : Hash → (String → String → ℕ) → Type 0
Agrees hash sockets =
    (k : String)
    → IsCounted (decoded (hash k)) × ((m : String) → refs_on m (decoded (hash k)) ≡ sockets k m)

pub bump-Agrees :
    (user_id node : String) (delta : Delta) (hash : Hash) (sockets : String → String → ℕ)
    → is_empty node ≡ false
    → Agrees hash sockets
    → Agrees (presence_bump_script user_id node delta hash).1 (λ k m.
      if str_eq user_id k && str_eq node m then bumped delta (sockets k m) else sockets k m)
unfolding presence_bump_script
bump-Agrees user_id node delta hash sockets named agrees k =
    let (counted, same) = agrees user_id in
    let (next, step) = bump_count node delta (decoded (hash user_id)) named counted in
    elim (Bool-cases (str_eq user_id k)) [
      | inl here ↦
          let e : user_id ≡ k = ground (arith, eq_iff user_id k) in
          rw
            (
              here,
              field_decoded (bump_presence_node_count node delta (decoded (hash user_id))) next,
            )
            (next, λ m. ground (arith, step m, same m, ap (λ x. sockets x m) e))
      | inr away ↦ rw away (agrees k)
    ]

first_count :
    (live : NodeCounts) → IsCounted live → is_nil live ≡ false → (m : String) × (0 < refs_on m live)
first_count [] counted h = absurd (ground arith)
first_count (e ∷ rest) (c, new, counted) h = (e.0, ground (arith, eq_refl e.0))

nil_count : (live : NodeCounts) (m : String) → is_nil live ≡ true → refs_on m live ≡ 0
nil_count [] m h = refl
nil_count (e ∷ rest) m h = absurd (ground arith)

online_live :
    (alive : List String) (counts : NodeCounts)
    → (if is_nil counts then false else not (is_nil (live_only alive counts)))
      ≡ not (is_nil (live_only alive counts))
online_live alive [] = refl
online_live alive (e ∷ rest) = refl

-- Somebody with a live count, and only such, is online.
pub live_online :
    (alive : List String) (hash : Hash) (k : String)
    → IsCounted (decoded (hash k))
    → (read_ws_presence_user_ids alive true hash k ≡ true)
      ↔ ((m : String) × (any (str_eq m) alive ≡ true) × (0 < refs_on m (decoded (hash k))))
unfolding read_ws_presence_user_ids scan_ws_presence
live_online alive hash k counted =
    let counts = decoded (hash k) in
    let (live, same) = live_count alive counts counted in
    let e : read_ws_presence_user_ids alive true hash k ≡ not (is_nil (live_only alive counts)) =
      rw (parse_decoded (hash k), keep_counted counts counted) (online_live alive counts) in
    (
      λ h.
          let (m, above) = first_count (live_only alive counts) live (ground arith) in
          (m, ground (arith, same m), ground (arith, same m)),
      λ w. let (m, a, n) = w in ground (arith, same m, nil_count (live_only alive counts) m),
    )
