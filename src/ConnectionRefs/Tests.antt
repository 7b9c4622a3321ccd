-- ===== src/ConnectionRefs/Tests.antt =====
-- The theorems on the refs of src/server/redis, applied to concrete values.
use web_sync_play.ConnectionRefs.{
  reconcile_presence_refs, read_ws_presence_user_ids, nodes, up, Hash, presence_bump_script,
  scan_ws_presence,
}
use web_sync_play.Prelude.{
  List, Bool-cases, str_eq, refl, arith, ◌∷◌, [], ◌≡◌, inl, inr, ◌&&◌, if◌then◌else◌, true, false,
  some, none, ℕ, String,
}
use web_sync_play.ConnectionRefs.Sockets.{Agrees}
use web_sync_play.ConnectionRefs.Cluster.{
  Refs, Cluster, no_refs, no_cluster, bump_refs, bump_sockets, go_down, begin_scan, write_field,
}
use web_sync_play.ConnectionRefs.Race.{reconcile_loses}

-- A node that is gone has left a ref of one user.
abbrev on_dead : Hash
on_dead k = if str_eq "bob" k then some (nodes (("n1", 1) ∷ [])) else none

abbrev one_socket : String → String → ℕ
one_socket k m = if str_eq "bob" k && str_eq "n1" m then 1 else 0

on_dead-Agrees : Agrees on_dead one_socket
on_dead-Agrees k = elim (Bool-cases (str_eq "bob" k)) [
  | inl here ↦ rw here ((refl, refl, tt), λ m. ground arith)
  | inr away ↦ rw away (tt, λ m. refl)
]

abbrev second_up : List String
second_up = "n2" ∷ []

-- A user with a tab on each of two nodes, after the first node went down.
abbrev two_tabs : Refs
two_tabs = bump_refs "bob" "n2" up (bump_refs "bob" "n1" up no_refs)

abbrev one_left : Cluster
one_left = go_down "n1" (bump_sockets "bob" "n2" up (bump_sockets "bob" "n1" up no_cluster))

-- A reconciliation that has read the hash and dropped the node from it.
abbrev reconciled : Refs
reconciled =
    write_field (scan_ws_presence second_up true two_tabs.hash) "bob"
      (begin_scan second_up true two_tabs)

reconcile_loses_example :
    let joined = (presence_bump_script "bob" "n2" up on_dead).1 in
    (read_ws_presence_user_ids ("n2" ∷ []) true joined "bob" ≡ true)
    × (read_ws_presence_user_ids
          ("n2" ∷ [])
          true
          (reconcile_presence_refs ("n2" ∷ []) true on_dead joined)
          "bob"
        ≡ false)
unfolding web_sync_play.ConnectionRefs.scan_ws_presence
reconcile_loses_example =
    reconcile_loses ("n2" ∷ []) on_dead one_socket "bob" "n2" (on_dead-Agrees) refl refl refl
