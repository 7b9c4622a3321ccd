-- ===== src/ConnectionRefs/Race.antt =====
-- A socket that opens while the refs are reconciled: src/server/redis/state-store.ts, where the scan and its
-- writes are separate calls of Redis.
use web_sync_play.Prelude.{
  ℕ, ◌≡◌, refl, String, true, false, List, arith, is_empty, any, str_eq, eq_refl,
}
use web_sync_play.ConnectionRefs.{
  Hash, up, presence_bump_script, scan_ws_presence, apply_presence_reconcile_writes,
  reconcile_presence_refs, read_ws_presence_user_ids, parse_presence_node_counts,
}
use web_sync_play.ConnectionRefs.Sockets.{Agrees, bump-Agrees, live_online}

stale_gone :
    (alive : List String) (seen hash : Hash) (user_id : String)
    → (scan_ws_presence alive true seen).is_stale user_id ≡ true
    → read_ws_presence_user_ids alive true (reconcile_presence_refs alive true seen hash) user_id
      ≡ false
unfolding read_ws_presence_user_ids scan_ws_presence reconcile_presence_refs
    apply_presence_reconcile_writes parse_presence_node_counts
stale_gone alive seen hash user_id stale = rw stale refl

-- A reconciliation can lose a socket. The hash counts the sockets, and all that a user has left in it is on
-- nodes that are not alive, so that the scan finds the user's field stale. If the user opens a socket on a
-- node that is alive before the scan's writes are made, the user is online by the hash, and the
-- writes take the user off, though the socket stays open.
pub reconcile_loses :
    (alive : List String) (seen : Hash) (sockets : String → String → ℕ) (user_id node : String)
    → Agrees seen sockets
    → is_empty node ≡ false
    → any (str_eq node) alive ≡ true
    → (scan_ws_presence alive true seen).is_stale user_id ≡ true
    → let joined = (presence_bump_script user_id node up seen).1 in
      (read_ws_presence_user_ids alive true joined user_id ≡ true)
      × (read_ws_presence_user_ids alive true
            (reconcile_presence_refs alive true seen joined)
            user_id
          ≡ false)
reconcile_loses alive seen sockets user_id node agrees named live stale =
    let joined = (presence_bump_script user_id node up seen).1 in
    let (counted, same) = bump-Agrees user_id node up seen sockets named agrees user_id in
    let (_, back) = live_online alive joined user_id counted in
    (
      back (node, live, ground (arith, same node, eq_refl user_id, eq_refl node)),
      stale_gone alive seen joined user_id stale,
    )
