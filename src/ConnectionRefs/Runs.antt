-- ===== src/ConnectionRefs/Runs.antt =====
-- The refs against the sockets over any run: src/server/redis/state-store.ts.
use web_sync_play.ConnectionRefs.Cluster.{Cluster, Counts}
