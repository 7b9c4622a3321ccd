-- ===== src/ConnectionRefs/Cluster.antt =====
-- The refs of a room beside its sockets, while nodes come and go: src/server/redis/state-store.ts, where a
-- reconciliation reads the hash first and writes one field after the other.
use web_sync_play.Prelude.{
  ℕ, zero, suc, ◌≡◌, String, Bool, true, false, ◌&&◌, Option, none, some, List, [], ◌∷◌, All,
  if◌then◌else◌, is_empty, any, str_eq, get_elem?,
}
use web_sync_play.ConnectionRefs.{
  RefField, Hash, Scan, Delta, decoded, set_field, presence_bump_script, scan_ws_presence, written,
  touches,
}
use web_sync_play.ConnectionRefs.Counts.{refs_on, IsCounted, bumped}

-- The hash, and the scans whose writes are not all made.
pub record Refs : Type 0 where
  pub hash : Hash
  pub pending : List Scan

-- What is really there: the sockets that each user has on each node, and the nodes that have gone down.
pub record Cluster : Type 0 where
  pub sockets : String → String → ℕ
  pub down : String → Bool

abbrev pub no_refs : Refs
no_refs = record { hash = λ k. none; pending = [] }

abbrev pub no_cluster : Cluster
no_cluster = record { sockets = λ k m. 0; down = λ m. false }

-- A socket more or less, in the hash and in the cluster.
abbrev pub bump_refs : String → String → Delta → Refs → Refs
bump_refs user_id node delta r = record r {
  hash = (presence_bump_script user_id node delta r.hash).1;
}

abbrev pub bump_sockets : String → String → Delta → Cluster → Cluster
bump_sockets user_id node delta c = record c {
  sockets = λ k m.
      if str_eq user_id k && str_eq node m then bumped delta (c.sockets k m) else c.sockets k m;
}

-- A node goes down with its sockets.
abbrev pub go_down : String → Cluster → Cluster
go_down node c = record {
  sockets = λ k m. if str_eq node m then 0 else c.sockets k m;
  down = λ m. if str_eq node m then true else c.down m;
}

abbrev pub begin_scan : List String → Bool → Refs → Refs
begin_scan alive reliable r = record r {
  pending = scan_ws_presence alive reliable r.hash ∷ r.pending;
}

-- The write of a scan for one user, a rewrite or a deletion.
abbrev pub write_field : Scan → String → Refs → Refs
write_field scan user_id r = record r {
  hash = set_field user_id (written scan user_id (r.hash user_id)) r.hash;
}

-- All but scan `i`.
abbrev pub drop_at {ℓ} : {A : Type ℓ} → ℕ → List A → List A
drop_at i [] = []
drop_at zero (x ∷ xs) = xs
drop_at (suc i) (x ∷ xs) = x ∷ drop_at i xs

-- A list of nodes that can be relied on misses no node with sockets.
abbrev pub IsComplete : List String → Bool → Cluster → Type 0
IsComplete alive reliable c =
    (k m : String)
    → reliable ≡ true
    → c.down m ≡ false
    → any (str_eq m) alive ≡ false
    → c.sockets k m ≡ 0

-- The refs and the cluster after a number of steps. A socket opens or closes on a node that has a name and is
-- not down, while no pending scan has a write for its user. A scan sees a list of nodes that,
-- if it can be relied on, misses no node with sockets. Its writes come in any order, among everything else, and
-- a scan ends at any time.
pub data Reaches : Refs → Cluster → Type 0 where
  start : Reaches no_refs no_cluster
  bumps :
      {r : Refs} {c : Cluster} (user_id node : String) (delta : Delta)
      → Reaches r c
      → is_empty node ≡ false
      → c.down node ≡ false
      → All (λ scan. touches scan user_id ≡ false) r.pending
      → Reaches (bump_refs user_id node delta r) (bump_sockets user_id node delta c)
  goes_down : {r : Refs} {c : Cluster} (node : String) → Reaches r c → Reaches r (go_down node c)
  scans :
      {r : Refs} {c : Cluster} (alive : List String) (reliable : Bool)
      → Reaches r c
      → IsComplete alive reliable c
      → Reaches (begin_scan alive reliable r) c
  writes :
      {r : Refs} {c : Cluster} (i : ℕ) (scan : Scan) (user_id : String)
      → Reaches r c
      → get_elem? r.pending i ≡ some scan
      → Reaches (write_field scan user_id r) c
  ends :
      {r : Refs} {c : Cluster} (i : ℕ)
      → Reaches r c
      → Reaches (record r { pending = drop_at i r.pending }) c

-- A field counts the sockets of its user on the nodes that are not down.
abbrev pub Counts : Cluster → String → Option RefField → Type 0
Counts c k field =
    IsCounted (decoded field)
    × ((m : String) → c.down m ≡ false → refs_on m (decoded field) ≡ c.sockets k m)

-- So do the hash, and what the pending scans would write.
pub record AgreesUp (r : Refs) (c : Cluster) : Type 0 where
  pub now : (k : String) → Counts c k (r.hash k)
  pub then_on : All (λ scan. (k : String) → Counts c k (written scan k (r.hash k))) r.pending
