-- ===== src/ConnectionRefs.antt =====
-- Who has a socket in a room: src/server/redis/presence-ref.ts, presence-lua.ts and the presence of
-- state-store.ts. The Redis hash of a room is a function from users to fields, and a field is the text
-- of an old counter or the decoded counts of the nodes. The nodes that are alive, this one among them, and
-- whether that list can be relied on, are arguments.
mod Tests
pub mod Counts
pub mod Fields
pub mod Sockets
pub mod Race
pub mod Cluster
pub mod Steps
pub mod Runs
use web_sync_play.Prelude.{
  ℕ, ◌+◌, ◌-◌, String, Bool, true, false, not, ◌&&◌, ◌||◌, Option, none, some, List, [], ◌∷◌, ltb,
  ◌==◌, str_eq, is_empty, if◌then◌else◌, or_else, lookup, insert, erase, keep, any, length,
}

abbrev pub NodeCounts : Type 0
NodeCounts = List (String × ℕ)

pub data RefField : Type 0 where
  legacy : RefField
  nodes : NodeCounts → RefField

abbrev pub Hash : Type 0
Hash = String → Option RefField

pub data Delta : Type 0 where
  up down : Delta

-- `Number.isFinite(n) && n > 0 && nodeId.length > 0`
abbrev pub is_counted : String × ℕ → Bool
is_counted e = ltb 0 e.1 && not (is_empty e.0)

unfoldable pub parse_presence_node_counts : Option RefField → NodeCounts
parse_presence_node_counts none = []
parse_presence_node_counts (some legacy) = []
parse_presence_node_counts (some (nodes counts)) = keep is_counted counts

unfoldable pub encode_presence_node_counts : NodeCounts → Option RefField
encode_presence_node_counts counts = elim (keep is_counted counts) [
  | [] ↦ none
  | e ∷ rest ↦ some (nodes (e ∷ rest))
]

pub total_presence_refs : NodeCounts → ℕ
total_presence_refs [] = 0
total_presence_refs (e ∷ rest) = e.1 + total_presence_refs rest

abbrev pub is_alive : List String → String × ℕ → Bool
is_alive alive e = ltb 0 e.1 && any (str_eq e.0) alive

unfoldable pub is_present_on_alive_node : List String → NodeCounts → Bool
is_present_on_alive_node alive counts = any (is_alive alive) counts

-- A count that falls to 0 goes.
unfoldable pub bump_presence_node_count : String → Delta → NodeCounts → NodeCounts
bump_presence_node_count node up counts = insert node (or_else (lookup node counts) 0 + 1) counts
bump_presence_node_count node down counts =
    let n = or_else (lookup node counts) 0 - 1 in
    if n == 0 then erase node counts else insert node n counts

abbrev pub set_field : String → Option RefField → Hash → Hash
set_field user_id field hash k = if str_eq user_id k then field else hash k

-- What the script decodes.
abbrev pub decoded : Option RefField → NodeCounts
decoded none = []
decoded (some legacy) = []
decoded (some (nodes counts)) = counts

-- The script, with the refs that remain.
unfoldable pub presence_bump_script : String → String → Delta → Hash → ℕ × Hash
unfolding bump_presence_node_count total_presence_refs
presence_bump_script user_id node delta hash =
    let counts = bump_presence_node_count node delta (decoded (hash user_id)) in
    let remaining = total_presence_refs (keep is_counted counts) in
    (
      remaining,
      set_field user_id (if remaining == 0 then none else some (nodes (keep is_counted counts)))
          hash,
    )

-- What a scan finds of each user. A rewrite that would leave the text of the field as it is is none: the
-- counts that stay have the order of the text, so that is so if none of them goes.
pub record Scan : Type 0 where
  pub reliable : Bool
  pub online : String → Bool
  pub is_stale : String → Bool
  pub rewrite : String → Option RefField

abbrev pub live_only : List String → NodeCounts → NodeCounts
live_only alive counts = keep (is_alive alive) counts

abbrev pub is_present : Option RefField → Bool
is_present none = false
is_present (some f) = true

abbrev pub is_nil : NodeCounts → Bool
is_nil [] = true
is_nil (e ∷ rest) = false

unfoldable pub scan_ws_presence : List String → Bool → Hash → Scan
unfolding parse_presence_node_counts encode_presence_node_counts
scan_ws_presence alive reliable hash = record {
  reliable = reliable;
  online = λ k.
      let counts = parse_presence_node_counts (hash k) in
      if is_nil counts
      then false
      else if reliable
      then not (is_nil (live_only alive counts))
      else true;
  is_stale = λ k.
      let counts = parse_presence_node_counts (hash k) in
      is_present (hash k) && (reliable && is_nil (live_only alive counts));
  rewrite = λ k.
      let live = live_only alive (parse_presence_node_counts (hash k)) in
      if reliable && not (length live == length (decoded (hash k)))
      then encode_presence_node_counts live
      else none;
}

-- The scan has a write for the user's field.
abbrev pub touches : Scan → String → Bool
touches scan k = scan.reliable && (scan.is_stale k || is_present (scan.rewrite k))

-- The field of a user after the rewrites and the deletions.
abbrev pub written : Scan → String → Option RefField → Option RefField
written scan k field =
    if not scan.reliable
    then field
    else if scan.is_stale k
    then none
    else elim (scan.rewrite k) [ none ↦ field | some f ↦ some f ]

unfoldable pub apply_presence_reconcile_writes : Scan → Hash → Hash
apply_presence_reconcile_writes scan hash k = written scan k (hash k)

unfoldable pub read_ws_presence_user_ids : List String → Bool → Hash → String → Bool
unfolding scan_ws_presence
read_ws_presence_user_ids alive reliable hash = (scan_ws_presence alive reliable hash).online

-- The hash when it is read, and the hash when it is written.
unfoldable pub reconcile_presence_refs : List String → Bool → Hash → Hash → Hash
unfolding scan_ws_presence apply_presence_reconcile_writes
reconcile_presence_refs alive reliable seen hash =
    apply_presence_reconcile_writes (scan_ws_presence alive reliable seen) hash

unfoldable pub clear_ws_connection_ref : String → Hash → Hash
clear_ws_connection_ref user_id hash = set_field user_id none hash
