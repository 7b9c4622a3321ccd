-- ===== src/ConnectionRefs/Fields.antt =====
-- The fields of the hash: src/server/redis/presence-lua.ts and state-store.ts.
use web_sync_play.Prelude.{
  ◌∙◌, sym, Bool-cases, ◌≤◌, arith, ◌≡◌, refl, ap, String, Bool, true, false, Option, none, some,
  List, [], ◌∷◌, inl, inr, ◌⊎◌, if◌then◌else◌, keep, ◌==◌,
}
use web_sync_play.ConnectionRefs.{
  not, length, ℕ, NodeCounts, RefField, legacy, nodes, Hash, is_counted, live_only, decoded,
  total_presence_refs, is_nil, scan_ws_presence, written, is_alive, parse_presence_node_counts,
  encode_presence_node_counts,
}
use web_sync_play.ConnectionRefs.Counts.{IsCounted, keep_counted, total_nil, live_count}

field_cases :
    (f : Option RefField)
    → (f ≡ none) ⊎ ((f ≡ some legacy) ⊎ ((counts : NodeCounts) × (f ≡ some (nodes counts))))
field_cases none = inl refl
field_cases (some legacy) = inr (inl refl)
field_cases (some (nodes counts)) = inr (inr (counts, refl))

pub parse_decoded :
    (f : Option RefField) → parse_presence_node_counts f ≡ keep is_counted (decoded f)
unfolding parse_presence_node_counts
parse_decoded none = refl
parse_decoded (some legacy) = refl
parse_decoded (some (nodes counts)) = refl

nil_decoded :
    (counts : NodeCounts) → decoded (if is_nil counts then none else some (nodes counts)) ≡ counts
nil_decoded [] = refl
nil_decoded (e ∷ rest) = refl

pub field_decoded :
    (counts : NodeCounts)
    → IsCounted counts
    → decoded (
        if total_presence_refs (keep is_counted counts) == 0
        then none
        else some (nodes (keep is_counted counts)))
      ≡ counts
field_decoded counts h = rw (keep_counted counts h, total_nil counts h) (nil_decoded counts)

keep-le : (p : String × ℕ → Bool) (counts : NodeCounts) → length (keep p counts) ≤ length counts
keep-le p [] = omega arith
keep-le p (e ∷ rest) = ground (arith, keep-le p rest)

-- A list that keeps its length keeps its entries.
keep_same :
    (p : String × ℕ → Bool) (counts : NodeCounts)
    → (length (keep p counts) == length counts) ≡ true
    → keep p counts ≡ counts
keep_same p [] h = refl
keep_same p (e ∷ rest) h = ground (arith, keep_same p rest, keep-le p rest)

-- What the writes make of the field of a user: the counts that stay, where some go.
live_decoded :
    (live counts : NodeCounts) (field : Option RefField)
    → decoded field ≡ counts
    → keep is_counted live ≡ live
    → ((length live == length counts) ≡ true → live ≡ counts)
    → decoded (
        if is_nil live
        then none
        else elim (if not (length live == length counts)
            then encode_presence_node_counts live
            else none) [ none ↦ field | some f ↦ some f ])
      ≡ live
unfolding encode_presence_node_counts
live_decoded [] counts field e h same = refl
live_decoded (c ∷ rest) counts field e h same =
    elim (Bool-cases (length (c ∷ rest) == length counts)) [
      | inl t ↦ rw t (e ∙ sym (same t))
      | inr f ↦ rw (f, h) refl
    ]

pub reconcile_decoded :
    (alive : List String) (reliable : Bool) (hash : Hash) (k : String)
    → IsCounted (decoded (hash k))
    → decoded (written (scan_ws_presence alive reliable hash) k (hash k))
      ≡ (if reliable then live_only alive (decoded (hash k)) else decoded (hash k))
unfolding scan_ws_presence parse_presence_node_counts encode_presence_node_counts
reconcile_decoded alive false hash k counted = refl
reconcile_decoded alive true hash k counted = elim (field_cases (hash k)) [
  | inl e ↦ rw e (ap decoded e)
  | inr (inl e) ↦ rw e refl
  | inr (inr (counts, e)) ↦
      let c : IsCounted counts = rw e at counted in
      rw (e, keep_counted counts c)
        (live_decoded (live_only alive counts) counts (hash k) (ap decoded e)
          (keep_counted (live_only alive counts) (live_count alive counts c).0)
          (λ t. keep_same (is_alive alive) counts t))
]
