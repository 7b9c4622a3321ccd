-- ===== src/ConnectionRefs/Counts.antt =====
-- The counts of one user's nodes: src/server/redis/presence-ref.ts and presence-lua.ts.
use web_sync_play.Prelude.{
  ℕ, ◌+◌, ◌-◌, ◌≡◌, refl, String, Bool, true, false, none, List, [], ◌∷◌, arith, inl, inr,
  Bool-cases, All, if◌then◌else◌, or_else, is_empty, lookup, insert, erase, keep, any, str_eq,
  eq_iff, ◌==◌, lookup-insert, lookup-erase, keep-All,
}
use web_sync_play.ConnectionRefs.{
  NodeCounts, Delta, up, down, is_counted, is_alive, live_only, bump_presence_node_count,
  total_presence_refs, is_nil,
}

abbrev pub refs_on : String → NodeCounts → ℕ
refs_on node counts = or_else (lookup node counts) 0

-- Each node stands once, with a count above 0.
abbrev pub IsCounted : NodeCounts → Type 0
IsCounted [] = Unit
IsCounted (e ∷ rest) = (is_counted e ≡ true) × (lookup e.0 rest ≡ none) × IsCounted rest

IsCounted-All : (counts : NodeCounts) → IsCounted counts → All (λ e. is_counted e ≡ true) counts
IsCounted-All [] h = tt
IsCounted-All (e ∷ rest) (c, new, h) = (c, IsCounted-All rest h)

pub keep_counted : (counts : NodeCounts) → IsCounted counts → keep is_counted counts ≡ counts
keep_counted counts h = keep-All is_counted counts (IsCounted-All counts h)

insert-IsCounted :
    (node : String) (n : ℕ) (counts : NodeCounts)
    → is_counted (node, n) ≡ true
    → IsCounted counts
    → IsCounted (insert node n counts)
insert-IsCounted node n [] c h = (c, refl, tt)
insert-IsCounted node n ((k, v) ∷ rest) c (kc, new, h) = elim (Bool-cases (str_eq k node)) [
  | inl same ↦ rw same (ground (arith, eq_iff k node), new, h)
  | inr other ↦ rw other (
    kc,
    ground (arith, lookup-insert node k n rest, eq_iff k node, eq_iff node k),
    insert-IsCounted node n rest c h,
  )
]

erase-IsCounted :
    (node : String) (counts : NodeCounts) → IsCounted counts → IsCounted (erase node counts)
erase-IsCounted node [] h = tt
erase-IsCounted node ((k, v) ∷ rest) (kc, new, h) = elim (Bool-cases (str_eq k node)) [
  | inl same ↦ rw same (erase-IsCounted node rest h)
  | inr other ↦ rw other (kc, ground (arith, lookup-erase node k rest), erase-IsCounted node rest h)
]

abbrev pub bumped : Delta → ℕ → ℕ
bumped up n = n + 1
bumped down n = n - 1

-- One socket more or less on one node.
pub bump_count :
    (node : String) (delta : Delta) (counts : NodeCounts)
    → is_empty node ≡ false
    → IsCounted counts
    → IsCounted (bump_presence_node_count node delta counts)
      × ((m : String)
          → refs_on m (bump_presence_node_count node delta counts)
            ≡ (if str_eq node m then bumped delta (refs_on m counts) else refs_on m counts))
unfolding bump_presence_node_count
bump_count node up counts named h = (
  insert-IsCounted node (refs_on node counts + 1) counts (ground arith) h,
  λ m. ground (arith, lookup-insert node m (refs_on node counts + 1) counts, eq_iff node m),
)
bump_count node down counts named h = elim (Bool-cases (refs_on node counts - 1 == 0)) [
  | inl gone ↦ rw gone (
    erase-IsCounted node counts h,
    λ m. ground (arith, lookup-erase node m counts, eq_iff node m),
  )
  | inr left ↦ rw left (
    insert-IsCounted node (refs_on node counts - 1) counts (ground arith) h,
    λ m. ground (arith, lookup-insert node m (refs_on node counts - 1) counts, eq_iff node m),
  )
]

pub total_nil :
    (counts : NodeCounts) → IsCounted counts → (total_presence_refs counts == 0) ≡ is_nil counts
unfolding total_presence_refs
total_nil [] h = refl
total_nil (e ∷ rest) (c, new, h) = ground arith

keep-none :
    (p : String × ℕ → Bool) (k : String) (counts : NodeCounts)
    → lookup k counts ≡ none
    → lookup k (keep p counts) ≡ none
keep-none p k [] h = refl
keep-none p k ((j, v) ∷ rest) h = ground (arith, keep-none p k rest)

-- The nodes that are alive keep their counts.
pub live_count :
    (alive : List String) (counts : NodeCounts)
    → IsCounted counts
    → IsCounted (live_only alive counts)
      × ((m : String)
          → refs_on m (live_only alive counts)
            ≡ (if any (str_eq m) alive then refs_on m counts else 0))
live_count alive [] h = (tt, λ m. ground arith)
live_count alive ((k, v) ∷ rest) (c, new, h) =
    let (counted, same) = live_count alive rest h in
    elim (Bool-cases (is_alive alive (k, v))) [
      | inl t ↦ rw t (
        (c, keep-none (is_alive alive) k rest new, counted),
        λ m. ground (arith, same m, eq_iff k m),
      )
      | inr f ↦ rw f (counted, λ m. ground (arith, same m, eq_iff k m))
    ]
