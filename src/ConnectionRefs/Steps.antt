-- ===== src/ConnectionRefs/Steps.antt =====
-- What each step leaves of the counts: the bump script of src/server/redis/presence-lua.ts, and the scan and
-- the
-- writes of state-store.ts.
use web_sync_play.Prelude.{
  Option-cases, ◌≡◌, refl, String, Bool, true, false, Option, List, [], ◌∷◌, arith, inl, inr,
  Bool-cases, All, is_empty, str_eq, eq_iff, eq_refl, sym, subst, Option-cases,
}
use web_sync_play.ConnectionRefs.{
  RefField, Hash, Scan, Delta, decoded, presence_bump_script, bump_presence_node_count,
  scan_ws_presence, written, touches,
}
use web_sync_play.ConnectionRefs.Cluster.{
  IsComplete, Refs, Cluster, bump_refs, bump_sockets, go_down, write_field, Counts,
}
use web_sync_play.ConnectionRefs.Counts.{live_count, bump_count}
use web_sync_play.ConnectionRefs.Fields.{reconcile_decoded, field_decoded}

untouched :
    (scan : Scan) (k : String) (field : Option RefField)
    → touches scan k ≡ false
    → written scan k field ≡ field
untouched scan k field h = elim (Bool-cases scan.reliable) [
  | inr f ↦ rw f refl
  | inl t ↦ elim (Option-cases (scan.rewrite k)) [
    | inl e ↦ elim (Bool-cases (scan.is_stale k)) [
      | inl stale ↦ absurd (ground arith)
      | inr fresh ↦ rw (t, fresh, e) refl
    ]
    | inr (f, e) ↦ absurd (ground arith)
  ]
]

-- A scan that touches a field writes the same whatever the field is.
touched :
    (scan : Scan) (k : String) (field other : Option RefField)
    → touches scan k ≡ true
    → written scan k field ≡ written scan k other
touched scan k field other h = elim (Bool-cases (scan.is_stale k)) [
  | inl stale ↦ ground arith
  | inr fresh ↦ elim (Option-cases (scan.rewrite k)) [
    | inl e ↦ ground arith
    | inr (f, e) ↦ ground arith
  ]
]

module _ (user_id node : String) (delta : Delta) (r : Refs) (c : Cluster)
    (named : is_empty node ≡ false) where
  bumped_there :
      Counts c user_id (r.hash user_id)
      → Counts
          (bump_sockets user_id node delta c)
          user_id
          ((bump_refs user_id node delta r).hash user_id)
  unfolding presence_bump_script
  bumped_there (counted, same) =
      let (next, step) = bump_count node delta (decoded (r.hash user_id)) named counted in
      rw
        (
          eq_refl user_id,
          field_decoded (bump_presence_node_count node delta (decoded (r.hash user_id))) next,
        )
        (next, λ m d. ground (arith, step m, same m d))

  elsewhere :
      (k : String) (field : Option RefField)
      → str_eq user_id k ≡ false
      → Counts c k field
      → Counts (bump_sockets user_id node delta c) k field
  elsewhere k field away (counted, same) = (counted, λ m d. ground (arith, same m d))

  hash_elsewhere :
      (k : String) → str_eq user_id k ≡ false → (bump_refs user_id node delta r).hash k ≡ r.hash k
  unfolding presence_bump_script
  hash_elsewhere k away = rw away refl

  -- A field that is made of the hash's, and is the hash's own for the user.
  pub bumped_field :
      (k : String) (make : Option RefField → Option RefField)
      → (str_eq user_id k ≡ true → (field : Option RefField) → make field ≡ field)
      → Counts c user_id (r.hash user_id)
      → Counts c k (make (r.hash k))
      → Counts
          (bump_sockets user_id node delta c)
          k
          (make ((bump_refs user_id node delta r).hash k))
  bumped_field k make own mine before = elim (Bool-cases (str_eq user_id k)) [
    | inr away ↦ rw (hash_elsewhere k away) (elsewhere k (make (r.hash k)) away before)
    | inl here ↦
        let e : user_id ≡ k = ground (arith, eq_iff user_id k) in
        subst
          (λ (j : String).
            Counts (bump_sockets user_id node delta c) j
              (make ((bump_refs user_id node delta r).hash j)))
          e
          (subst (Counts (bump_sockets user_id node delta c) user_id)
            (sym (own here ((bump_refs user_id node delta r).hash user_id))) (bumped_there mine))
  ]

  pub bumped_pending :
      (pending : List Scan)
      → ((k : String) → Counts c k (r.hash k))
      → All (λ scan. touches scan user_id ≡ false) pending
      → All (λ scan. (k : String) → Counts c k (written scan k (r.hash k))) pending
      → All
          (λ scan.
            (k : String)
            → Counts
                (bump_sockets user_id node delta c)
                k
                (written scan k ((bump_refs user_id node delta r).hash k)))
          pending
  bumped_pending [] now free pend = tt
  bumped_pending (scan ∷ pending) now (f, free) (p, pend) = (
    λ k.
        bumped_field k (written scan k)
          (λ here field. untouched scan k field (ground (arith, f, eq_iff user_id k))) (now user_id)
          (p k),
    bumped_pending pending now free pend,
  )

pub Counts-down :
    (node k : String) (field : Option RefField) (c : Cluster)
    → Counts c k field
    → Counts (go_down node c) k field
Counts-down node k field c (counted, same) = (
  counted,
  λ m d. elim (Bool-cases (str_eq node m)) [
    | inl t ↦ absurd (ground arith)
    | inr f ↦ ground (arith, same m)
  ],
)

pub down_pending :
    (node : String) (hash : Hash) (c : Cluster) (pending : List Scan)
    → All (λ scan. (k : String) → Counts c k (written scan k (hash k))) pending
    → All (λ scan. (k : String) → Counts (go_down node c) k (written scan k (hash k))) pending
down_pending node hash c [] pend = tt
down_pending node hash c (scan ∷ pending) (p, pend) = (
  λ k. Counts-down node k (written scan k (hash k)) c (p k),
  down_pending node hash c pending pend,
)

pub scanned :
    (alive : List String) (reliable : Bool) (hash : Hash) (c : Cluster) (k : String)
    → IsComplete alive reliable c
    → Counts c k (hash k)
    → Counts c k (written (scan_ws_presence alive reliable hash) k (hash k))
scanned alive reliable hash c k sound (counted, same) =
    let (live, step) = live_count alive (decoded (hash k)) counted in
    elim (Bool-cases reliable) [
      | inl t ↦
          rw (reconcile_decoded alive reliable hash k counted, t)
            (live, λ m d. ground (arith, step m, same m d, sound k m t d))
      | inr f ↦ rw (reconcile_decoded alive reliable hash k counted, f) (counted, same)
    ]

-- What a second scan would write over the first one's write.
written_twice :
    (first second : Scan) (k : String) (field : Option RefField) (c : Cluster)
    → Counts c k (written first k field)
    → Counts c k (written second k field)
    → Counts c k (written second k (written first k field))
written_twice first second k field c one two = elim (Bool-cases (touches second k)) [
  | inl t ↦ subst (Counts c k) (touched second k field (written first k field) t) two
  | inr f ↦ subst (Counts c k) (sym (untouched second k (written first k field) f)) one
]

module _ (user_id : String) (scan : Scan) (r : Refs) (c : Cluster)
    (mine : Counts c user_id (written scan user_id (r.hash user_id))) where
  write-Counts :
      (k : String) (make : Option RefField → Option RefField)
      → Counts c k (make (r.hash k))
      → (str_eq user_id k ≡ true → Counts c k (make (written scan user_id (r.hash user_id))))
      → Counts c k (make ((write_field scan user_id r).hash k))
  write-Counts k make before after = elim (Bool-cases (str_eq user_id k)) [
    | inr away ↦ rw away before
    | inl here ↦ rw here (after here)
  ]

  pub write_now :
      ((k : String) → Counts c k (r.hash k))
      → (k : String) → Counts c k ((write_field scan user_id r).hash k)
  write_now now k =
      write-Counts k (λ f. f) (now k)
        (λ here.
          let e : user_id ≡ k = ground (arith, eq_iff user_id k) in
          subst (λ (j : String). Counts c j (written scan user_id (r.hash user_id))) e mine)

  pub write_pending :
      (pending : List Scan)
      → All (λ q. (k : String) → Counts c k (written q k (r.hash k))) pending
      → All
          (λ q. (k : String) → Counts c k (written q k ((write_field scan user_id r).hash k)))
          pending
  write_pending [] pend = tt
  write_pending (q ∷ pending) (p, pend) = (
    λ k. write-Counts k (written q k) (p k) (λ here.
        let e : user_id ≡ k = ground (arith, eq_iff user_id k) in
        subst (λ (j : String). Counts c j (written q j (written scan user_id (r.hash user_id)))) e
          (written_twice scan q user_id (r.hash user_id) c mine (p user_id))),
    write_pending pending pend,
  )
