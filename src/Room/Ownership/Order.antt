-- ===== src/Room/Ownership/Order.antt =====
-- Whom `pickNextOwner` of src/server/realtime/services/ownership.ts picks.
use web_sync_play.Prelude.{
  ℕ, ◌≤◌, ◌≡◌, refl, Bool, true, false, Option, none, some, List, [], ◌∷◌, arith, All, Bool-cases,
  inl, inr, ◌&&◌, ltb,
}
use web_sync_play.Room.State.{RoomRole, same_role}
use web_sync_play.Room.Ownership.{Entry, participant_sort_key, better, pick_from}

abbrev pub key_of : Entry → ℕ
key_of e = participant_sort_key e.1

abbrev pub has_role : RoomRole → Entry → Bool
has_role role e = same_role e.1.role role

-- What holds of the entries holds of the one that is picked.
pub pick_from-All :
    (P : Entry → Type 0) (role : RoomRole) (best : Option Entry) (entries : List Entry)
    → ((e : Entry) → best ≡ some e → P e)
    → All P entries
    → (e : Entry) → pick_from role best entries ≡ some e
    → P e
unfolding pick_from
pick_from-All P role best [] hb h e q = hb e q
pick_from-All P role best (x ∷ rest) hb h e q =
    pick_from-All P role (better role best x) rest (kept best hb) h.1 e q
  where
    kept :
        (b : Option Entry)
        → ((y : Entry) → b ≡ some y → P y)
        → (y : Entry) → better role b x ≡ some y
        → P y
    kept none g y k = elim (Bool-cases (has_role role x)) [
      | inl t ↦ let p : x ≡ y = ground arith in rw (← p) h.0
      | inr t ↦ absurd (ground arith)
    ]
    kept (some b) g y k = elim (Bool-cases (has_role role x && ltb (key_of x) (key_of b))) [
      | inl t ↦ let p : x ≡ y = ground arith in rw (← p) h.0
      | inr t ↦ let p : b ≡ y = ground arith in rw (← p) (g b refl)
    ]

-- The pick is no later than the best before it, and than each entry of the role.
pub pick_from-least :
    (role : RoomRole) (best : Option Entry) (entries : List Entry) (e : Entry)
    → pick_from role best entries ≡ some e
    → ((b : Entry) → best ≡ some b → key_of e ≤ key_of b)
      × All (λ x. has_role role x ≡ true → key_of e ≤ key_of x) entries
unfolding pick_from
pick_from-least role best [] e q = (λ b k. ground arith, tt)
pick_from-least role none (x ∷ rest) e q =
    let (before, after) = pick_from-least role (better role none x) rest e q in
    (λ b k. absurd (ground arith), (λ t. ground (arith, before x), after))
pick_from-least role (some c) (x ∷ rest) e q =
    let (before, after) = pick_from-least role (better role (some c) x) rest e q in
    (λ b k. ground (arith, before x, before c), (λ t. ground (arith, before x, before c), after))

-- Nobody is picked only if nobody has the role.
pub pick_from-none :
    (role : RoomRole) (best : Option Entry) (entries : List Entry)
    → pick_from role best entries ≡ none
    → (best ≡ none) × All (λ x. has_role role x ≡ false) entries
unfolding pick_from
pick_from-none role best [] q = (q, tt)
pick_from-none role none (x ∷ rest) q =
    let (before, after) = pick_from-none role (better role none x) rest q in
    (refl, (ground arith, after))
pick_from-none role (some c) (x ∷ rest) q =
    let (before, after) = pick_from-none role (better role (some c) x) rest q in
    absurd (ground arith)

pub pick_from-role :
    (role : RoomRole) (best : Option Entry) (entries : List Entry) (e : Entry)
    → ((b : Entry) → best ≡ some b → has_role role b ≡ true)
    → pick_from role best entries ≡ some e
    → has_role role e ≡ true
unfolding pick_from
pick_from-role role best [] e hb q = hb e q
pick_from-role role none (x ∷ rest) e hb q =
    pick_from-role role (better role none x) rest e (λ b k. ground arith) q
pick_from-role role (some c) (x ∷ rest) e hb q =
    pick_from-role role (better role (some c) x) rest e (λ b k. ground (arith, hb c)) q
