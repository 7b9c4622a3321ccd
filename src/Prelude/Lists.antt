-- ===== src/Prelude/Lists.antt =====
-- Arrays as lists over the native numbers: reads, writes, `splice`, `findIndex`, `filter`, `slice`.
use Prim.Native.Nat.{ℕ, zero, suc, ◌+◌, ◌-◌, ◌≤◌, ◌<◌}
use mathlib.Core.Path.{◌≡◌, refl}
use mathlib.Core.Bool.{Bool, true, false}
use mathlib.Core.Logic.{◌⊎◌, inl, inr}
use mathlib.Core.Option.{Option, none, some}
use mathlib.Core.List.{map, List, [], ◌∷◌, ◌++◌}
use native.Mathlib.Omega.{arith}
use web_sync_play.Prelude.Tests.{if◌then◌else◌, Bool-cases, Option-cases}

module _ {ℓ} {A : Type ℓ} where
  abbrev pub length : List A → ℕ
  length [] = 0
  length (x ∷ xs) = suc (length xs)

  abbrev pub get_elem? : List A → ℕ → Option A
  get_elem? [] i = none
  get_elem? (x ∷ xs) zero = some x
  get_elem? (x ∷ xs) (suc i) = get_elem? xs i

  -- `list.splice(i, 1)`, the list that is left
  abbrev pub remove_at : List A → ℕ → List A
  remove_at [] i = []
  remove_at (x ∷ xs) zero = xs
  remove_at (x ∷ xs) (suc i) = x ∷ remove_at xs i

  -- `list.splice(i, 0, v)`; past the end it appends
  abbrev pub insert_at : List A → ℕ → A → List A
  insert_at xs zero v = v ∷ xs
  insert_at [] (suc i) v = v ∷ []
  insert_at (x ∷ xs) (suc i) v = x ∷ insert_at xs i v

  -- `list[i] = f(list[i])`, no change out of range
  abbrev pub modify_at : List A → ℕ → (A → A) → List A
  modify_at [] i f = []
  modify_at (x ∷ xs) zero f = f x ∷ xs
  modify_at (x ∷ xs) (suc i) f = x ∷ modify_at xs i f

  abbrev pub find_index : (A → Bool) → List A → Option ℕ
  find_index p [] = none
  find_index p (x ∷ xs) =
      if p x then some 0 else elim (find_index p xs) [ none ↦ none | some i ↦ some (suc i) ]

  abbrev pub find : (A → Bool) → List A → Option A
  find p [] = none
  find p (x ∷ xs) = if p x then some x else find p xs

  -- `list.filter(p)`
  abbrev pub keep : (A → Bool) → List A → List A
  keep p [] = []
  keep p (x ∷ xs) = if p x then x ∷ keep p xs else keep p xs

  abbrev pub any : (A → Bool) → List A → Bool
  any p [] = false
  any p (x ∷ xs) = if p x then true else any p xs

  abbrev pub drop : ℕ → List A → List A
  drop zero xs = xs
  drop (suc n) [] = []
  drop (suc n) (x ∷ xs) = drop n xs

  abbrev pub take : ℕ → List A → List A
  take zero xs = []
  take (suc n) [] = []
  take (suc n) (x ∷ xs) = x ∷ take n xs

  -- `list.slice(-n)` for a positive `n`
  abbrev pub take_last : ℕ → List A → List A
  take_last n xs = drop (length xs - n) xs

  abbrev pub All {κ} : (A → Type κ) → List A → Type κ
  All P [] = Unit
  All P (x ∷ xs) = P x × All P xs

  pub nil-cases : (xs : List A) → (xs ≡ []) ⊎ ((x : A) × (rest : List A) × (xs ≡ x ∷ rest))
  nil-cases [] = inl refl
  nil-cases (x ∷ rest) = inr (x, rest, refl)

  pub length-append : (xs ys : List A) → length (xs ++ ys) ≡ length xs + length ys
  length-append [] ys = omega arith
  length-append (x ∷ xs) ys = omega (arith, length-append xs ys)

  pub length-remove_at :
      (xs : List A) (i : ℕ) → i < length xs → length (remove_at xs i) + 1 ≡ length xs
  length-remove_at [] i h = omega arith
  length-remove_at (x ∷ xs) zero h = omega arith
  length-remove_at (x ∷ xs) (suc i) h = omega (arith, length-remove_at xs i)

  pub length-insert_at : (xs : List A) (i : ℕ) (v : A) → length (insert_at xs i v) ≡ length xs + 1
  length-insert_at xs zero v = omega arith
  length-insert_at [] (suc i) v = omega arith
  length-insert_at (x ∷ xs) (suc i) v = omega (arith, length-insert_at xs i v)

  pub length-modify_at : (xs : List A) (i : ℕ) (f : A → A) → length (modify_at xs i f) ≡ length xs
  length-modify_at [] i f = refl
  length-modify_at (x ∷ xs) zero f = refl
  length-modify_at (x ∷ xs) (suc i) f = omega (arith, length-modify_at xs i f)

  pub length-drop : (n : ℕ) (xs : List A) → length (drop n xs) ≡ length xs - n
  length-drop zero xs = omega arith
  length-drop (suc n) [] = omega arith
  length-drop (suc n) (x ∷ xs) = omega (arith, length-drop n xs)

  pub get_elem?-drop :
      (n : ℕ) (xs : List A) (i : ℕ) → get_elem? (drop n xs) i ≡ get_elem? xs (n + i)
  get_elem?-drop zero xs i = ground arith
  get_elem?-drop (suc n) [] i = refl
  get_elem?-drop (suc n) (x ∷ xs) i = ground (arith, get_elem?-drop n xs i)

  pub length-keep-le : (p : A → Bool) (xs : List A) → length (keep p xs) ≤ length xs
  length-keep-le p [] = omega arith
  length-keep-le p (x ∷ xs) = ground (arith, length-keep-le p xs)

  pub length-take-le : (n : ℕ) (xs : List A) → length (take n xs) ≤ n
  length-take-le zero xs = omega arith
  length-take-le (suc n) [] = omega arith
  length-take-le (suc n) (x ∷ xs) = omega (arith, length-take-le n xs)

  pub get_elem?-lt : (xs : List A) (i : ℕ) → i < length xs → (a : A) × (get_elem? xs i ≡ some a)
  get_elem?-lt [] i h = absurd (omega arith)
  get_elem?-lt (x ∷ xs) zero h = (x, refl)
  get_elem?-lt (x ∷ xs) (suc i) h = get_elem?-lt xs i (omega arith)

  pub lt-of-get_elem? : (xs : List A) (i : ℕ) {a : A} → get_elem? xs i ≡ some a → i < length xs
  lt-of-get_elem? [] i h = cc
  lt-of-get_elem? (x ∷ xs) zero h = omega arith
  lt-of-get_elem? (x ∷ xs) (suc i) h = omega (arith, lt-of-get_elem? xs i h)

  pub find_index-eq-some :
      (p : A → Bool) (xs : List A) (o : Option ℕ) (i : ℕ)
      → find_index p xs ≡ o
      → o ≡ some i
      → (a : A) × (get_elem? xs i ≡ some a) × (p a ≡ true)
  find_index-eq-some p [] o i h e = cc
  find_index-eq-some p (x ∷ xs) o zero h e = elim (Bool-cases (p x)) [
    | inl t ↦ (x, refl, t)
    | inr t ↦ elim (Option-cases (find_index p xs)) [
      | inl q ↦ ground arith
      | inr (j, q) ↦ ground arith
    ]
  ]
  find_index-eq-some p (x ∷ xs) o (suc i) h e =
      find_index-eq-some p xs (find_index p xs) i refl (ground arith)

  pub find_index-lt :
      (p : A → Bool) (xs : List A) {i : ℕ} → find_index p xs ≡ some i → i < length xs
  find_index-lt p xs {i} h =
      let (a, e, t) = find_index-eq-some p xs (some i) i h refl in lt-of-get_elem? xs i e

  pub All-keep {κ} : (P : A → Type κ) (p : A → Bool) (xs : List A) → All P xs → All P (keep p xs)
  All-keep P p [] h = tt
  All-keep P p (x ∷ xs) h = elim (Bool-cases (p x)) [
    | inl e ↦ rw e (h.0, All-keep P p xs h.1)
    | inr e ↦ rw e (All-keep P p xs h.1)
  ]

  pub All-drop {κ} : (P : A → Type κ) (n : ℕ) (xs : List A) → All P xs → All P (drop n xs)
  All-drop P zero xs h = h
  All-drop P (suc n) [] h = h
  All-drop P (suc n) (x ∷ xs) h = All-drop P n xs h.1

  pub All-keep_self : (p : A → Bool) (xs : List A) → All (λ a. p a ≡ true) (keep p xs)
  All-keep_self p [] = tt
  All-keep_self p (x ∷ xs) = elim (Bool-cases (p x)) [
    | inl e ↦ rw e (e, All-keep_self p xs)
    | inr e ↦ rw e (All-keep_self p xs)
  ]

  pub All-take {κ} : (P : A → Type κ) (n : ℕ) (xs : List A) → All P xs → All P (take n xs)
  All-take P zero xs h = tt
  All-take P (suc n) [] h = tt
  All-take P (suc n) (x ∷ xs) h = (h.0, All-take P n xs h.1)

  -- A filter that everything passes changes nothing.
  pub keep-All : (p : A → Bool) (xs : List A) → All (λ a. p a ≡ true) xs → keep p xs ≡ xs
  keep-All p [] h = refl
  keep-All p (x ∷ xs) h = rw (h.0, keep-All p xs h.1)

  pub take_all : (n : ℕ) (xs : List A) → length xs ≤ n → take n xs ≡ xs
  take_all zero [] h = refl
  take_all zero (x ∷ xs) h = absurd (omega arith)
  take_all (suc n) [] h = refl
  take_all (suc n) (x ∷ xs) h = rw (take_all n xs (omega arith))

pub length-map {ℓ κ} :
    {A : Type ℓ} {B : Type κ} (f : A → B) (xs : List A) → length (map f xs) ≡ length xs
length-map f [] = refl
length-map f (x ∷ xs) = omega (arith, length-map f xs)
