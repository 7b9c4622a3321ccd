-- ===== src/Prelude/Splice.antt =====
-- What `splice`, a write in place and `findIndex` do to the elements of a list.
use Prim.Native.Nat.{ℕ, zero, suc, ◌≤◌, ◌<◌}
use mathlib.Core.Path.{◌≡◌, refl, ◌∙◌}
use mathlib.Core.Bool.{Bool, true, false}
use mathlib.Core.Option.{none, some}
use mathlib.Core.List.{List, [], ◌∷◌, map, Perm}
use mathlib.Core.List.Perm
use native.Mathlib.Omega.{arith}
use web_sync_play.Prelude.Tests.{if◌then◌else◌}
use web_sync_play.Prelude.Lists.{get_elem?, remove_at, insert_at, modify_at, find_index, any}

module _ {ℓ} {A : Type ℓ} where
  pub get_elem?-remove_at_below :
      (xs : List A) (i j : ℕ) → j < i → get_elem? (remove_at xs i) j ≡ get_elem? xs j
  get_elem?-remove_at_below [] i j h = refl
  get_elem?-remove_at_below (x ∷ xs) zero j h = absurd (omega arith)
  get_elem?-remove_at_below (x ∷ xs) (suc i) zero h = refl
  get_elem?-remove_at_below (x ∷ xs) (suc i) (suc j) h =
      get_elem?-remove_at_below xs i j (omega arith)

  pub get_elem?-remove_at_above :
      (xs : List A) (i j : ℕ) → i ≤ j → get_elem? (remove_at xs i) j ≡ get_elem? xs (suc j)
  get_elem?-remove_at_above [] i j h = refl
  get_elem?-remove_at_above (x ∷ xs) zero j h = refl
  get_elem?-remove_at_above (x ∷ xs) (suc i) zero h = absurd (omega arith)
  get_elem?-remove_at_above (x ∷ xs) (suc i) (suc j) h =
      get_elem?-remove_at_above xs i j (omega arith)

  pub insert_at-perm : (xs : List A) (i : ℕ) (v : A) → Perm (insert_at xs i v) (v ∷ xs)
  insert_at-perm xs zero v = Perm.refl (v ∷ xs)
  insert_at-perm [] (suc i) v = Perm.refl (v ∷ [])
  insert_at-perm (x ∷ xs) (suc i) v =
      Perm.trans (Perm.cons x (insert_at-perm xs i v)) (Perm.swap v x xs)

  pub remove_at-perm :
      (xs : List A) (i : ℕ) {v : A} → get_elem? xs i ≡ some v → Perm xs (v ∷ remove_at xs i)
  remove_at-perm [] i h = cc
  remove_at-perm (x ∷ xs) zero {v} h = let e : x ≡ v = cc in rw e (Perm.refl (v ∷ xs))
  remove_at-perm (x ∷ xs) (suc i) {v} h =
      Perm.trans (Perm.cons x (remove_at-perm xs i h)) (Perm.swap v x (remove_at xs i))

  -- A moved element leaves the list the same up to order.
  pub splice-perm :
      (xs : List A) (from to : ℕ) {v : A}
      → get_elem? xs from ≡ some v
      → Perm (insert_at (remove_at xs from) to v) xs
  splice-perm xs from to {v} h =
      Perm.trans (insert_at-perm (remove_at xs from) to v) (Perm.symm (remove_at-perm xs from h))

  any-insert_at :
      (p : A → Bool) (xs : List A) (i : ℕ) (v : A)
      → any p (insert_at xs i v) ≡ (if p v then true else any p xs)
  any-insert_at p xs zero v = refl
  any-insert_at p [] (suc i) v = refl
  any-insert_at p (x ∷ xs) (suc i) v = ground (arith, any-insert_at p xs i v)

  any-remove_at :
      (p : A → Bool) (xs : List A) (i : ℕ) (v : A)
      → get_elem? xs i ≡ some v
      → (if p v then true else any p (remove_at xs i)) ≡ any p xs
  any-remove_at p [] i v h = cc
  any-remove_at p (x ∷ xs) zero v h = ground arith
  any-remove_at p (x ∷ xs) (suc i) v h = ground (arith, any-remove_at p xs i v)

  pub any-splice :
      (p : A → Bool) (xs : List A) (from to : ℕ) (v : A)
      → get_elem? xs from ≡ some v
      → any p (insert_at (remove_at xs from) to v) ≡ any p xs
  any-splice p xs from to v h =
      any-insert_at p (remove_at xs from) to v ∙ any-remove_at p xs from v h

  pub any_of_get_elem? :
      (p : A → Bool) (xs : List A) (i : ℕ) (a : A)
      → get_elem? xs i ≡ some a
      → p a ≡ true
      → any p xs ≡ true
  any_of_get_elem? p [] i a h t = cc
  any_of_get_elem? p (x ∷ xs) zero a h t = ground arith
  any_of_get_elem? p (x ∷ xs) (suc i) a h t = ground (arith, any_of_get_elem? p xs i a)

  pub find_index-any : (p : A → Bool) (xs : List A) → find_index p xs ≡ none → any p xs ≡ false
  find_index-any p [] h = refl
  find_index-any p (x ∷ xs) h = ground (arith, find_index-any p xs)

  -- A write that keeps the test keeps the place of the first match.
  pub find_index-modify_at :
      (p : A → Bool) (f : A → A) (xs : List A) (i : ℕ)
      → ((a : A) → p (f a) ≡ p a)
      → find_index p (modify_at xs i f) ≡ find_index p xs
  find_index-modify_at p f [] i h = refl
  find_index-modify_at p f (x ∷ xs) zero h = rw (h x)
  find_index-modify_at p f (x ∷ xs) (suc i) h = rw (find_index-modify_at p f xs i h)

  pub get_elem?-modify_at :
      (f : A → A) (xs : List A) (i : ℕ) {a : A}
      → get_elem? xs i ≡ some a
      → get_elem? (modify_at xs i f) i ≡ some (f a)
  get_elem?-modify_at f [] i h = cc
  get_elem?-modify_at f (x ∷ xs) zero h = cc
  get_elem?-modify_at f (x ∷ xs) (suc i) h = get_elem?-modify_at f xs i h

  pub map-modify_at {κ} :
      {B : Type κ} (g : A → B) (f : A → A) (xs : List A) (i : ℕ)
      → ((a : A) → g (f a) ≡ g a)
      → map g (modify_at xs i f) ≡ map g xs
  map-modify_at g f [] i h = refl
  map-modify_at g f (x ∷ xs) zero h = rw (h x)
  map-modify_at g f (x ∷ xs) (suc i) h = rw (map-modify_at g f xs i h)
