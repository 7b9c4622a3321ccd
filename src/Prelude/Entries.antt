-- ===== src/Prelude/Entries.antt =====
-- A JavaScript record with text keys, as the list of its entries in insertion order.
use Prim.Native.String.{String}
use mathlib.Core.Path.{◌≡◌, refl}
use mathlib.Core.Option.{Option, none, some}
use mathlib.Core.List.{List, [], ◌∷◌}
use native.Mathlib.Omega.{arith}
use text.Mathlib.Text.{◌==◌ as str_eq}
use text.Mathlib.TextEquality.{eq_iff}
use web_sync_play.Prelude.Tests.{if◌then◌else◌}
use web_sync_play.Prelude.Lists.{length}

module _ {ℓ} {V : Type ℓ} where
  -- `record[key]`
  abbrev pub lookup : String → List (String × V) → Option V
  lookup k [] = none
  lookup k ((j, v) ∷ m) = if str_eq j k then some v else lookup k m

  -- `record[key] = value`
  abbrev pub insert : String → V → List (String × V) → List (String × V)
  insert k v [] = (k, v) ∷ []
  insert k v ((j, w) ∷ m) = if str_eq j k then (j, v) ∷ m else (j, w) ∷ insert k v m

  -- `delete record[key]`
  abbrev pub erase : String → List (String × V) → List (String × V)
  erase k [] = []
  erase k ((j, w) ∷ m) = if str_eq j k then erase k m else (j, w) ∷ erase k m

  -- a change to the object that `record[key]` holds
  abbrev pub modify : String → (V → V) → List (String × V) → List (String × V)
  modify k f [] = []
  modify k f ((j, w) ∷ m) = if str_eq j k then (j, f w) ∷ m else (j, w) ∷ modify k f m

  -- a change to each object of `Object.values(record)`
  abbrev pub map_values : (V → V) → List (String × V) → List (String × V)
  map_values f [] = []
  map_values f ((j, w) ∷ m) = (j, f w) ∷ map_values f m

  pub lookup-insert :
      (k j : String) (v : V) (m : List (String × V))
      → lookup j (insert k v m) ≡ (if str_eq k j then some v else lookup j m)
  lookup-insert k j v [] = refl
  lookup-insert k j v ((i, w) ∷ m) =
      ground (arith, eq_iff k j, eq_iff i k, eq_iff i j, lookup-insert k j v m)

  pub lookup-erase :
      (k j : String) (m : List (String × V))
      → lookup j (erase k m) ≡ (if str_eq k j then none else lookup j m)
  lookup-erase k j [] = ground arith
  lookup-erase k j ((i, w) ∷ m) =
      ground (arith, eq_iff k j, eq_iff i k, eq_iff i j, lookup-erase k j m)

  abbrev pub map_some : (V → V) → Option V → Option V
  map_some f none = none
  map_some f (some v) = some (f v)

  pub lookup-modify :
      (k j : String) (f : V → V) (m : List (String × V))
      → lookup j (modify k f m) ≡ (if str_eq k j then map_some f (lookup j m) else lookup j m)
  lookup-modify k j f [] = ground arith
  lookup-modify k j f ((i, w) ∷ m) =
      ground (arith, eq_iff k j, eq_iff i k, eq_iff i j, lookup-modify k j f m)

  pub lookup-map_values :
      (j : String) (f : V → V) (m : List (String × V))
      → lookup j (map_values f m) ≡ map_some f (lookup j m)
  lookup-map_values j f [] = refl
  lookup-map_values j f ((i, w) ∷ m) = ground (arith, lookup-map_values j f m)

  pub length-map_values : (f : V → V) (m : List (String × V)) → length (map_values f m) ≡ length m
  length-map_values f [] = refl
  length-map_values f (x ∷ m) = omega (arith, length-map_values f m)

  pub length-modify :
      (k : String) (f : V → V) (m : List (String × V)) → length (modify k f m) ≡ length m
  length-modify k f [] = refl
  length-modify k f ((i, w) ∷ m) = ground (arith, length-modify k f m)
