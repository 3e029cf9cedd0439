-- ===== src/Prelude/Assoc.antt =====
-- Go's map with texts as keys, as the list of its entries.
use Prim.Native.String.{String}
use mathlib.Core.Path.{◌≡◌, refl}
use mathlib.Core.Option.{Option, none, some}
use mathlib.Core.List.{List, [], ◌∷◌}
use native.Mathlib.Omega.{arith}
use text.Mathlib.Text.{◌==◌}
use text.Mathlib.TextEquality.{eq_iff}
use lenz.Prelude.Tests.{if◌then◌else◌}

module _ {A : Type 0} where
  -- `value, ok := m[key]`
  unfoldable pub lookup : String → List (String × A) → Option A
  lookup key [] = none
  lookup key ((k, v) ∷ m) = if k == key then some v else lookup key m

  -- `m[key] = value`
  unfoldable pub store : String → A → List (String × A) → List (String × A)
  store key value [] = (key, value) ∷ []
  store key value ((k, v) ∷ m) = if k == key then (key, value) ∷ m else (k, v) ∷ store key value m

  -- `delete(m, key)`
  unfoldable pub delete : String → List (String × A) → List (String × A)
  delete key [] = []
  delete key ((k, v) ∷ m) = let rest = delete key m in if k == key then rest else (k, v) ∷ rest

  pub lookup-store :
      (key other : String) (value : A) (m : List (String × A))
      → lookup other (store key value m) ≡ (if key == other then some value else lookup other m)
  unfolding lookup store
  lookup-store key other value [] = refl
  lookup-store key other value ((k, v) ∷ m) =
      ground (arith, eq_iff k key, eq_iff k other, eq_iff key other, lookup-store key other value m)

  pub lookup-delete :
      (key other : String) (m : List (String × A))
      → lookup other (delete key m) ≡ (if key == other then none else lookup other m)
  unfolding lookup delete
  lookup-delete key other [] = ground arith
  lookup-delete key other ((k, v) ∷ m) =
      ground (arith, eq_iff k key, eq_iff k other, eq_iff key other, lookup-delete key other m)
