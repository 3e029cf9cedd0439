-- ===== src/Prelude/Listing.antt =====
-- The queries that list the rows of a table page by page, the newest first: `ORDER BY created_at
-- DESC, id DESC LIMIT …`, with the last row of the page before as their cursor.
pub mod Ordered
pub mod Pages
pub mod Cursor
use lenz.Prelude.Tests.{ltb, eqb, if◌then◌else◌}
use lenz.Prelude.Text.{text_ltb}
use lenz.Prelude.Table.{select}
use Prim.Native.Nat.{ℕ, zero, suc}
use Prim.Native.String.{String}
use mathlib.Core.Bool.{Bool, true, false, ◌&&◌, ◌||◌}
use mathlib.Core.Option.{Option, none, some}
use mathlib.Core.List.{List, [], ◌∷◌}

module _ {A : Type 0} where
  -- LIMIT
  unfoldable pub take : ℕ → List A → List A
  take zero xs = []
  take (suc n) [] = []
  take (suc n) (x ∷ xs) = x ∷ take n xs

  unfoldable pub length : List A → ℕ
  length [] = 0
  length (x ∷ xs) = suc (length xs)

  module _ (precedes : A → A → Bool) where
    unfoldable pub place : A → List A → List A
    place a [] = a ∷ []
    place a (x ∷ xs) = let rest = place a xs in if precedes a x then a ∷ x ∷ xs else x ∷ rest

    -- ORDER BY
    unfoldable pub order_by : List A → List A
    unfolding place
    order_by [] = []
    order_by (x ∷ xs) = place x (order_by xs)

module _ {A : Type 0} (created_at : A → ℕ) (id : A → String) where
  -- `created_at DESC, id DESC`
  abbrev pub is_newer : A → A → Bool
  is_newer x y =
      ltb (created_at y) (created_at x)
      || (eqb (created_at y) (created_at x) && text_ltb (id y) (id x))

  -- `$2 IS NULL OR created_at < $2 OR ($3 IS NOT NULL AND created_at = $2 AND id < $3)`
  unfoldable pub is_before : Option ℕ → Option String → A → Bool
  is_before none before_id x = true
  is_before (some before) none x = ltb (created_at x) before
  is_before (some before) (some before_id) x =
      ltb (created_at x) before || (eqb (created_at x) before && text_ltb (id x) before_id)

  -- SELECT … WHERE p AND … ORDER BY created_at DESC, id DESC LIMIT limit
  unfoldable pub page : (A → Bool) → Option ℕ → Option String → ℕ → List A → List A
  unfolding take order_by is_before
  page p before before_id limit rows =
      take limit (order_by is_newer (select (λ x. p x && is_before before before_id x) rows))
