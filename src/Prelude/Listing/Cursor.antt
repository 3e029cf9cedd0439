-- ===== src/Prelude/Listing/Cursor.antt =====
-- The page at a cursor is what follows the cursor's row in the list.
use lenz.Prelude.Listing.{is_newer, is_before, page, take, order_by}
use lenz.Prelude.Listing.Ordered.{IsOrdered, IsComparable, order_by-IsOrdered, order_by-select}
use lenz.Prelude.Listing.Pages.{select_after}
use lenz.Prelude.Tests.{ltb, eqb, Bool-cases}
use lenz.Prelude.Text.{text_ltb}
use lenz.Prelude.TextOrder.{text_ltb_irrefl, text_ltb_trans, text_ltb-total}
use lenz.Prelude.Table.{select, All, All-map, All-select}
use Prim.Native.Nat.{ℕ}
use Prim.Native.String.{String}
use mathlib.Core.Path.{◌≡◌, refl, sym, subst, ◌∙◌, ap}
use mathlib.Core.Logic.{inl, inr}
use mathlib.Core.Bool.{Bool, true, false, ◌&&◌, ◌||◌}
use mathlib.Core.Option.{none, some}
use mathlib.Core.List.{List, [], ◌∷◌, ◌++◌}
use native.Mathlib.Omega.{arith}
use text.Mathlib.Text.{◌==◌}

lexicographic_trans :
    (a b c : ℕ) (p q r : Bool)
    → (p ≡ true → q ≡ true → r ≡ true)
    → (ltb b a || (eqb b a && p)) ≡ true
    → (ltb c b || (eqb c b && q)) ≡ true
    → (ltb c a || (eqb c a && r)) ≡ true
lexicographic_trans a b c true true r k h l = rw (k refl refl) (ground (arith, h, l))
lexicographic_trans a b c true false r k h l = ground (arith, h, l)
lexicographic_trans a b c false q r k h l = ground (arith, h, l)

lexicographic_total :
    (a b : ℕ) (p q : Bool)
    → (p || q) ≡ true
    → ((ltb b a || (eqb b a && p)) || (ltb a b || (eqb a b && q))) ≡ true
lexicographic_total a b true q h = ground arith
lexicographic_total a b false q h = rw h (ground arith)

module _ {A : Type 0} where
  select_and : (p q : A → Bool) (xs : List A) → select (λ x. p x && q x) xs ≡ select q (select p xs)
  unfolding select
  select_and p q [] = refl
  select_and p q (x ∷ xs) = elim (Bool-cases (p x)) [
    | inl chosen ↦ rw (chosen, select_and p q xs) refl
    | inr left ↦ rw (left, select_and p q xs) refl
  ]

  select-true : (p : A → Bool) (xs : List A) → select (λ x. p x && true) xs ≡ select p xs
  unfolding select
  select-true p [] = refl
  select-true p (x ∷ xs) = elim (Bool-cases (p x)) [
    | inl chosen ↦ rw (chosen, select-true p xs) refl
    | inr left ↦ rw (left, select-true p xs) refl
  ]

module _ {A : Type 0} (created_at : A → ℕ) (id : A → String) where
  abbrev newer : A → A → Bool
  newer = is_newer created_at id

  newer_irrefl : (x : A) → newer x x ≡ false
  newer_irrefl x = rw (text_ltb_irrefl (id x)) (ground arith)

  newer_trans : (x y z : A) → newer x y ≡ true → newer y z ≡ true → newer x z ≡ true
  newer_trans x y z =
      lexicographic_trans (created_at x) (created_at y) (created_at z) (text_ltb (id y) (id x))
        (text_ltb (id z) (id y)) (text_ltb (id z) (id x))
        (λ h l. text_ltb_trans (id z) (id y) (id x) l h)

  -- No two rows have one identifier.
  abbrev pub IsKeyed : List A → Type 0
  IsKeyed [] = Unit
  IsKeyed (x ∷ xs) = All (λ y. (id y == id x) ≡ false) xs × IsKeyed xs

  newer-total : (x y : A) → (id y == id x) ≡ false → (newer x y || newer y x) ≡ true
  newer-total x y apart =
      lexicographic_total (created_at x) (created_at y) (text_ltb (id y) (id x))
        (text_ltb (id x) (id y))
        (elim (Bool-cases (text_ltb (id y) (id x))) [
          | inl below ↦ rw below refl
          | inr not_below ↦ rw (not_below, text_ltb-total (id y) (id x) apart not_below) refl
        ])

  keyed-IsComparable : (xs : List A) → IsKeyed xs → IsComparable newer xs
  keyed-IsComparable [] h = tt
  keyed-IsComparable (x ∷ xs) h = (All-map _ _ (newer-total x) xs h.0, keyed-IsComparable xs h.1)

  select-IsKeyed : (p : A → Bool) (xs : List A) → IsKeyed xs → IsKeyed (select p xs)
  unfolding select
  select-IsKeyed p [] h = tt
  select-IsKeyed p (x ∷ xs) h = elim (Bool-cases (p x)) [
    | inl chosen ↦ rw chosen (
      All-map _ _ (λ y both. both.0) (select p xs) (All-select _ p xs h.0),
      select-IsKeyed p xs h.1,
    )
    | inr left ↦ rw left (select-IsKeyed p xs h.1)
  ]

  -- All the rows that the query selects, in order.
  abbrev pub listed : (A → Bool) → List A → List A
  listed p rows = order_by newer (select p rows)

  pub page_first :
      (p : A → Bool) (limit : ℕ) (rows : List A)
      → page created_at id p none none limit rows ≡ take limit (listed p rows)
  unfolding page is_before
  page_first p limit rows = ap (λ l. take limit (order_by newer l)) (select-true p rows)

  pub page_after :
      (p : A → Bool) (limit : ℕ) (rows front : List A) (x : A) (rest : List A)
      → IsKeyed rows
      → front ++ x ∷ rest ≡ listed p rows
      → page created_at id p (some (created_at x)) (some (id x)) limit rows ≡ take limit rest
  unfolding page is_before
  page_after p limit rows front x rest keyed whole =
      let comparable = keyed-IsComparable (select p rows) (select-IsKeyed p rows keyed) in
      ap (λ l. take limit l)
        (ap (order_by newer) (select_and p (newer x) rows)
          ∙ order_by-select newer newer_trans (newer x) (select p rows) comparable
          ∙ ap (select (newer x)) (sym whole)
          ∙ select_after newer newer_trans newer_irrefl front x rest (
              subst (IsOrdered newer) (sym whole)
                (order_by-IsOrdered newer newer_trans (select p rows) comparable)))
