-- ===== src/Prelude/Listing/Ordered.antt =====
-- What it is to be in order, and that ORDER BY gives it.
use lenz.Prelude.Listing.{place, order_by}
use lenz.Prelude.Tests.{if◌then◌else◌, Bool-cases}
use lenz.Prelude.Table.{select, count, All, All-map, All-select}
use Prim.Native.Nat.{◌+◌}
use mathlib.Core.Path.{◌≡◌, refl, sym}
use mathlib.Core.Logic.{inl, inr}
use mathlib.Core.Bool.{Bool, true, ◌||◌}
use mathlib.Core.List.{List, [], ◌∷◌}
use native.Mathlib.Omega.{arith}

module _ {A : Type 0} (precedes : A → A → Bool) where
  -- Each row precedes all that follow it.
  abbrev pub IsOrdered : List A → Type 0
  IsOrdered [] = Unit
  IsOrdered (x ∷ xs) = All (λ y. precedes x y ≡ true) xs × IsOrdered xs

  -- Of two rows, one precedes the other.
  abbrev pub IsComparable : List A → Type 0
  IsComparable [] = Unit
  IsComparable (x ∷ xs) = All (λ y. (precedes x y || precedes y x) ≡ true) xs × IsComparable xs

  place-All : (P : A → Type 0) (a : A) (xs : List A) → P a → All P xs → All P (place precedes a xs)
  unfolding place
  place-All P a [] p h = (p, tt)
  place-All P a (x ∷ xs) p h = elim (Bool-cases (precedes a x)) [
    | inl first ↦ rw first (p, h)
    | inr later ↦ rw later (h.0, place-All P a xs p h.1)
  ]

  pub order_by-All : (P : A → Type 0) (xs : List A) → All P xs → All P (order_by precedes xs)
  unfolding order_by
  order_by-All P [] h = tt
  order_by-All P (x ∷ xs) h = place-All P x (order_by precedes xs) h.0 (order_by-All P xs h.1)

  place-count :
      (p : A → Bool) (a : A) (xs : List A)
      → count p (place precedes a xs) ≡ (if p a then 1 else 0) + count p xs
  unfolding place count
  place-count p a [] = refl
  place-count p a (x ∷ xs) = elim (Bool-cases (precedes a x)) [
    | inl first ↦ rw first refl
    | inr later ↦ rw (later, place-count p a xs) (omega arith)
  ]

  -- The rows in order are the rows: each kind of row is there as often.
  pub order_by-count : (p : A → Bool) (xs : List A) → count p (order_by precedes xs) ≡ count p xs
  unfolding order_by count
  order_by-count p [] = refl
  order_by-count p (x ∷ xs) = rw (place-count p x (order_by precedes xs), order_by-count p xs) refl

  module _
      (trans : (x y z : A) → precedes x y ≡ true → precedes y z ≡ true → precedes x z ≡ true) where
    place-IsOrdered :
        (a : A) (xs : List A)
        → All (λ y. (precedes a y || precedes y a) ≡ true) xs
        → IsOrdered xs
        → IsOrdered (place precedes a xs)
    unfolding place
    place-IsOrdered a [] c h = (tt, tt)
    place-IsOrdered a (x ∷ xs) c h = elim (Bool-cases (precedes a x)) [
      | inl first ↦ rw first ((first, All-map _ _ (λ y before. trans a x y first before) xs h.0), h)
      | inr later ↦ rw later (
        place-All (λ y. precedes x y ≡ true) a xs (rw later at c.0) h.0,
        place-IsOrdered a xs c.1 h.1,
      )
    ]

    pub order_by-IsOrdered : (xs : List A) → IsComparable xs → IsOrdered (order_by precedes xs)
    unfolding order_by
    order_by-IsOrdered [] c = tt
    order_by-IsOrdered (x ∷ xs) c =
        place-IsOrdered x (order_by precedes xs) (order_by-All _ xs c.0) (order_by-IsOrdered xs c.1)

    place_first :
        (a : A) (xs : List A) → All (λ y. precedes a y ≡ true) xs → place precedes a xs ≡ a ∷ xs
    unfolding place
    place_first a [] h = refl
    place_first a (x ∷ xs) h = rw h.0 refl

    select-All : (P : A → Type 0) (q : A → Bool) (xs : List A) → All P xs → All P (select q xs)
    select-All P q xs h = All-map _ _ (λ x both. both.0) (select q xs) (All-select P q xs h)

    select-place :
        (q : A → Bool) (a : A) (xs : List A)
        → IsOrdered xs
        → select q (place precedes a xs)
          ≡ (if q a then place precedes a (select q xs) else select q xs)
    unfolding place select
    select-place q a [] h = refl
    select-place q a (x ∷ xs) h = elim (Bool-cases (precedes a x)) [
      | inl first ↦ elim (Bool-cases (q a)) [
        | inl chosen ↦
            rw (first, chosen)
              (sym (
                place_first a (select q (x ∷ xs)) (
                  select-All _ q (x ∷ xs)
                    (first, All-map _ _ (λ y before. trans a x y first before) xs h.0))))
        | inr left ↦ rw (first, left) refl
      ]
      | inr later ↦ elim (Bool-cases (q a)) [
        | inl chosen ↦ elim (Bool-cases (q x)) [
          | inl stays ↦ rw (later, select-place q a xs h.1, chosen, stays, later) refl
          | inr goes ↦ rw (later, select-place q a xs h.1, chosen, goes) refl
        ]
        | inr left ↦ rw (later, select-place q a xs h.1, left) refl
      ]
    ]

    -- WHERE before ORDER BY is WHERE after it.
    pub order_by-select :
        (q : A → Bool) (xs : List A)
        → IsComparable xs
        → order_by precedes (select q xs) ≡ select q (order_by precedes xs)
    unfolding order_by select
    order_by-select q [] c = refl
    order_by-select q (x ∷ xs) c = elim (Bool-cases (q x)) [
      | inl chosen ↦
          rw
            (
              chosen,
              order_by-select q xs c.1,
              select-place q x (order_by precedes xs) (order_by-IsOrdered xs c.1),
              chosen,
            )
            refl
      | inr left ↦
          rw
            (
              left,
              order_by-select q xs c.1,
              select-place q x (order_by precedes xs) (order_by-IsOrdered xs c.1),
              left,
            )
            refl
    ]
