-- ===== src/Prelude/Listing/Pages.antt =====
-- To read a list page by page is to read all of it.
use lenz.Prelude.Listing.{take, length}
use lenz.Prelude.Listing.Ordered.{IsOrdered}
use lenz.Prelude.Tests.{Bool-cases}
use lenz.Prelude.Table.{select, All}
use Prim.Native.Nat.{ℕ, zero, suc, ◌≤◌}
use mathlib.Core.Path.{◌≡◌, refl, ◌∙◌, ap}
use mathlib.Core.Logic.{inl, inr}
use mathlib.Core.Bool.{Bool, true, false}
use mathlib.Core.Option.{Option, none, some}
use mathlib.Core.List.{List, [], ◌∷◌, ◌++◌, append_assoc}
use native.Mathlib.Omega.{arith}

module _ {A : Type 0} where
  unfoldable pub last : List A → Option A
  last [] = none
  last (x ∷ []) = some x
  last (x ∷ y ∷ ys) = last (y ∷ ys)

  -- A reader that asks for the page after the last row that it has, until a page is empty, for at
  -- most as many pages as the fuel says.
  unfoldable pub read_pages : (Option A → List A) → ℕ → Option A → List A
  unfolding last
  read_pages list zero cursor = []
  read_pages list (suc n) cursor =
      let page = list cursor in
      elim (last page) [ none ↦ [] | some x ↦ page ++ read_pages list n (some x) ]

  -- A page of a list that is not empty, its last row, and the rows after it.
  record Cut (k : ℕ) (y : A) (ys : List A) : Type 0 where
    before : List A
    end : A
    rest : List A
    on_page : y ∷ take k ys ≡ before ++ end ∷ []
    on_last : last (y ∷ take k ys) ≡ some end
    on_whole : before ++ end ∷ rest ≡ y ∷ ys
    on_length : length rest ≤ length ys

  cut : (k : ℕ) (y : A) (ys : List A) → Cut k y ys
  unfolding take last length
  cut zero y ys = record {
    before = [];
    end = y;
    rest = ys;
    on_page = refl;
    on_last = refl;
    on_whole = refl;
    on_length = omega arith;
  }
  cut (suc k) y [] = record {
    before = [];
    end = y;
    rest = [];
    on_page = refl;
    on_last = refl;
    on_whole = refl;
    on_length = omega arith;
  }
  cut (suc k) y (z ∷ zs) =
      let c = cut k z zs in
      record {
        before = y ∷ c.before;
        end = c.end;
        rest = c.rest;
        on_page = ap (λ l. y ∷ l) c.on_page;
        on_last = c.on_last;
        on_whole = ap (λ l. y ∷ l) c.on_whole;
        on_length = omega (arith, c.on_length);
      }

  page_whole :
      {k : ℕ} {y : A} {ys : List A} (c : Cut k y ys) (l : List A)
      → l ≡ c.rest
      → (y ∷ take k ys) ++ l ≡ y ∷ ys
  page_whole c l h =
      ap (λ p. p ++ l) c.on_page
      ∙ ap (λ m. (c.before ++ c.end ∷ []) ++ m) h
      ∙ append_assoc c.before (c.end ∷ []) c.rest
      ∙ c.on_whole

  module _ (list : Option A → List A) (k : ℕ) (whole : List A)
      (next : (front : List A) (x : A) (rest : List A)
        → front ++ x ∷ rest ≡ whole
        → list (some x) ≡ take (suc k) rest) where
    reads :
        (n : ℕ) (cursor : Option A) (front rest : List A)
        → list cursor ≡ take (suc k) rest
        → front ++ rest ≡ whole
        → length rest ≤ n
        → read_pages list n cursor ≡ rest
    unfolding read_pages take length
    reads zero cursor front [] e h b = refl
    reads zero cursor front (y ∷ ys) e h b = absurd (omega (arith, b))
    reads (suc n) cursor front [] e h b = rw (read_pages, e) refl
    reads (suc n) cursor front (y ∷ ys) e h b =
        let c = cut k y ys in
        let there : (front ++ c.before) ++ c.end ∷ c.rest ≡ whole =
          append_assoc front c.before (c.end ∷ c.rest) ∙ ap (λ l. front ++ l) c.on_whole ∙ h in
        let others : read_pages list n (some c.end) ≡ c.rest =
          reads n (some c.end) (front ++ (c.before ++ c.end ∷ [])) c.rest
            (next (front ++ c.before) c.end c.rest there)
            (append_assoc front (c.before ++ c.end ∷ []) c.rest
              ∙ ap (λ l. front ++ l) (append_assoc c.before (c.end ∷ []) c.rest ∙ c.on_whole)
              ∙ h)
            (omega (arith, c.on_length, b)) in
        rw (read_pages, e, c.on_last, e) (page_whole c _ others)

    pub read_pages-whole :
        list none ≡ take (suc k) whole → (n : ℕ) → length whole ≤ n → read_pages list n none ≡ whole
    read_pages-whole first n enough = reads n none [] whole first refl enough

  pub All-end :
      (P : A → Type 0) (front : List A) (x : A) (rest : List A) → All P (front ++ x ∷ rest) → P x
  All-end P [] x rest h = h.0
  All-end P (f ∷ front) x rest h = All-end P front x rest h.1

  module _ (precedes : A → A → Bool)
      (trans : (x y z : A) → precedes x y ≡ true → precedes y z ≡ true → precedes x z ≡ true)
      (irrefl : (x : A) → precedes x x ≡ false) where
    asym : (x y : A) → precedes x y ≡ true → precedes y x ≡ false
    asym x y h = elim (Bool-cases (precedes y x)) [
      | inl back ↦ cc (trans x y x h back, irrefl x)
      | inr apart ↦ apart
    ]

    select_preceded :
        (x : A) (rest : List A)
        → All (λ y. precedes x y ≡ true) rest
        → select (precedes x) rest ≡ rest
    unfolding select
    select_preceded x [] h = refl
    select_preceded x (y ∷ ys) h = rw (h.0, select_preceded x ys h.1) refl

    -- The rows after a row in an ordered list are those that it precedes.
    pub select_after :
        (front : List A) (x : A) (rest : List A)
        → IsOrdered precedes (front ++ x ∷ rest)
        → select (precedes x) (front ++ x ∷ rest) ≡ rest
    unfolding select
    select_after [] x rest h = rw (irrefl x) (select_preceded x rest h.0)
    select_after (f ∷ front) x rest h =
        rw
          (
            asym f x (All-end (λ y. precedes f y ≡ true) front x rest h.0),
            select_after front x rest h.1,
          )
          refl
