-- ===== src/Prelude/TextOrder.antt =====
-- The order of texts by their code points is a strict total order.
use Prim.Native.Nat.{ℕ, Ordering, compare as compare_ℕ}
use Prim.Native.Char.{Char, code}
use Prim.Native.String.compare
use Prim.Native.String.{String, [], ◌∷◌, compare, then}
use mathlib.Core.Path.{◌≡◌, refl, sym, ap, ◌∙◌}
use mathlib.Core.Logic.{◌⊎◌, inl, inr}
use mathlib.Core.Bool.{true, false}
use native.Mathlib.Omega.{arith}
use text.Mathlib.Text.{◌==◌, is_lt, is_eq}
use text.Mathlib.TextPositions.{compare_refl}
use lenz.Prelude.Text.{text_ltb}

absurd_lt {ℓ} : {A : Type ℓ} → Ordering.gt ≡ Ordering.lt → A
absurd_lt h = cc

-- A comparison that decides, after one that may be a tie.
then_lt :
    (o p : Ordering)
    → then o p ≡ Ordering.lt
    → (o ≡ Ordering.lt) ⊎ ((o ≡ Ordering.eq) × (p ≡ Ordering.lt))
then_lt Ordering.lt p h = inl refl
then_lt Ordering.eq p h = inr (refl, h)
then_lt Ordering.gt p h = cc

lt_trans_ℕ :
    (a b c : ℕ)
    → compare_ℕ a b ≡ Ordering.lt
    → compare_ℕ b c ≡ Ordering.lt
    → compare_ℕ a c ≡ Ordering.lt
lt_trans_ℕ a b c h k = ground (arith, h, k)

eq_by_compare : (a b : ℕ) → compare_ℕ a b ≡ Ordering.eq → a ≡ b
eq_by_compare a b h = ground (arith, h)

flip_eq_ℕ : (a b : ℕ) → compare_ℕ a b ≡ Ordering.eq → compare_ℕ b a ≡ Ordering.eq
flip_eq_ℕ a b h = ground (arith, h)

flip_ℕ : (a b : ℕ) → compare_ℕ a b ≡ Ordering.gt → compare_ℕ b a ≡ Ordering.lt
flip_ℕ a b h = ground (arith, h)

then_gt :
    (o p : Ordering)
    → then o p ≡ Ordering.gt
    → (o ≡ Ordering.gt) ⊎ ((o ≡ Ordering.eq) × (p ≡ Ordering.gt))
then_gt Ordering.lt p h = cc
then_gt Ordering.eq p h = inr (refl, h)
then_gt Ordering.gt p h = inl refl

compare_trans :
    (s t u : String)
    → compare s t ≡ Ordering.lt
    → compare t u ≡ Ordering.lt
    → compare s u ≡ Ordering.lt
compare_trans [] [] u h k = k
compare_trans [] (d ∷ t) [] h k = absurd_lt (sym (compare.cons-nil d t) ∙ k)
compare_trans [] (d ∷ t) (e ∷ u) h k = compare.nil-cons e u
compare_trans (c ∷ s) [] u h k = absurd_lt (sym (compare.cons-nil c s) ∙ h)
compare_trans (c ∷ s) (d ∷ t) [] h k = absurd_lt (sym (compare.cons-nil d t) ∙ k)
compare_trans (c ∷ s) (d ∷ t) (e ∷ u) h k = rw (compare.cons-cons c e s u) (elim (both c d s t h) [
  | inl below ↦ elim (both d e t u k) [
    | inl further ↦ rw (lt_trans_ℕ (code c) (code d) (code e) below further) refl
    | inr (same, further) ↦ rw (sym (eq_by_compare (code d) (code e) same), below) refl
  ]
  | inr (same, below) ↦ elim (both d e t u k) [
    | inl further ↦ rw (eq_by_compare (code c) (code d) same, further) refl
    | inr (equal, further) ↦
        rw (eq_by_compare (code c) (code d) same, equal, compare_trans s t u below further) refl
  ]
])
  where
    both :
        (c d : Char) (s t : String)
        → compare (c ∷ s) (d ∷ t) ≡ Ordering.lt
        → (compare_ℕ (code c) (code d) ≡ Ordering.lt)
          ⊎ ((compare_ℕ (code c) (code d) ≡ Ordering.eq) × (compare s t ≡ Ordering.lt))
    both c d s t h =
        then_lt (compare_ℕ (code c) (code d)) (compare s t) (sym (compare.cons-cons c d s t) ∙ h)

compare-flip : (s t : String) → compare s t ≡ Ordering.gt → compare t s ≡ Ordering.lt
compare-flip [] [] h = cc
compare-flip [] (d ∷ t) h = cc (compare.nil-cons d t)
compare-flip (c ∷ s) [] h = compare.nil-cons c s
compare-flip (c ∷ s) (d ∷ t) h =
    rw (compare.cons-cons d c t s)
      (elim (then_gt (compare_ℕ (code c) (code d)) (compare s t)
        (sym (compare.cons-cons c d s t) ∙ h)) [
          | inl above ↦ rw (flip_ℕ (code c) (code d) above) refl
          | inr (same, above) ↦ rw (flip_eq_ℕ (code c) (code d) same, compare-flip s t above) refl
        ])

is_lt-true : (o : Ordering) → is_lt o ≡ true → o ≡ Ordering.lt
is_lt-true Ordering.lt h = refl
is_lt-true Ordering.eq h = cc
is_lt-true Ordering.gt h = cc

not_eq-not_lt : (o : Ordering) → is_eq o ≡ false → is_lt o ≡ false → o ≡ Ordering.gt
not_eq-not_lt Ordering.lt h k = cc
not_eq-not_lt Ordering.eq h k = cc
not_eq-not_lt Ordering.gt h k = refl

pub text_ltb_irrefl : (s : String) → text_ltb s s ≡ false
text_ltb_irrefl s = ap is_lt (compare_refl s)

pub text_ltb_trans :
    (s t u : String) → text_ltb s t ≡ true → text_ltb t u ≡ true → text_ltb s u ≡ true
text_ltb_trans s t u h k =
    ap is_lt (compare_trans s t u (is_lt-true (compare s t) h) (is_lt-true (compare t u) k))

pub text_ltb-total : (s t : String) → (s == t) ≡ false → text_ltb s t ≡ false → text_ltb t s ≡ true
text_ltb-total s t h k = ap is_lt (compare-flip s t (not_eq-not_lt (compare s t) h k))
