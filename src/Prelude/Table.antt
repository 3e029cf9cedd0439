-- ===== src/Prelude/Table.antt =====
-- A table of the database as the list of its rows, in the order of insertion.
use lenz.Prelude.Tests.{if◌then◌else◌}
use Prim.Native.Nat.{ℕ, ◌+◌}
use mathlib.Core.Path.{◌≡◌, refl, subst}
use mathlib.Core.Bool.{Bool, true, false, not, ◌&&◌}
use native.Mathlib.Omega.{arith}
use mathlib.Core.Option.{Option, none, some, some-injective, none-ne-some}
use lenz.Prelude.Tests.{Bool-cases, Option-cases}
use mathlib.Core.Logic.{inl, inr}
use mathlib.Core.List.{List, [], ◌∷◌, map}

module _ {ℓ} {A : Type ℓ} where
  -- SELECT … WHERE p LIMIT 1, by a key that one row has at most
  unfoldable pub find : (A → Bool) → List A → Option A
  find p [] = none
  find p (x ∷ xs) = if p x then some x else find p xs

  -- SELECT … WHERE p
  unfoldable pub select : (A → Bool) → List A → List A
  select p [] = []
  select p (x ∷ xs) = let rest = select p xs in if p x then x ∷ rest else rest

  -- UPDATE … SET f WHERE p
  unfoldable pub update : (A → Bool) → (A → A) → List A → List A
  update p f [] = []
  update p f (x ∷ xs) = (if p x then f x else x) ∷ update p f xs

  -- how many rows an UPDATE affects
  unfoldable pub count : (A → Bool) → List A → ℕ
  count p [] = 0
  count p (x ∷ xs) = (if p x then 1 else 0) + count p xs

  -- every row meets a CHECK
  unfoldable pub every : (A → Bool) → List A → Bool
  every p [] = true
  every p (x ∷ xs) = p x && every p xs

  -- INSERT
  unfoldable pub insert : A → List A → List A
  insert a [] = a ∷ []
  insert a (x ∷ xs) = x ∷ insert a xs

  -- SELECT … ORDER BY … LIMIT 1: the row that no other is better than, the earliest among equals.
  unfoldable pub best : (A → A → Bool) → List A → Option A
  best better [] = none
  best better (x ∷ xs) = elim (best better xs) [
    | none ↦ some x
    | some y ↦ some (if better y x then y else x)
  ]

-- Every row has the property.
abbrev pub All {ℓ κ} : {A : Type ℓ} → (A → Type κ) → List A → Type κ
All P [] = Unit
All P (x ∷ xs) = P x × All P xs

pub All-always {ℓ κ} : {A : Type ℓ} (Q : A → Type κ) → ((x : A) → Q x) → (xs : List A) → All Q xs
All-always Q k [] = tt
All-always Q k (x ∷ xs) = (k x, All-always Q k xs)

pub All-map {ℓ κ ι} :
    {A : Type ℓ} (P : A → Type κ) (Q : A → Type ι)
    → ((x : A) → P x → Q x)
    → (xs : List A) → All P xs
    → All Q xs
All-map P Q k [] h = tt
All-map P Q k (x ∷ xs) h = (k x h.0, All-map P Q k xs h.1)

pub All-zip {ℓ κ ι} :
    {A : Type ℓ} (P : A → Type κ) (Q : A → Type ι) (xs : List A)
    → All P xs
    → All Q xs
    → All (λ x. P x × Q x) xs
All-zip P Q [] h k = tt
All-zip P Q (x ∷ xs) h k = ((h.0, k.0), All-zip P Q xs h.1 k.1)

pub count-insert {ℓ} :
    {A : Type ℓ} (p : A → Bool) (a : A) (xs : List A)
    → count p (insert a xs) ≡ count p xs + (if p a then 1 else 0)
unfolding count insert
count-insert p a [] = omega arith
count-insert p a (x ∷ xs) = rw (count-insert p a xs) (omega arith)

-- No row is counted, so none is of the kind counted.
pub count-none {ℓ} :
    {A : Type ℓ} (p : A → Bool) (xs : List A) → count p xs ≡ 0 → All (λ x. p x ≡ false) xs
unfolding count
count-none p [] h = tt
count-none p (x ∷ xs) h = (ground arith, count-none p xs (ground arith))

pub none-count {ℓ} :
    {A : Type ℓ} (p : A → Bool) (xs : List A) → All (λ x. p x ≡ false) xs → count p xs ≡ 0
unfolding count
none-count p [] h = omega arith
none-count p (x ∷ xs) h = rw (h.0, none-count p xs h.1) (omega arith)

-- A change of rows that a test does not see leaves their number.
pub count-update {ℓ} :
    {A : Type ℓ} (q p : A → Bool) (f : A → A)
    → ((x : A) → q (f x) ≡ q x)
    → (xs : List A) → count q (update p f xs) ≡ count q xs
unfolding count update
count-update q p f k [] = omega arith
count-update q p f k (x ∷ xs) = elim (Bool-cases (p x)) [
  | inl chosen ↦ rw (chosen, k x, count-update q p f k xs) (omega arith)
  | inr left ↦ rw (left, count-update q p f k xs) (omega arith)
]

-- An UPDATE keeps a property that it gives to each row that it changes.
pub All-update {ℓ κ ι} :
    {A : Type ℓ} {P : A → Type κ} (Q : A → Type ι) (p : A → Bool) (f : A → A)
    → ((x : A) → P x → Q (if p x then f x else x))
    → (xs : List A) → All P xs
    → All Q (update p f xs)
unfolding update
All-update Q p f k [] h = tt
All-update Q p f k (x ∷ xs) h = (k x h.0, All-update Q p f k xs h.1)

-- An INSERT keeps a property that the old rows keep and the new row has.
pub All-insert {ℓ κ ι} :
    {A : Type ℓ} {P : A → Type κ} (Q : A → Type ι) (a : A)
    → ((x : A) → P x → Q x)
    → Q a
    → (xs : List A) → All P xs
    → All Q (insert a xs)
unfolding insert
All-insert Q a k q [] h = (q, tt)
All-insert Q a k q (x ∷ xs) h = (k x h.0, All-insert Q a k q xs h.1)

-- What all rows have, the row found has.
pub find-All {ℓ κ} :
    {A : Type ℓ} (Q : A → Type κ) (p : A → Bool) (xs : List A) (a : A)
    → All Q xs
    → find p xs ≡ some a
    → Q a
unfolding find
find-All Q p [] a h e = absurd (none-ne-some a e)
find-All Q p (x ∷ xs) a h e = elim (Bool-cases (p x)) [
  | inl same ↦ subst Q (some-injective _ _ (rw same at e)) h.0
  | inr other ↦ find-All Q p xs a h.1 (rw other at e)
]

-- The rows selected have what all rows have, and the property selected by.
pub All-select {ℓ κ} :
    {A : Type ℓ} (Q : A → Type κ) (p : A → Bool) (xs : List A)
    → All Q xs
    → All (λ x. Q x × (p x ≡ true)) (select p xs)
unfolding select
All-select Q p [] h = tt
All-select Q p (x ∷ xs) h = elim (Bool-cases (p x)) [
  | inl chosen ↦ rw chosen ((h.0, chosen), All-select Q p xs h.1)
  | inr left ↦ rw left (All-select Q p xs h.1)
]

-- The best row is one of the rows.
pub best-All {ℓ κ} :
    {A : Type ℓ} (Q : A → Type κ) (better : A → A → Bool) (xs : List A) (a : A)
    → All Q xs
    → best better xs ≡ some a
    → Q a
unfolding best
best-All Q better [] a h e = absurd (none-ne-some a e)
best-All Q better (x ∷ xs) a h e = elim (Option-cases (best better xs)) [
  | inl empty ↦ subst Q (some-injective _ _ (rw empty at e)) h.0
  | inr (y, rest) ↦ elim (Bool-cases (better y x)) [
    | inl wins ↦
        subst Q (some-injective _ _ (rw (rest, wins) at e)) (best-All Q better xs y h.1 rest)
    | inr loses ↦ subst Q (some-injective _ _ (rw (rest, loses) at e)) h.0
  ]
]

-- The row inserted is found where no earlier row is.
pub find-insert {ℓ} :
    {A : Type ℓ} (p : A → Bool) (a : A) (xs : List A)
    → All (λ x. p x ≡ false) xs
    → p a ≡ true
    → find p (insert a xs) ≡ some a
unfolding find insert
find-insert p a [] h chosen = rw chosen refl
find-insert p a (x ∷ xs) h chosen = rw h.0 (find-insert p a xs h.1 chosen)

-- One row in an UPDATE.
abbrev pub step {ℓ} : {A : Type ℓ} → (A → Bool) → (A → A) → A → A
step p f x = if p x then f x else x

-- Four updates that leave a column of every row leave the column.
pub column-update {ℓ κ} :
    {A : Type ℓ} {B : Type κ} (c : A → B) (p q r t : A → Bool) (f g h k : A → A)
    → ((x : A) → c (step t k (step r h (step q g (step p f x)))) ≡ c x)
    → (xs : List A) → map c (update t k (update r h (update q g (update p f xs)))) ≡ map c xs
unfolding update
column-update c p q r t f g h k same [] = refl
column-update c p q r t f g h k same (x ∷ xs) =
    rw (same x, column-update c p q r t f g h k same xs) refl

-- Two updates that leave a column of every row leave the column.
pub column-update_two {ℓ κ} :
    {A : Type ℓ} {B : Type κ} (c : A → B) (p q : A → Bool) (f g : A → A)
    → ((x : A) → c (step q g (step p f x)) ≡ c x)
    → (xs : List A) → map c (update q g (update p f xs)) ≡ map c xs
unfolding update
column-update_two c p q f g same [] = refl
column-update_two c p q f g same (x ∷ xs) = rw (same x, column-update_two c p q f g same xs) refl

-- An UPDATE that leaves the key: the row of the key is the updated one, and the other rows stay.
module _ {ℓ} {A : Type ℓ} (p : A → Bool) (f : A → A) (same : (x : A) → p (f x) ≡ p x) where
  pub find-update : (xs : List A) (a : A) → find p xs ≡ some a → find p (update p f xs) ≡ some (f a)
  unfolding find update
  find-update [] a h = absurd (none-ne-some a h)
  find-update (x ∷ xs) a h = elim (Bool-cases (p x)) [
    | inl here ↦ rw (here, same x, here, some-injective _ _ (rw here at h)) refl
    | inr there ↦ rw (there, there) (find-update xs a (rw there at h))
  ]

  pub select-update :
      (xs : List A) → select (λ x. not (p x)) (update p f xs) ≡ select (λ x. not (p x)) xs
  unfolding select update
  select-update [] = refl
  select-update (x ∷ xs) = elim (Bool-cases (p x)) [
    | inl here ↦ rw (here, same x, here) (select-update xs)
    | inr there ↦ rw (there, there, select-update xs) refl
  ]
