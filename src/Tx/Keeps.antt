-- ===== src/Tx/Keeps.antt =====
-- Invariants of actions, one rule for each way to build an action; a transaction keeps an invariant
-- that its body keeps, also when it fails.
use lenz.Prelude.{◌≡◌, refl, not, ℕ, suc, Bool, true, false, Option, none, some, if◌then◌else◌}
use lenz.Model.{Error}
use lenz.Tx.{
  Store, Result, ok, err, Tx, pure, fail, gets, require, fail_if, modify, if_found, new_id, ◌>>=◌,
  with_tx, outcome,
}
use lenz.Tx.Yields.{Ends}

pub record Keeps {A : Type 0} (P : Store → Type 0) (m : Tx A) : Type 0 where
  pub at : (s : Store) → P s → Ends (λ _. P) (m s)

Keeps-outcome :
    {A : Type 0} (P : Store → Type 0) (r : Result (A × Store)) (s : Store)
    → P s
    → Ends (λ _. P) r
    → P (outcome s r).1
Keeps-outcome P (ok (a, t)) s h k = k
Keeps-outcome P (err e) s h k = h

module _ {A : Type 0} {P : Store → Type 0} where
  pub Keeps-pure : (a : A) → Keeps P (pure a)
  unfolding pure
  Keeps-pure a = record { at = λ s h. h }

  pub Keeps-fail : (e : Error) → Keeps P (fail {A = A} e)
  unfolding fail
  Keeps-fail e = record { at = λ s h. tt }

  pub Keeps-gets : (g : Store → A) → Keeps P (gets g)
  unfolding gets
  Keeps-gets g = record { at = λ s h. h }

  pub Keeps-require : (o : Option A) (e : Error) → Keeps P (require o e)
  unfolding require
  Keeps-require none e = record { at = λ s h. tt }
  Keeps-require (some a) e = record { at = λ s h. h }

  pub Keeps-if : (b : Bool) (m n : Tx A) → Keeps P m → Keeps P n → Keeps P (if b then m else n)
  Keeps-if true m n km kn = km
  Keeps-if false m n km kn = kn

  pub Keeps-with_tx : (m : Tx A) (s : Store) → Keeps P m → P s → P (with_tx m s).1
  unfolding with_tx
  Keeps-with_tx m s k h = Keeps-outcome P (m s) s h (k.at s h)

module _ {P : Store → Type 0} where
  pub Keeps-fail_if : (b : Bool) (e : Error) → Keeps P (fail_if b e)
  unfolding fail_if
  Keeps-fail_if true e = record { at = λ s h. tt }
  Keeps-fail_if false e = record { at = λ s h. h }

module _ {A B : Type 0} {P : Store → Type 0} where
  Ends-bind :
      (r : Result (A × Store)) (f : A → Tx B)
      → Ends (λ _. P) r
      → ((a : A) → Keeps P (f a))
      → Ends (λ _. P) (elim r [ ok (a, s) ↦ f a s | err e ↦ err e ])
  Ends-bind (ok (a, s)) f h kf = (kf a).at s h
  Ends-bind (err e) f h kf = tt

  pub Keeps-bind :
      (m : Tx A) (f : A → Tx B) → Keeps P m → ((a : A) → Keeps P (f a)) → Keeps P (m >>= f)
  unfolding ◌>>=◌
  Keeps-bind m f km kf = record { at = λ s h. Ends-bind (m s) f (km.at s h) kf }

  pub Keeps-if_found :
      (o : Option A) (f : A → Tx B) (m : Tx B)
      → ((a : A) → Keeps P (f a))
      → Keeps P m
      → Keeps P (if_found o f m)
  unfolding if_found
  Keeps-if_found none f m kf km = record { at = km.at }
  Keeps-if_found (some a) f m kf km = record { at = (kf a).at }

module _ {P : Store → Type 0} where
  pub Keeps-new_id :
      ((s : Store) (n : ℕ) → P s → P (record s { env = record s.env { drawn = n } }))
      → Keeps P new_id
  unfolding new_id
  Keeps-new_id k = record { at = λ s h. k s (suc s.env.drawn) h }

  pub Keeps-modify : (f : Store → Store) → ((s : Store) → P s → P (f s)) → Keeps P (modify f)
  unfolding modify
  Keeps-modify f k = record { at = k }

module _ {A B : Type 0} {P : Store → Type 0} where
  -- What is read is known, of a store that has the property.
  pub Keeps-bind-gets :
      (g : Store → A) (f : A → Tx B)
      → ((s : Store) → P s → Keeps P (f (g s)))
      → Keeps P (gets g >>= f)
  unfolding ◌>>=◌
  Keeps-bind-gets g f kf = record { at = λ s h. (kf s h).at s h }

  pub Keeps-bind-require :
      (o : Option A) (e : Error) (f : A → Tx B)
      → ((a : A) → o ≡ some a → Keeps P (f a))
      → Keeps P (require o e >>= f)
  unfolding ◌>>=◌
  Keeps-bind-require none e f kf = record { at = λ s h. tt }
  Keeps-bind-require (some a) e f kf = record { at = λ s h. (kf a refl).at s h }

  pub Keeps-if_found-known :
      (o : Option A) (f : A → Tx B) (m : Tx B)
      → ((a : A) → o ≡ some a → Keeps P (f a))
      → Keeps P m
      → Keeps P (if_found o f m)
  unfolding if_found
  Keeps-if_found-known none f m kf km = record { at = km.at }
  Keeps-if_found-known (some a) f m kf km = record { at = (kf a refl).at }

module _ {A : Type 0} {P : Store → Type 0} where
  -- A guard at the head of a block.
  pub Keeps-if_not :
      (b : Bool) (m n : Tx A)
      → Keeps P m
      → (b ≡ true → Keeps P n)
      → Keeps P (if not b then m else n)
  Keeps-if_not true m n km kn = kn refl
  Keeps-if_not false m n km kn = km

pub ruleset keeps_rules = (
  Keeps-pure, Keeps-fail, Keeps-gets, Keeps-require, Keeps-fail_if, Keeps-if, Keeps-if_found,
  Keeps-bind,
)
