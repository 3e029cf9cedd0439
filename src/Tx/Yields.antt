-- ===== src/Tx/Yields.antt =====
-- What an action leaves behind when it returns: a precondition, a postcondition on the result, and
-- one rule for each way to build an action.
use lenz.Prelude.{sym, ap, subst, ◌≡◌, refl, Bool, true, false, Option, none, some, if◌then◌else◌}
use lenz.Model.{Error}
use lenz.Tx.{
  Store, Result, ok, err, Tx, pure, fail, gets, require, fail_if, if_found, outcome, ◌>>=◌,
}

abbrev pub Ends : {A : Type 0} → (A → Store → Type 0) → Result (A × Store) → Type 0
Ends Q (ok (a, s)) = Q a s
Ends Q (err e) = Unit

-- A stronger postcondition gives a weaker one.
pub Ends-map :
    {A : Type 0} {P Q : A → Store → Type 0} (r : Result (A × Store))
    → Ends P r
    → ((a : A) (t : Store) → P a t → Q a t)
    → Ends Q r
Ends-map (ok (a, t)) p k = k a t p
Ends-map (err e) p k = tt

-- Two postconditions make one.
pub Ends-both :
    {A : Type 0} (P Q : A → Store → Type 0) (r : Result (A × Store))
    → Ends P r
    → Ends Q r
    → Ends (λ a t. P a t × Q a t) r
Ends-both P Q (ok (a, t)) p q = (p, q)
Ends-both P Q (err e) p q = tt

-- From a store with `P`, if `m` returns, its result and the store that it leaves have `Q`.
pub record Yields {A : Type 0} (P : Store → Type 0) (m : Tx A) (Q : A → Store → Type 0)
    : Type 0 where
  pub at : (s : Store) → P s → Ends Q (m s)

module _ {A : Type 0} {P : Store → Type 0} {Q : A → Store → Type 0} where
  pub Yields-pure : (a : A) → ((s : Store) → P s → Q a s) → Yields P (pure a) Q
  unfolding pure
  Yields-pure a q = record { at = q }

  pub Yields-fail : (e : Error) → Yields P (fail e) Q
  unfolding fail
  Yields-fail e = record { at = λ s h. tt }

  pub Yields-if :
      (b : Bool) (m n : Tx A)
      → (b ≡ true → Yields P m Q)
      → (b ≡ false → Yields P n Q)
      → Yields P (if b then m else n) Q
  Yields-if true m n km kn = km refl
  Yields-if false m n km kn = kn refl

  pub Yields-at : (m : Tx A) {a : A} {s t : Store} → Yields P m Q → P s → m s ≡ ok (a, t) → Q a t
  Yields-at m {a} {s} k h e = rw e at (k.at s h)

Ends-bind :
    {A B : Type 0} {Q : A → Store → Type 0} {R : B → Store → Type 0} (r : Result (A × Store))
    (f : A → Tx B)
    → Ends Q r
    → ((a : A) → Yields (Q a) (f a) R)
    → Ends R (elim r [ ok (a, s) ↦ f a s | err e ↦ err e ])
Ends-bind (ok (a, s)) f q kf = (kf a).at s q
Ends-bind (err e) f q kf = tt

module _ {A B : Type 0} {P : Store → Type 0} {R : B → Store → Type 0} where
  pub Yields-bind :
      (Q : A → Store → Type 0) (m : Tx A) (f : A → Tx B)
      → Yields P m Q
      → ((a : A) → Yields (Q a) (f a) R)
      → Yields P (m >>= f) R
  unfolding ◌>>=◌
  Yields-bind Q m f km kf = record { at = λ s h. Ends-bind {Q = Q} (m s) f (km.at s h) kf }

  -- A fact on the result alone.
  pub Yields-bind-fact :
      (Q : A → Type 0) (m : Tx A) (f : A → Tx B)
      → Yields P m (λ a _. Q a)
      → ((a : A) → Q a → Yields (λ _. Unit) (f a) R)
      → Yields P (m >>= f) R
  Yields-bind-fact Q m f km kf =
      Yields-bind (λ a _. Q a) m f km λ a. record { at = λ t q. (kf a q).at t tt }

  -- A fact on the result, and one on the store.
  pub Yields-bind-known :
      (Q : A → Type 0) (P' : Store → Type 0) (m : Tx A) (f : A → Tx B)
      → Yields P m (λ a t. Q a × P' t)
      → ((a : A) → Q a → Yields P' (f a) R)
      → Yields P (m >>= f) R
  Yields-bind-known Q P' m f km kf =
      Yields-bind (λ a t. Q a × P' t) m f km λ a. record { at = λ t q. (kf a q.0).at t q.1 }

  -- What is read is known to the rest of the block.
  pub Yields-bind-gets :
      (g : Store → A) (f : A → Tx B)
      → ((a : A) → Yields (λ s. P s × (g s ≡ a)) (f a) R)
      → Yields P (gets g >>= f) R
  unfolding ◌>>=◌
  Yields-bind-gets g f kf = record { at = λ s h. (kf (g s)).at s (h, refl) }

  pub Yields-bind-require :
      (o : Option A) (e : Error) (f : A → Tx B)
      → ((a : A) → o ≡ some a → Yields P (f a) R)
      → Yields P (require o e >>= f) R
  unfolding ◌>>=◌
  Yields-bind-require none e f kf = record { at = λ s h. tt }
  Yields-bind-require (some a) e f kf = record { at = λ s h. (kf a refl).at s h }

module _ {B : Type 0} {P : Store → Type 0} {R : B → Store → Type 0} where
  pub Yields-bind-fail_if :
      (b : Bool) (e : Error) (f : Unit {0} → Tx B)
      → (b ≡ false → Yields P (f tt) R)
      → Yields P (fail_if b e >>= f) R
  unfolding ◌>>=◌
  Yields-bind-fail_if true e f kf = record { at = λ s h. tt }
  Yields-bind-fail_if false e f kf = record { at = λ s h. (kf refl).at s h }

Ends-any : {A : Type 0} (r : Result (A × Store)) → Ends (λ _ _. Unit) r
Ends-any (ok (a, t)) = tt
Ends-any (err e) = tt

module _ {A : Type 0} {P : Store → Type 0} where
  -- Nothing is asked.
  pub Yields-any : (m : Tx A) → Yields P m (λ _ _. Unit)
  Yields-any m = record { at = λ s h. Ends-any (m s) }

module _ {A B : Type 0} {P : Store → Type 0} {R : B → Store → Type 0} where
  pub Yields-if_found :
      (o : Option A) (f : A → Tx B) (m : Tx B)
      → ((a : A) → o ≡ some a → Yields P (f a) R)
      → (o ≡ none → Yields P m R)
      → Yields P (if_found o f m) R
  unfolding if_found
  Yields-if_found none f m kf km = record { at = (km refl).at }
  Yields-if_found (some a) f m kf km = record { at = (kf a refl).at }

module _ {A B : Type 0} {P : Store → Type 0} {R : B → Store → Type 0} where
  -- The action has no part in what is shown.
  pub Yields-skip :
      (m : Tx A) (f : A → Tx B) → ((a : A) → Yields (λ _. Unit) (f a) R) → Yields P (m >>= f) R
  Yields-skip m f kf = Yields-bind (λ _ _. Unit) m f (Yields-any m) kf

result_or : {A : Type 0} → A → Result A → A
result_or a (ok b) = b
result_or a (err e) = a

IsOk : {A : Type 0} → Result A → Type 0
IsOk (ok a) = Unit
IsOk (err e) = ⊥

-- What a transaction that returned `a` left behind has the postcondition of its body.
pub Ends-outcome :
    {A : Type 0} (Q : A → Store → Type 0) (r : Result (A × Store)) (s : Store) (a : A) (t : Store)
    → Ends Q r
    → outcome s r ≡ (ok a, t)
    → Q a t
unfolding result_or IsOk
Ends-outcome Q (ok (b, u)) s a t q e =
    subst (Q a) (ap (λ p. p.1) e) (subst (λ x. Q x u) (ap (λ p. result_or b p.0) e) q)
Ends-outcome Q (err x) s a t q e = absurd (subst (λ p. IsOk p.0) (sym e) tt)
