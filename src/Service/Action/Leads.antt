-- ===== src/Service/Action/Leads.antt =====
-- What a request leaves behind: a precondition on the database and the providers, a postcondition for
-- a result and one for an error, and one rule for each way to build a request.
use lenz.Prelude.{◌≡◌, refl, sym, subst, Bool, true, false, if◌then◌else◌}
use lenz.Model.{Error}
use lenz.Tx.{Store, Result, ok, err, Tx, outcome}
use lenz.Tx.Yields.{Ends}
use lenz.Service.Action.{Action, done, stop, stop_if, transact, query, call, attempt, after, ◌>>=◌}

abbrev pub Outcome :
    {S A : Type 0}
    → (A → Store × S → Type 0)
    → (Store × S → Type 0)
    → Result A × (Store × S)
    → Type 0
Outcome Q E (ok a, w) = Q a w
Outcome Q E (err e, w) = E w

pub record Leads {S A : Type 0} (P : Store × S → Type 0) (m : Action S A)
    (Q : A → Store × S → Type 0) (E : Store × S → Type 0) : Type 0 where
  pub at : (w : Store × S) → P w → Outcome Q E (m w)

-- What holds in the end, however the request ends.
pub outcome_end :
    {S A : Type 0} (P : Store × S → Type 0) (r : Result A × (Store × S))
    → Outcome (λ _. P) P r
    → P r.1
outcome_end P (ok a, w) h = h
outcome_end P (err e, w) h = h

module _ {S A B : Type 0} {R : B → Store × S → Type 0} {E : Store × S → Type 0} where
  after-Outcome :
      (Q : A → Store × S → Type 0) (r : Result A × (Store × S)) (f : A → Action S B)
      → Outcome Q E r
      → ((a : A) → Leads (Q a) (f a) R E)
      → Outcome R E (after r f)
  unfolding after
  after-Outcome Q (ok a, w) f h k = (k a).at w h
  after-Outcome Q (err e, w) f h k = h

module _ {S A B : Type 0} {P : Store × S → Type 0} {R : B → Store × S → Type 0}
    {E : Store × S → Type 0} where
  pub Leads-bind :
      (Q : A → Store × S → Type 0) (m : Action S A) (f : A → Action S B)
      → Leads P m Q E
      → ((a : A) → Leads (Q a) (f a) R E)
      → Leads P (m >>= f) R E
  unfolding ◌>>=◌
  Leads-bind Q m f h k = record { at = λ w p. after-Outcome Q (m w) f (h.at w p) k }

module _ {S A : Type 0} {P : Store × S → Type 0} {Q : A → Store × S → Type 0}
    {E : Store × S → Type 0} where
  pub Leads-done : (a : A) → ((w : Store × S) → P w → Q a w) → Leads P (done a) Q E
  unfolding done
  Leads-done a k = record { at = k }

  pub Leads-stop : (e : Error) → ((w : Store × S) → P w → E w) → Leads P (stop e) Q E
  unfolding stop
  Leads-stop e k = record { at = k }

  pub Leads-if :
      (b : Bool) (m n : Action S A)
      → Leads P m Q E
      → Leads P n Q E
      → Leads P (if b then m else n) Q E
  Leads-if true m n km kn = km
  Leads-if false m n km kn = kn

module _ {S : Type 0} {P : Store × S → Type 0} where
  pub Leads-stop_if : (b : Bool) (e : Error) → Leads P (stop_if b e) (λ _. P) P
  unfolding stop_if
  Leads-stop_if true e = record { at = λ w h. h }
  Leads-stop_if false e = record { at = λ w h. h }

module _ {S A : Type 0} where
  always : (P : Store × S → Type 0) (r : Result A) (w : Store × S) → P w → Outcome (λ _. P) P (r, w)
  always P (ok a) w h = h
  always P (err e) w h = h

module _ {S A : Type 0} {P : Store × S → Type 0} where
  -- A query changes nothing.
  pub Leads-query : (m : Tx A) → Leads P (query m) (λ _. P) P
  unfolding query
  Leads-query m = record { at = λ (s, p) h. always P (outcome s (m s)).0 (s, p) h }

  pub Leads-transact :
      (f : Store → Result A × Store)
      → ((s : Store) (p : S) → P (s, p) → P ((f s).1, p))
      → Leads P (transact f) (λ _. P) P
  unfolding transact
  Leads-transact f k = record { at = λ (s, p) h. always P (f s).0 ((f s).1, p) (k s p h) }

-- The answer of a provider is known if its state is.
pub Leads-answer :
    {S A : Type 0} (P : Store → Type 0) (p : S) (c : S → Result A × S)
    → Leads (λ w. P w.0 × (w.1 ≡ p)) (attempt (call c)) (λ r w. P w.0 × (r ≡ (c p).0)) (λ w. P w.0)
unfolding attempt call
Leads-answer P p c = record { at = λ w h. (h.0, rw h.1 refl) }

module _ {S A : Type 0} {P : Store × S → Type 0} {Q : A → Store × S → Type 0}
    {E : Store × S → Type 0} where
  -- A fact that does not depend on the state.
  pub Leads-given :
      (F : Type 0) → (m : Action S A) → (F → Leads P m Q E) → Leads (λ w. P w × F) m Q E
  Leads-given F m k = record { at = λ w h. (k h.1).at w h.0 }

module _ {S A : Type 0} (Q : A → Type 0) (s : Store) (p : S) where
  read_outcome :
      (r : Result (A × Store))
      → Ends (λ a _. Q a) r
      → Outcome (λ a w. (w ≡ (s, p)) × Q a) (λ w. w ≡ (s, p)) ((outcome s r).0, (s, p))
  read_outcome (ok (a, t)) h = (refl, h)
  read_outcome (err e) h = refl

  -- What a query reads of the state at hand.
  pub Leads-read :
      (m : Tx A)
      → Ends (λ a _. Q a) (m s)
      → Leads (λ w. w ≡ (s, p)) (query m) (λ a w. (w ≡ (s, p)) × Q a) (λ w. w ≡ (s, p))
  unfolding query
  Leads-read m h = record {
    at = λ w same.
        subst (λ v. Outcome (λ a w. (w ≡ (s, p)) × Q a) (λ w. w ≡ (s, p)) (query m v)) (sym same)
          (read_outcome (m s) h);
  }
