-- ===== src/Service/Action.antt =====
-- A request that talks to the repository and to the providers in turn: a sequence of steps on the
-- database and on the state of the providers, each of which keeps what it wrote when a later one
-- fails.
pub mod Leads
use lenz.Prelude.{Bool, true, false}
use lenz.Model.{Error}
use lenz.Tx.{Store, Result, ok, err, Tx, outcome}

abbrev pub Action : Type 0 → Type 0 → Type 0
Action S A = Store × S → Result A × (Store × S)

module _ {S : Type 0} where
  unfoldable pub done : {A : Type 0} → A → Action S A
  done a w = (ok a, w)

  unfoldable pub stop : {A : Type 0} → Error → Action S A
  stop e w = (err e, w)

  unfoldable pub stop_if : Bool → Error → Action S (Unit {0})
  stop_if true e w = (err e, w)
  stop_if false e w = (ok tt, w)

  -- A transaction of the repository.
  unfoldable pub transact : {A : Type 0} → (Store → Result A × Store) → Action S A
  transact f (s, p) = let r = f s in (r.0, (r.1, p))

  -- A query of the repository, or a check.
  unfoldable pub query : {A : Type 0} → Tx A → Action S A
  query m (s, p) = ((outcome s (m s)).0, (s, p))

  -- A call of a provider.
  unfoldable pub call : {A : Type 0} → (S → Result A × S) → Action S A
  call f (s, p) = let r = f p in (r.0, (s, r.1))

  -- The result of a step, an error too.
  unfoldable pub attempt : {A : Type 0} → Action S A → Action S (Result A)
  attempt m w = let r = m w in (ok r.0, r.1)

  unfoldable pub after :
      {A B : Type 0} → Result A × (Store × S) → (A → Action S B) → Result B × (Store × S)
  after (ok a, w) f = f a w
  after (err e, w) f = (err e, w)

  infixl 5 ◌>>=◌ ◌>>◌
  unfoldable pub ◌>>=◌ : {A B : Type 0} → Action S A → (A → Action S B) → Action S B
  unfolding done stop stop_if transact query call attempt after
  ◌>>=◌ m f w = after (m w) f

  abbrev pub ◌>>◌ : {A B : Type 0} → Action S A → Action S B → Action S B
  m >> k = m >>= λ _. k
