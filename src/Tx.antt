-- ===== src/Tx.antt =====
-- A database transaction (corebanking/transaction.go): the store, the actions on it, and `WithTx`.
-- Transactions are serialised: the row locks (FOR UPDATE) and the advisory locks of the code order
-- them, so a lock itself is no step of the model.
mod State
pub mod Yields
pub mod Keeps
pub use State.{Store, Principal, Environment}
use lenz.Prelude.{ℕ, suc, String, Bool, true, false, Option, none, some}
use lenz.Model.{Error}

pub data Result {ℓ} (A : Type ℓ) : Type ℓ where
  ok : A → Result A
  err : Error → Result A

-- An action inside a transaction. An error loses its writes, since the transaction rolls back.
abbrev pub Tx : Type 0 → Type 0
Tx A = Store → Result (A × Store)

module _ {A : Type 0} where
  unfoldable pub pure : A → Tx A
  pure a s = ok (a, s)

  unfoldable pub fail : Error → Tx A
  fail e s = err e

  unfoldable pub gets : (Store → A) → Tx A
  gets f s = ok (f s, s)

  -- A value, or the error that stands for its absence.
  unfoldable pub require : Option A → Error → Tx A
  require none e s = err e
  require (some a) e s = ok (a, s)

unfoldable pub modify : (Store → Store) → Tx (Unit {0})
modify f s = ok (tt, f s)

-- `if b { return err }`
unfoldable pub fail_if : Bool → Error → Tx (Unit {0})
fail_if true e s = err e
fail_if false e s = ok (tt, s)

-- `if found, err := …; err == nil { … }`, and what follows it where there is no row.
unfoldable pub if_found : {A B : Type 0} → Option A → (A → Tx B) → Tx B → Tx B
if_found none f m s = m s
if_found (some a) f m s = f a s

-- To open `>>=` is to open the actions above too.
infixl 5 ◌>>=◌ ◌>>◌
unfoldable pub ◌>>=◌ : {A B : Type 0} → Tx A → (A → Tx B) → Tx B
unfolding pure fail gets require modify fail_if if_found
◌>>=◌ m f s = elim (m s) [ ok (a, s') ↦ f a s' | err e ↦ err e ]

abbrev pub ◌>>◌ : {A B : Type 0} → Tx A → Tx B → Tx B
m >> k = m >>= λ _. k

-- `uuid.NewRandom`
unfoldable pub new_id : Tx String
new_id s =
    let env = s.env in
    ok (env.uuid env.drawn, record s { env = record env { drawn = suc env.drawn } })

abbrev pub outcome : {A : Type 0} → Store → Result (A × Store) → Result A × Store
outcome s (ok (a, s')) = (ok a, s')
outcome s (err e) = (err e, s)

-- `WithTx`: the writes of `fn` are kept if it returns no error, and undone if it does.
unfoldable pub with_tx : {A : Type 0} → Tx A → Store → Result A × Store
with_tx fn s = outcome s (fn s)
