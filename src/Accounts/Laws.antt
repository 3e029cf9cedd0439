-- ===== src/Accounts/Laws.antt =====
-- An update of a cached balance: the rows that it writes, and when it is refused.
use lenz.Prelude.{
  ◌≡◌, refl, sym, subst, ◌∙◌, String, Bool, true, false, some, List, [], ◌∷◌, inl, inr, Bool-cases,
  ◌==◌, eq_iff, arith, if◌then◌else◌,
}
use lenz.Prelude.Text.{text_ltb}
use lenz.Prelude.Table.{find, update, count}
use lenz.Model.{Account, AccountBalance}
use lenz.Tx.{Store, ◌>>=◌}
use lenz.Tx.Yields.{Ends, Ends-map, Yields, Yields-bind, Yields-bind-fail_if, Yields-pure}
use lenz.Tx.Keeps.{Keeps}
use lenz.Accounts.{
  is_account, LockedAccountBalance, lock_account_balance, lock_transfer_account_balances,
  is_balance, balances_fit, update_balance,
}

abbrev pub updated_store : String → String → (AccountBalance → AccountBalance) → Store → Store
updated_store i a f s = record s { balances = update (is_balance i a) f s.balances }

-- An update that returns has changed the one row of the account, and every balance fits in 64 bits.
pub update_balance-Ends :
    (i a : String) (f : AccountBalance → AccountBalance) (s : Store)
    → Ends
        (λ _ t.
          (t ≡ updated_store i a f s)
          × (balances_fit t.balances ≡ true)
          × (count (is_balance i a) s.balances ≡ 1))
        (update_balance i a f s)
unfolding update_balance ◌>>=◌
update_balance-Ends i a f s = ground arith

pub update_balance-Keeps :
    {P : Store → Type 0} (i a : String) (f : AccountBalance → AccountBalance)
    → ((s : Store) → P s → P (updated_store i a f s))
    → Keeps P (update_balance i a f)
update_balance-Keeps {P} i a f k = record {
  at = λ s h.
      Ends-map (update_balance i a f s) (update_balance-Ends i a f s)
        (λ _ t e. subst P (sym e.0) (k s h));
}

-- What a lock reads: the account's row and its balance, with nothing changed.
abbrev pub IsLocked : Store → String → String → LockedAccountBalance → Type 0
IsLocked s i a l =
    (find (is_account i a) s.accounts ≡ some l.account)
    × (find (is_balance i a) s.balances ≡ some l.balance)

pub lock_account_balance-Ends :
    (i a : String) (s : Store)
    → Ends (λ l t. (t ≡ s) × IsLocked s i a l) (lock_account_balance i a s)
unfolding lock_account_balance ◌>>=◌
lock_account_balance-Ends i a s = ground arith

pub found-is_account :
    (i a : String) (rows : List Account) (x : Account)
    → find (is_account i a) rows ≡ some x
    → (x.id == a) ≡ true
unfolding find
found-is_account i a [] x h = ground arith
found-is_account i a (y ∷ ys) x h = elim (Bool-cases (is_account i a y)) [
  | inl same ↦ ground arith
  | inr other ↦ found-is_account i a ys x (rw other at h)
]

abbrev pub AreLocked :
    Store → String → String → String → LockedAccountBalance × LockedAccountBalance → Type 0
AreLocked s i a c (locked, clearing) = IsLocked s i a locked × IsLocked s i c clearing

-- The rows come back in the order of the arguments, whichever was locked first.
locked_in_order :
    (s : Store) (i a c : String) (first second : LockedAccountBalance) (swapped : Bool)
    → (a == c) ≡ false
    → IsLocked s i (if swapped then c else a) first
    → IsLocked s i (if swapped then a else c) second
    → AreLocked s i a c (if first.account.id == a then (first, second) else (second, first))
locked_in_order s i a c first second false apart l m =
    rw (found-is_account i a s.accounts first.account l.0) (l, m)
locked_in_order s i a c first second true apart l m =
    let named = found-is_account i c s.accounts first.account l.0 in
    let other : (first.account.id == a) ≡ false =
      ground (arith, eq_iff first.account.id a, eq_iff first.account.id c, eq_iff a c) in
    rw other (m, l)

lock-Yields :
    (i a : String) (s : Store) (R : Type 0)
    → Yields (λ t. (t ≡ s) × R) (lock_account_balance i a) (λ l t. (t ≡ s) × (R × IsLocked s i a l))
lock-Yields i a s R = record {
  at = λ t h.
      Ends-map (lock_account_balance i a t) (lock_account_balance-Ends i a t)
        (λ l u e. (e.0 ∙ h.0, (h.1, subst (λ v. IsLocked v i a l) h.0 e.1)));
}

-- The locks of a transfer give the rows of the account and of its counterparty, in this order,
-- whichever of the two identifiers is the smaller one, and change nothing.
pub lock_transfer_account_balances-Ends :
    (i a c : String) (s : Store)
    → Ends (λ pair t. (t ≡ s) × AreLocked s i a c pair) (lock_transfer_account_balances i a c s)
unfolding lock_transfer_account_balances
lock_transfer_account_balances-Ends i a c s =
    let x = if text_ltb c a then c else a in
    let y = if text_ltb c a then a else c in
    (Yields-bind-fail_if (a == c) _ _ λ apart. Yields-bind _ _ _ (lock-Yields i x s Unit) λ first.
        Yields-bind _ _ _ (lock-Yields i y s (Unit × IsLocked s i x first)) λ second.
          Yields-pure _ λ t h.
            (h.0, locked_in_order s i a c first second (text_ltb c a) apart h.1.0.1 h.1.1)).at
      s (refl, tt)
