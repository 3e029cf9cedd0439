-- ===== src/Accounts.antt =====
-- Accounts and their balances (corebanking/sql_account_repository.go and sql_integrity.go).
pub mod Reads
pub mod Laws
use lenz.Prelude.{
  ℕ, String, Bool, true, false, Option, none, some, List, [], ◌∷◌, not, ◌&&◌, ◌==◌, eqb,
  if◌then◌else◌,
}
use lenz.Prelude.Int.{in_int64}
use lenz.Prelude.Text.{text_ltb}
use lenz.Prelude.Table.{find, select, update, count}
use lenz.Model.{
  Side, AccountKind, AccountStatus, is_customer, same_side, same_account_status, Account,
  AccountBalance, Error,
}
use lenz.Tx.{Store, Tx, pure, fail, gets, require, fail_if, modify, ◌>>=◌, ◌>>◌}

abbrev pub is_account : String → String → Account → Bool
is_account institution_id account_id a = a.institution_id == institution_id && a.id == account_id

abbrev pub is_balance : String → String → AccountBalance → Bool
is_balance institution_id account_id b =
    b.institution_id == institution_id && b.account_id == account_id

-- `GetAccount`
unfoldable pub get_account : String → String → Tx Account
get_account institution_id account_id = do
  found ← gets (λ s. find (is_account institution_id account_id) s.accounts)
  require found Error.not_found

-- `GetAccountByNumber`
unfoldable pub get_account_by_number : String → String → Tx Account
get_account_by_number institution_id account_number = do
  found ← gets (λ s.
      find (λ a. a.institution_id == institution_id && a.account_number == account_number)
        s.accounts)
  require found Error.not_found

abbrev is_settlement_account : String → String → Account → Bool
is_settlement_account institution_id currency_id a =
    a.institution_id == institution_id
    && a.currency_id == currency_id
    && not (is_customer a.kind)
    && a.product_type == "internal"
    && a.allow_negative
    && same_side a.normal_balance Side.debit
    && same_account_status a.status AccountStatus.active

abbrev only_account : List Account → Tx Account
only_account [] = fail Error.not_found
only_account (a ∷ []) = pure a
only_account _ = fail Error.invalid_request

-- `GetDefaultInternalSettlementAccount`: the one settlement account, if there is just one.
unfoldable pub get_default_internal_settlement_account : String → String → Tx Account
get_default_internal_settlement_account institution_id currency_id = do
  rows ← gets (λ s. select (is_settlement_account institution_id currency_id) s.accounts)
  only_account rows

-- `lockedAccountBalance`
pub record LockedAccountBalance : Type 0 where
  pub account : Account
  pub balance : AccountBalance

unfoldable pub lock_account_balance : String → String → Tx LockedAccountBalance
lock_account_balance institution_id account_id = do
  account ←
      require (← gets (λ s. find (is_account institution_id account_id) s.accounts)) Error.not_found
  balance ←
      require (← gets (λ s. find (is_balance institution_id account_id) s.balances))
        Error.data_integrity
  pure (record { account = account; balance = balance })

-- Both accounts of a transfer, the one with the smaller identifier locked first.
unfoldable pub lock_transfer_account_balances :
    String → String → String → Tx (LockedAccountBalance × LockedAccountBalance)
lock_transfer_account_balances institution_id account_id clearing_account_id = do
  fail_if (account_id == clearing_account_id) Error.invalid_request
  let swapped = text_ltb clearing_account_id account_id
  first ← lock_account_balance institution_id (if swapped then clearing_account_id else account_id)
  second ← lock_account_balance institution_id (if swapped then account_id else clearing_account_id)
  pure (if first.account.id == account_id then (first, second) else (second, first))

-- The columns are `bigint`.
unfoldable pub balances_fit : List AccountBalance → Bool
balances_fit [] = true
balances_fit (b ∷ bs) = in_int64 b.available_minor && in_int64 b.ledger_minor && balances_fit bs

-- `execOneRow`: the statement changed one row.
abbrev require_one_row : ℕ → Tx (Unit {0})
require_one_row rows = fail_if (not (eqb rows 1)) Error.data_integrity

-- An UPDATE of `account_balances`, under `execOneRow`; the database refuses a value that does not fit.
unfoldable pub update_balance : String → String → (AccountBalance → AccountBalance) → Tx (Unit {0})
update_balance institution_id account_id f = do
  rows ← gets (λ s. s.balances)
  let rows' = update (is_balance institution_id account_id) f rows
  fail_if (not (balances_fit rows')) Error.database
  require_one_row (count (is_balance institution_id account_id) rows)
  modify (λ s. record s { balances = rows' })
