-- ===== src/Accounts/Reads.antt =====
-- What is read of accounts: balances, the accounts of a customer, and the history of an account
-- (corebanking/sql_account_repository.go).
use lenz.Prelude.{
  ltb, String, Bool, false, Option, none, some, List, [], ◌∷◌, ◌++◌, map, not, ◌&&◌, ◌||◌, ◌==◌,
  if◌then◌else◌,
}
use lenz.Prelude.Int.{ℤ, pos, pos_part, ◌-ℤ◌}
use lenz.Prelude.Table.{find, select}
use lenz.Prelude.Listing.{is_newer, is_before, take, order_by}
use lenz.Model.{
  Side, is_customer, is_succeeded, is_inbound, same_side, Account, AccountBalance, Transfer,
  Posting, ListOptions, Transaction, Error,
}
use lenz.Tx.{Tx, pure, gets, require, ◌>>=◌}
use lenz.Accounts.{is_account, is_balance, get_account}
use lenz.ProviderEvents.{optional}
use lenz.Lists.{query_time, normalize_list_transactions_options}
use Prim.Native.String.{◌++◌ as append}

abbrev is_owned : String → String → Account → Bool
is_owned institution_id customer_id a =
    a.institution_id == institution_id
    && elim a.customer_id [ none ↦ false | some id ↦ id == customer_id ]

-- `ListAccountsByCustomer`
unfoldable pub list_accounts_by_customer : String → String → Tx (List Account)
unfolding select order_by
list_accounts_by_customer institution_id customer_id = gets (λ s.
    order_by (λ a b. not (ltb b.created_at a.created_at))
      (select (is_owned institution_id customer_id) s.accounts))

-- `GetBalance`
unfoldable pub get_balance : String → String → Tx AccountBalance
unfolding find get_account
get_balance institution_id account_id = do
  account ← get_account institution_id account_id
  found ← gets (λ s. find (is_balance institution_id account_id) s.balances)
  require found Error.data_integrity

module _ (institution_id account_id : String) where
  abbrev is_entry_of : Transfer → Posting → Bool
  is_entry_of t p =
      p.institution_id == t.institution_id
      && elim t.journal_entry_id [ none ↦ false | some id ↦ p.journal_entry_id == id ]

  -- A LEFT JOIN: the rows that match, or one without a match.
  abbrev or_missing : List Posting → List (Option Posting)
  or_missing [] = none ∷ []
  or_missing (p ∷ ps) = map some (p ∷ ps)

  -- The posting is on the side on which the account grows.
  abbrev pub is_gain : Account → Posting → Bool
  is_gain account p = same_side account.normal_balance p.direction

  abbrev pub history_direction : Account → Transfer → Option Posting → Side
  history_direction account t (some p) =
      if is_succeeded t.status
      then if is_gain account p then Side.credit else Side.debit
      else if is_inbound t.direction
      then Side.credit
      else Side.debit
  history_direction account t none = if is_inbound t.direction then Side.credit else Side.debit

  -- `signed_amount_minor`: NULL, which the scan into an int64 refuses, where a succeeded transfer has
  -- no posting.
  abbrev pub signed_amount : Account → Transfer → Option Posting → Option ℤ
  signed_amount account t (some p) =
      if not (is_succeeded t.status)
      then some (pos 0)
      else if is_gain account p
      then some p.amount_minor
      else some (pos 0 -ℤ p.amount_minor)
  signed_amount account t none = if not (is_succeeded t.status) then some (pos 0) else none

  abbrev counterparty_of : List Account → Option Posting → Option String
  counterparty_of accounts none = none
  counterparty_of accounts (some p) =
      elim (find (is_account p.institution_id p.account_id) accounts) [
        | none ↦ none
        | some a ↦ if is_customer a.kind then some p.account_id else none
      ]

  abbrev posting_text : Option Posting → String
  posting_text none = "pending"
  posting_text (some p) = p.id

  -- A transfer with its posting on the account and one on another account, where there are any.
  pub record Row : Type 0 where
    pub transfer : Transfer
    pub posting : Option Posting
    pub counter : Option Posting

  abbrev with_counters : Transfer → List (Option Posting) → Option Posting → List Row
  with_counters t [] p = []
  with_counters t (cp ∷ cps) p =
      record { transfer = t; posting = p; counter = cp } ∷ with_counters t cps p

  abbrev with_postings : Transfer → List (Option Posting) → List (Option Posting) → List Row
  with_postings t [] cps = []
  with_postings t (p ∷ ps) cps = with_counters t cps p ++ with_postings t ps cps

  -- The joins of one transfer.
  abbrev rows_of : List Posting → Transfer → List Row
  rows_of postings t =
      with_postings t
        (or_missing (select (λ p. is_entry_of t p && p.account_id == account_id) postings))
        (or_missing (select (λ p. is_entry_of t p && not (p.account_id == account_id)) postings))

  abbrev joined : List Posting → List Transfer → List Row
  joined postings [] = []
  joined postings (t ∷ ts) = rows_of postings t ++ joined postings ts

  -- `t.institution_id = $1 AND (t.account_id = $2 OR p.account_id = $2)`
  abbrev is_of_account : Row → Bool
  is_of_account r =
      r.transfer.institution_id == institution_id
      && (r.transfer.account_id == account_id
          || elim r.posting [ none ↦ false | some p ↦ p.account_id == account_id ])

  abbrev transaction : List Account → Account → Row → ℤ → Transaction
  transaction accounts account r signed = record {
    id = append r.transfer.id (append ":" (posting_text r.posting));
    transfer_id = r.transfer.id;
    journal_entry_id = r.transfer.journal_entry_id;
    account_id = account_id;
    institution_id = r.transfer.institution_id;
    direction = history_direction account r.transfer r.posting;
    status = r.transfer.status;
    ledger_status = r.transfer.ledger_status;
    provider_status = r.transfer.provider_status;
    reconciliation_status = r.transfer.reconciliation_status;
    amount_minor = r.transfer.amount_minor;
    signed_amount_minor = signed;
    currency_id = r.transfer.currency_id;
    narration = r.transfer.narration;
    counterparty_account_id = counterparty_of accounts r.counter;
    provider = r.transfer.provider;
    provider_reference = r.transfer.provider_reference;
    created_at = r.transfer.created_at;
  }

  -- The scan of the rows.
  unfoldable pub scan_rows : List Account → Account → List Row → Tx (List Transaction)
  scan_rows accounts account [] = pure []
  scan_rows accounts account (r ∷ rs) = do
    signed ← require (signed_amount account r.transfer r.posting) Error.database
    rest ← scan_rows accounts account rs
    pure (transaction accounts account r signed ∷ rest)

-- `ListTransactions`. The JOIN with the account leaves no row where there is no account.
unfoldable pub list_transactions : String → String → ListOptions → Tx (List Transaction)
unfolding normalize_list_transactions_options query_time select find is_before take order_by
    scan_rows
list_transactions institution_id account_id given = do
  let options = normalize_list_transactions_options given
  s ← gets (λ s. s)
  elim (find (is_account institution_id account_id) s.accounts) [
    | none ↦ pure []
    | some account ↦ scan_rows institution_id account_id s.accounts account (
        take (pos_part options.limit) (
          order_by (is_newer (λ r. r.transfer.created_at) (λ r. r.transfer.id)) (
            select
              (λ r.
                is_of_account institution_id account_id r
                && is_before (λ q. q.transfer.created_at) (λ q. q.transfer.id)
                    (query_time options.before_created_at) (optional options.before_id) r)
              (joined institution_id account_id s.postings s.transfers))))
  ]
