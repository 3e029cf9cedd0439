-- ===== src/Service/Reads.antt =====
-- What the service reads (corebanking/service.go). A read that finds nothing is an error, and a list
-- without rows is empty.
pub mod Pages
pub mod Bounds
use lenz.Prelude.{String, Bool, List, not, ◌||◌, ◌==◌, if◌then◌else◌}
use lenz.Prelude.Text.{trim_space}
use lenz.Model.{
  Account, AccountBalance, Transfer, Transaction, JournalWithPostings, ReconciliationItem,
  ListOptions, ListReconciliationItemsOptions, MarkReconciliationItemReviewedInput, Error,
}
use lenz.Tx.{Store, Result, Tx, pure, fail_if, ◌>>=◌, ◌>>◌}
use lenz.Accounts.{get_account}
use lenz.Accounts.Reads.{get_balance, list_accounts_by_customer, list_transactions}
use lenz.Ledger.Journal.{get_journal}
use lenz.Transfers.{get_transfer}
use lenz.Lists.{
  check_cursor, normalize_list_transfers_options, normalize_list_reconciliation_items_options,
}
use lenz.Lists.Queries as Queries
use lenz.Reconciliation.{
  inspected, mark_reconciliation_item_reviewed, valid_reconciliation_review_status,
}
use lenz.Service.{require_institution_id, checked}

module _ (is_uuid : String → Bool) where
  -- The identifier that a read is given.
  unfoldable pub require_uuid : String → Tx String
  require_uuid id = do
    fail_if (not (is_uuid (trim_space id))) Error.invalid_request
    pure (trim_space id)

  -- `GetAccount`
  unfoldable pub read_account : String → String → Tx Account
  unfolding require_institution_id
  read_account institution_id account_id = do
    institution ← require_institution_id institution_id
    fail_if (trim_space account_id == "") Error.invalid_request
    get_account institution (trim_space account_id)

  -- `ListCustomerAccounts`
  unfoldable pub list_customer_accounts : String → String → Tx (List Account)
  unfolding require_institution_id list_accounts_by_customer
  list_customer_accounts institution_id customer_id = do
    institution ← require_institution_id institution_id
    fail_if (trim_space customer_id == "") Error.invalid_request
    list_accounts_by_customer institution (trim_space customer_id)

  -- `GetBalance`
  unfoldable pub read_balance : String → String → Tx AccountBalance
  unfolding require_institution_id require_uuid get_balance
  read_balance institution_id account_id = do
    institution ← require_institution_id institution_id
    id ← require_uuid account_id
    get_balance institution id

  -- `GetTransactions`
  unfoldable pub get_transactions : String → String → ListOptions → Tx (List Transaction)
  unfolding require_institution_id require_uuid check_cursor list_transactions
  get_transactions institution_id account_id options = do
    institution ← require_institution_id institution_id
    id ← require_uuid account_id
    let before_id = trim_space options.before_id
    check_cursor is_uuid options.before_created_at before_id
    account ← get_account institution id
    list_transactions institution id
        (record options { before_id = if before_id == "" then options.before_id else before_id })

  -- `GetJournal`
  unfoldable pub read_journal : String → String → Tx JournalWithPostings
  unfolding require_institution_id require_uuid get_journal
  read_journal institution_id journal_entry_id = do
    institution ← require_institution_id institution_id
    id ← require_uuid journal_entry_id
    get_journal institution id

  -- `GetTransfer`
  unfoldable pub read_transfer : String → String → Tx Transfer
  unfolding require_institution_id require_uuid
  read_transfer institution_id transfer_id = do
    institution ← require_institution_id institution_id
    id ← require_uuid transfer_id
    get_transfer institution id

  -- `ListTransfers`
  unfoldable pub list_transfers : String → ListOptions → Tx (List Transfer)
  unfolding require_institution_id normalize_list_transfers_options Queries.list_transfers
  list_transfers institution_id options = do
    institution ← require_institution_id institution_id
    normalized ← normalize_list_transfers_options is_uuid options
    Queries.list_transfers is_uuid institution normalized

  -- `ListReconciliationItems`
  unfoldable pub list_reconciliation_items :
      String → ListReconciliationItemsOptions → Tx (List ReconciliationItem)
  unfolding require_institution_id normalize_list_reconciliation_items_options
      Queries.list_reconciliation_items
  list_reconciliation_items institution_id options = do
    institution ← require_institution_id institution_id
    normalized ← normalize_list_reconciliation_items_options is_uuid options
    Queries.list_reconciliation_items institution normalized

  -- `GetReconciliationItem`
  unfoldable pub read_reconciliation_item : String → String → Tx ReconciliationItem
  unfolding require_institution_id require_uuid inspected
  read_reconciliation_item institution_id transfer_id = do
    institution ← require_institution_id institution_id
    id ← require_uuid transfer_id
    inspected institution id

  -- The checks of `MarkReconciliationItemReviewed`.
  unfoldable pub review_request :
      MarkReconciliationItemReviewedInput → Tx MarkReconciliationItemReviewedInput
  unfolding require_institution_id valid_reconciliation_review_status
  review_request input = do
    institution ← require_institution_id input.institution_id
    let transfer_id = trim_space input.transfer_id
    let note = trim_space input.resolution_note
    let status = trim_space input.resolution_status
    fail_if (not (is_uuid transfer_id)) Error.invalid_request
    fail_if (note == "" || not (valid_reconciliation_review_status status)) Error.invalid_request
    pure (record {
      institution_id = institution;
      transfer_id = transfer_id;
      resolution_note = note;
      resolution_status = status;
    })

  -- `MarkReconciliationItemReviewed`
  unfoldable pub mark_item_reviewed :
      MarkReconciliationItemReviewedInput → Store → Result ReconciliationItem × Store
  unfolding review_request checked mark_reconciliation_item_reviewed
  mark_item_reviewed input = checked (review_request input) mark_reconciliation_item_reviewed
