-- ===== src/Lists.antt =====
-- The options of a list in the form in which a query takes them (corebanking/service.go). A time is
-- counted from Go's zero time, so `IsZero` is the test for 0.
pub mod Queries
use lenz.Prelude.{
  ℕ, zero, String, Bool, true, false, Option, none, some, not, ◌&&◌, ◌||◌, ◌==◌, if◌then◌else◌,
}
use lenz.Prelude.Int.{ℤ, pos, leb_ℤ, ltb_ℤ}
use lenz.Prelude.Text.{trim_space}
use lenz.Model.{ListOptions, ListReconciliationItemsOptions, Error}
use lenz.Tx.{Tx, pure, fail_if, ◌>>=◌, ◌>>◌}

abbrev pub max_transaction_history_limit : ℤ
max_transaction_history_limit = pos 200

abbrev default_transaction_history_limit : ℤ
default_transaction_history_limit = pos 100

abbrev default_audit_event_list_limit : ℤ
default_audit_event_list_limit = max_transaction_history_limit

abbrev default_reconciliation_stale_pending_minutes : ℤ
default_reconciliation_stale_pending_minutes = pos 1440

-- A limit that is not positive is the default, and none is above the greatest.
unfoldable pub limited : ℤ → ℤ → ℤ
limited default limit =
    let given = if leb_ℤ limit (pos 0) then default else limit in
    if ltb_ℤ max_transaction_history_limit given then max_transaction_history_limit else given

-- `normalizeListTransactionsOptions`
unfoldable pub normalize_list_transactions_options : ListOptions → ListOptions
unfolding limited
normalize_list_transactions_options options = record options {
  limit = limited default_transaction_history_limit options.limit;
}

-- The query's time: `if options.BeforeCreatedAt != nil && !options.BeforeCreatedAt.IsZero()`
unfoldable pub query_time : Option ℕ → Option ℕ
query_time (some zero) = none
query_time before = before

abbrev is_missing : Option ℕ → Bool
is_missing none = true
is_missing (some _) = false

abbrev pub is_listed_transfer_status : String → Bool
is_listed_transfer_status status =
    status == "succeeded" || status == "pending" || status == "failed"

abbrev pub is_listed_ledger_status : String → Bool
is_listed_ledger_status status =
    status == "pending"
    || status == "posted"
    || status == "no_posting"
    || status == "reversal_deficit"

abbrev pub is_listed_reconciliation_status : String → Bool
is_listed_reconciliation_status status =
    status == "pending" || status == "matched" || status == "no_action" || status == "manual_review"

module _ (is_uuid : String → Bool) where
  -- A cursor names a row by its time and its identifier, or by its time.
  unfoldable pub check_cursor : Option ℕ → String → Tx (Unit {0})
  check_cursor before_created_at before_id = do
    fail_if (not (before_id == "") && is_missing before_created_at) Error.invalid_request
    fail_if (not (before_id == "") && not (is_uuid before_id)) Error.invalid_request

  -- `normalizeListTransfersOptions`
  unfoldable pub normalize_list_transfers_options : ListOptions → Tx ListOptions
  unfolding limited check_cursor
  normalize_list_transfers_options options = do
    let before_id = trim_space options.before_id
    check_cursor options.before_created_at before_id
    pure (record options {
      limit = limited default_transaction_history_limit options.limit;
      before_id = before_id;
    })

  -- `normalizeListAuditEventsOptions`
  unfoldable pub normalize_list_audit_events_options : ListOptions → Tx ListOptions
  unfolding limited check_cursor
  normalize_list_audit_events_options options = do
    let before_id = trim_space options.before_id
    check_cursor options.before_created_at before_id
    pure (record options {
      limit = limited default_audit_event_list_limit options.limit;
      before_id = before_id;
    })

  -- `normalizeListReconciliationItemsOptions`
  unfoldable pub normalize_list_reconciliation_items_options :
      ListReconciliationItemsOptions → Tx ListReconciliationItemsOptions
  unfolding limited check_cursor
  normalize_list_reconciliation_items_options options = do
    let before_transfer_id = trim_space options.before_transfer_id
    let status = trim_space options.status
    let provider_status = trim_space options.provider_status
    let ledger_status = trim_space options.ledger_status
    let reconciliation_status = trim_space options.reconciliation_status
    check_cursor options.before_created_at before_transfer_id
    fail_if (not (status == "") && not (is_listed_transfer_status status)) Error.invalid_request
    fail_if
        (not (provider_status == "")
          && not
              (is_listed_transfer_status provider_status || provider_status == "provider_unknown"))
        Error.invalid_request
    fail_if (not (ledger_status == "") && not (is_listed_ledger_status ledger_status))
        Error.invalid_request
    fail_if
        (not (reconciliation_status == "")
          && not (is_listed_reconciliation_status reconciliation_status))
        Error.invalid_request
    pure (record options {
      limit = limited default_transaction_history_limit options.limit;
      stale_pending_minutes =
          if leb_ℤ options.stale_pending_minutes (pos 0)
          then default_reconciliation_stale_pending_minutes
          else options.stale_pending_minutes;
      before_transfer_id = before_transfer_id;
      status = status;
      provider_status = provider_status;
      ledger_status = ledger_status;
      reconciliation_status = reconciliation_status;
    })
