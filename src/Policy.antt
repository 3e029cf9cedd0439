-- ===== src/Policy.antt =====
-- The transfer policy (corebanking/policy.go): what the state of an account allows, and the
-- statuses that a transfer gets.
pub mod Laws
use lenz.Prelude.{String, Bool, true, false, not, ◌&&◌, ◌||◌, ◌==◌, if◌then◌else◌}
use lenz.Prelude.Int.{ℤ, pos, ltb_ℤ, leb_ℤ, sub_int64}
use lenz.Model.{
  Status, LedgerStatus, ReconciliationStatus, AccountStatus, is_outbound, is_customer, is_frozen,
  is_closed, Account, AccountBalance, RecordTransferInput, Error,
}
use lenz.Tx.{Tx, fail, pure, fail_if, ◌>>◌}

unfoldable pub customer_initiated_outbound : RecordTransferInput → Bool
customer_initiated_outbound input =
    is_outbound input.direction && input.reversal_of_transfer_id == ""

unfoldable pub can_use_available_balance : Account → ℤ → ℤ → Bool
can_use_available_balance account available_minor amount_minor =
    if account.allow_negative
    then true
    else if not (is_customer account.kind)
    then true
    else leb_ℤ amount_minor available_minor

abbrev forbids_primary : AccountStatus → Bool → Bool
forbids_primary AccountStatus.frozen outgoing = true
forbids_primary AccountStatus.closed outgoing = true
forbids_primary AccountStatus.post_no_debit outgoing = outgoing
forbids_primary _ outgoing = false

unfoldable pub enforce_primary_account_controls : RecordTransferInput → Account → Tx (Unit {0})
enforce_primary_account_controls input account =
    if not (is_customer account.kind)
    then pure tt
    else (if forbids_primary account.status (is_outbound input.direction)
        then fail Error.invalid_request
        else pure tt)

unfoldable pub enforce_counterparty_account_controls : Account → Tx (Unit {0})
enforce_counterparty_account_controls account =
    if not (is_customer account.kind)
    then pure tt
    else (if is_frozen account.status || is_closed account.status
        then fail Error.invalid_request
        else pure tt)

unfoldable pub enforce_transfer_controls : RecordTransferInput → Account → Account → Tx (Unit {0})
unfolding enforce_primary_account_controls enforce_counterparty_account_controls
enforce_transfer_controls input account clearing =
    enforce_primary_account_controls input account >> enforce_counterparty_account_controls clearing

unfoldable pub would_create_reversal_deficit : Account → AccountBalance → RecordTransferInput → Bool
would_create_reversal_deficit account balance input =
    if input.reversal_of_transfer_id == "" || not (is_outbound input.direction)
    then false
    else if not (is_customer account.kind) || account.allow_negative
    then false
    else ltb_ℤ (sub_int64 balance.ledger_minor input.amount_minor) (pos 0)

unfoldable pub transfer_statuses : Status → LedgerStatus × ReconciliationStatus
transfer_statuses Status.succeeded = (LedgerStatus.posted, ReconciliationStatus.matched)
transfer_statuses Status.failed = (LedgerStatus.no_posting, ReconciliationStatus.no_action)
transfer_statuses _ = (LedgerStatus.pending, ReconciliationStatus.pending)
