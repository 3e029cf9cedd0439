-- ===== src/Transfers/Requery.antt =====
-- The outcome of a requery of a pending transfer at its provider (`CompleteExternalTransferRequery`
-- and `updatePendingInboundTransferRequery` of corebanking/sql_transfer_repository.go).
use lenz.Prelude.{ℕ, String, Bool, true, false, none, not, ◌&&◌, ◌||◌, ◌==◌, if◌then◌else◌}
use lenz.Prelude.Int.{eqb_ℤ}
use lenz.Prelude.Text.{trim_space, to_lower, to_upper}
use lenz.Model.{
  Status, Direction, LedgerStatus, ReconciliationStatus, normalize_status, direction_of_text,
  direction_text, is_pending, is_unknown, is_inbound, same_direction, Transfer, RecordTransferInput,
  Error,
}
use lenz.Tx.{Store, Result, Tx, pure, fail, gets, fail_if, with_tx, ◌>>=◌, ◌>>◌}
use lenz.Policy.{transfer_statuses}
use lenz.Audit.Transfers.{ledger_internal, audit_external_inbound_transfer}
use lenz.Accounts.{lock_account_balance}
use lenz.Transfers.{get_transfer, update_transfer, given_or, narration_or}
use lenz.Transfers.Settle.{settle_pending_transfer}
use lenz.Transfers.Complete.{external_outbound_transfer_statuses, complete_external_outbound}

abbrev pub provider_unknown_failure_reason : String
provider_unknown_failure_reason = "provider_status_unknown"

-- The trimming at the head of `CompleteExternalTransferRequery`.
unfoldable pub normalize_requery : RecordTransferInput → RecordTransferInput
normalize_requery input = record input {
  institution_id = trim_space input.institution_id;
  account_id = trim_space input.account_id;
  clearing_account_id = trim_space input.clearing_account_id;
  direction = direction_of_text (to_lower (trim_space (direction_text input.direction)));
  status = normalize_status input.status;
  provider = trim_space input.provider;
  provider_reference = trim_space input.provider_reference;
  provider_status = normalize_status input.provider_status;
  currency_id = to_upper (trim_space input.currency_id);
  failure_reason = trim_space input.failure_reason;
  narration = trim_space input.narration;
}

-- `requeryableProviderStatus`
abbrev pub is_requeryable : Status → Bool
is_requeryable Status.pending = true
is_requeryable Status.provider_unknown = true
is_requeryable _ = false

abbrev pub is_ledger_pending : LedgerStatus → Bool
is_ledger_pending LedgerStatus.pending = true
is_ledger_pending _ = false

abbrev differs_inbound : Transfer → RecordTransferInput → Bool
differs_inbound pending input =
    not (is_inbound pending.direction)
    || not (pending.account_id == input.account_id)
    || not (eqb_ℤ pending.amount_minor input.amount_minor)
    || not (pending.currency_id == input.currency_id)

-- The failure reason of a pending inbound transfer after a requery.
abbrev pending_failure : RecordTransferInput → Status → String
pending_failure input provider_status =
    let reason = trim_space input.failure_reason in
    if is_unknown provider_status && reason == "" then provider_unknown_failure_reason else reason

-- The columns that the UPDATE sets.
abbrev pub requeried_row :
    RecordTransferInput
    → Status
    → LedgerStatus × ReconciliationStatus
    → String
    → ℕ
    → Transfer
    → Transfer
requeried_row input provider_status outcome reason now t = record t {
  status = Status.pending;
  provider_status = provider_status;
  ledger_status = outcome.0;
  reconciliation_status =
      if is_unknown provider_status then ReconciliationStatus.manual_review else outcome.1;
  provider_reference = input.provider_reference;
  failure_reason = given_or reason none;
  narration = narration_or input.narration t.narration;
  updated_at = now;
}

-- `updatePendingInboundTransferRequery`
unfoldable pub update_pending_inbound_requery :
    Transfer → RecordTransferInput → Status → Tx Transfer
update_pending_inbound_requery pending input provider_status = do
  fail_if (differs_inbound pending input) Error.conflict
  locked ← lock_account_balance pending.institution_id pending.account_id
  now ← gets (λ s. s.env.now)
  let outcome = transfer_statuses Status.pending
  let reason = pending_failure input provider_status
  update_transfer pending.institution_id pending.id
      (requeried_row input provider_status outcome reason now)
  updated ← get_transfer pending.institution_id pending.id
  audit_external_inbound_transfer (record input { failure_reason = reason }) updated locked.account
  pure updated

-- The requery is about another transfer.
abbrev pub differs_requery : Transfer → RecordTransferInput → Bool
differs_requery current input =
    not (current.provider == input.provider)
    || not (same_direction current.direction input.direction)
    || not (current.account_id == input.account_id)
    || not (eqb_ℤ current.amount_minor input.amount_minor)
    || not (current.currency_id == input.currency_id)

abbrev pub requery_direction :
    Direction → Transfer → RecordTransferInput → Status × Status → Tx Transfer
requery_direction Direction.outbound current input statuses =
    complete_external_outbound current.id input
requery_direction Direction.inbound current input (status, provider_status) =
    if is_pending status
    then update_pending_inbound_requery current input provider_status
    else settle_pending_transfer current input
requery_direction _ current input statuses = fail Error.invalid_request

-- The part for a transfer that is still pending.
unfoldable pub requery_pending : Transfer → RecordTransferInput → Tx Transfer
requery_pending current input = do
  fail_if
      (not (is_ledger_pending current.ledger_status)
        || not (is_requeryable current.provider_status))
      Error.invalid_request
  statuses ← external_outbound_transfer_statuses input
  requery_direction current.direction current input statuses

-- The body on the trimmed input.
unfoldable pub requery : String → RecordTransferInput → Tx Transfer
unfolding requery_pending
requery transfer_id input = do
  fail_if
      (transfer_id == ""
        || input.institution_id == ""
        || input.account_id == ""
        || input.clearing_account_id == ""
        || input.provider == ""
        || input.currency_id == "")
      Error.invalid_request
  current ← get_transfer input.institution_id transfer_id
  fail_if (current.provider == ledger_internal) Error.invalid_request
  fail_if (differs_requery current input) Error.conflict
  let reference =
      if input.provider_reference == ""
      then current.provider_reference
      else input.provider_reference
  fail_if (reference == "") Error.invalid_request
  fail_if (not (current.provider_reference == "") && not (current.provider_reference == reference))
      Error.conflict
  let named = record input { provider_reference = reference }
  if not (is_pending current.status) then pure current else requery_pending current named

-- `CompleteExternalTransferRequery`
unfoldable pub complete_external_transfer_requery :
    String → RecordTransferInput → Store → Result Transfer × Store
unfolding requery normalize_requery with_tx
complete_external_transfer_requery transfer_id input =
    with_tx (requery (trim_space transfer_id) (normalize_requery input))
