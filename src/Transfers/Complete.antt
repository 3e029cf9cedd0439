-- ===== src/Transfers/Complete.antt =====
-- The end of an external outbound transfer, after the provider has answered
-- (`completeExternalOutboundTransfer` of corebanking/sql_transfer_repository.go).
pub mod Final
use lenz.Prelude.{ℕ, String, Bool, true, Option, none, not, ◌&&◌, ◌||◌, ◌==◌, if◌then◌else◌}
use lenz.Prelude.Int.{eqb_ℤ}
use lenz.Prelude.Text.{trim_space}
use lenz.Model.{
  Status, LedgerStatus, ReconciliationStatus, normalize_status, is_pending, is_outbound, is_blank,
  Account, Transfer, RecordTransferInput, Error,
}
use lenz.Tx.{Store, Result, Tx, pure, fail, gets, require, fail_if, with_tx, ◌>>=◌, ◌>>◌}
use lenz.Fingerprint.{transfer_request_fingerprint}
use lenz.Policy.{enforce_transfer_controls}
use lenz.Audit.Transfers.{audit_external_outbound_transfer}
use lenz.Accounts.{LockedAccountBalance, lock_transfer_account_balances}
use lenz.Holds.{get_active_for_transfer, release}
use lenz.ProviderEvents.{link_transfer}
use lenz.Transfers.{
  get_transfer, update_transfer, unlisted_status, unlisted_provider_status, stated_provider_status,
  effective_status, ledger_outcome, given_or, narration_or,
}
use lenz.Transfers.Replay.{existing_provider_event_transfer}
use lenz.Transfers.Settle.{check_hold, post_held, reserve_event, settled_row}

-- `externalOutboundTransferStatuses`: the status, and the provider's.
unfoldable pub external_outbound_transfer_statuses : RecordTransferInput → Tx (Status × Status)
unfolding normalize_status
external_outbound_transfer_statuses input = do
  let provider_status = stated_provider_status input
  let stated = effective_status provider_status (normalize_status input.status)
  let status = if is_blank stated then provider_status else stated
  fail_if (unlisted_status status || unlisted_provider_status provider_status) Error.invalid_request
  pure (status, provider_status)

-- The `switch status`: the journal entry, if one is posted.
unfoldable pub complete_status :
    Transfer → RecordTransferInput → Account → Account → ℕ → Status → Tx (Option String)
unfolding check_hold post_held
complete_status pending input account clearing now Status.succeeded = do
  enforce_transfer_controls input account clearing
  check_hold pending input account
  post_held pending input true now
complete_status pending input account clearing now Status.failed = do
  release pending.institution_id pending.id now
  pure none
complete_status pending input account clearing now Status.pending = do
  require (← get_active_for_transfer pending.institution_id pending.id) Error.not_found
  pure none
complete_status pending input account clearing now _ = fail Error.invalid_request

-- The columns that the UPDATE sets.
abbrev pub completed_row :
    RecordTransferInput
    → Status
    → Status
    → LedgerStatus × ReconciliationStatus
    → Option String
    → ℕ
    → Transfer
    → Transfer
completed_row input status provider_status outcome journal_entry_id now t =
    let failure_reason = trim_space input.failure_reason in
    let row = settled_row input status provider_status outcome journal_entry_id now t in
    record row {
      provider_reference = narration_or input.provider_reference t.provider_reference;
      failure_reason = given_or failure_reason none;
    }

unfoldable pub link_completed : RecordTransferInput → Transfer → Tx (Unit {0})
link_completed input updated =
    if input.provider_event_id == ""
    then pure tt
    else link_transfer updated.id input.institution_id input.provider input.provider_event_id

unfoldable pub complete_reserved :
    Transfer → RecordTransferInput → LockedAccountBalance → LockedAccountBalance → ℕ → Tx Transfer
unfolding external_outbound_transfer_statuses complete_status link_completed
complete_reserved pending input locked clearing now = do
  statuses ← external_outbound_transfer_statuses input
  let status = statuses.0
  let provider_status = statuses.1
  journal_entry_id ← complete_status pending input locked.account clearing.account now status
  update_transfer pending.institution_id pending.id (
      completed_row input status provider_status
        (ledger_outcome locked input status provider_status) journal_entry_id now)
  updated ← get_transfer pending.institution_id pending.id
  link_completed input updated
  audit_external_outbound_transfer input updated locked.account clearing.account
  pure updated

-- The pending transfer is not the one that the input describes.
abbrev pub differs_outbound : Transfer → RecordTransferInput → Bool
differs_outbound pending input =
    not (is_outbound pending.direction)
    || not (pending.account_id == input.account_id)
    || not (eqb_ℤ pending.amount_minor input.amount_minor)
    || not (pending.currency_id == input.currency_id)
    || not (pending.provider == input.provider)

abbrev pub differs_in_fingerprint : Transfer → RecordTransferInput → Bool
differs_in_fingerprint pending input =
    not (input.request_fingerprint == "")
    && not (pending.request_fingerprint == "")
    && not (input.request_fingerprint == pending.request_fingerprint)

-- The part of `completeExternalOutboundTransfer` for a transfer that is still pending.
unfoldable pub complete_pending : Transfer → RecordTransferInput → Tx Transfer
unfolding complete_reserved reserve_event
complete_pending pending input = do
  locked ←
      lock_transfer_account_balances pending.institution_id pending.account_id
        input.clearing_account_id
  now ← gets (λ s. s.env.now)
  reserved ← reserve_event input pending.id now
  sha256_hex ← gets (λ s. s.env.sha256_hex)
  if reserved
      then complete_reserved pending input locked.0 locked.1 now
      else existing_provider_event_transfer input (transfer_request_fingerprint sha256_hex input)

-- `completeExternalOutboundTransfer`
unfoldable pub complete_external_outbound : String → RecordTransferInput → Tx Transfer
unfolding complete_pending
complete_external_outbound transfer_id input = do
  fail_if
      (transfer_id == ""
        || input.institution_id == ""
        || input.account_id == ""
        || input.clearing_account_id == "")
      Error.invalid_request
  pending ← get_transfer input.institution_id transfer_id
  fail_if (differs_outbound pending input) Error.conflict
  fail_if (differs_in_fingerprint pending input) Error.conflict
  if not (is_pending pending.status) then pure pending else complete_pending pending input

-- `CompleteExternalOutboundTransfer`
unfoldable pub complete_external_outbound_transfer :
    String → RecordTransferInput → Store → Result Transfer × Store
unfolding complete_external_outbound with_tx
complete_external_outbound_transfer transfer_id input =
    with_tx (complete_external_outbound (trim_space transfer_id) input)
