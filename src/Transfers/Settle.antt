-- ===== src/Transfers/Settle.antt =====
-- The end of a pending transfer that a settled event names by its provider reference
-- (`settlePendingTransfer` of corebanking/sql_transfer_repository.go).
use lenz.Prelude.{
  ℕ, String, Bool, true, false, Option, none, some, not, ◌&&◌, ◌||◌, ◌==◌, if◌then◌else◌,
}
use lenz.Prelude.Int.{eqb_ℤ}
use lenz.Model.{
  Status, LedgerStatus, ReconciliationStatus, is_outbound, same_direction, Account, Transfer,
  RecordTransferInput, Error,
}
use lenz.Tx.{Tx, pure, fail, gets, require, fail_if, ◌>>=◌, ◌>>◌}
use lenz.Fingerprint.{transfer_request_fingerprint}
use lenz.Policy.{enforce_transfer_controls, customer_initiated_outbound}
use lenz.Audit.Transfers.{audit_posted_internal_transfer, audit_external_inbound_transfer}
use lenz.Accounts.{LockedAccountBalance, lock_transfer_account_balances}
use lenz.Ledger.{post_journal}
use lenz.Holds.{get_active_for_transfer, consume, release}
use lenz.ProviderEvents.{reserve}
use lenz.Transfers.{
  get_transfer, update_transfer, stated_provider_status, effective_status, ledger_outcome, given_or,
  narration_or,
}
use lenz.Transfers.Replay.{existing_provider_event_transfer}

-- The pending transfer is a customer's, so money is on hold for it.
abbrev pub is_held_outbound : Transfer → Bool
is_held_outbound pending =
    is_outbound pending.direction
    && (elim pending.reversal_of_transfer_id [ none ↦ true | some _ ↦ false ])

-- The check of the hold before a posting.
unfoldable pub check_hold : Transfer → RecordTransferInput → Account → Tx (Unit {0})
check_hold pending input account =
    if customer_initiated_outbound input && not account.allow_negative
    then (get_active_for_transfer pending.institution_id pending.id >>= λ found.
        require found Error.not_found >>= λ _. pure tt)
    else pure tt

-- The journal is posted; where money was on hold, the hold is used up and the available balance
-- stays as it is.
unfoldable pub post_held : Transfer → RecordTransferInput → Bool → ℕ → Tx (Option String)
post_held pending input held now =
    if held
    then (post_journal input pending.id now pending.account_id >>= λ journal_id.
        consume pending.institution_id pending.id now >> pure (some journal_id))
    else (post_journal input pending.id now "" >>= λ journal_id. pure (some journal_id))

-- The `switch status`: the journal entry, if one is posted.
unfoldable pub settle_status :
    Transfer → RecordTransferInput → Account → Account → ℕ → Status → Tx (Option String)
unfolding check_hold post_held
settle_status pending input account clearing now Status.succeeded = do
  enforce_transfer_controls input account clearing
  check_hold pending input account
  post_held pending input (is_held_outbound pending) now
settle_status pending input account clearing now Status.failed =
    if is_held_outbound pending
    then (release pending.institution_id pending.id now >> pure none)
    else pure none
settle_status pending input account clearing now _ = fail Error.invalid_request

-- The columns that the UPDATE sets.
abbrev pub settled_row :
    RecordTransferInput
    → Status
    → Status
    → LedgerStatus × ReconciliationStatus
    → Option String
    → ℕ
    → Transfer
    → Transfer
settled_row input status provider_status outcome journal_entry_id now t =
    let (ledger_status, reconciliation_status) = outcome in
    record t {
      status = status;
      provider_status = provider_status;
      ledger_status = ledger_status;
      reconciliation_status = reconciliation_status;
      provider_event_id = given_or input.provider_event_id t.provider_event_id;
      journal_entry_id = journal_entry_id;
      failure_reason = given_or input.failure_reason none;
      narration = narration_or input.narration t.narration;
      updated_at = now;
    }

unfoldable pub settle_reserved :
    Transfer → RecordTransferInput → LockedAccountBalance → LockedAccountBalance → ℕ → Tx Transfer
unfolding settle_status
settle_reserved pending input locked clearing now = do
  let provider_status = stated_provider_status input
  let status = effective_status provider_status input.status
  journal_entry_id ← settle_status pending input locked.account clearing.account now status
  update_transfer pending.institution_id pending.id (
      settled_row input status provider_status (ledger_outcome locked input status provider_status)
        journal_entry_id now)
  updated ← get_transfer pending.institution_id pending.id
  audit_posted_internal_transfer input updated locked.account clearing.account
  audit_external_inbound_transfer input updated locked.account
  pure updated

-- The pending transfer is not the one that the input describes.
abbrev pub differs : Transfer → RecordTransferInput → Bool
differs pending input =
    not (same_direction pending.direction input.direction)
    || not (pending.account_id == input.account_id)
    || not (eqb_ℤ pending.amount_minor input.amount_minor)
    || not (pending.currency_id == input.currency_id)

-- Reserves the provider's event, where there is one.
unfoldable pub reserve_event : RecordTransferInput → String → ℕ → Tx Bool
reserve_event input transfer_id now =
    if input.provider_event_id == "" then pure true else reserve input transfer_id now

-- `settlePendingTransfer`
unfoldable pub settle_pending_transfer : Transfer → RecordTransferInput → Tx Transfer
unfolding settle_reserved reserve_event
settle_pending_transfer pending input = do
  fail_if (differs pending input) Error.conflict
  locked ←
      lock_transfer_account_balances pending.institution_id pending.account_id
        input.clearing_account_id
  now ← gets (λ s. s.env.now)
  reserved ← reserve_event input pending.id now
  sha256_hex ← gets (λ s. s.env.sha256_hex)
  if reserved
      then settle_reserved pending input locked.0 locked.1 now
      else existing_provider_event_transfer input (transfer_request_fingerprint sha256_hex input)
