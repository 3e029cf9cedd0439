-- ===== src/Transfers/Record.antt =====
-- A transfer is recorded (`recordTransfer` of corebanking/sql_transfer_repository.go, and
-- `RecordTransfer` and `BeginExternalOutboundTransfer`, which run it in a transaction).
pub mod New
pub mod Covered
pub mod Moves
pub mod Repeated
use lenz.Prelude.{
  ℕ, String, Bool, true, false, Option, none, some, not, ◌&&◌, ◌||◌, ◌==◌, if◌then◌else◌,
}
use lenz.Prelude.Int.{ltb_ℤ}
use lenz.Model.{Status, is_pending, is_succeeded, is_outbound, Transfer, RecordTransferInput, Error}
use lenz.Tx.{Store, Result, Tx, pure, gets, fail_if, if_found, new_id, with_tx, ◌>>=◌, ◌>>◌}
use lenz.Fingerprint.{transfer_request_fingerprint}
use lenz.Policy.{enforce_transfer_controls, customer_initiated_outbound, can_use_available_balance}
use lenz.Audit.Transfers.{audit_posted_internal_transfer, audit_external_inbound_transfer}
use lenz.Accounts.{LockedAccountBalance, lock_transfer_account_balances}
use lenz.Ledger.{post_journal}
use lenz.Holds
use lenz.ProviderEvents.{optional, link_transfer}
use lenz.Transfers.{
  insert_transfer, get_pending_transfer_by_provider_reference,
  get_settled_transfer_by_provider_reference, stated_provider_status, effective_status,
  ledger_outcome,
}
use lenz.Transfers.Replay.{
  find_replay, same_transfer_replay_by_fields, existing_provider_event_transfer,
}
use lenz.Transfers.Settle.{settle_pending_transfer, reserve_event}

-- Too little money is available for an outbound transfer of the customer.
unfoldable pub is_insufficient : RecordTransferInput → LockedAccountBalance → Bool
is_insufficient input locked =
    customer_initiated_outbound input
    && (not (
          can_use_available_balance locked.account locked.balance.available_minor
            input.amount_minor)
        || (input.require_available && ltb_ℤ locked.balance.available_minor input.amount_minor))

-- The row of a new transfer.
abbrev pub new_transfer :
    RecordTransferInput
    → LockedAccountBalance
    → String
    → String
    → Status
    → Status
    → Bool
    → Option String
    → ℕ
    → Transfer
new_transfer input locked id request_fingerprint status provider_status insufficient
      journal_entry_id now =
    let (ledger_status, reconciliation_status) =
      ledger_outcome locked input status provider_status in
    record {
      id = id;
      institution_id = input.institution_id;
      account_id = input.account_id;
      direction = input.direction;
      status = status;
      provider_status = provider_status;
      ledger_status = ledger_status;
      reconciliation_status = reconciliation_status;
      amount_minor = input.amount_minor;
      currency_id = input.currency_id;
      idempotency_key = input.idempotency_key;
      provider = input.provider;
      provider_reference = input.provider_reference;
      provider_event_id = optional input.provider_event_id;
      journal_entry_id = journal_entry_id;
      reversal_of_transfer_id = optional input.reversal_of_transfer_id;
      request_fingerprint = request_fingerprint;
      failure_reason =
          if insufficient then some "insufficient_funds" else optional input.failure_reason;
      narration = input.narration;
      created_at = now;
      updated_at = now;
      review_status = none;
      review_note = none;
      reviewed_at = none;
      reviewed_by = none;
    }

-- A succeeded transfer is posted at once.
unfoldable pub post_if_succeeded : RecordTransferInput → String → ℕ → Status → Tx (Option String)
post_if_succeeded input transfer_id now status =
    if is_succeeded status
    then (post_journal input transfer_id now "" >>= λ journal_id. pure (some journal_id))
    else pure none

-- A pending outbound transfer puts its money on hold.
unfoldable pub hold_if_pending : RecordTransferInput → Transfer → ℕ → Tx (Unit {0})
hold_if_pending input transfer now =
    if is_pending transfer.status
      && is_outbound input.direction
      && input.reversal_of_transfer_id == ""
    then Holds.create transfer now
    else pure tt

unfoldable pub link_if_event : RecordTransferInput → Transfer → Tx (Unit {0})
link_if_event input transfer =
    if input.provider_event_id == ""
    then pure tt
    else link_transfer transfer.id input.institution_id input.provider input.provider_event_id

-- The writes for a transfer whose statuses are decided.
unfoldable pub write_transfer :
    RecordTransferInput
    → String
    → LockedAccountBalance
    → LockedAccountBalance
    → String
    → Status
    → Status
    → Bool
    → ℕ
    → Tx Transfer
unfolding post_if_succeeded hold_if_pending link_if_event
write_transfer input request_fingerprint locked clearing id status provider_status insufficient
      now =
    do
      journal_entry_id ← post_if_succeeded input id now status
      let transfer =
          new_transfer input locked id request_fingerprint status provider_status insufficient
            journal_entry_id now
      insert_transfer transfer
      hold_if_pending input transfer now
      link_if_event input transfer
      audit_posted_internal_transfer input transfer locked.account clearing.account
      audit_external_inbound_transfer input transfer locked.account
      pure transfer

-- The part of `recordTransfer` from the locks on: a transfer that was not recorded before.
unfoldable pub record_new : RecordTransferInput → String → Tx (Transfer × Bool)
unfolding write_transfer is_insufficient reserve_event
record_new input request_fingerprint = do
  accounts ←
      lock_transfer_account_balances input.institution_id input.account_id input.clearing_account_id
  let locked = accounts.0
  let clearing = accounts.1
  enforce_transfer_controls input locked.account clearing.account
  let provider_status = stated_provider_status input
  let insufficient = is_insufficient input locked
  fail_if (insufficient && input.reject_insufficient) Error.insufficient
  let status = if insufficient then Status.failed else effective_status provider_status input.status
  id ← new_id
  now ← gets (λ s. s.env.now)
  reserved ← reserve_event input "" now
  if reserved
      then (write_transfer input request_fingerprint locked clearing id status provider_status
            insufficient now
          >>= λ transfer. pure (transfer, true))
      else (existing_provider_event_transfer input request_fingerprint >>= λ transfer.
          pure (transfer, false))

-- The transfer of the same provider reference that is settled already, or a new one.
unfoldable pub record_settled : RecordTransferInput → String → Tx (Transfer × Bool)
unfolding record_new
record_settled input request_fingerprint = do
  settled ←
      get_settled_transfer_by_provider_reference input.institution_id input.provider
        input.provider_reference input.direction
  if_found settled
      (λ transfer. same_transfer_replay_by_fields transfer input >>= λ same.
        fail_if (not same) Error.conflict >> pure (transfer, false))
      (record_new input request_fingerprint)

-- A settled outcome ends the pending transfer of the same provider reference, if there is one.
unfoldable pub record_by_reference : RecordTransferInput → String → Tx (Transfer × Bool)
unfolding record_settled record_new
record_by_reference input request_fingerprint =
    if not (input.provider_reference == "") && not (is_pending input.status)
    then (get_pending_transfer_by_provider_reference input.institution_id input.provider
          input.provider_reference input.direction
        >>= λ pending.
            if_found pending
              (λ transfer.
                settle_pending_transfer transfer input >>= λ settled. pure (settled, false))
              (record_settled input request_fingerprint))
    else record_new input request_fingerprint

-- `recordTransfer`: the transfer, and whether it is new.
unfoldable pub record_transfer : RecordTransferInput → Tx (Transfer × Bool)
unfolding record_by_reference
record_transfer input = do
  sha256_hex ← gets (λ s. s.env.sha256_hex)
  let request_fingerprint = transfer_request_fingerprint sha256_hex input
  replay ← find_replay input request_fingerprint
  if_found replay (λ transfer. pure (transfer, false))
      (record_by_reference input request_fingerprint)

-- `BeginExternalOutboundTransfer`
unfoldable pub begin_external_outbound_transfer :
    RecordTransferInput → Store → Result (Transfer × Bool) × Store
unfolding record_transfer with_tx
begin_external_outbound_transfer input = with_tx (record_transfer input)

-- `RecordTransfer`
unfoldable pub record_transfer_in_tx : RecordTransferInput → Store → Result Transfer × Store
unfolding record_transfer with_tx
record_transfer_in_tx input = with_tx (record_transfer input >>= λ recorded. pure recorded.0)
