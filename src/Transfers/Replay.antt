-- ===== src/Transfers/Replay.antt =====
-- Whether a request was recorded before: by its idempotency key, or by the provider's event
-- (the first part of `recordTransfer`, and the helpers that it calls, in
-- corebanking/sql_transfer_repository.go).
use lenz.Prelude.{
  String, Bool, true, false, Option, none, some, List, [], ◌∷◌, not, ◌&&◌, ◌||◌, ◌==◌,
  if◌then◌else◌,
}
use lenz.Prelude.Int.{eqb_ℤ}
use lenz.Prelude.Text.{trim_space}
use lenz.Prelude.Table.{select}
use lenz.Model.{same_direction, Transfer, Posting, RecordTransferInput, Error}
use lenz.Tx.{Tx, pure, fail, gets, require, fail_if, if_found, ◌>>=◌, ◌>>◌}
use lenz.Fingerprint.{transfer_request_fingerprint_matches}
use lenz.Audit.{optional_audit_value}
use lenz.ProviderEvents.{payload_matches, get_transfer_of_event}
use lenz.Transfers.{get_transfer_by_idempotency}

abbrev is_counter_posting : Transfer → String → Posting → Bool
is_counter_posting original journal_id p =
    p.institution_id == original.institution_id
    && p.journal_entry_id == journal_id
    && not (p.account_id == original.account_id)

abbrev pub only_account_id : List Posting → Tx String
only_account_id (p ∷ []) = pure p.account_id
only_account_id _ = fail Error.data_integrity

-- `originalCounterpartyAccountID`
unfoldable pub original_counterparty_account_id : Transfer → Tx String
original_counterparty_account_id original =
    if_found original.journal_entry_id
      (λ journal_id.
        gets (λ s. select (is_counter_posting original journal_id) s.postings) >>= only_account_id)
      (fail Error.invalid_request)

-- `sameTransferReplayFields`
unfoldable pub same_transfer_replay_fields : Transfer → RecordTransferInput → Bool
same_transfer_replay_fields transfer input =
    transfer.institution_id == input.institution_id
    && transfer.provider == input.provider
    && transfer.provider_reference == input.provider_reference
    && same_direction transfer.direction input.direction
    && transfer.account_id == input.account_id
    && eqb_ℤ transfer.amount_minor input.amount_minor
    && transfer.currency_id == input.currency_id
    && optional_audit_value transfer.reversal_of_transfer_id == input.reversal_of_transfer_id

abbrev is_none : Option String → Bool
is_none none = true
is_none (some _) = false

-- `sameTransferReplayByFields`
unfoldable pub same_transfer_replay_by_fields : Transfer → RecordTransferInput → Tx Bool
unfolding same_transfer_replay_fields original_counterparty_account_id
same_transfer_replay_by_fields transfer input =
    if not (same_transfer_replay_fields transfer input)
    then pure false
    else if is_none transfer.journal_entry_id || input.clearing_account_id == ""
    then pure false
    else do
      counterparty ← original_counterparty_account_id transfer
      pure (counterparty == input.clearing_account_id)

-- `sameTransferReplay`
unfoldable pub same_transfer_replay : Transfer → RecordTransferInput → String → Tx Bool
unfolding same_transfer_replay_by_fields
same_transfer_replay transfer input request_fingerprint =
    if transfer_request_fingerprint_matches transfer request_fingerprint
    then pure true
    else if not (trim_space transfer.request_fingerprint == "")
    then pure false
    else same_transfer_replay_by_fields transfer input

-- The transfer, if the request for it was the same.
unfoldable pub accept_replay : Bool → Transfer → Tx (Option Transfer)
accept_replay same transfer = do fail_if (not same) Error.conflict; pure (some transfer)

unfoldable pub find_event_replay : RecordTransferInput → String → Tx (Option Transfer)
unfolding accept_replay
find_event_replay input request_fingerprint = do
  existing ← get_transfer_of_event input.institution_id input.provider input.provider_event_id
  if_found existing
      (λ transfer.
        payload_matches input request_fingerprint >>= λ same. accept_replay same transfer)
      (pure none)

unfoldable pub find_replay : RecordTransferInput → String → Tx (Option Transfer)
unfolding accept_replay find_event_replay
find_replay input request_fingerprint = do
  existing ← get_transfer_by_idempotency input.institution_id input.idempotency_key
  if_found existing
      (λ transfer. same_transfer_replay transfer input request_fingerprint >>= λ same.
        accept_replay same transfer)
      (if input.provider_event_id == ""
        then pure none
        else find_event_replay input request_fingerprint)

-- `existingProviderEventTransfer`
unfoldable pub existing_provider_event_transfer : RecordTransferInput → String → Tx Transfer
existing_provider_event_transfer input request_fingerprint = do
  fail_if (not (← payload_matches input request_fingerprint)) Error.conflict
  require (← get_transfer_of_event input.institution_id input.provider input.provider_event_id)
      Error.conflict
