-- ===== src/Transfers/Reverse.antt =====
-- The reversal of a transfer (`ReverseTransfer` of corebanking/sql_transfer_repository.go).
pub mod Undone
use lenz.Prelude.{ℕ, String, Bool, true, false, none, some, not, ◌||◌, ◌==◌}
use lenz.Prelude.Text.{trim_space}
use lenz.Model.{
  Status, Direction, is_succeeded, is_reversal, Transfer, RecordTransferInput, ReverseTransferInput,
  Error,
}
use lenz.Tx.{Store, Result, Tx, pure, gets, fail_if, if_found, with_tx, ◌>>=◌, ◌>>◌}
use lenz.Holds.{holds_text}
use lenz.Transfers.{get_transfer, get_active_reversal_of, update_transfer, narration_or}
use lenz.Transfers.Replay.{original_counterparty_account_id}
use lenz.Transfers.Record.{record_transfer}
use Prim.Native.String.{◌++◌}

abbrev is_irreversible : Transfer → Bool
is_irreversible original =
    not (is_succeeded original.status)
    || (elim original.journal_entry_id [ none ↦ true | some _ ↦ false ])
    || is_reversal original.direction

-- Money comes back the way it went.
abbrev pub opposite : Direction → Direction
opposite Direction.outbound = Direction.inbound
opposite _ = Direction.outbound

abbrev reversal_reference : ReverseTransferInput → Transfer → String
reversal_reference input original =
    narration_or input.provider_reference
      ("reversal:" ++ narration_or original.provider_reference original.id)

-- The transfer that takes `original` back.
unfoldable pub reversal_input : ReverseTransferInput → Transfer → String → RecordTransferInput
reversal_input input original counterparty_account_id = record {
  institution_id = trim_space input.institution_id;
  account_id = original.account_id;
  clearing_account_id = counterparty_account_id;
  direction = opposite original.direction;
  status = Status.succeeded;
  amount_minor = original.amount_minor;
  currency_id = original.currency_id;
  idempotency_key = trim_space input.idempotency_key;
  provider = narration_or input.provider original.provider;
  provider_reference = reversal_reference input original;
  provider_event_id = trim_space input.provider_event_id;
  provider_status = Status.other "";
  reversal_of_transfer_id = original.id;
  request_fingerprint = "";
  failure_reason = trim_space input.failure_reason;
  narration = narration_or input.narration ("Reversal of " ++ original.id);
  reject_insufficient = false;
  require_available = false;
}

-- `SET direction = 'reversal', updated_at = …`
abbrev pub turned : ℕ → Transfer → Transfer
turned now t = record t { direction = Direction.reversal; updated_at = now }

unfoldable pub record_reversal : ReverseTransferInput → Transfer → Tx Transfer
unfolding reversal_input original_counterparty_account_id
record_reversal input original = do
  let institution_id = trim_space input.institution_id
  counterparty_account_id ← original_counterparty_account_id original
  recorded ← record_transfer (reversal_input input original counterparty_account_id)
  let transfer = recorded.0
  fail_if (not (holds_text transfer.reversal_of_transfer_id original.id)) Error.conflict
  now ← gets (λ s. s.env.now)
  update_transfer institution_id transfer.id (turned now)
  pure (record transfer { direction = Direction.reversal })

unfoldable pub reverse : ReverseTransferInput → Tx Transfer
unfolding record_reversal
reverse input = do
  let institution_id = trim_space input.institution_id
  let transfer_id = trim_space input.transfer_id
  let idempotency_key = trim_space input.idempotency_key
  fail_if (institution_id == "" || transfer_id == "" || idempotency_key == "") Error.invalid_request
  original ← get_transfer institution_id transfer_id
  fail_if (is_irreversible original) Error.invalid_request
  existing ← get_active_reversal_of institution_id original.id
  if_found existing
      (λ transfer.
        fail_if (not (transfer.idempotency_key == idempotency_key)) Error.conflict >> pure transfer)
      (record_reversal input original)

-- `ReverseTransfer`
unfoldable pub reverse_transfer : ReverseTransferInput → Store → Result Transfer × Store
unfolding reverse with_tx
reverse_transfer input = with_tx (reverse input)
