-- ===== src/Service/Money.antt =====
-- Money inside the institution (`InternalCredit`, `InternalDebit`, `InternalTransfer` and
-- `ReverseTransfer` of corebanking/service.go): what the service checks, and the transfer that it
-- then records.
pub mod Moves
use lenz.Prelude.{String, Bool, true, false, not, ◌&&◌, ◌||◌, ◌==◌, if◌then◌else◌}
use lenz.Prelude.Int.{ℤ, pos, leb_ℤ}
use lenz.Prelude.Text.{trim_space, to_upper}
use lenz.Model.{
  Status, Direction, Account, Transfer, RecordTransferInput, ReverseTransferInput,
  InternalCreditInput, InternalDebitInput, InternalTransferInput, Error,
}
use lenz.Tx.{Store, Result, Tx, pure, fail_if, ◌>>=◌, ◌>>◌}
use lenz.Accounts.{get_account, get_default_internal_settlement_account}
use lenz.Audit.Transfers.{ledger_internal}
use lenz.Transfers.{narration_or}
use lenz.Transfers.Record.{record_transfer_in_tx}
use lenz.Transfers.Reverse.{reverse_transfer}
use lenz.Service.{
  require_institution_id, checked, valid_internal_settlement_account, valid_debit_customer_account,
  valid_credit_customer_account,
}

-- `input.AmountMinor <= 0 || input.IdempotencyKey == "" || input.CurrencyID != "NGN"`
abbrev pub is_unpayable : ℤ → String → String → Bool
is_unpayable amount_minor idempotency_key currency_id =
    leb_ℤ amount_minor (pos 0) || idempotency_key == "" || not (currency_id == "NGN")

-- The settlement account that a request names, or the default one of the currency.
unfoldable pub settlement_account : String → String → String → Tx Account
settlement_account institution_id account_id currency_id = do
  account ←
      if account_id == ""
      then get_default_internal_settlement_account institution_id currency_id
      else get_account institution_id account_id
  fail_if (not (valid_internal_settlement_account account institution_id currency_id))
      Error.invalid_request
  pure account

-- A transfer inside the institution, posted at once.
abbrev pub internal_input :
    String
    → Account
    → Account
    → Direction
    → ℤ
    → String
    → String
    → String
    → String
    → RecordTransferInput
internal_input institution_id account counterparty direction amount_minor currency_id
      idempotency_key reference narration =
    record {
      institution_id = institution_id;
      account_id = account.id;
      clearing_account_id = counterparty.id;
      direction = direction;
      status = Status.succeeded;
      amount_minor = amount_minor;
      currency_id = currency_id;
      idempotency_key = idempotency_key;
      provider = ledger_internal;
      provider_reference = reference;
      provider_event_id = "";
      provider_status = Status.succeeded;
      reversal_of_transfer_id = "";
      request_fingerprint = "";
      failure_reason = "";
      narration = narration;
      reject_insufficient = false;
      require_available = false;
    }

module _ (is_uuid : String → Bool) where
  -- The checks of `InternalCredit` and the transfer that it records.
  unfoldable pub internal_credit_input : InternalCreditInput → Tx RecordTransferInput
  unfolding require_institution_id settlement_account
  internal_credit_input input = do
    institution_id ← require_institution_id input.institution_id
    let account_id = trim_space input.account_id
    let source_account_id = trim_space input.source_account_id
    let currency_id = to_upper (trim_space input.currency_id)
    let idempotency_key = trim_space input.idempotency_key
    fail_if (is_unpayable input.amount_minor idempotency_key currency_id) Error.invalid_request
    fail_if (not (is_uuid account_id)) Error.invalid_request
    fail_if (not (source_account_id == "") && not (is_uuid source_account_id)) Error.invalid_request
    account ← get_account institution_id account_id
    fail_if (not (valid_credit_customer_account account institution_id currency_id))
        Error.invalid_request
    source ← settlement_account institution_id source_account_id currency_id
    pure (
        internal_input institution_id account source Direction.inbound input.amount_minor
          currency_id idempotency_key (trim_space input.reference)
          (narration_or input.narration "Internal credit"))

  -- `InternalCredit`
  unfoldable pub internal_credit : InternalCreditInput → Store → Result Transfer × Store
  unfolding internal_credit_input checked
  internal_credit input = checked (internal_credit_input input) record_transfer_in_tx

  -- The checks of `InternalDebit` and the transfer that it records.
  unfoldable pub internal_debit_input : InternalDebitInput → Tx RecordTransferInput
  unfolding require_institution_id settlement_account
  internal_debit_input input = do
    institution_id ← require_institution_id input.institution_id
    let account_id = trim_space input.account_id
    let destination_account_id = trim_space input.destination_account_id
    let currency_id = to_upper (trim_space input.currency_id)
    let idempotency_key = trim_space input.idempotency_key
    fail_if (is_unpayable input.amount_minor idempotency_key currency_id) Error.invalid_request
    fail_if (not (is_uuid account_id)) Error.invalid_request
    fail_if (not (destination_account_id == "") && not (is_uuid destination_account_id))
        Error.invalid_request
    account ← get_account institution_id account_id
    fail_if (not (valid_debit_customer_account account institution_id currency_id))
        Error.invalid_request
    destination ← settlement_account institution_id destination_account_id currency_id
    let recorded =
        internal_input institution_id account destination Direction.outbound input.amount_minor
          currency_id idempotency_key (trim_space input.reference)
          (narration_or input.narration "Internal debit")
    pure (record recorded { reject_insufficient = true })

  -- `InternalDebit`
  unfoldable pub internal_debit : InternalDebitInput → Store → Result Transfer × Store
  unfolding internal_debit_input checked
  internal_debit input = checked (internal_debit_input input) record_transfer_in_tx

  -- The checks of `InternalTransfer` and the transfer that it records.
  unfoldable pub internal_transfer_input : InternalTransferInput → Tx RecordTransferInput
  unfolding require_institution_id
  internal_transfer_input input = do
    institution_id ← require_institution_id input.institution_id
    let source_account_id = trim_space input.source_account_id
    let destination_account_id = trim_space input.destination_account_id
    let currency_id = to_upper (trim_space input.currency_id)
    let idempotency_key = trim_space input.idempotency_key
    fail_if (is_unpayable input.amount_minor idempotency_key currency_id) Error.invalid_request
    fail_if (not (is_uuid source_account_id)) Error.invalid_request
    fail_if (not (is_uuid destination_account_id)) Error.invalid_request
    fail_if (source_account_id == destination_account_id) Error.invalid_request
    source ← get_account institution_id source_account_id
    destination ← get_account institution_id destination_account_id
    fail_if
        (not (valid_debit_customer_account source institution_id currency_id)
          || not (valid_credit_customer_account destination institution_id currency_id))
        Error.invalid_request
    let recorded =
        internal_input institution_id source destination Direction.outbound input.amount_minor
          currency_id idempotency_key (trim_space input.reference)
          (narration_or input.narration "Internal transfer")
    pure (record recorded { reject_insufficient = true; require_available = true })

  -- `InternalTransfer`
  unfoldable pub internal_transfer : InternalTransferInput → Store → Result Transfer × Store
  unfolding internal_transfer_input checked
  internal_transfer input = checked (internal_transfer_input input) record_transfer_in_tx

  -- The checks of `ReverseTransfer` of the service.
  unfoldable pub reverse_request : String → String → String → Tx ReverseTransferInput
  unfolding require_institution_id
  reverse_request institution_id transfer_id idempotency_key = do
    fail_if (trim_space idempotency_key == "") Error.invalid_request
    institution ← require_institution_id institution_id
    fail_if (not (is_uuid (trim_space transfer_id))) Error.invalid_request
    pure (record {
      institution_id = institution;
      transfer_id = trim_space transfer_id;
      idempotency_key = trim_space idempotency_key;
      provider = "";
      provider_reference = "";
      provider_event_id = "";
      failure_reason = "";
      narration = "";
    })

  -- `ReverseTransfer` of the service
  unfoldable pub request_reversal : String → String → String → Store → Result Transfer × Store
  unfolding reverse_request checked
  request_reversal institution_id transfer_id idempotency_key =
      checked (reverse_request institution_id transfer_id idempotency_key) reverse_transfer
