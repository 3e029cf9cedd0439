-- ===== src/Service/External/Outbound.antt =====
-- Money that goes to another bank: the intent is recorded and its money held, the provider is asked,
-- and its answer ends the transfer (`ExternalOutboundTransfer` of corebanking/service_external.go).
use lenz.Prelude.{String, Bool, true, List, [], ◌∷◌, if◌then◌else◌}
use lenz.Prelude.Int.{pos}
use lenz.Model.{
  Status, Direction, Transfer, RecordTransferInput, ExternalOutboundTransferInput,
  ExternalOutboundTransferResult, ProviderTransferRequest,
}
use lenz.Tx.{gets}
use lenz.Fingerprint.{external_outbound_transfer_request_fingerprint}
use lenz.Accounts.{get_default_internal_settlement_account}
use lenz.Transfers.Record.{begin_external_outbound_transfer}
use lenz.Transfers.Complete.{complete_external_outbound_transfer}
use lenz.Provider.{TransferProvider, first_non_blank}
use lenz.Service.Action.{Action, done, query, call, attempt, transact, ◌>>=◌}
use lenz.Service.External.{hold_id_of, answer_of, provider_of}
use lenz.Service.External.Inputs.{
  normalize_external_outbound_transfer_input, external_outbound_completion_input,
}

-- `externalOutboundTransferResult`
unfoldable pub external_outbound_transfer_result :
    {S : Type 0} → Transfer → Action S ExternalOutboundTransferResult
unfolding hold_id_of
external_outbound_transfer_result transfer = do
  hold_id ← query (hold_id_of transfer)
  done (record {
    transfer_id = transfer.id;
    source_account_id = transfer.account_id;
    provider = transfer.provider;
    provider_reference = transfer.provider_reference;
    provider_status = transfer.provider_status;
    ledger_status = transfer.ledger_status;
    reconciliation_status = transfer.reconciliation_status;
    status = transfer.status;
    amount_minor = transfer.amount_minor;
    currency_id = transfer.currency_id;
    journal_entry_id = transfer.journal_entry_id;
    hold_id = hold_id;
    created_at = transfer.created_at;
  })

-- The reference that the provider is given.
abbrev pub outbound_reference : ExternalOutboundTransferInput → String
outbound_reference input = first_non_blank (input.reference ∷ input.idempotency_key ∷ [])

-- The intent: a pending transfer that is refused if the money is not there.
abbrev pub intent_input :
    (String → String) → ExternalOutboundTransferInput → String → RecordTransferInput
intent_input sha256_hex input clearing_account_id = record {
  institution_id = input.institution_id;
  account_id = input.source_account_id;
  clearing_account_id = clearing_account_id;
  direction = Direction.outbound;
  status = Status.pending;
  amount_minor = input.amount_minor;
  currency_id = input.currency_id;
  idempotency_key = input.idempotency_key;
  provider = input.provider;
  provider_reference = outbound_reference input;
  provider_event_id = "";
  provider_status = Status.pending;
  reversal_of_transfer_id = "";
  request_fingerprint = external_outbound_transfer_request_fingerprint sha256_hex input;
  failure_reason = "";
  narration = input.narration;
  reject_insufficient = true;
  require_available = true;
}

abbrev pub outbound_request : ExternalOutboundTransferInput → ProviderTransferRequest
outbound_request input = record {
  institution_id = input.institution_id;
  account_id = input.source_account_id;
  destination_institution_code = input.destination_institution_code;
  destination_account_number = input.destination_account_number;
  destination_account_name = input.destination_account_name;
  amount_minor = input.amount_minor;
  currency_id = input.currency_id;
  idempotency_key = input.idempotency_key;
  provider_reference = outbound_reference input;
  provider_event_id = "";
  status = Status.other "";
  failure_reason = "";
  narration = input.narration;
  scenario = input.scenario;
  delay_seconds = pos 0;
}

-- The provider is asked, and its answer completes the transfer that was recorded.
unfoldable pub ask_and_complete :
    {S Payload : Type 0}
    → TransferProvider S Payload
    → Transfer
    → RecordTransferInput
    → ProviderTransferRequest
    → Action S Transfer
unfolding answer_of external_outbound_completion_input
ask_and_complete provider intent intent_in request = do
  answer ← attempt (call (provider.initiate_transfer request))
  let result = answer_of provider.name request answer
  transact (
      complete_external_outbound_transfer intent.id
        (external_outbound_completion_input intent_in result))

module _ {S Payload : Type 0} (is_uuid : String → Bool)
    (providers : List (String × TransferProvider S Payload)) where
  -- `ExternalOutboundTransfer`
  unfoldable pub external_outbound_transfer :
      ExternalOutboundTransferInput → Action S ExternalOutboundTransferResult
  unfolding normalize_external_outbound_transfer_input provider_of first_non_blank
      external_outbound_transfer_request_fingerprint ask_and_complete
      external_outbound_transfer_result
  external_outbound_transfer given = do
    input ← query (normalize_external_outbound_transfer_input is_uuid given)
    provider ← provider_of providers input.provider
    clearing ←
        query (get_default_internal_settlement_account input.institution_id input.currency_id)
    sha256_hex ← query (gets (λ s. s.env.sha256_hex))
    let intent_in = intent_input sha256_hex input clearing.id
    begun ← transact (begin_external_outbound_transfer intent_in)
    let intent = begun.0
    if begun.1
        then (ask_and_complete provider intent intent_in (outbound_request input)
            >>= external_outbound_transfer_result)
        else external_outbound_transfer_result intent
