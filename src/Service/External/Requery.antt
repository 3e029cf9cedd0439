-- ===== src/Service/External/Requery.antt =====
-- A pending transfer whose outcome is asked of the provider again (`ExternalTransferRequery` of
-- corebanking/service_external.go).
use lenz.Prelude.{String, Bool, true, Option, none, some, List, not, ◌||◌, ◌==◌, if◌then◌else◌}
use lenz.Prelude.Int.{pos}
use lenz.Model.{
  Status, is_pending, Transfer, ExternalTransferRequeryInput, ExternalTransferRequeryResult,
  ProviderTransferResult, Error,
}
use lenz.Tx.{Result, ok, err}
use lenz.Audit.Transfers.{ledger_internal}
use lenz.Accounts.{get_default_internal_settlement_account}
use lenz.Transfers.{get_transfer}
use lenz.Transfers.Requery.{is_ledger_pending, is_requeryable, complete_external_transfer_requery}
use lenz.Provider.{
  TransferProvider, provider_transfer_status_unknown, provider_unknown_transfer_result,
}
use lenz.Service.Action.{Action, done, stop, stop_if, query, call, attempt, transact, ◌>>=◌, ◌>>◌}
use lenz.Service.External.{hold_id_of, provider_of}
use lenz.Service.External.Inputs.{
  normalize_external_transfer_requery_input, requery_provider_reference,
  external_transfer_requery_completion_input,
}

-- `externalTransferRequeryResult`
unfoldable pub external_transfer_requery_result :
    {S : Type 0} → Transfer → String → Action S ExternalTransferRequeryResult
unfolding hold_id_of
external_transfer_requery_result transfer message = do
  hold_id ← query (hold_id_of transfer)
  done (record {
    transfer_id = transfer.id;
    account_id = transfer.account_id;
    direction = transfer.direction;
    provider = transfer.provider;
    provider_reference = transfer.provider_reference;
    provider_status = transfer.provider_status;
    ledger_status = transfer.ledger_status;
    reconciliation_status = transfer.reconciliation_status;
    status = transfer.status;
    amount_minor = transfer.amount_minor;
    currency_id = transfer.currency_id;
    journal_entry_id = transfer.journal_entry_id;
    hold_id = hold_id;
    message = message;
    created_at = transfer.created_at;
  })

-- `providerRequeryStatusUnknown`
unfoldable pub provider_requery_status_unknown : Error → Bool
unfolding provider_transfer_status_unknown
provider_requery_status_unknown Error.provider_unavailable = true
provider_requery_status_unknown e = provider_transfer_status_unknown e

-- `providerUnknownRequeryResult`, of the provider of that name.
unfoldable pub provider_unknown_requery_result :
    String → Transfer → String → String → ProviderTransferResult
unfolding provider_unknown_transfer_result
provider_unknown_requery_result name transfer provider_reference narration =
    provider_unknown_transfer_result name (record {
      institution_id = transfer.institution_id;
      account_id = transfer.account_id;
      destination_institution_code = "";
      destination_account_number = "";
      destination_account_name = "";
      amount_minor = transfer.amount_minor;
      currency_id = transfer.currency_id;
      idempotency_key = transfer.idempotency_key;
      provider_reference = provider_reference;
      provider_event_id = "";
      status = Status.other "";
      failure_reason = "";
      narration = narration;
      scenario = "";
      delay_seconds = pos 0;
    })

-- The message of a requery: that of the answer while the transfer is pending, that of its end else.
abbrev pub requery_outcome_message : Status → String → String
requery_outcome_message Status.pending message = message
requery_outcome_message Status.succeeded message = "requery_succeeded"
requery_outcome_message Status.failed message = "requery_failed"
requery_outcome_message _ message = "already_final"

-- The provider's answer, or the one that stands for an unknown outcome.
unfoldable pub requery_answer :
    {S : Type 0}
    → String
    → Transfer
    → String
    → String
    → Result (Option ProviderTransferResult)
    → Action S ProviderTransferResult
unfolding provider_requery_status_unknown provider_unknown_requery_result
requery_answer name transfer reference note (ok (some result)) = done result
requery_answer name transfer reference note (ok none) =
    done (provider_unknown_requery_result name transfer reference note)
requery_answer name transfer reference note (err e) =
    if provider_requery_status_unknown e
    then done (provider_unknown_requery_result name transfer reference note)
    else stop e

module _ {S Payload : Type 0} where
  -- `applyMockRequeryScenario`
  unfoldable pub apply_mock_requery_scenario :
      TransferProvider S Payload → String → String → Action S (Unit {0})
  apply_mock_requery_scenario provider provider_reference scenario =
      if scenario == "" then done tt else elim provider.set_requery_scenario [
        | none ↦ stop Error.invalid_request
        | some set_scenario ↦ call (set_scenario provider_reference scenario)
      ]

  -- The provider is asked, and its answer ends the transfer or keeps it pending.
  unfoldable pub ask_again :
      List (String × TransferProvider S Payload)
      → ExternalTransferRequeryInput
      → Transfer
      → Action S ExternalTransferRequeryResult
  unfolding requery_provider_reference provider_of apply_mock_requery_scenario requery_answer
      external_transfer_requery_completion_input external_transfer_requery_result
  ask_again providers input transfer = do
    reference ← query (requery_provider_reference transfer input.provider_reference)
    provider ← provider_of providers transfer.provider
    apply_mock_requery_scenario provider reference input.scenario
    answered ← attempt (call (provider.requery_transfer reference))
    result ← requery_answer provider.name transfer reference input.note answered
    clearing ←
        query (get_default_internal_settlement_account transfer.institution_id transfer.currency_id)
    completion ← query (
        external_transfer_requery_completion_input transfer clearing.id reference input.note result)
    completed ← transact (complete_external_transfer_requery transfer.id completion.0)
    external_transfer_requery_result completed
        (requery_outcome_message completed.status completion.1)

module _ {S Payload : Type 0} (is_uuid : String → Bool)
    (providers : List (String × TransferProvider S Payload)) where
  -- `ExternalTransferRequery`
  unfoldable pub external_transfer_requery :
      ExternalTransferRequeryInput → Action S ExternalTransferRequeryResult
  unfolding normalize_external_transfer_requery_input external_transfer_requery_result ask_again
  external_transfer_requery given = do
    input ← query (normalize_external_transfer_requery_input is_uuid given)
    transfer ← query (get_transfer input.institution_id input.transfer_id)
    stop_if (transfer.provider == ledger_internal) Error.invalid_request
    if not (is_pending transfer.status)
        then external_transfer_requery_result transfer "already_final"
        else (stop_if
              (not (is_ledger_pending transfer.ledger_status)
                || not (is_requeryable transfer.provider_status))
              Error.invalid_request
            >> ask_again providers input transfer)
