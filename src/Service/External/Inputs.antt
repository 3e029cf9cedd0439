-- ===== src/Service/External/Inputs.antt =====
-- What the service makes of a request for money between banks, and of a provider's answer, before
-- the repository sees it (corebanking/service_external.go).
use lenz.Prelude.{String, Bool, false, [], ◌∷◌, not, ◌&&◌, ◌||◌, ◌==◌, if◌then◌else◌}
use lenz.Prelude.Int.{pos, leb_ℤ}
use lenz.Prelude.Text.{trim_space, to_lower, to_upper}
use lenz.Model.{
  Status, normalize_status, status_text, is_blank, is_unknown, is_succeeded, is_failed, Transfer,
  RecordTransferInput, ExternalOutboundTransferInput, ExternalTransferRequeryInput,
  ProviderTransferResult, Error,
}
use lenz.Tx.{Tx, pure, fail_if, ◌>>=◌, ◌>>◌}
use lenz.Transfers.{unlisted_status, unlisted_provider_status}
use lenz.Provider.{first_non_blank, is_ten_digit_account_number, provider_unknown_failure_reason}
use lenz.Provider.MockNip.{mock_nip}
use lenz.Service.{require_institution_id}

-- The text, or the default where it is empty.
abbrev pub text_or : String → String → String
text_or text default = if text == "" then default else text

-- `validExternalOutboundScenario` and `validExternalRequeryScenario`
unfoldable pub valid_external_scenario : String → Bool
valid_external_scenario scenario =
    scenario == ""
    || scenario == "success"
    || scenario == "failed"
    || scenario == "pending"
    || scenario == "timeout"
    || scenario == "provider_unknown"

module _ (is_uuid : String → Bool) where
  -- `normalizeExternalOutboundTransferInput`
  unfoldable pub normalize_external_outbound_transfer_input :
      ExternalOutboundTransferInput → Tx ExternalOutboundTransferInput
  unfolding require_institution_id first_non_blank is_ten_digit_account_number
      valid_external_scenario
  normalize_external_outbound_transfer_input input = do
    institution_id ← require_institution_id input.institution_id
    let normalized = record input {
      institution_id = institution_id;
      source_account_id = trim_space input.source_account_id;
      destination_institution_code =
          first_non_blank (input.destination_institution_code ∷ input.bank_code ∷ []);
      destination_account_number = trim_space input.destination_account_number;
      destination_account_name = trim_space input.destination_account_name;
      currency_id = text_or (to_upper (trim_space input.currency_id)) "NGN";
      idempotency_key = trim_space input.idempotency_key;
      provider = text_or (trim_space input.provider) mock_nip;
      narration = text_or (trim_space input.narration) "External outbound transfer";
      reference = trim_space input.reference;
      scenario = to_lower (trim_space input.scenario);
    }
    fail_if (not (is_uuid normalized.source_account_id)) Error.invalid_request
    fail_if
        (leb_ℤ normalized.amount_minor (pos 0)
          || not (normalized.currency_id == "NGN")
          || normalized.idempotency_key == ""
          || normalized.destination_institution_code == ""
          || not (is_ten_digit_account_number normalized.destination_account_number)
          || not (valid_external_scenario normalized.scenario))
        Error.invalid_request
    pure normalized

  -- `normalizeExternalTransferRequeryInput`
  unfoldable pub normalize_external_transfer_requery_input :
      ExternalTransferRequeryInput → Tx ExternalTransferRequeryInput
  unfolding require_institution_id valid_external_scenario
  normalize_external_transfer_requery_input input = do
    institution_id ← require_institution_id input.institution_id
    let normalized : ExternalTransferRequeryInput = record {
      institution_id = institution_id;
      transfer_id = trim_space input.transfer_id;
      provider_reference = trim_space input.provider_reference;
      scenario = to_lower (trim_space input.scenario);
      note = trim_space input.note;
    }
    fail_if (not (is_uuid normalized.transfer_id)) Error.invalid_request
    fail_if (not (valid_external_scenario normalized.scenario)) Error.invalid_request
    pure normalized

-- `requeryProviderReference`
unfoldable pub requery_provider_reference : Transfer → String → Tx String
unfolding first_non_blank
requery_provider_reference transfer asked = do
  let requested = trim_space asked
  let current = trim_space transfer.provider_reference
  fail_if (not (requested == "") && not (current == "") && not (requested == current))
      Error.conflict
  let provider_reference = first_non_blank (requested ∷ current ∷ [])
  fail_if (provider_reference == "") Error.invalid_request
  pure provider_reference

-- The statuses of an answer to a transfer that was just initiated: the status, and the provider's.
unfoldable pub initiated_statuses : ProviderTransferResult → Status × Status
initiated_statuses result =
    let stated = normalize_status result.status in
    let provider = normalize_status result.provider_status in
    let provider' = if is_blank provider then stated else provider in
    let status = if is_unknown provider' then Status.pending else stated in
    let status' = if is_blank status then Status.failed else status in
    (status', if is_blank provider' then status' else provider')

-- `externalOutboundCompletionInput`
unfoldable pub external_outbound_completion_input :
    RecordTransferInput → ProviderTransferResult → RecordTransferInput
unfolding first_non_blank initiated_statuses
external_outbound_completion_input intent result =
    let (status, provider_status) = initiated_statuses result in
    record intent {
      status = status;
      provider_status = provider_status;
      provider_reference =
          first_non_blank (result.provider_reference ∷ intent.provider_reference ∷ []);
      provider_event_id = trim_space result.provider_event_id;
      failure_reason = trim_space result.failure_reason;
      narration = first_non_blank (result.narration ∷ intent.narration ∷ []);
    }

-- The statuses of an answer to a requery.
unfoldable pub requeried_statuses : Status → Status → Status × Status
requeried_statuses stated provider =
    let provider' = if is_blank provider then stated else provider in
    let status = if is_unknown provider' then Status.pending else stated in
    let status' = if is_blank status then provider' else status in
    (status', if is_blank provider' then status' else provider')

abbrev requery_failure_reason : Status → Status → String → String
requery_failure_reason status provider_status reason =
    let unknown = is_unknown provider_status && reason == "" in
    let reason' = if unknown then provider_unknown_failure_reason else reason in
    if is_failed status && reason' == "" then "provider_failed" else reason'

abbrev requery_message : Status → Status → String
requery_message status provider_status =
    if is_unknown provider_status
    then "requery_provider_unknown"
    else if is_succeeded status
    then "requery_succeeded"
    else if is_failed status
    then "requery_failed"
    else "requery_pending"

-- The two statuses of an answer contradict each other.
abbrev pub are_contradictory : Status → Status → Bool
are_contradictory stated provider =
    not (is_blank stated)
    && not (is_blank provider)
    && not (status_text provider == status_text stated)
    && not (is_unknown provider)

-- `externalTransferRequeryCompletionInput`: the input and the message.
unfoldable pub external_transfer_requery_completion_input :
    Transfer → String → String → String → ProviderTransferResult → Tx (RecordTransferInput × String)
unfolding first_non_blank requeried_statuses
external_transfer_requery_completion_input transfer clearing_account_id provider_reference note
      result =
    do
      let name = trim_space result.provider
      fail_if (not (name == "") && not (name == transfer.provider)) Error.conflict
      let reference = trim_space result.provider_reference
      fail_if (not (reference == "") && not (reference == provider_reference)) Error.conflict
      let stated = normalize_status result.status
      let provider = normalize_status result.provider_status
      fail_if (are_contradictory stated provider) Error.conflict
      let (status, provider_status) = requeried_statuses stated provider
      fail_if (unlisted_status status || unlisted_provider_status provider_status)
          Error.invalid_request
      pure (
        record {
          institution_id = transfer.institution_id;
          account_id = transfer.account_id;
          clearing_account_id = clearing_account_id;
          direction = transfer.direction;
          status = status;
          amount_minor = transfer.amount_minor;
          currency_id = transfer.currency_id;
          idempotency_key = transfer.idempotency_key;
          provider = transfer.provider;
          provider_reference = provider_reference;
          provider_event_id = "";
          provider_status = provider_status;
          reversal_of_transfer_id = "";
          request_fingerprint = transfer.request_fingerprint;
          failure_reason =
              requery_failure_reason status provider_status (trim_space result.failure_reason);
          narration = first_non_blank (note ∷ result.narration ∷ transfer.narration ∷ []);
          reject_insufficient = false;
          require_available = false;
        },
        requery_message status provider_status,
      )
