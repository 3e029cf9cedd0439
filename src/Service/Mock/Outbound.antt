-- ===== src/Service/Mock/Outbound.antt =====
-- An outbound transfer over the mock provider (`MockOutbound` of corebanking/service.go).
use lenz.Prelude.{String, false, List, none, not, ◌&&◌, ◌||◌, ◌==◌, if◌then◌else◌}
use lenz.Prelude.Int.{pos, leb_ℤ}
use lenz.Prelude.Text.{trim_space, to_upper}
use lenz.Model.{
  Status, Direction, normalize_status, is_unknown, is_pending, status_text, Transfer,
  RecordTransferInput, ProviderTransferRequest, ProviderTransferResult, TransferRequest, Error,
}
use lenz.Tx.{gets}
use lenz.Fingerprint.{mock_transfer_request_fingerprint}
use lenz.Accounts.{get_default_internal_settlement_account}
use lenz.Transfers.{unlisted_status, unlisted_provider_status}
use lenz.Transfers.Record.{record_transfer_in_tx, begin_external_outbound_transfer}
use lenz.Provider.{TransferProvider}
use lenz.Provider.MockNip.{mock_nip, demo_institution_id}
use lenz.Service.Action.{Action, done, stop_if, query, transact, ◌>>=◌, ◌>>◌}
use lenz.Service.External.{provider_of}
use lenz.Service.External.Inputs.{text_or}
use lenz.Service.External.Outbound.{ask_and_complete}
use lenz.Service.Mock.{status_or}

-- `institutionIDOrDemo`
abbrev institution_id_or_demo : String → String
institution_id_or_demo institution_id = text_or (trim_space institution_id) demo_institution_id

abbrev normal_request : TransferRequest → TransferRequest
normal_request req = record req {
  institution_id = institution_id_or_demo req.institution_id;
  account_id = trim_space req.account_id;
  currency_id = text_or (to_upper (trim_space req.currency_id)) "NGN";
  idempotency_key = trim_space req.idempotency_key;
  provider_event_id = trim_space req.provider_event_id;
  provider_reference = trim_space req.provider_reference;
  status = status_or (normalize_status req.status) Status.succeeded;
  narration = text_or (trim_space req.narration) "Mock transfer";
}

-- What a provider's result says of the statuses: the status, and the provider's.
unfoldable pub result_statuses : TransferRequest → ProviderTransferResult → Status × Status
result_statuses req result =
    let stated = normalize_status result.status in
    let provider =
      if is_unknown stated
      then Status.provider_unknown
      else normalize_status result.provider_status in
    let status = if is_unknown provider then Status.pending else stated in
    let status' = status_or status req.status in (status', status_or provider status')

module _ {S : Type 0} where
  -- `normalizeTransferRequest`
  unfoldable pub normalize_transfer_request : TransferRequest → Action S TransferRequest
  normalize_transfer_request given = do
    let req = normal_request given
    stop_if (req.account_id == "" || leb_ℤ req.amount_minor (pos 0) || req.idempotency_key == "")
        Error.invalid_request
    stop_if (unlisted_status req.status) Error.invalid_request
    done req

  -- `recordProviderTransfer`
  unfoldable pub record_provider_transfer :
      Direction → TransferRequest → ProviderTransferResult → String → Action S Transfer
  unfolding result_statuses
  record_provider_transfer direction req result request_fingerprint = do
    let (status, provider_status) = result_statuses req result
    stop_if (unlisted_status status) Error.invalid_request
    stop_if (unlisted_provider_status provider_status) Error.invalid_request
    clearing ← query (get_default_internal_settlement_account req.institution_id req.currency_id)
    transact (
        record_transfer_in_tx (record {
          institution_id = req.institution_id;
          account_id = req.account_id;
          clearing_account_id = clearing.id;
          direction = direction;
          status = status;
          amount_minor = req.amount_minor;
          currency_id = req.currency_id;
          idempotency_key = req.idempotency_key;
          provider = text_or (trim_space result.provider) mock_nip;
          provider_reference =
              text_or (trim_space result.provider_reference) req.provider_reference;
          provider_event_id = text_or (trim_space result.provider_event_id) req.provider_event_id;
          provider_status = provider_status;
          reversal_of_transfer_id = "";
          request_fingerprint = request_fingerprint;
          failure_reason = trim_space result.failure_reason;
          narration = text_or (trim_space result.narration) req.narration;
          reject_insufficient = false;
          require_available = false;
        }))

abbrev mock_intent : TransferRequest → String → String → RecordTransferInput
mock_intent req clearing_account_id request_fingerprint = record {
  institution_id = req.institution_id;
  account_id = req.account_id;
  clearing_account_id = clearing_account_id;
  direction = Direction.outbound;
  status = Status.pending;
  amount_minor = req.amount_minor;
  currency_id = req.currency_id;
  idempotency_key = req.idempotency_key;
  provider = mock_nip;
  provider_reference = req.provider_reference;
  provider_event_id = "";
  provider_status = Status.pending;
  reversal_of_transfer_id = "";
  request_fingerprint = request_fingerprint;
  failure_reason = "";
  narration = req.narration;
  reject_insufficient = false;
  require_available = false;
}

abbrev mock_provider_request : TransferRequest → ProviderTransferRequest
mock_provider_request req = record {
  institution_id = req.institution_id;
  account_id = req.account_id;
  destination_institution_code = "";
  destination_account_number = "";
  destination_account_name = "";
  amount_minor = req.amount_minor;
  currency_id = req.currency_id;
  idempotency_key = req.idempotency_key;
  provider_reference = req.provider_reference;
  provider_event_id = req.provider_event_id;
  status = req.status;
  failure_reason = "";
  narration = req.narration;
  scenario = req.scenario;
  delay_seconds = req.delay_seconds;
}

-- The result of a transfer whose outcome the request states itself.
abbrev stated_result : String → TransferRequest → ProviderTransferResult
stated_result name req = record {
  provider = name;
  provider_reference = req.provider_reference;
  provider_event_id = req.provider_event_id;
  status = req.status;
  provider_status = req.status;
  failure_reason = "";
  narration = req.narration;
  delayed = false;
  delayed_until = none;
}

module _ {S Payload : Type 0} where
  -- The part for a transfer that the provider carries out.
  unfoldable pub carry_out :
      TransferProvider S Payload → TransferRequest → String → Action S Transfer
  unfolding ask_and_complete
  carry_out provider req request_fingerprint = do
    clearing ← query (get_default_internal_settlement_account req.institution_id req.currency_id)
    let intent_input = mock_intent req clearing.id request_fingerprint
    begun ← transact (begin_external_outbound_transfer intent_input)
    let intent = begun.0
    if not begun.1 || not (is_pending intent.status)
        then done intent
        else ask_and_complete provider intent intent_input (mock_provider_request req)

  -- `MockOutbound`
  unfoldable pub mock_outbound :
      List (String × TransferProvider S Payload) → TransferRequest → Action S Transfer
  unfolding normalize_transfer_request mock_transfer_request_fingerprint provider_of
      record_provider_transfer carry_out
  mock_outbound providers given = do
    let explicit_status = not (trim_space (status_text given.status) == "")
    req ← normalize_transfer_request given
    sha256_hex ← query (gets (λ s. s.env.sha256_hex))
    let request_fingerprint = mock_transfer_request_fingerprint sha256_hex Direction.outbound req
    provider ← provider_of providers mock_nip
    if explicit_status && not (is_pending req.status) && not (req.provider_reference == "")
        then record_provider_transfer Direction.outbound req (stated_result provider.name req)
            request_fingerprint
        else carry_out provider req request_fingerprint
