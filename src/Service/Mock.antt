-- ===== src/Service/Mock.antt =====
-- Transfers over the mock provider, and the webhooks of a provider (`MockInbound`, `MockOutbound`,
-- `MockProviderWebhook` and their helpers, of corebanking/service.go). `json.Marshal` of a request,
-- which a provider then reads, is a parameter.
pub mod Outbound
use lenz.Prelude.{
  String, Bool, true, false, List, [], ◌∷◌, ◌++◌, not, ◌&&◌, ◌||◌, ◌==◌, if◌then◌else◌, Option,
  none, some,
}
use lenz.Prelude.Int.{pos, leb_ℤ}
use lenz.Prelude.Text.{trim_space, to_upper}
use lenz.Model.{
  Status, Direction, normalize_status, normalize_direction, is_blank, is_reversal, is_inbound,
  is_outbound, Transfer, RecordTransferInput, ReverseTransferInput, ProviderWebhookEvent,
  TransferRequest, Error,
}
use lenz.Accounts.{get_default_internal_settlement_account}
use lenz.Transfers.{unlisted_status}
use lenz.Transfers.Record.{record_transfer_in_tx}
use lenz.Transfers.Reverse.{reverse_transfer}
use lenz.Provider.{TransferProvider}
use lenz.Provider.MockNip.{mock_nip}
use lenz.Service.{require_institution_id}
use lenz.Service.Action.{Action, done, stop, stop_if, query, call, transact, ◌>>=◌, ◌>>◌}
use lenz.Service.External.{provider_of}
use lenz.Service.External.Inputs.{text_or}

abbrev pub status_or : Status → Status → Status
status_or status default = if is_blank status then default else status

-- The event in the form in which it is recorded.
abbrev pub normal_webhook_event : ProviderWebhookEvent → String → ProviderWebhookEvent
normal_webhook_event event institution_id = record event {
  provider = trim_space event.provider;
  institution_id = institution_id;
  direction = normalize_direction event.direction;
  status = status_or (normalize_status event.status) Status.succeeded;
  currency_id = text_or (to_upper (trim_space event.currency_id)) "NGN";
  idempotency_key = trim_space event.idempotency_key;
  provider_event_id = trim_space event.provider_event_id;
  provider_reference = trim_space event.provider_reference;
  failure_reason = trim_space event.failure_reason;
  narration = text_or (trim_space event.narration) "Provider webhook";
}

abbrev event_reversal : ProviderWebhookEvent → ReverseTransferInput
event_reversal event = record {
  institution_id = event.institution_id;
  transfer_id = trim_space event.reversal_of_transfer_id;
  idempotency_key = event.idempotency_key;
  provider = event.provider;
  provider_reference = event.provider_reference;
  provider_event_id = event.provider_event_id;
  failure_reason = event.failure_reason;
  narration = event.narration;
}

abbrev event_transfer : ProviderWebhookEvent → String → RecordTransferInput
event_transfer event clearing_account_id = record {
  institution_id = event.institution_id;
  account_id = event.account_id;
  clearing_account_id = clearing_account_id;
  direction = event.direction;
  status = event.status;
  amount_minor = event.amount_minor;
  currency_id = event.currency_id;
  idempotency_key = event.idempotency_key;
  provider = event.provider;
  provider_reference = event.provider_reference;
  provider_event_id = event.provider_event_id;
  provider_status = Status.other "";
  reversal_of_transfer_id = "";
  request_fingerprint = event.request_fingerprint;
  failure_reason = event.failure_reason;
  narration = event.narration;
  reject_insufficient = false;
  require_available = false;
}

module _ {S : Type 0} (is_uuid : String → Bool) where
  -- The part for an event that is no reversal.
  unfoldable pub record_webhook_transfer : ProviderWebhookEvent → Action S Transfer
  record_webhook_transfer event = do
    stop_if (not (is_inbound event.direction) && not (is_outbound event.direction))
        Error.invalid_request
    stop_if (event.account_id == "" || leb_ℤ event.amount_minor (pos 0)) Error.invalid_request
    clearing ←
        query (get_default_internal_settlement_account event.institution_id event.currency_id)
    transact (record_transfer_in_tx (event_transfer event clearing.id))

  unfoldable pub reverse_by_webhook : ProviderWebhookEvent → Action S Transfer
  reverse_by_webhook event = do
    stop_if (not (is_uuid (trim_space event.reversal_of_transfer_id))) Error.invalid_request
    transact (reverse_transfer (event_reversal event))

  -- `recordProviderWebhookEvent`
  unfoldable pub record_provider_webhook_event : ProviderWebhookEvent → Action S Transfer
  unfolding require_institution_id record_webhook_transfer reverse_by_webhook
  record_provider_webhook_event given = do
    stop_if (trim_space given.provider == "") Error.invalid_request
    institution_id ← query (require_institution_id given.institution_id)
    let event = normal_webhook_event given institution_id
    stop_if (event.idempotency_key == "" || event.provider_event_id == "") Error.invalid_request
    stop_if (unlisted_status event.status) Error.invalid_request
    if is_reversal event.direction then reverse_by_webhook event else record_webhook_transfer event

abbrev parsed_event : {S : Type 0} → Option ProviderWebhookEvent → Action S ProviderWebhookEvent
parsed_event none = stop Error.invalid_request
parsed_event (some event) = done event

module _ {S Payload : Type 0} (is_uuid : String → Bool)
    (providers : List (String × TransferProvider S Payload)) where
  -- `MockProviderWebhook`. A provider that returns neither an event nor an error makes the source
  -- panic; it is an error here.
  unfoldable pub mock_provider_webhook :
      String → Payload → List (String × String) → Action S Transfer
  unfolding provider_of record_provider_webhook_event
  mock_provider_webhook provider_name payload headers = do
    provider ← provider_of providers provider_name
    parsed ← call (provider.parse_webhook payload headers)
    event ← parsed_event parsed
    record_provider_webhook_event is_uuid event

  -- `MockInbound`
  unfoldable pub mock_inbound : (TransferRequest → Payload) → TransferRequest → Action S Transfer
  unfolding mock_provider_webhook
  mock_inbound to_json req = mock_provider_webhook mock_nip (to_json req) (
      (if req.institution_id == "" then [] else ("X-Institution-ID", req.institution_id) ∷ [])
      ++ (if req.idempotency_key == "" then [] else ("Idempotency-Key", req.idempotency_key) ∷ []))
