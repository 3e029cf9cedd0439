-- ===== src/Fingerprint.antt =====
-- The fingerprints of requests (corebanking/idempotency.go). The digest of package sha256 is an
-- argument.
use lenz.Prelude.{String, Bool, true, false, List, [], ◌∷◌, map, not, ◌&&◌, ◌==◌, if◌then◌else◌}
use lenz.Prelude.Text.{trim_space, join}
use lenz.Prelude.Decimal.{format_int}
use lenz.Prelude.Int.{ℤ}
use lenz.Model.{
  Direction, TransferRequest, ExternalOutboundTransferInput, ProviderWebhookEvent,
  RecordTransferInput, Transfer, status_text, direction_text,
}
use Prim.Native.String.{◌++◌}

-- The separator "\x1f".
abbrev pub unit_separator : String
unit_separator = "\u{1f}"

abbrev pub format_bool : Bool → String
format_bool true = "true"
format_bool false = "false"

unfoldable pub fingerprint_values : (String → String) → List String → String
fingerprint_values sha256_hex values =
    "v1:" ++ sha256_hex (join (map trim_space values) unit_separator)

abbrev pub record_transfer_values : RecordTransferInput → List String
record_transfer_values input =
    "record_transfer"
    ∷ input.institution_id
    ∷ input.provider
    ∷ direction_text input.direction
    ∷ status_text input.status
    ∷ input.account_id
    ∷ input.clearing_account_id
    ∷ format_int input.amount_minor
    ∷ input.currency_id
    ∷ input.provider_reference
    ∷ input.provider_event_id
    ∷ status_text input.provider_status
    ∷ input.reversal_of_transfer_id
    ∷ format_bool input.reject_insufficient
    ∷ format_bool input.require_available
    ∷ []

unfoldable pub transfer_request_fingerprint : (String → String) → RecordTransferInput → String
unfolding fingerprint_values
transfer_request_fingerprint sha256_hex input =
    let fingerprint = trim_space input.request_fingerprint in
    if not (fingerprint == "")
    then fingerprint
    else fingerprint_values sha256_hex (record_transfer_values input)

unfoldable pub transfer_request_fingerprint_matches : Transfer → String → Bool
transfer_request_fingerprint_matches transfer request_fingerprint =
    not (trim_space transfer.request_fingerprint == "")
    && trim_space transfer.request_fingerprint == trim_space request_fingerprint

-- `externalInboundEventFingerprint`
unfoldable pub external_inbound_event_fingerprint :
    (String → String) → ProviderWebhookEvent → String → String
unfolding fingerprint_values
external_inbound_event_fingerprint sha256_hex event account_id = fingerprint_values sha256_hex (
    "external_inbound_event"
    ∷ event.provider
    ∷ event.provider_event_id
    ∷ event.provider_reference
    ∷ account_id
    ∷ event.destination_account_number
    ∷ format_int event.amount_minor
    ∷ event.currency_id
    ∷ status_text event.status
    ∷ "inbound"
    ∷ [])

-- `providerWebhookRequestFingerprint`
unfoldable pub provider_webhook_request_fingerprint :
    (String → String) → ProviderWebhookEvent → String → ℤ → String
unfolding fingerprint_values
provider_webhook_request_fingerprint sha256_hex event original_provider_reference delay_seconds =
    fingerprint_values sha256_hex (
      "provider_webhook"
      ∷ event.provider
      ∷ event.institution_id
      ∷ event.account_id
      ∷ direction_text event.direction
      ∷ status_text event.status
      ∷ format_int event.amount_minor
      ∷ event.currency_id
      ∷ original_provider_reference
      ∷ event.provider_event_id
      ∷ event.reversal_of_transfer_id
      ∷ event.failure_reason
      ∷ event.scenario
      ∷ format_int delay_seconds
      ∷ [])

-- `externalOutboundTransferRequestFingerprint`
unfoldable pub external_outbound_transfer_request_fingerprint :
    (String → String) → ExternalOutboundTransferInput → String
unfolding fingerprint_values
external_outbound_transfer_request_fingerprint sha256_hex input = fingerprint_values sha256_hex (
    "external_outbound_transfer"
    ∷ input.institution_id
    ∷ input.source_account_id
    ∷ input.destination_institution_code
    ∷ input.destination_account_number
    ∷ input.destination_account_name
    ∷ format_int input.amount_minor
    ∷ input.currency_id
    ∷ input.idempotency_key
    ∷ input.provider
    ∷ input.reference
    ∷ input.narration
    ∷ input.scenario
    ∷ [])

-- `mockTransferRequestFingerprint`
unfoldable pub mock_transfer_request_fingerprint :
    (String → String) → Direction → TransferRequest → String
unfolding fingerprint_values
mock_transfer_request_fingerprint sha256_hex direction req = fingerprint_values sha256_hex (
    "mock_transfer"
    ∷ direction_text direction
    ∷ req.institution_id
    ∷ req.account_id
    ∷ format_int req.amount_minor
    ∷ req.currency_id
    ∷ req.idempotency_key
    ∷ req.provider_reference
    ∷ req.provider_event_id
    ∷ status_text req.status
    ∷ req.scenario
    ∷ format_int req.delay_seconds
    ∷ [])
