-- ===== src/Service/External/Event.antt =====
-- The form in which the event of a provider is taken (`normalizeExternalInboundWebhookEvent` of
-- corebanking/service_external.go).
use lenz.Prelude.{String, Bool, not, ◌&&◌, ◌||◌, ◌==◌, if◌then◌else◌}
use lenz.Prelude.Int.{pos, leb_ℤ}
use lenz.Prelude.Text.{trim_space, to_upper}
use lenz.Model.{
  Direction, normalize_status, normalize_direction, is_empty_direction, is_inbound,
  ProviderWebhookEvent, Error,
}
use lenz.Transfers.{unlisted_status}
use lenz.Provider.{is_ten_digit_account_number}
use lenz.Service.Action.{Action, done, stop_if, ◌>>◌}
use lenz.Service.External.Inputs.{text_or}

-- The event in the form in which it is recorded.
abbrev pub normal_event : ProviderWebhookEvent → String → String → ProviderWebhookEvent
normal_event event institution_id provider_name =
    let direction = normalize_direction event.direction in
    record event {
      provider = text_or (trim_space event.provider) provider_name;
      institution_id = institution_id;
      direction = if is_empty_direction direction then Direction.inbound else direction;
      status = normalize_status event.status;
      currency_id = text_or (to_upper (trim_space event.currency_id)) "NGN";
      provider_event_id = trim_space event.provider_event_id;
      provider_reference = trim_space event.provider_reference;
      account_id = trim_space event.account_id;
      destination_account_number = trim_space event.destination_account_number;
      failure_reason = trim_space event.failure_reason;
      narration = text_or (trim_space event.narration) "External inbound transfer";
    }

-- `normalizeExternalInboundWebhookEvent`
unfoldable pub normalize_external_inbound_webhook_event :
    {S : Type 0}
    → (String → Bool)
    → ProviderWebhookEvent
    → String
    → String
    → Action S ProviderWebhookEvent
unfolding is_ten_digit_account_number
normalize_external_inbound_webhook_event is_uuid given institution_id provider_name = do
  let event = normal_event given institution_id provider_name
  let stated_institution = trim_space given.institution_id
  stop_if (not (event.provider == provider_name)) Error.unsupported_provider
  stop_if (not (stated_institution == "") && not (stated_institution == institution_id))
      Error.forbidden
  stop_if (not (is_inbound event.direction)) Error.invalid_request
  stop_if
      (event.provider_event_id == ""
        || event.provider_reference == ""
        || leb_ℤ event.amount_minor (pos 0)
        || not (event.currency_id == "NGN")
        || unlisted_status event.status)
      Error.invalid_request
  stop_if (event.account_id == "" && event.destination_account_number == "") Error.invalid_request
  stop_if (not (event.account_id == "") && not (is_uuid event.account_id)) Error.invalid_request
  stop_if
      (not (event.destination_account_number == "")
        && not (is_ten_digit_account_number event.destination_account_number))
      Error.invalid_request
  done event
