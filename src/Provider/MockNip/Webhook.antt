-- ===== src/Provider/MockNip/Webhook.antt =====
-- What else the mock of the NIP provider does: it lets a test set the outcome of a requery, and it
-- reads webhooks (corebanking/mock_nip_provider.go).
use lenz.Prelude.{
  String, Bool, false, Option, none, some, List, [], ◌∷◌, not, ◌&&◌, ◌||◌, ◌==◌, if◌then◌else◌,
}
use lenz.Prelude.Assoc.{lookup, store, delete}
use lenz.Prelude.Int.{ℤ, pos, leb_ℤ}
use lenz.Prelude.Text.{trim_space, to_lower, to_upper}
use lenz.Model.{
  Status, Direction, normalize_direction, is_empty_direction, is_reversal, ProviderTransferResult,
  ProviderWebhookEvent, Error,
}
use lenz.Fingerprint.{provider_webhook_request_fingerprint}
use lenz.Tx.{Result, ok, err}
use lenz.Transfers.{narration_or}
use lenz.Provider.{TransferProvider, first_non_blank, header_value, is_ten_digit_account_number}
use lenz.Provider.MockNip.{
  MockNipProvider, mock_nip, demo_institution_id, mock_scenario, resolve_scenario,
  provider_reference, mark_unknown, delayed_until_of, delay_duration, unless_done, name_enquiry,
  initiate_transfer, requery_transfer,
}

-- `p.transfers[providerReference] = result; delete(p.requeryErrors, providerReference)`
abbrev pub remember : String → ProviderTransferResult → MockNipProvider → MockNipProvider
remember key result p = record p {
  transfers = store key result p.transfers;
  requery_errors = delete key p.requery_errors;
}

-- The result with the outcome of a scenario.
abbrev pub with_scenario :
    String
    → Status × String × Bool
    → MockNipProvider
    → ProviderTransferResult
    → ProviderTransferResult
with_scenario scenario (status, reason, delayed) p result = mark_unknown scenario (record result {
  status = status;
  provider_status = status;
  failure_reason = reason;
  delayed = delayed;
  delayed_until = delayed_until_of p delayed (pos 0);
})

unfoldable pub set_timeout : String → MockNipProvider → Result (Unit {0}) × MockNipProvider
set_timeout key p = elim (lookup key p.transfers) [
  | none ↦ (err Error.not_found, p)
  | some _ ↦ (
    ok tt,
    record p { requery_errors = store key Error.provider_status_unknown p.requery_errors },
  )
]

unfoldable pub set_outcome :
    String → String → Status × String × Bool → MockNipProvider → Result (Unit {0}) × MockNipProvider
unfolding delay_duration
set_outcome key scenario outcome p = elim (lookup key p.transfers) [
  | none ↦ (err Error.not_found, p)
  | some result ↦ (ok tt, remember key (with_scenario scenario outcome p result) p)
]

-- `SetRequeryScenario`
unfoldable pub set_requery_scenario :
    String → String → MockNipProvider → Result (Unit {0}) × MockNipProvider
unfolding mock_scenario resolve_scenario set_timeout set_outcome
set_requery_scenario reference scenario p =
    let key = trim_space reference in
    let name = mock_scenario scenario in
    if key == "" || name == ""
    then (err Error.invalid_request, p)
    else if name == "timeout"
    then set_timeout key p
    else elim (resolve_scenario (Status.other "") "" name) [
      | ok outcome ↦ set_outcome key name outcome p
      | err e ↦ (err e, p)
    ]

-- The struct `mockWebhookPayload`.
pub record MockWebhookPayload : Type 0 where
  pub institution_id : String
  pub provider : String
  pub account_id : String
  pub destination_account_number : String
  pub direction : Direction
  pub status : Status
  pub amount_minor : ℤ
  pub currency_id : String
  pub idempotency_key : String
  pub provider_reference : String
  pub provider_event_id : String
  pub reversal_of_transfer_id : String
  pub sender_name : String
  pub sender_account_number : String
  pub sender_institution_code : String
  pub failure_reason : String
  pub narration : String
  pub scenario : String
  pub delay_seconds : ℤ

abbrev stated_direction : MockWebhookPayload → Direction
stated_direction request =
    let direction = normalize_direction request.direction in
    if to_lower (trim_space request.scenario) == "reversal"
    then Direction.reversal
    else if is_empty_direction direction
    then Direction.inbound
    else direction

-- The event before its outcome is resolved; its reference is drawn already.
unfoldable pub stated_event :
    MockWebhookPayload → List (String × String) → String → ProviderWebhookEvent
unfolding first_non_blank header_value
stated_event request headers reference = record {
  provider = first_non_blank (request.provider ∷ mock_nip ∷ []);
  institution_id =
      first_non_blank (
        request.institution_id
        ∷ header_value headers "X-Institution-ID"
        ∷ demo_institution_id
        ∷ []);
  account_id = trim_space request.account_id;
  destination_account_number = trim_space request.destination_account_number;
  direction = stated_direction request;
  status = Status.other "";
  amount_minor = request.amount_minor;
  currency_id =
      let currency_id = to_upper (trim_space request.currency_id) in
      if currency_id == "" then "NGN" else currency_id;
  idempotency_key =
      first_non_blank (request.idempotency_key ∷ header_value headers "Idempotency-Key" ∷ []);
  provider_reference = reference;
  provider_event_id = trim_space request.provider_event_id;
  reversal_of_transfer_id = trim_space request.reversal_of_transfer_id;
  sender_name = trim_space request.sender_name;
  sender_account_number = trim_space request.sender_account_number;
  sender_institution_code = trim_space request.sender_institution_code;
  failure_reason = trim_space request.failure_reason;
  narration = trim_space request.narration;
  scenario = to_lower (trim_space request.scenario);
  request_fingerprint = "";
  delayed = false;
  delayed_until = none;
}

-- The checks of `ParseWebhook`.
unfoldable pub is_bad_event : ProviderWebhookEvent → Bool
unfolding is_ten_digit_account_number
is_bad_event event =
    let reversed = is_reversal event.direction in
    event.provider_event_id == ""
    || (not reversed && event.account_id == "" && event.destination_account_number == "")
    || (not reversed
        && not (event.destination_account_number == "")
        && not (is_ten_digit_account_number event.destination_account_number))
    || (not reversed && leb_ℤ event.amount_minor (pos 0))
    || (reversed && event.reversal_of_transfer_id == "")

-- The event with its outcome.
unfoldable pub resolved_event :
    MockWebhookPayload
    → ProviderWebhookEvent
    → Status × String × Bool
    → MockNipProvider
    → ProviderWebhookEvent
unfolding provider_webhook_request_fingerprint delay_duration
resolved_event request event (status, reason, delayed) p =
    let outcome = record event {
      status = status;
      failure_reason = reason;
      delayed = delayed;
      narration = narration_or event.narration "Mock NIP webhook";
    } in
    record outcome {
      request_fingerprint =
          provider_webhook_request_fingerprint p.sha256_hex outcome
            (trim_space request.provider_reference) request.delay_seconds;
      delayed_until = delayed_until_of p delayed request.delay_seconds;
    }

-- `rememberWebhookEvent`
unfoldable pub remember_webhook_event : ProviderWebhookEvent → MockNipProvider → MockNipProvider
remember_webhook_event event p =
    let key = trim_space event.provider_reference in
    if key == ""
    then p
    else remember key
        (record {
          provider = mock_nip;
          provider_reference = key;
          provider_event_id = trim_space event.provider_event_id;
          status = event.status;
          provider_status = event.status;
          failure_reason = trim_space event.failure_reason;
          narration = trim_space event.narration;
          delayed = event.delayed;
          delayed_until = event.delayed_until;
        })
        p

-- The part of `ParseWebhook` after the payload is read.
unfoldable pub accept_webhook :
    MockWebhookPayload
    → List (String × String)
    → MockNipProvider
    → Result (Option ProviderWebhookEvent) × MockNipProvider
unfolding provider_reference stated_event is_bad_event resolve_scenario resolved_event
    remember_webhook_event
accept_webhook request headers p =
    let (reference, p') = provider_reference "mock-nip-in" request.provider_reference p in
    let event = stated_event request headers reference in
    if is_bad_event event
    then (err Error.invalid_request, p')
    else elim (resolve_scenario request.status event.failure_reason event.scenario) [
      | err e ↦ (err e, p')
      | ok outcome ↦
          let event' = resolved_event request event outcome p' in
          (ok (some event'), remember_webhook_event event' p')
    ]

-- `ParseWebhook`
unfoldable pub parse_webhook :
    Option MockWebhookPayload
    → List (String × String)
    → MockNipProvider
    → Result (Option ProviderWebhookEvent) × MockNipProvider
unfolding accept_webhook
parse_webhook payload headers p = unless_done p (elim payload [
  | none ↦ (err Error.invalid_request, p)
  | some request ↦ accept_webhook request headers p
])

-- The mock as a provider: `var _ TransferProvider = (*MockNIPProvider)(nil)`
unfoldable pub mock_nip_provider : TransferProvider MockNipProvider (Option MockWebhookPayload)
unfolding name_enquiry initiate_transfer requery_transfer parse_webhook set_requery_scenario
mock_nip_provider = record {
  name = mock_nip;
  name_enquiry = name_enquiry;
  initiate_transfer = initiate_transfer;
  requery_transfer = requery_transfer;
  parse_webhook = parse_webhook;
  set_requery_scenario = some set_requery_scenario;
}
