-- ===== src/Service/External/Inbound.antt =====
-- Money that comes from another bank, as a provider reports it: it is recorded, or kept for a manual
-- review where it cannot be posted (`ExternalInboundEvent` of corebanking/service_external.go).
use lenz.Prelude.{
  ℕ, String, Bool, true, false, Option, none, some, List, [], ◌∷◌, ◌&&◌, ◌||◌, ◌==◌, if◌then◌else◌,
}
use lenz.Prelude.Assoc.{store}
use lenz.Prelude.Text.{trim_space}
use lenz.Model.{
  Status, Direction, is_customer, is_frozen, is_closed, is_invalid_request, Account, Transfer,
  RecordTransferInput, RecordProviderEventReviewInput, ProviderWebhookEvent,
  ExternalInboundEventInput, ExternalInboundEventResult, Error,
}
use lenz.Tx.{Result, ok, err, gets}
use lenz.Audit.{optional_audit_value}
use lenz.Fingerprint.{external_inbound_event_fingerprint}
use lenz.Accounts.{get_account, get_account_by_number, get_default_internal_settlement_account}
use lenz.Transfers.Record.{record_transfer_in_tx}
use lenz.Transfers.Review.{record_provider_event_review_in_tx}
use lenz.Provider.{TransferProvider, first_non_blank}
use lenz.Provider.MockNip.{mock_nip}
use lenz.Service.{require_institution_id}
use lenz.Service.Action.{Action, done, stop, query, call, attempt, transact, ◌>>=◌}
use lenz.Service.External.{provider_of}
use lenz.Service.External.Event.{normalize_external_inbound_webhook_event}
use lenz.Service.External.Inputs.{text_or}
use Prim.Native.String.{◌++◌}

-- `inboundEventHeaders`
unfoldable pub inbound_event_headers : List (String × String) → String → List (String × String)
inbound_event_headers headers institution_id = store "X-Institution-ID" institution_id headers

-- `externalInboundDestinationNeedsReview`
unfoldable pub destination_needs_review : Account → Bool
destination_needs_review account =
    is_customer account.kind && (is_frozen account.status || is_closed account.status)

-- `externalInboundEventIdempotencyKey`
abbrev pub event_idempotency_key : ProviderWebhookEvent → String
event_idempotency_key event =
    "external-inbound:" ++ event.provider ++ ":" ++ event.provider_event_id

-- `externalInboundReviewIdempotencyKey`
abbrev pub review_idempotency_key : ProviderWebhookEvent → String
review_idempotency_key event =
    "external-inbound-review:" ++ event.provider ++ ":" ++ event.provider_event_id ++ ":"
    ++ event.request_fingerprint

-- `externalInboundEventResultFromTransfer`
abbrev pub event_result : Transfer → String → ℕ → ExternalInboundEventResult
event_result transfer message status_code = record {
  transfer_id = some transfer.id;
  provider_event_id = optional_audit_value transfer.provider_event_id;
  provider_reference = transfer.provider_reference;
  provider_status = transfer.provider_status;
  ledger_status = transfer.ledger_status;
  reconciliation_status = transfer.reconciliation_status;
  status = transfer.status;
  journal_entry_id = transfer.journal_entry_id;
  message = message;
  http_status = status_code;
}

-- The transfer of an event whose destination takes money.
abbrev pub event_transfer_input : ProviderWebhookEvent → String → String → RecordTransferInput
event_transfer_input event account_id clearing_account_id = record {
  institution_id = event.institution_id;
  account_id = account_id;
  clearing_account_id = clearing_account_id;
  direction = Direction.inbound;
  status = event.status;
  amount_minor = event.amount_minor;
  currency_id = event.currency_id;
  idempotency_key = event_idempotency_key event;
  provider = event.provider;
  provider_reference = event.provider_reference;
  provider_event_id = event.provider_event_id;
  provider_status = event.status;
  reversal_of_transfer_id = "";
  request_fingerprint = event.request_fingerprint;
  failure_reason = event.failure_reason;
  narration = event.narration;
  reject_insufficient = false;
  require_available = false;
}

abbrev review_status : Status → Status
review_status Status.pending = Status.pending
review_status _ = Status.failed

-- The review of an event that cannot be posted.
abbrev pub event_review_input :
    ProviderWebhookEvent → String → String → Bool → RecordProviderEventReviewInput
event_review_input event account_id reason reserve_provider_event = record {
  institution_id = event.institution_id;
  account_id = account_id;
  direction = Direction.inbound;
  status = review_status event.status;
  provider_status = event.status;
  amount_minor = event.amount_minor;
  currency_id = event.currency_id;
  idempotency_key = review_idempotency_key event;
  provider = event.provider;
  provider_reference = event.provider_reference;
  provider_event_id = event.provider_event_id;
  request_fingerprint = event.request_fingerprint;
  failure_reason = reason;
  narration = first_non_blank (event.narration ∷ "External inbound event manual review" ∷ []);
  reserve_provider_event = reserve_provider_event;
}

-- The event with its fingerprint.
abbrev pub fingerprinted : (String → String) → ProviderWebhookEvent → String → ProviderWebhookEvent
fingerprinted sha256_hex event account_id = record event {
  request_fingerprint = external_inbound_event_fingerprint sha256_hex event account_id;
}

module _ {S : Type 0} where
  -- `externalInboundDestinationAccount`
  unfoldable pub destination_account : ProviderWebhookEvent → Action S Account
  destination_account event =
      if event.account_id == ""
      then query (get_account_by_number event.institution_id event.destination_account_number)
      else query (get_account event.institution_id event.account_id)

  -- `recordExternalInboundTransfer`
  unfoldable pub record_external_inbound_transfer :
      ProviderWebhookEvent → String → Action S Transfer
  record_external_inbound_transfer event account_id = do
    clearing ←
        query (get_default_internal_settlement_account event.institution_id event.currency_id)
    transact (record_transfer_in_tx (event_transfer_input event account_id clearing.id))

  -- The account that a review is booked under.
  unfoldable pub review_account_id : ProviderWebhookEvent → String → Action S String
  review_account_id event account_id =
      if trim_space account_id == ""
      then (query (get_default_internal_settlement_account event.institution_id event.currency_id)
          >>= λ clearing. done clearing.id)
      else done (trim_space account_id)

  -- `recordExternalInboundReview`
  unfoldable pub record_external_inbound_review :
      ProviderWebhookEvent → String → String → Bool → Action S ExternalInboundEventResult
  unfolding review_account_id first_non_blank
  record_external_inbound_review event account_id reason reserve_provider_event = do
    review_account ← review_account_id event account_id
    transfer ← transact (
        record_provider_event_review_in_tx
          (event_review_input event review_account reason reserve_provider_event))
    done (
        event_result transfer reason
          (if reason == "provider_event_payload_conflict" then 409 else 0))

  -- A transfer that was refused: is its destination blocked by now?
  unfoldable pub refused_transfer :
      ProviderWebhookEvent → String → Error → Action S ExternalInboundEventResult
  unfolding destination_needs_review record_external_inbound_review
  refused_transfer event account_id e =
      if is_invalid_request e
      then (attempt (query (get_account event.institution_id account_id)) >>= λ current.
          elim current [
            | err _ ↦ stop e
            | ok account ↦
                if destination_needs_review account
                then record_external_inbound_review event account_id "blocked_destination_account"
                    true
                else stop e
          ])
      else stop e

  -- What follows the attempt to record the transfer.
  unfoldable pub after_transfer :
      ProviderWebhookEvent → String → Result Transfer → Action S ExternalInboundEventResult
  unfolding record_external_inbound_review refused_transfer
  after_transfer event account_id (ok transfer) = done (event_result transfer "event_recorded" 0)
  after_transfer event account_id (err Error.conflict) =
      record_external_inbound_review event account_id "provider_event_payload_conflict" false
  after_transfer event account_id (err e) = refused_transfer event account_id e

  -- The part for a destination that is known.
  unfoldable pub known_destination :
      ProviderWebhookEvent → Account → Action S ExternalInboundEventResult
  unfolding external_inbound_event_fingerprint destination_needs_review
      record_external_inbound_transfer record_external_inbound_review after_transfer
  known_destination given account = do
    sha256_hex ← query (gets (λ s. s.env.sha256_hex))
    let event = fingerprinted sha256_hex (record given { account_id = account.id }) account.id
    if destination_needs_review account
        then record_external_inbound_review event account.id "blocked_destination_account" true
        else (attempt (record_external_inbound_transfer event account.id)
            >>= after_transfer event account.id)

  -- What follows the search for the destination.
  unfoldable pub after_destination :
      ProviderWebhookEvent → Result Account → Action S ExternalInboundEventResult
  unfolding external_inbound_event_fingerprint record_external_inbound_review known_destination
  after_destination event (ok account) = known_destination event account
  after_destination event (err Error.not_found) = do
    sha256_hex ← query (gets (λ s. s.env.sha256_hex))
    record_external_inbound_review (fingerprinted sha256_hex event "") "" "unknown_destination" true
  after_destination event (err e) = stop e

abbrev present : {S : Type 0} → Option ProviderWebhookEvent → Action S ProviderWebhookEvent
present none = stop Error.invalid_request
present (some event) = done event

module _ {S Payload : Type 0} (is_uuid : String → Bool)
    (providers : List (String × TransferProvider S Payload)) where
  -- `ExternalInboundEvent`
  unfoldable pub external_inbound_event :
      ExternalInboundEventInput Payload → Action S ExternalInboundEventResult
  unfolding require_institution_id provider_of inbound_event_headers
      normalize_external_inbound_webhook_event destination_account after_destination
  external_inbound_event input = do
    institution_id ← query (require_institution_id input.institution_id)
    let name = text_or (trim_space input.provider) mock_nip
    provider ← provider_of providers name
    parsed ←
        call (
          provider.parse_webhook input.payload (inbound_event_headers input.headers institution_id))
    given ← present parsed
    event ← normalize_external_inbound_webhook_event is_uuid given institution_id name
    account ← attempt (destination_account event)
    after_destination event account
