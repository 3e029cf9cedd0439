-- ===== src/Handler/Events.antt =====
-- The handlers of inbound events and of the mock's transfers, and the decoding of a requery's request
-- (corebanking/handler.go). What `json.Marshal` makes of a body is a parameter.
use lenz.Prelude.{
  ℕ, eqb, String, Bool, true, false, Option, none, some, [], ◌∷◌, not, ◌&&◌, ◌||◌, ◌==◌, List,
  if◌then◌else◌,
}
use lenz.Prelude.Int.{ℤ, pos, leb_ℤ}
use lenz.Prelude.Text.{trim_space}
use lenz.Model.{
  Status, Transfer, TransferRequest, ExternalInboundEventInput, ExternalInboundEventResult,
  ExternalTransferRequeryResult, Error,
}
use lenz.Tx.{Result, ok, err, Principal}
use lenz.Transfers.{unlisted_status}
use lenz.Provider.{TransferProvider, first_non_blank, is_ten_digit_account_number}
use lenz.Service.Action.{Action, stop}
use lenz.Service.External.Inbound as Inbound
use lenz.Service.Mock.{mock_inbound}
use lenz.Service.Mock.Outbound.{mock_outbound}
use lenz.Handler.{institution_scope}
use lenz.Handler.Bodies.{
  ExternalInboundEventRequest, MockTransferRequest, ExternalTransferRequeryRequest,
}
use lenz.Handler.Binding.{optional_string, nil_uuid, bind_valid}
use lenz.Handler.Routes.{run, external_transfer_requery}

-- A scenario is given and not one of the listed.
abbrev is_other_scenario : List String → Option String → Bool
is_other_scenario listed none = false
is_other_scenario [] (some scenario) = true
is_other_scenario (name ∷ listed) (some scenario) =
    let rest = is_other_scenario listed (some scenario) in if scenario == name then false else rest

-- A number is given that has not ten digits.
abbrev is_bad_number : Option String → Bool
is_bad_number none = false
is_bad_number (some number) = not (is_ten_digit_account_number (trim_space number))

abbrev is_nil : Option String → Bool
is_nil none = false
is_nil (some id) = id == nil_uuid

abbrev is_missing : Option String → Bool
is_missing none = true
is_missing (some _) = false

-- A currency is given that is not the naira.
abbrev is_not_naira : Option String → Bool
is_not_naira none = false
is_not_naira (some currency) = not (currency == "NGN")

-- `validateExternalInboundEventRequest`, where it refuses a body
unfoldable pub invalid_external_inbound_event_request : ExternalInboundEventRequest → Bool
invalid_external_inbound_event_request body =
    trim_space body.provider_event_id == ""
    || trim_space body.provider_reference == ""
    || leb_ℤ body.amount_minor (pos 0)
    || (is_missing body.account_id
        && trim_space (optional_string body.destination_account_number) == "")
    || is_nil body.account_id
    || is_bad_number body.destination_account_number
    || unlisted_status body.status
    || is_not_naira body.currency_id
    || is_other_scenario ("success" ∷ "pending" ∷ "failed" ∷ []) body.scenario

-- `bindExternalInboundEventRequest`
unfoldable pub bind_external_inbound_event_request :
    {Payload : Type 0}
    → (ExternalInboundEventRequest → Payload)
    → String
    → Option ExternalInboundEventRequest
    → Result (ExternalInboundEventInput Payload)
unfolding invalid_external_inbound_event_request
bind_external_inbound_event_request to_json institution_id =
    bind_valid invalid_external_inbound_event_request λ body. record {
      institution_id = institution_id;
      provider = optional_string body.provider;
      payload = to_json body;
      headers = ("X-Institution-ID", institution_id) ∷ [];
    }

abbrev status_given : Option Status → Status
status_given none = Status.other ""
status_given (some status) = status

abbrev is_bad_status : Option Status → Bool
is_bad_status none = false
is_bad_status (some status) = unlisted_status status

abbrev seconds_given : Option ℤ → ℤ
seconds_given none = pos 0
seconds_given (some seconds) = seconds

-- `validateMockTransferRequest`, where it refuses a body
unfoldable pub invalid_mock_transfer_request : MockTransferRequest → Bool
invalid_mock_transfer_request body =
    body.account_id == nil_uuid
    || leb_ℤ body.amount_minor (pos 0)
    || is_bad_status body.status
    || is_other_scenario
        ("success" ∷ "pending" ∷ "failed" ∷ "duplicate" ∷ "delayed" ∷ "reversal" ∷ []) body.scenario

-- `applyRequestScope`, for the institution that the scope gives
unfoldable pub apply_request_scope :
    Result String → String → TransferRequest → Result TransferRequest
apply_request_scope (err e) header_key request = err e
apply_request_scope (ok institution_id) header_key request =
    if not (request.institution_id == "")
      && not (trim_space request.institution_id == institution_id)
    then err Error.forbidden
    else ok (record request {
      institution_id = institution_id;
      idempotency_key =
          if request.idempotency_key == "" then trim_space header_key else request.idempotency_key;
    })

-- The request that a body of a mock transfer stands for.
abbrev mock_transfer_request : String → MockTransferRequest → TransferRequest
mock_transfer_request header_key body = record {
  institution_id = optional_string body.institution_id;
  account_id = body.account_id;
  amount_minor = body.amount_minor;
  currency_id = optional_string body.currency_id;
  idempotency_key = first_non_blank (optional_string body.idempotency_key ∷ header_key ∷ []);
  provider_event_id = optional_string body.provider_event_id;
  provider_reference = optional_string body.provider_reference;
  status = status_given body.status;
  narration = optional_string body.narration;
  scenario = optional_string body.scenario;
  delay_seconds = seconds_given body.delay_seconds;
}

-- `bindMockTransferRequest`
unfoldable pub bind_mock_transfer_request :
    Result String → String → Option MockTransferRequest → Result TransferRequest
unfolding invalid_mock_transfer_request apply_request_scope first_non_blank
bind_mock_transfer_request scope header_key none = err Error.invalid_request
bind_mock_transfer_request scope header_key (some body) =
    if invalid_mock_transfer_request body
    then err Error.invalid_request
    else apply_request_scope scope header_key (mock_transfer_request header_key body)

-- `externalTransferRequeryParamsFromRequest`: `none` is a header that is no UUID.
unfoldable pub external_transfer_requery_params :
    (String → Option String) → String → Option (Option String)
external_transfer_requery_params parse_uuid header =
    if trim_space header == "" then some none else elim (parse_uuid (trim_space header)) [
      | none ↦ none
      | some institution_id ↦ some (some institution_id)
    ]

-- `openAPIRequestError` answers what cannot be decoded as an invalid request.
abbrev decoded : {A : Type 0} → Option A → Result A
decoded none = err Error.invalid_request
decoded (some a) = ok a

-- The HTTP status of the answer to an inbound event.
abbrev event_answer_status : ExternalInboundEventResult → ℕ
event_answer_status result = if eqb result.http_status 0 then 200 else result.http_status

module _ {S Payload : Type 0} (is_uuid : String → Bool)
    (providers : List (String × TransferProvider S Payload)) (caller : Option Principal) where
  -- `ExternalInboundEvent`; the result is answered with `event_answer_status`.
  unfoldable pub external_inbound_event :
      (ExternalInboundEventRequest → Payload)
      → Option String
      → Option ExternalInboundEventRequest
      → Action S ExternalInboundEventResult
  unfolding bind_external_inbound_event_request Inbound.external_inbound_event
  external_inbound_event to_json header body = run (institution_scope caller header) λ i.
      run (bind_external_inbound_event_request to_json i body)
        λ input. Inbound.external_inbound_event is_uuid providers input

  -- `MockInboundTransfer`
  unfoldable pub mock_inbound_transfer :
      Bool
      → (TransferRequest → Payload)
      → Option String
      → String
      → Option MockTransferRequest
      → Action S Transfer
  unfolding bind_mock_transfer_request mock_inbound
  mock_inbound_transfer demo_routes to_json header key body =
      if not demo_routes
      then stop Error.not_found
      else run (bind_mock_transfer_request (institution_scope caller header) key body)
          λ request. mock_inbound is_uuid providers to_json request

  -- `MockOutboundTransfer`
  unfoldable pub mock_outbound_transfer :
      Bool → Option String → String → Option MockTransferRequest → Action S Transfer
  unfolding bind_mock_transfer_request mock_outbound
  mock_outbound_transfer demo_routes header key body =
      if not demo_routes
      then stop Error.not_found
      else run (bind_mock_transfer_request (institution_scope caller header) key body)
          λ request. mock_outbound providers request

  -- `externalTransferRequeryHTTP`: the path, the header and the body are decoded first.
  unfoldable pub external_transfer_requery_http :
      Option String
      → Option (Option String)
      → Option (Option ExternalTransferRequeryRequest)
      → Action S ExternalTransferRequeryResult
  unfolding external_transfer_requery
  external_transfer_requery_http transfer_id params body = run (decoded transfer_id) λ id.
      run (decoded params) λ header.
        run (decoded body)
          λ request. external_transfer_requery is_uuid providers caller header id request
