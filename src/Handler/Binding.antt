-- ===== src/Handler/Binding.antt =====
-- The checks of a request's body, and the input that the service is given (corebanking/handler.go,
-- handler_account_controls.go and handler_reconciliation.go).
use lenz.Prelude.{String, Bool, false, Option, none, some, not, ◌&&◌, ◌||◌, ◌==◌, if◌then◌else◌}
use lenz.Prelude.Int.{pos, leb_ℤ}
use lenz.Prelude.Text.{trim_space}
use lenz.Model.{
  InternalCreditInput, InternalDebitInput, InternalTransferInput, ExternalNameEnquiryInput,
  ExternalOutboundTransferInput, ExternalTransferRequeryInput, Error,
}
use lenz.Tx.{Result, ok, err}
use lenz.Provider.{is_ten_digit_account_number}
use lenz.Handler.Bodies.{
  InternalCreditRequest, InternalDebitRequest, InternalTransferRequest, ExternalNameEnquiryRequest,
  ExternalOutboundTransferRequest, ExternalTransferRequeryRequest,
}

-- `optionalString`
abbrev pub optional_string : Option String → String
optional_string none = ""
optional_string (some value) = value

abbrev pub nil_uuid : String
nil_uuid = "00000000-0000-0000-0000-000000000000"

-- A body that is given and valid.
abbrev pub bind_valid :
    {Body Input : Type 0} → (Body → Bool) → (Body → Input) → Option Body → Result Input
bind_valid invalid input none = err Error.invalid_request
bind_valid invalid input (some body) =
    if invalid body then err Error.invalid_request else ok (input body)

-- `validateInternalCreditRequest`, where it refuses a body
abbrev pub invalid_internal_credit_request : InternalCreditRequest → Bool
invalid_internal_credit_request body =
    body.account_id == nil_uuid
    || leb_ℤ body.amount_minor (pos 0)
    || not (body.currency_id == "NGN")
    || trim_space body.idempotency_key == ""

-- `bindInternalCreditRequest`
unfoldable pub bind_internal_credit_request :
    String → Option InternalCreditRequest → Result InternalCreditInput
bind_internal_credit_request institution_id = bind_valid invalid_internal_credit_request λ body.
    record {
      institution_id = institution_id;
      account_id = body.account_id;
      source_account_id = optional_string body.source_account_id;
      amount_minor = body.amount_minor;
      currency_id = body.currency_id;
      idempotency_key = body.idempotency_key;
      narration = optional_string body.narration;
      reference = optional_string body.reference;
    }

-- `validateInternalDebitRequest`, where it refuses a body
abbrev pub invalid_internal_debit_request : InternalDebitRequest → Bool
invalid_internal_debit_request body =
    body.account_id == nil_uuid
    || leb_ℤ body.amount_minor (pos 0)
    || not (body.currency_id == "NGN")
    || trim_space body.idempotency_key == ""

-- `bindInternalDebitRequest`
unfoldable pub bind_internal_debit_request :
    String → Option InternalDebitRequest → Result InternalDebitInput
bind_internal_debit_request institution_id = bind_valid invalid_internal_debit_request λ body.
    record {
      institution_id = institution_id;
      account_id = body.account_id;
      destination_account_id = optional_string body.destination_account_id;
      amount_minor = body.amount_minor;
      currency_id = body.currency_id;
      idempotency_key = body.idempotency_key;
      narration = optional_string body.narration;
      reference = optional_string body.reference;
    }

-- `validateInternalTransferRequest`, where it refuses a body
abbrev pub invalid_internal_transfer_request : InternalTransferRequest → Bool
invalid_internal_transfer_request body =
    body.source_account_id == nil_uuid
    || body.destination_account_id == nil_uuid
    || body.source_account_id == body.destination_account_id
    || leb_ℤ body.amount_minor (pos 0)
    || not (body.currency_id == "NGN")
    || trim_space body.idempotency_key == ""

-- `bindInternalTransferRequest`
unfoldable pub bind_internal_transfer_request :
    String → Option InternalTransferRequest → Result InternalTransferInput
bind_internal_transfer_request institution_id = bind_valid invalid_internal_transfer_request λ body.
    record {
      institution_id = institution_id;
      source_account_id = body.source_account_id;
      destination_account_id = body.destination_account_id;
      amount_minor = body.amount_minor;
      currency_id = body.currency_id;
      idempotency_key = body.idempotency_key;
      narration = optional_string body.narration;
      reference = optional_string body.reference;
    }

-- A currency that is given is NGN.
abbrev is_other_currency : Option String → Bool
is_other_currency none = false
is_other_currency (some currency_id) = not (currency_id == "NGN")

-- `validExternalOutboundRequestScenario` and `validExternalTransferRequeryRequestScenario`
abbrev pub is_unknown_scenario : Option String → Bool
is_unknown_scenario none = false
is_unknown_scenario (some scenario) = not (
    scenario == "success"
    || scenario == "failed"
    || scenario == "pending"
    || scenario == "timeout"
    || scenario == "provider_unknown")

-- `bindExternalNameEnquiryRequest`
unfoldable pub bind_external_name_enquiry_request :
    String → Option ExternalNameEnquiryRequest → Result ExternalNameEnquiryInput
unfolding is_ten_digit_account_number
bind_external_name_enquiry_request institution_id =
    bind_valid
      (λ body.
        trim_space body.destination_institution_code == ""
        || not (is_ten_digit_account_number (trim_space body.account_number))
        || is_other_currency body.currency_id)
      λ body. record {
        institution_id = institution_id;
        provider = optional_string body.provider;
        destination_institution_code = body.destination_institution_code;
        account_number = body.account_number;
        currency_id = optional_string body.currency_id;
      }

-- `validateExternalOutboundTransferRequest`, where it refuses a body
unfoldable pub invalid_external_outbound_transfer_request : ExternalOutboundTransferRequest → Bool
unfolding is_ten_digit_account_number
invalid_external_outbound_transfer_request body =
    body.source_account_id == nil_uuid
    || leb_ℤ body.amount_minor (pos 0)
    || trim_space body.idempotency_key == ""
    || (trim_space (optional_string body.destination_institution_code) == ""
        && trim_space (optional_string body.bank_code) == "")
    || not (is_ten_digit_account_number (trim_space body.destination_account_number))
    || is_other_currency body.currency_id
    || is_unknown_scenario body.scenario

-- `bindExternalOutboundTransferRequest`
unfoldable pub bind_external_outbound_transfer_request :
    String → Option ExternalOutboundTransferRequest → Result ExternalOutboundTransferInput
unfolding invalid_external_outbound_transfer_request
bind_external_outbound_transfer_request institution_id =
    bind_valid invalid_external_outbound_transfer_request λ body. record {
      institution_id = institution_id;
      source_account_id = body.source_account_id;
      destination_institution_code = optional_string body.destination_institution_code;
      bank_code = optional_string body.bank_code;
      destination_account_number = body.destination_account_number;
      destination_account_name = optional_string body.destination_account_name;
      amount_minor = body.amount_minor;
      currency_id = optional_string body.currency_id;
      idempotency_key = body.idempotency_key;
      provider = optional_string body.provider;
      narration = optional_string body.narration;
      reference = optional_string body.reference;
      scenario = optional_string body.scenario;
    }

-- `bindExternalTransferRequeryRequest`: the body may be left out.
unfoldable pub bind_external_transfer_requery_request :
    String → String → Option ExternalTransferRequeryRequest → Result ExternalTransferRequeryInput
bind_external_transfer_requery_request institution_id transfer_id none = ok (record {
  institution_id = institution_id;
  transfer_id = transfer_id;
  provider_reference = "";
  scenario = "";
  note = "";
})
bind_external_transfer_requery_request institution_id transfer_id (some body) =
    if is_unknown_scenario body.scenario
    then err Error.invalid_request
    else ok (record {
      institution_id = institution_id;
      transfer_id = transfer_id;
      provider_reference = optional_string body.provider_reference;
      scenario = optional_string body.scenario;
      note = optional_string body.note;
    })
