-- ===== src/Service/External.antt =====
-- Money between banks: what the service offers over a provider (corebanking/service_external.go and
-- `provider` of corebanking/service.go). Whether a text is a UUID and the providers are parameters.
pub mod Inputs
pub mod Outbound
pub mod Event
pub mod Inbound
pub mod Requery
pub mod Unpaid
pub mod Repeated
pub mod Contradicted
pub mod Delayed
pub mod Blocked
use lenz.Prelude.{
  String, Bool, true, false, Option, none, some, List, [], ◌∷◌, not, ◌||◌, ◌==◌, if◌then◌else◌,
}
use lenz.Prelude.Assoc.{lookup}
use lenz.Prelude.Text.{trim_space, to_upper}
use lenz.Model.{
  AccountHold, Transfer, is_invalid_request, NameEnquiryRequest, NameEnquiryResult,
  ProviderTransferRequest, ProviderTransferResult, ExternalNameEnquiryInput,
  ExternalNameEnquiryResult, Error,
}
use lenz.Tx.{Result, ok, err, Tx, gets}
use lenz.Audit.{optional_audit_string}
use lenz.Holds.{get_for_transfer}
use lenz.Provider.{
  TransferProvider, first_non_blank, is_ten_digit_account_number, provider_transfer_status_unknown,
  provider_unknown_transfer_result, failed_provider_transfer_result,
}
use lenz.Provider.MockNip.{mock_nip}
use lenz.Service.{require_institution_id}
use lenz.Service.Action.{Action, done, stop, stop_if, query, call, attempt, ◌>>=◌, ◌>>◌}
use lenz.Service.External.Inputs.{text_or}
use Prim.Native.Nat.{ℕ}

abbrev hold_id : Option AccountHold → Option String
hold_id none = none
hold_id (some hold) = some hold.id

-- The identifier of the hold of a transfer, if there is one.
unfoldable pub hold_id_of : Transfer → Tx (Option String)
unfolding get_for_transfer
hold_id_of transfer s = elim (get_for_transfer transfer.institution_id transfer.id s) [
  | ok (found, t) ↦ ok (hold_id found, t)
  | err e ↦ err e
]

-- `externalNameEnquiryResult`
abbrev name_enquiry_result :
    String
    → String
    → String
    → String
    → Option String
    → String
    → String
    → ℕ
    → ExternalNameEnquiryResult
name_enquiry_result provider code account_number account_name reference status message now =
    record {
      provider = provider;
      destination_institution_code = code;
      account_number = account_number;
      account_name = account_name;
      provider_reference = reference;
      status = status;
      message = message;
      created_at = now;
    }

-- `externalNameEnquiryErrorResult`
abbrev name_enquiry_error_result : String → String → String → Error → ℕ → ExternalNameEnquiryResult
name_enquiry_error_result provider code account_number Error.not_found now =
    name_enquiry_result provider code account_number "" none "not_found" "account_not_found" now
name_enquiry_error_result provider code account_number _ now =
    name_enquiry_result provider code account_number "" none "provider_unavailable"
      "provider_unavailable" now

-- What the service makes of the provider's answer to a name enquiry.
unfoldable pub enquiry_answer :
    {S : Type 0}
    → String
    → String
    → String
    → ℕ
    → Result (Option NameEnquiryResult)
    → Action S ExternalNameEnquiryResult
unfolding first_non_blank
enquiry_answer name code account_number now (err e) =
    if is_invalid_request e
    then stop Error.invalid_request
    else done (name_enquiry_error_result name code account_number e now)
enquiry_answer name code account_number now (ok none) =
    done (name_enquiry_result name code account_number "" none "not_found" "account_not_found" now)
enquiry_answer name code account_number now (ok (some result)) = done (
    if trim_space result.account_name == ""
    then name_enquiry_result name code account_number "" none "not_found" "account_not_found" now
    else name_enquiry_result (first_non_blank (result.provider ∷ name ∷ []))
        (first_non_blank (result.bank_code ∷ code ∷ []))
        (first_non_blank (result.account_number ∷ account_number ∷ []))
        (trim_space result.account_name) (optional_audit_string result.provider_reference) "found"
        "account_found" now)

-- The provider's answer to a new transfer, or the one that stands for its error.
unfoldable pub answer_of :
    String
    → ProviderTransferRequest
    → Result (Option ProviderTransferResult)
    → ProviderTransferResult
unfolding provider_transfer_status_unknown provider_unknown_transfer_result
    failed_provider_transfer_result
answer_of name request (ok (some result)) = result
answer_of name request (ok none) = failed_provider_transfer_result name request
answer_of name request (err e) =
    if provider_transfer_status_unknown e
    then provider_unknown_transfer_result name request
    else failed_provider_transfer_result name request

module _ {S Payload : Type 0} (providers : List (String × TransferProvider S Payload)) where
  -- `provider`
  unfoldable pub provider_of : String → Action S (TransferProvider S Payload)
  provider_of given =
      let name = trim_space given in
      if name == "" then stop Error.invalid_request else elim (lookup name providers) [
        | none ↦ stop Error.unsupported_provider
        | some provider ↦ done provider
      ]

  -- `ExternalNameEnquiry`
  unfoldable pub external_name_enquiry :
      ExternalNameEnquiryInput → Action S ExternalNameEnquiryResult
  unfolding require_institution_id is_ten_digit_account_number provider_of enquiry_answer
  external_name_enquiry input = do
    institution_id ← query (require_institution_id input.institution_id)
    let name = text_or (trim_space input.provider) mock_nip
    let code = trim_space input.destination_institution_code
    let account_number = trim_space input.account_number
    let currency_id = text_or (to_upper (trim_space input.currency_id)) "NGN"
    stop_if
        (code == ""
          || not (is_ten_digit_account_number account_number)
          || not (currency_id == "NGN"))
        Error.invalid_request
    provider ← provider_of name
    answer ← attempt (
        call (
          provider.name_enquiry (record {
            institution_id = institution_id;
            bank_code = code;
            account_number = account_number;
          })))
    now ← query (gets (λ s. s.env.now))
    enquiry_answer name code account_number now answer
