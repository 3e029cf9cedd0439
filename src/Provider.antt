-- ===== src/Provider.antt =====
-- A provider of transfers between banks (corebanking/provider.go), and the helpers on its texts.
pub mod MockNip
use lenz.Prelude.{
  String, Bool, true, false, Option, none, some, List, [], ◌∷◌, ◌&&◌, ◌||◌, ◌==◌, eqb, leb,
  if◌then◌else◌,
}
use lenz.Prelude.Text.{trim_space, to_lower}
use lenz.Model.{
  Status, NameEnquiryRequest, NameEnquiryResult, ProviderTransferRequest, ProviderTransferResult,
  ProviderWebhookEvent, Error,
}
use lenz.Tx.{Result}
use Prim.Native.Char.{code}
use Prim.Native.Nat.{ℕ, suc}

-- The interface `TransferProvider`. A call may change the provider, whose state is `S`; the body of
-- a webhook is a `Payload`. `set_requery_scenario` is none where the provider is no
-- `mockRequeryScenarioSetter`.
pub record TransferProvider (S : Type 0) (Payload : Type 0) : Type 0 where
  pub name : String
  pub name_enquiry : NameEnquiryRequest → S → Result (Option NameEnquiryResult) × S
  pub initiate_transfer : ProviderTransferRequest → S → Result (Option ProviderTransferResult) × S
  pub requery_transfer : String → S → Result (Option ProviderTransferResult) × S
  pub parse_webhook :
      Payload → List (String × String) → S → Result (Option ProviderWebhookEvent) × S
  pub set_requery_scenario : Option (String → String → S → Result (Unit {0}) × S)

abbrev pub provider_unknown_failure_reason : String
provider_unknown_failure_reason = "provider_status_unknown"

-- `firstNonBlank`
unfoldable pub first_non_blank : List String → String
first_non_blank [] = ""
first_non_blank (value ∷ values) =
    let rest = first_non_blank values in if trim_space value == "" then rest else trim_space value

-- `headerValue`, of the first header of that name.
unfoldable pub header_value : List (String × String) → String → String
header_value [] name = ""
header_value ((key, value) ∷ headers) name =
    let rest = header_value headers name in
    if to_lower key == to_lower name then trim_space value else rest

abbrev is_digits : String → Bool
is_digits String.[] = true
is_digits (String.◌∷◌ c s) = leb 48 (code c) && leb (code c) 57 && is_digits s

abbrev length_of : String → ℕ
length_of String.[] = 0
length_of (String.◌∷◌ c s) = suc (length_of s)

-- `isTenDigitAccountNumber`: a text of digits has a byte for each.
unfoldable pub is_ten_digit_account_number : String → Bool
is_ten_digit_account_number account_number =
    eqb (length_of account_number) 10 && is_digits account_number

-- `providerTransferStatusUnknown`
unfoldable pub provider_transfer_status_unknown : Error → Bool
provider_transfer_status_unknown Error.provider_status_unknown = true
provider_transfer_status_unknown Error.canceled = true
provider_transfer_status_unknown Error.deadline_exceeded = true
provider_transfer_status_unknown _ = false

-- `providerTransferReference`
unfoldable pub provider_transfer_reference : ProviderTransferRequest → String
provider_transfer_reference request =
    if trim_space request.provider_reference == ""
    then trim_space request.idempotency_key
    else trim_space request.provider_reference

-- `providerUnknownTransferResult`, of the provider of that name.
unfoldable pub provider_unknown_transfer_result :
    String → ProviderTransferRequest → ProviderTransferResult
unfolding provider_transfer_reference
provider_unknown_transfer_result name request = record {
  provider = name;
  provider_reference = provider_transfer_reference request;
  provider_event_id = "";
  status = Status.pending;
  provider_status = Status.provider_unknown;
  failure_reason = provider_unknown_failure_reason;
  narration = trim_space request.narration;
  delayed = false;
  delayed_until = none;
}

-- `failedProviderTransferResult`, of the provider of that name.
unfoldable pub failed_provider_transfer_result :
    String → ProviderTransferRequest → ProviderTransferResult
unfolding provider_transfer_reference
failed_provider_transfer_result name request = record {
  provider = name;
  provider_reference = provider_transfer_reference request;
  provider_event_id = "";
  status = Status.failed;
  provider_status = Status.failed;
  failure_reason = "provider_failed";
  narration = trim_space request.narration;
  delayed = false;
  delayed_until = none;
}
