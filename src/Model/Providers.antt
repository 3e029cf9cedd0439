-- ===== src/Model/Providers.antt =====
-- What passes between the service and a provider (corebanking/provider.go).
use lenz.Prelude.{String, Bool, Option}
use lenz.Prelude.Int.{ℤ}
use lenz.Model.Enums.{Status, Direction}

pub record NameEnquiryRequest : Type 0 where
  pub institution_id : String
  pub bank_code : String
  pub account_number : String

pub record NameEnquiryResult : Type 0 where
  pub provider : String
  pub provider_reference : String
  pub account_name : String
  pub bank_code : String
  pub account_number : String

pub record ProviderTransferRequest : Type 0 where
  pub institution_id : String
  pub account_id : String
  pub destination_institution_code : String
  pub destination_account_number : String
  pub destination_account_name : String
  pub amount_minor : ℤ
  pub currency_id : String
  pub idempotency_key : String
  pub provider_reference : String
  pub provider_event_id : String
  pub status : Status
  pub failure_reason : String
  pub narration : String
  pub scenario : String
  pub delay_seconds : ℤ

-- A time is an integer of nanoseconds.
pub record ProviderTransferResult : Type 0 where
  pub provider : String
  pub provider_reference : String
  pub provider_event_id : String
  pub status : Status
  pub provider_status : Status
  pub failure_reason : String
  pub narration : String
  pub delayed : Bool
  pub delayed_until : Option ℤ

pub record ProviderWebhookEvent : Type 0 where
  pub provider : String
  pub institution_id : String
  pub account_id : String
  pub destination_account_number : String
  pub direction : Direction
  pub status : Status
  pub amount_minor : ℤ
  pub currency_id : String
  pub idempotency_key : String
  pub provider_reference : String
  pub provider_event_id : String
  pub reversal_of_transfer_id : String
  pub sender_name : String
  pub sender_account_number : String
  pub sender_institution_code : String
  pub failure_reason : String
  pub narration : String
  pub scenario : String
  pub request_fingerprint : String
  pub delayed : Bool
  pub delayed_until : Option ℤ
