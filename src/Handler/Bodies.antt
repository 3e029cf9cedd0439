-- ===== src/Handler/Bodies.antt =====
-- The bodies of the requests, as the schemas of design/openapi/core/corebanking.yaml give them. A UUID
-- is its text in the canonical form.
use lenz.Prelude.{String, Option}
use lenz.Prelude.Int.{ℤ}
use lenz.Model.{Status}

pub record InternalCreditRequest : Type 0 where
  pub account_id : String
  pub amount_minor : ℤ
  pub currency_id : String
  pub idempotency_key : String
  pub narration : Option String
  pub source_account_id : Option String
  pub reference : Option String

pub record InternalDebitRequest : Type 0 where
  pub account_id : String
  pub amount_minor : ℤ
  pub currency_id : String
  pub idempotency_key : String
  pub narration : Option String
  pub destination_account_id : Option String
  pub reference : Option String

pub record InternalTransferRequest : Type 0 where
  pub source_account_id : String
  pub destination_account_id : String
  pub amount_minor : ℤ
  pub currency_id : String
  pub idempotency_key : String
  pub narration : Option String
  pub reference : Option String

pub record ExternalNameEnquiryRequest : Type 0 where
  pub provider : Option String
  pub destination_institution_code : String
  pub account_number : String
  pub currency_id : Option String

pub record ExternalOutboundTransferRequest : Type 0 where
  pub source_account_id : String
  pub destination_institution_code : Option String
  pub bank_code : Option String
  pub destination_account_number : String
  pub destination_account_name : Option String
  pub amount_minor : ℤ
  pub currency_id : Option String
  pub idempotency_key : String
  pub provider : Option String
  pub narration : Option String
  pub reference : Option String
  pub scenario : Option String

pub record ExternalTransferRequeryRequest : Type 0 where
  pub provider_reference : Option String
  pub scenario : Option String
  pub note : Option String

pub record AccountControlRequest : Type 0 where
  pub reference : String
  pub reason : String

pub record AccountLienRequest : Type 0 where
  pub amount_minor : ℤ
  pub currency_id : String
  pub reference : String
  pub reason : String

pub record ReleaseLienRequest : Type 0 where
  pub reference : String
  pub reason : Option String

pub record MarkReconciliationItemReviewedRequest : Type 0 where
  pub resolution_note : String
  pub resolution_status : String

pub record ExternalInboundEventRequest : Type 0 where
  pub provider : Option String
  pub provider_event_id : String
  pub provider_reference : String
  pub account_id : Option String
  pub destination_account_number : Option String
  pub amount_minor : ℤ
  pub currency_id : Option String
  pub status : Status
  pub sender_name : Option String
  pub sender_account_number : Option String
  pub sender_institution_code : Option String
  pub narration : Option String
  pub scenario : Option String

pub record MockTransferRequest : Type 0 where
  pub institution_id : Option String
  pub account_id : String
  pub amount_minor : ℤ
  pub currency_id : Option String
  pub idempotency_key : Option String
  pub provider_event_id : Option String
  pub provider_reference : Option String
  pub status : Option Status
  pub narration : Option String
  pub scenario : Option String
  pub delay_seconds : Option ℤ
