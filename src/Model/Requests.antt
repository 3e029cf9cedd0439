-- ===== src/Model/Requests.antt =====
-- The requests that the service takes for money inside the institution, and for the mock provider
-- (corebanking/model.go).
use lenz.Prelude.{String}
use lenz.Prelude.Int.{ℤ}
use lenz.Model.Enums.{Status}

pub record InternalCreditInput : Type 0 where
  pub institution_id : String
  pub account_id : String
  pub source_account_id : String
  pub amount_minor : ℤ
  pub currency_id : String
  pub idempotency_key : String
  pub narration : String
  pub reference : String

pub record InternalDebitInput : Type 0 where
  pub institution_id : String
  pub account_id : String
  pub destination_account_id : String
  pub amount_minor : ℤ
  pub currency_id : String
  pub idempotency_key : String
  pub narration : String
  pub reference : String

pub record InternalTransferInput : Type 0 where
  pub institution_id : String
  pub source_account_id : String
  pub destination_account_id : String
  pub amount_minor : ℤ
  pub currency_id : String
  pub idempotency_key : String
  pub narration : String
  pub reference : String

pub record TransferRequest : Type 0 where
  pub institution_id : String
  pub account_id : String
  pub amount_minor : ℤ
  pub currency_id : String
  pub idempotency_key : String
  pub provider_event_id : String
  pub provider_reference : String
  pub status : Status
  pub narration : String
  pub scenario : String
  pub delay_seconds : ℤ
