-- ===== src/Model/External.antt =====
-- The requests for money between banks and their results (corebanking/service_external.go). A body
-- of a webhook is a `Payload`.
use lenz.Prelude.{ℕ, String, Option, List}
use lenz.Prelude.Int.{ℤ}
use lenz.Model.Enums.{Status, Direction, LedgerStatus, ReconciliationStatus}

pub record ExternalNameEnquiryInput : Type 0 where
  pub institution_id : String
  pub provider : String
  pub destination_institution_code : String
  pub account_number : String
  pub currency_id : String

pub record ExternalOutboundTransferInput : Type 0 where
  pub institution_id : String
  pub source_account_id : String
  pub destination_institution_code : String
  pub bank_code : String
  pub destination_account_number : String
  pub destination_account_name : String
  pub amount_minor : ℤ
  pub currency_id : String
  pub idempotency_key : String
  pub provider : String
  pub narration : String
  pub reference : String
  pub scenario : String

pub record ExternalInboundEventInput (Payload : Type 0) : Type 0 where
  pub institution_id : String
  pub provider : String
  pub payload : Payload
  pub headers : List (String × String)

pub record ExternalTransferRequeryInput : Type 0 where
  pub institution_id : String
  pub transfer_id : String
  pub provider_reference : String
  pub scenario : String
  pub note : String

pub record ExternalNameEnquiryResult : Type 0 where
  pub provider : String
  pub destination_institution_code : String
  pub account_number : String
  pub account_name : String
  pub provider_reference : Option String
  pub status : String
  pub message : String
  pub created_at : ℕ

pub record ExternalOutboundTransferResult : Type 0 where
  pub transfer_id : String
  pub source_account_id : String
  pub provider : String
  pub provider_reference : String
  pub provider_status : Status
  pub ledger_status : LedgerStatus
  pub reconciliation_status : ReconciliationStatus
  pub status : Status
  pub amount_minor : ℤ
  pub currency_id : String
  pub journal_entry_id : Option String
  pub hold_id : Option String
  pub created_at : ℕ

pub record ExternalInboundEventResult : Type 0 where
  pub transfer_id : Option String
  pub provider_event_id : String
  pub provider_reference : String
  pub provider_status : Status
  pub ledger_status : LedgerStatus
  pub reconciliation_status : ReconciliationStatus
  pub status : Status
  pub journal_entry_id : Option String
  pub message : String
  pub http_status : ℕ

pub record ExternalTransferRequeryResult : Type 0 where
  pub transfer_id : String
  pub account_id : String
  pub direction : Direction
  pub provider : String
  pub provider_reference : String
  pub provider_status : Status
  pub ledger_status : LedgerStatus
  pub reconciliation_status : ReconciliationStatus
  pub status : Status
  pub amount_minor : ℤ
  pub currency_id : String
  pub journal_entry_id : Option String
  pub hold_id : Option String
  pub message : String
  pub created_at : ℕ
