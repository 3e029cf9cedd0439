-- ===== src/Model/Lists.antt =====
-- What a list is asked for, and the rows of an account's history (corebanking/model.go).
use lenz.Prelude.{ℕ, String, Bool, Option, List}
use lenz.Model.Rows.{JournalEntry, Posting}
use lenz.Prelude.Int.{ℤ}
use lenz.Model.Enums.{Status, Side, LedgerStatus, ReconciliationStatus}

-- The structs `ListTransactionsOptions`, `ListTransfersOptions` and `ListAuditEventsOptions`, whose
-- fields are the same: `before_id` is the identifier of the last row read.
pub record ListOptions : Type 0 where
  pub limit : ℤ
  pub before_created_at : Option ℕ
  pub before_id : String

pub record ListReconciliationItemsOptions : Type 0 where
  pub limit : ℤ
  pub before_created_at : Option ℕ
  pub before_transfer_id : String
  pub status : String
  pub provider_status : String
  pub ledger_status : String
  pub reconciliation_status : String
  pub stale_pending_minutes : ℤ

-- The struct `Transaction`.
pub record Transaction : Type 0 where
  pub id : String
  pub transfer_id : String
  pub journal_entry_id : Option String
  pub account_id : String
  pub institution_id : String
  pub direction : Side
  pub status : Status
  pub ledger_status : LedgerStatus
  pub provider_status : Status
  pub reconciliation_status : ReconciliationStatus
  pub amount_minor : ℤ
  pub signed_amount_minor : ℤ
  pub currency_id : String
  pub narration : String
  pub counterparty_account_id : Option String
  pub provider : String
  pub provider_reference : String
  pub created_at : ℕ

-- The struct `JournalWithPostings`.
pub record JournalWithPostings : Type 0 where
  pub journal_entry : JournalEntry
  pub postings : List Posting
  pub balanced : Bool
