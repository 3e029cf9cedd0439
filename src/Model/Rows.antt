-- ===== src/Model/Rows.antt =====
-- The rows of the tables: the structs of corebanking/model.go. A time is a number, a nullable
-- column an option, and an `int64` an integer.
use lenz.Prelude.{ℕ, String, Bool, Option, List}
use lenz.Prelude.Int.{ℤ}
use lenz.Model.Enums.{
  Status, Direction, LedgerStatus, ReconciliationStatus, HoldStatus, AccountKind, AccountStatus,
  Side,
}

pub record Account : Type 0 where
  pub id : String
  pub institution_id : String
  pub customer_id : Option String
  pub account_number : String
  pub name : String
  pub kind : AccountKind
  pub product_type : String
  pub allow_negative : Bool
  pub currency_id : String
  pub normal_balance : Side
  pub status : AccountStatus
  pub created_at : ℕ
  pub updated_at : ℕ

pub record AccountBalance : Type 0 where
  pub account_id : String
  pub institution_id : String
  pub available_minor : ℤ
  pub ledger_minor : ℤ
  pub currency_id : String
  pub last_journal_entry_id : Option String
  pub updated_at : ℕ

-- The last four fields are the columns that the reconciliation review reads and writes.
pub record Transfer : Type 0 where
  pub id : String
  pub institution_id : String
  pub account_id : String
  pub direction : Direction
  pub status : Status
  pub provider_status : Status
  pub ledger_status : LedgerStatus
  pub reconciliation_status : ReconciliationStatus
  pub amount_minor : ℤ
  pub currency_id : String
  pub idempotency_key : String
  pub provider : String
  pub provider_reference : String
  pub provider_event_id : Option String
  pub journal_entry_id : Option String
  pub reversal_of_transfer_id : Option String
  pub request_fingerprint : String
  pub failure_reason : Option String
  pub narration : String
  pub created_at : ℕ
  pub updated_at : ℕ
  pub review_status : Option String
  pub review_note : Option String
  pub reviewed_at : Option ℕ
  pub reviewed_by : Option String

pub record JournalEntry : Type 0 where
  pub id : String
  pub institution_id : String
  pub transfer_id : String
  pub entry_type : Direction
  pub currency_id : String
  pub narration : String
  pub total_debit_minor : ℤ
  pub total_credit_minor : ℤ
  pub created_at : ℕ

pub record Posting : Type 0 where
  pub id : String
  pub institution_id : String
  pub journal_entry_id : String
  pub account_id : String
  pub direction : Side
  pub amount_minor : ℤ
  pub currency_id : String
  pub created_at : ℕ

pub record AccountHold : Type 0 where
  pub id : String
  pub institution_id : String
  pub account_id : String
  pub transfer_id : Option String
  pub amount_minor : ℤ
  pub currency_id : String
  pub status : HoldStatus
  pub reason : String
  pub reference : String
  pub created_at : ℕ
  pub updated_at : ℕ
  pub released_at : Option ℕ

-- The columns of `provider_events`.
pub record ProviderEvent : Type 0 where
  pub id : String
  pub institution_id : String
  pub provider : String
  pub provider_event_id : String
  pub provider_reference : String
  pub transfer_id : Option String
  pub request_fingerprint : String
  pub created_at : ℕ

pub record AuditEvent : Type 0 where
  pub id : String
  pub institution_id : String
  pub actor_type : String
  pub actor_id : String
  pub request_id : String
  pub action : String
  pub entity_type : String
  pub entity_id : String
  pub customer_id : Option String
  pub account_id : Option String
  pub transfer_id : Option String
  pub journal_entry_id : Option String
  pub idempotency_key : Option String
  pub reference : Option String
  pub old_status : Option String
  pub new_status : Option String
  pub metadata : List (String × String)
  pub created_at : ℕ

-- The struct `ReconciliationItem`: columns of a transfer, with what is computed of them.
pub record ReconciliationItem : Type 0 where
  pub transfer_id : String
  pub institution_id : String
  pub account_id : String
  pub direction : Direction
  pub status : Status
  pub provider : String
  pub provider_reference : String
  pub provider_event_id : Option String
  pub provider_status : Status
  pub ledger_status : LedgerStatus
  pub reconciliation_status : ReconciliationStatus
  pub amount_minor : ℤ
  pub currency_id : String
  pub failure_reason : Option String
  pub journal_entry_id : Option String
  pub created_at : ℕ
  pub updated_at : ℕ
  pub review_reason : String
  pub recommended_next_action : String
  pub review_status : Option String
  pub review_note : Option String
  pub reviewed_at : Option ℕ
  pub reviewed_by : Option String
