-- ===== src/Model/Inputs.antt =====
-- The inputs of the repository's operations (corebanking/model.go) and the errors.
use lenz.Prelude.{String, Bool, true, false}
use lenz.Prelude.Int.{ℤ}
use lenz.Model.Enums.{Status, Direction}

pub record RecordTransferInput : Type 0 where
  pub institution_id : String
  pub account_id : String
  pub clearing_account_id : String
  pub direction : Direction
  pub status : Status
  pub amount_minor : ℤ
  pub currency_id : String
  pub idempotency_key : String
  pub provider : String
  pub provider_reference : String
  pub provider_event_id : String
  pub provider_status : Status
  pub reversal_of_transfer_id : String
  pub request_fingerprint : String
  pub failure_reason : String
  pub narration : String
  pub reject_insufficient : Bool
  pub require_available : Bool

pub record ReverseTransferInput : Type 0 where
  pub institution_id : String
  pub transfer_id : String
  pub idempotency_key : String
  pub provider : String
  pub provider_reference : String
  pub provider_event_id : String
  pub failure_reason : String
  pub narration : String

pub record AccountControlInput : Type 0 where
  pub institution_id : String
  pub account_id : String
  pub reference : String
  pub reason : String

pub record AccountLienInput : Type 0 where
  pub institution_id : String
  pub account_id : String
  pub amount_minor : ℤ
  pub currency_id : String
  pub reference : String
  pub reason : String

pub record ReleaseLienInput : Type 0 where
  pub institution_id : String
  pub account_id : String
  pub lien_id : String
  pub reference : String
  pub reason : String

pub record RecordProviderEventReviewInput : Type 0 where
  pub institution_id : String
  pub account_id : String
  pub direction : Direction
  pub status : Status
  pub provider_status : Status
  pub amount_minor : ℤ
  pub currency_id : String
  pub idempotency_key : String
  pub provider : String
  pub provider_reference : String
  pub provider_event_id : String
  pub request_fingerprint : String
  pub failure_reason : String
  pub narration : String
  pub reserve_provider_event : Bool

pub record MarkReconciliationItemReviewedInput : Type 0 where
  pub institution_id : String
  pub transfer_id : String
  pub resolution_note : String
  pub resolution_status : String

-- The error values of model.go and provider.go. `unsupported_provider` is joined to
-- `ErrInvalidRequest`; `canceled` and `deadline_exceeded` are those of package context; `database`
-- is an error of a statement, such as a constraint that it breaks.
pub data Error : Type 0 where
  not_found insufficient invalid_request unauthorized forbidden conflict data_integrity : Error
  unsupported_provider provider_status_unknown provider_unavailable canceled : Error
  deadline_exceeded database : Error

-- `errors.Is(err, ErrInvalidRequest)`
abbrev pub is_invalid_request : Error → Bool
is_invalid_request Error.invalid_request = true
is_invalid_request Error.unsupported_provider = true
is_invalid_request _ = false
