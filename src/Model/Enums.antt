-- ===== src/Model/Enums.antt =====
-- The groups of string constants of corebanking/model.go. Where a column or an argument may hold
-- another text, `other` carries it; the empty text is `other ""`.
use lenz.Prelude.{String, Bool, true, false, ◌==◌, if◌then◌else◌}
use lenz.Prelude.Text.{trim_space, to_lower}

-- The constants `TransferStatus…` and `TransferProviderStatusUnknown`.
pub data Status : Type 0 where
  pending succeeded failed provider_unknown : Status
  other : String → Status

-- The constants `TransferDirection…`.
pub data Direction : Type 0 where
  inbound outbound reversal : Direction
  other : String → Direction

-- The constants `LedgerStatus…`; a CHECK of the table admits no other.
pub data LedgerStatus : Type 0 where
  pending posted no_posting reversal_deficit : LedgerStatus

-- The constants `ReconciliationStatus…`; a CHECK of the table admits no other.
pub data ReconciliationStatus : Type 0 where
  pending matched no_action manual_review : ReconciliationStatus

-- The constants `HoldStatus…`; a CHECK of the table admits no other.
pub data HoldStatus : Type 0 where
  active released consumed : HoldStatus

-- The constants `AccountKind…`; a CHECK of the table admits no other.
pub data AccountKind : Type 0 where
  customer internal : AccountKind

-- The constants `AccountStatus…`.
pub data AccountStatus : Type 0 where
  active frozen post_no_debit closed : AccountStatus
  other : String → AccountStatus

-- `NormalBalance…` and `Posting…`: the two sides of an account.
pub data Side : Type 0 where
  debit credit : Side

abbrev pub status_text : Status → String
status_text Status.pending = "pending"
status_text Status.succeeded = "succeeded"
status_text Status.failed = "failed"
status_text Status.provider_unknown = "provider_unknown"
status_text (Status.other s) = s

unfoldable pub status_of_text : String → Status
status_of_text s =
    if s == "pending"
    then Status.pending
    else if s == "succeeded"
    then Status.succeeded
    else if s == "failed"
    then Status.failed
    else if s == "provider_unknown"
    then Status.provider_unknown
    else Status.other s

-- `strings.ToLower(strings.TrimSpace(status))`
unfoldable pub normalize_status : Status → Status
unfolding status_of_text trim_space to_lower
normalize_status st = status_of_text (to_lower (trim_space (status_text st)))

abbrev pub direction_text : Direction → String
direction_text Direction.inbound = "inbound"
direction_text Direction.outbound = "outbound"
direction_text Direction.reversal = "reversal"
direction_text (Direction.other s) = s

unfoldable pub direction_of_text : String → Direction
direction_of_text s =
    if s == "inbound"
    then Direction.inbound
    else if s == "outbound"
    then Direction.outbound
    else if s == "reversal"
    then Direction.reversal
    else Direction.other s

-- `strings.ToLower(strings.TrimSpace(direction))`
unfoldable pub normalize_direction : Direction → Direction
unfolding direction_of_text trim_space to_lower
normalize_direction d = direction_of_text (to_lower (trim_space (direction_text d)))

abbrev pub account_status_text : AccountStatus → String
account_status_text AccountStatus.active = "active"
account_status_text AccountStatus.frozen = "frozen"
account_status_text AccountStatus.post_no_debit = "post_no_debit"
account_status_text AccountStatus.closed = "closed"
account_status_text (AccountStatus.other s) = s

abbrev pub ledger_status_text : LedgerStatus → String
ledger_status_text LedgerStatus.pending = "pending"
ledger_status_text LedgerStatus.posted = "posted"
ledger_status_text LedgerStatus.no_posting = "no_posting"
ledger_status_text LedgerStatus.reversal_deficit = "reversal_deficit"

abbrev pub reconciliation_status_text : ReconciliationStatus → String
reconciliation_status_text ReconciliationStatus.pending = "pending"
reconciliation_status_text ReconciliationStatus.matched = "matched"
reconciliation_status_text ReconciliationStatus.no_action = "no_action"
reconciliation_status_text ReconciliationStatus.manual_review = "manual_review"

-- The comparisons with a constant that the code writes.
abbrev pub is_pending : Status → Bool
is_pending Status.pending = true
is_pending _ = false

abbrev pub is_succeeded : Status → Bool
is_succeeded Status.succeeded = true
is_succeeded _ = false

abbrev pub is_failed : Status → Bool
is_failed Status.failed = true
is_failed _ = false

abbrev pub is_unknown : Status → Bool
is_unknown Status.provider_unknown = true
is_unknown _ = false

abbrev pub is_blank : Status → Bool
is_blank (Status.other s) = s == ""
is_blank _ = false

abbrev pub is_empty_direction : Direction → Bool
is_empty_direction (Direction.other s) = s == ""
is_empty_direction _ = false

abbrev pub is_outbound : Direction → Bool
is_outbound Direction.outbound = true
is_outbound _ = false

abbrev pub is_inbound : Direction → Bool
is_inbound Direction.inbound = true
is_inbound _ = false

abbrev pub is_reversal : Direction → Bool
is_reversal Direction.reversal = true
is_reversal _ = false

abbrev pub is_customer : AccountKind → Bool
is_customer AccountKind.customer = true
is_customer AccountKind.internal = false

abbrev pub is_active_hold : HoldStatus → Bool
is_active_hold HoldStatus.active = true
is_active_hold _ = false

abbrev pub is_frozen : AccountStatus → Bool
is_frozen AccountStatus.frozen = true
is_frozen _ = false

abbrev pub is_closed : AccountStatus → Bool
is_closed AccountStatus.closed = true
is_closed _ = false

abbrev pub same_side : Side → Side → Bool
same_side Side.debit Side.debit = true
same_side Side.credit Side.credit = true
same_side _ _ = false

abbrev pub same_status : Status → Status → Bool
same_status a b = status_text a == status_text b

abbrev pub same_direction : Direction → Direction → Bool
same_direction a b = direction_text a == direction_text b

abbrev pub same_account_status : AccountStatus → AccountStatus → Bool
same_account_status a b = account_status_text a == account_status_text b
