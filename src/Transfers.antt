-- ===== src/Transfers.antt =====
-- The rows of `transfers` and how the code finds them (corebanking/sql_transfer_repository.go).
-- The operations are in the child modules: Replay (what was recorded before), Settle (the end of a
-- pending transfer), Record, Complete and Requery (external transfers), and Reverse.
pub mod Rows
pub mod Replay
pub mod Settle
pub mod Record
pub mod Complete
pub mod Requery
pub mod Reverse
pub mod Review
use lenz.Prelude.{
  ℕ, String, Bool, true, false, Option, none, some, not, ◌&&◌, ◌||◌, ◌==◌, eqb, ltb, leb, List,
  if◌then◌else◌,
}
use lenz.Prelude.Int.{pos, leb_ℤ}
use lenz.Prelude.Table.{find, select, insert, update, count, every, best}
use lenz.Prelude.Text.{trim_space}
use lenz.Model.{
  Status, Direction, LedgerStatus, ReconciliationStatus, normalize_status, is_pending, is_succeeded,
  is_unknown, is_blank, is_reversal, same_direction, Transfer, RecordTransferInput, Error,
}
use lenz.Tx.{Tx, pure, gets, require, fail_if, modify, ◌>>=◌, ◌>>◌}
use lenz.Policy.{transfer_statuses, would_create_reversal_deficit}
use lenz.Accounts.{LockedAccountBalance}
use lenz.Ledger.{unlisted_direction}
use lenz.ProviderEvents.{is_transfer}
use lenz.Holds.{holds_text}

abbrev pub is_keyed : String → String → Transfer → Bool
is_keyed institution_id idempotency_key t =
    t.institution_id == institution_id && t.idempotency_key == idempotency_key

abbrev pub is_referenced : String → String → String → Direction → Transfer → Bool
is_referenced institution_id provider provider_reference direction t =
    t.institution_id == institution_id
    && t.provider == provider
    && t.provider_reference == provider_reference
    && same_direction t.direction direction

abbrev pub is_active_reversal : String → String → Transfer → Bool
is_active_reversal institution_id original_id t =
    t.institution_id == institution_id
    && holds_text t.reversal_of_transfer_id original_id
    && is_reversal t.direction
    && (is_succeeded t.status || is_pending t.status)

-- `getTransferForUpdate`, and `GetTransfer`
unfoldable pub get_transfer : String → String → Tx Transfer
get_transfer institution_id transfer_id = do
  found ← gets (λ s. find (is_transfer institution_id transfer_id) s.transfers)
  require found Error.not_found

-- `getTransferByIdempotency`: `none` is ErrNotFound, here and below.
unfoldable pub get_transfer_by_idempotency : String → String → Tx (Option Transfer)
get_transfer_by_idempotency institution_id idempotency_key =
    gets (λ s. find (is_keyed institution_id idempotency_key) s.transfers)

-- `getActiveReversalOf`
unfoldable pub get_active_reversal_of : String → String → Tx (Option Transfer)
get_active_reversal_of institution_id original_id =
    gets (λ s. find (is_active_reversal institution_id original_id) s.transfers)

abbrev pub older : Transfer → Transfer → Bool
older a b = ltb a.created_at b.created_at

abbrev fresher : Transfer → Transfer → Bool
fresher a b =
    ltb b.updated_at a.updated_at
    || (eqb a.updated_at b.updated_at && ltb b.created_at a.created_at)

-- `getPendingTransferByProviderReference`
unfoldable pub get_pending_transfer_by_provider_reference :
    String → String → String → Direction → Tx (Option Transfer)
get_pending_transfer_by_provider_reference institution_id provider provider_reference direction =
    gets (λ s. best older (
      select
        (λ t.
          is_referenced institution_id provider provider_reference direction t
          && is_pending t.status)
        s.transfers))

-- `getSettledTransferByProviderReference`
unfoldable pub get_settled_transfer_by_provider_reference :
    String → String → String → Direction → Tx (Option Transfer)
get_settled_transfer_by_provider_reference institution_id provider provider_reference direction =
    gets (λ s. best fresher (
      select
        (λ t.
          is_referenced institution_id provider provider_reference direction t
          && not (is_pending t.status))
        s.transfers))

-- The CHECKs of the columns `status` and `provider_status`.
abbrev pub unlisted_status : Status → Bool
unlisted_status Status.provider_unknown = true
unlisted_status (Status.other _) = true
unlisted_status _ = false

abbrev pub unlisted_provider_status : Status → Bool
unlisted_provider_status (Status.other _) = true
unlisted_provider_status _ = false

abbrev same_reversal : Transfer → Transfer → Bool
same_reversal t u = elim t.reversal_of_transfer_id [
  | none ↦ false
  | some original_id ↦
      is_active_reversal t.institution_id original_id t
      && is_active_reversal t.institution_id original_id u
]

-- The index `transfers_one_active_reversal_idx`.
unfoldable pub one_active_reversal : List Transfer → Bool
one_active_reversal rows = every (λ t. leb (count (same_reversal t) rows) 1) rows

-- A row that breaks the primary key or the index on keys.
abbrev pub is_rival : Transfer → Transfer → Bool
is_rival transfer t =
    t.id == transfer.id || is_keyed transfer.institution_id transfer.idempotency_key t

-- INSERT INTO transfers
unfoldable pub insert_transfer : Transfer → Tx (Unit {0})
insert_transfer transfer = do
  rows ← gets (λ s. s.transfers)
  fail_if (leb_ℤ transfer.amount_minor (pos 0)) Error.database
  fail_if (unlisted_direction transfer.direction) Error.database
  fail_if (unlisted_status transfer.status) Error.database
  fail_if (unlisted_provider_status transfer.provider_status) Error.database
  fail_if (not (eqb (count (is_rival transfer) rows) 0)) Error.database
  fail_if (not (one_active_reversal (insert transfer rows))) Error.database
  modify (λ s. record s { transfers = insert transfer s.transfers })

abbrev pub is_listed : Transfer → Bool
is_listed t =
    not (unlisted_direction t.direction)
    && not (unlisted_status t.status)
    && not (unlisted_provider_status t.provider_status)

-- UPDATE transfers … WHERE institution_id = … AND id = …
unfoldable pub update_transfer : String → String → (Transfer → Transfer) → Tx (Unit {0})
update_transfer institution_id transfer_id f = do
  rows ← gets (λ s. s.transfers)
  let rows' = update (is_transfer institution_id transfer_id) f rows
  fail_if (not (every is_listed rows')) Error.database
  fail_if (not (one_active_reversal rows')) Error.database
  modify (λ s. record s { transfers = rows' })

-- `strings.ToLower(strings.TrimSpace(input.ProviderStatus))`, or the status where that is empty.
unfoldable pub stated_provider_status : RecordTransferInput → Status
unfolding normalize_status
stated_provider_status input =
    let provider_status = normalize_status input.provider_status in
    if is_blank provider_status then input.status else provider_status

-- An unknown outcome leaves the transfer pending.
abbrev pub effective_status : Status → Status → Status
effective_status provider_status status =
    if is_unknown provider_status then Status.pending else status

-- The ledger and reconciliation statuses of a transfer that gets `status`.
unfoldable pub ledger_outcome :
    LockedAccountBalance
    → RecordTransferInput
    → Status
    → Status
    → LedgerStatus × ReconciliationStatus
ledger_outcome locked input status provider_status =
    let (ledger_status, reconciliation_status) = transfer_statuses status in
    if is_succeeded status && would_create_reversal_deficit locked.account locked.balance input
    then (LedgerStatus.reversal_deficit, ReconciliationStatus.manual_review)
    else (
      ledger_status,
      if is_unknown provider_status
          then ReconciliationStatus.manual_review
          else reconciliation_status,
    )

-- A failure reason, a provider event or a narration as the code stores it.
abbrev pub given_or : String → Option String → Option String
given_or text before = if text == "" then before else some text

abbrev pub narration_or : String → String → String
narration_or text before =
    let trimmed = trim_space text in if trimmed == "" then before else trimmed
