-- ===== src/Reconciliation/State.antt =====
-- Which transfers need a review, as the program tells it (`reconciliationReviewState`) and as the
-- query selects them (`reconciliationIssueSQL`).
use lenz.Prelude.{ℕ, ◌*◌, String, Bool, true, false, none, some, not, ◌&&◌, ◌||◌, if◌then◌else◌}
use lenz.Prelude.Time.{minus_duration, minute}
use lenz.Prelude.Int.{ℤ, pos, leb_ℤ, ltb_ℤ, ◌+ℤ◌, pos_part}
use lenz.Model.{
  LedgerStatus, is_pending, is_succeeded, is_failed, is_unknown, Transfer, ReconciliationItem,
}
use lenz.Audit.Transfers.{is_manual_review}

abbrev pub is_posted : LedgerStatus → Bool
is_posted LedgerStatus.posted = true
is_posted _ = false

abbrev pub is_reversal_deficit : LedgerStatus → Bool
is_reversal_deficit LedgerStatus.reversal_deficit = true
is_reversal_deficit _ = false

abbrev default_stale_pending_minutes : ℕ
default_stale_pending_minutes = 24 * 60

-- `time.Now().UTC().Add(-time.Duration(minutes) * time.Minute)`
unfoldable pub before_now : ℕ → ℕ → ℤ
unfolding minus_duration
before_now now minutes = pos now +ℤ minus_duration minutes minute

-- `reconciliationStalePendingCutoff`
unfoldable pub reconciliation_stale_pending_cutoff : ℤ → ℕ → ℤ
unfolding before_now
reconciliation_stale_pending_cutoff stale_pending_minutes now =
    if leb_ℤ stale_pending_minutes (pos 0)
    then before_now now default_stale_pending_minutes
    else before_now now (pos_part stale_pending_minutes)

-- The cutoff without options.
unfoldable pub default_cutoff : ℕ → ℤ
unfolding reconciliation_stale_pending_cutoff
default_cutoff = reconciliation_stale_pending_cutoff (pos 0)

-- `reconciliationItemSelectSQL`
unfoldable pub reconciliation_item : Transfer → ReconciliationItem
reconciliation_item t = record {
  transfer_id = t.id;
  institution_id = t.institution_id;
  account_id = t.account_id;
  direction = t.direction;
  status = t.status;
  provider = t.provider;
  provider_reference = t.provider_reference;
  provider_event_id = t.provider_event_id;
  provider_status = t.provider_status;
  ledger_status = t.ledger_status;
  reconciliation_status = t.reconciliation_status;
  amount_minor = t.amount_minor;
  currency_id = t.currency_id;
  failure_reason = t.failure_reason;
  journal_entry_id = t.journal_entry_id;
  created_at = t.created_at;
  updated_at = t.updated_at;
  review_reason = "";
  recommended_next_action = "";
  review_status = t.review_status;
  review_note = t.review_note;
  reviewed_at = t.reviewed_at;
  reviewed_by = t.reviewed_by;
}

-- `reconciliationReviewState`: the reason, the action, and whether a review is needed.
unfoldable pub reconciliation_review_state : ReconciliationItem → ℤ → String × String × Bool
reconciliation_review_state item stale_pending_cutoff =
    if is_reversal_deficit item.ledger_status
    then ("reversal_deficit", "manual_customer_receivable_review", true)
    else if is_unknown item.provider_status
    then ("provider_unknown", "requery_provider", true)
    else if is_succeeded item.provider_status && not (is_posted item.ledger_status)
    then ("provider_succeeded_ledger_not_posted", "inspect_journal", true)
    else if is_failed item.provider_status && is_posted item.ledger_status
    then ("provider_failed_ledger_posted", "contact_provider", true)
    else if is_manual_review item.reconciliation_status
    then ("manual_review", "inspect_journal", true)
    else if is_pending item.status && ltb_ℤ (pos item.created_at) stale_pending_cutoff
    then ("stale_pending", "requery_provider", true)
    else ("none", "no_action", false)

-- `decorateReconciliationItem`
unfoldable pub decorate_reconciliation_item : ℤ → ReconciliationItem → ReconciliationItem
unfolding reconciliation_review_state
decorate_reconciliation_item stale_pending_cutoff item =
    let (reason, action, _) = reconciliation_review_state item stale_pending_cutoff in
    record item { review_reason = reason; recommended_next_action = action }

-- `isInspectableReconciliationItem`
unfoldable pub is_inspectable_reconciliation_item : ReconciliationItem → ℤ → Bool
unfolding reconciliation_review_state
is_inspectable_reconciliation_item item stale_pending_cutoff = elim item.review_status [
  | some _ ↦ true
  | none ↦ (reconciliation_review_state item stale_pending_cutoff).2
]

-- `reconciliationIssueSQL`
unfoldable pub reconciliation_issue : ℤ → Transfer → Bool
reconciliation_issue cutoff t =
    is_manual_review t.reconciliation_status
    || is_unknown t.provider_status
    || is_reversal_deficit t.ledger_status
    || (is_succeeded t.provider_status && not (is_posted t.ledger_status))
    || (is_posted t.ledger_status && is_failed t.provider_status)
    || (is_pending t.status && ltb_ℤ (pos t.created_at) cutoff)
