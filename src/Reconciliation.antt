-- ===== src/Reconciliation.antt =====
-- The reconciliation of transfers (corebanking/sql_reconciliation_repository.go): which transfers
-- need a review, why, and the mark that a person leaves on one.
pub mod State
pub mod Agree
use lenz.Prelude.{ℕ, String, Bool, true, none, some, [], ◌∷◌, not, ◌||◌, ◌==◌}
use lenz.Prelude.Int.{ℤ, pos}
use lenz.Prelude.Text
use lenz.Model.{
  Transfer, ReconciliationItem, MarkReconciliationItemReviewedInput, status_text,
  ledger_status_text, reconciliation_status_text, Error,
}
use lenz.Tx.{Store, Result, err, ok, Tx, pure, gets, fail_if, with_tx, ◌>>=◌, ◌>>◌}
use lenz.Audit.{AuditEventInput, audit_context, insert_audit_event, optional_audit_value}
use lenz.Transfers.{get_transfer, update_transfer}
use lenz.Reconciliation.State.{
  reconciliation_item, decorate_reconciliation_item, is_inspectable_reconciliation_item,
  default_cutoff,
}

-- `getReconciliationItem`
unfoldable pub get_item : String → String → Tx ReconciliationItem
get_item institution_id transfer_id = do
  transfer ← get_transfer institution_id transfer_id
  pure (reconciliation_item transfer)

-- The item with its reason and action, if it can be inspected.
unfoldable pub inspected : String → String → Tx ReconciliationItem
unfolding get_item
inspected institution_id transfer_id = do
  now ← gets (λ s. s.env.now)
  item ← get_item institution_id transfer_id
  let decorated = decorate_reconciliation_item (default_cutoff now) item
  fail_if (not (is_inspectable_reconciliation_item decorated (default_cutoff now))) Error.not_found
  pure decorated

-- `GetReconciliationItem`: it only reads.
unfoldable pub get_reconciliation_item : String → String → Store → Result ReconciliationItem × Store
unfolding inspected with_tx
get_reconciliation_item institution_id transfer_id = with_tx (inspected institution_id transfer_id)

-- The columns that the review writes.
abbrev pub with_review : String → String → ℕ → String → Transfer → Transfer
with_review status note now by t = record t {
  review_status = some status;
  review_note = some note;
  reviewed_at = some now;
  reviewed_by = some by;
  updated_at = now;
}

-- The CHECK of the column `review_status`.
unfoldable pub valid_reconciliation_review_status : String → Bool
valid_reconciliation_review_status status =
    status == "reviewed" || status == "resolved_no_action" || status == "manual_followup_required"

abbrev review_event : ReconciliationItem → MarkReconciliationItemReviewedInput → ℕ → AuditEventInput
review_event current input now = record {
  institution_id = current.institution_id;
  action = "reconciliation.reviewed";
  entity_type = "transfer";
  entity_id = current.transfer_id;
  customer_id = "";
  account_id = current.account_id;
  transfer_id = current.transfer_id;
  journal_entry_id = optional_audit_value current.journal_entry_id;
  idempotency_key = "";
  reference = current.provider_reference;
  old_status = optional_audit_value current.review_status;
  new_status = input.resolution_status;
  metadata =
      ("resolution_note", input.resolution_note)
      ∷ ("review_reason", current.review_reason)
      ∷ ("recommended_action", current.recommended_next_action)
      ∷ ("provider_status", status_text current.provider_status)
      ∷ ("ledger_status", ledger_status_text current.ledger_status)
      ∷ ("reconciliation_status", reconciliation_status_text current.reconciliation_status)
      ∷ [];
  created_at = now;
}

-- The UPDATE of the review.
unfoldable pub write_review : MarkReconciliationItemReviewedInput → ℕ → String → Tx (Unit {0})
unfolding valid_reconciliation_review_status
write_review input now by = do
  fail_if (not (valid_reconciliation_review_status input.resolution_status)) Error.database
  update_transfer input.institution_id input.transfer_id
      (with_review input.resolution_status input.resolution_note now by)

-- The body of `MarkReconciliationItemReviewed`.
unfoldable pub mark_reviewed : MarkReconciliationItemReviewedInput → Tx ReconciliationItem
unfolding inspected write_review get_item
mark_reviewed input = do
  current ← inspected input.institution_id input.transfer_id
  env ← gets (λ s. s.env)
  write_review input env.now (audit_context env).1
  insert_audit_event (review_event current input env.now)
  item ← get_item input.institution_id input.transfer_id
  pure (decorate_reconciliation_item (default_cutoff env.now) item)

-- `MarkReconciliationItemReviewed`
unfoldable pub mark_reconciliation_item_reviewed :
    MarkReconciliationItemReviewedInput → Store → Result ReconciliationItem × Store
unfolding mark_reviewed with_tx
mark_reconciliation_item_reviewed input = with_tx (mark_reviewed input)
