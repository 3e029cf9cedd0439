-- ===== src/Invariant/Reviews.antt =====
-- An invariant is kept by the reviews: of an event that cannot be posted, and of a transfer.
use lenz.Prelude.{ℕ, String}
use lenz.Model.{
  Account, Transfer, RecordProviderEventReviewInput, MarkReconciliationItemReviewedInput,
}
use lenz.Tx.{Store}
use lenz.Tx.Keeps.{Keeps}
use lenz.Transfers.Review.{
  normalize_provider_event_review_input, audit_external_inbound_review, write_review_transfer,
  record_new_review, find_review_of_event, find_review_by_key, record_provider_event_review,
}
use lenz.Transfers.Replay.{accept_replay}
use lenz.Reconciliation.{with_review, get_item, inspected, write_review, mark_reviewed}
use lenz.Transfers.{insert_transfer, update_transfer}
use lenz.Invariant.{IsLogInvariant}
use lenz.Invariant.Parts.{
  reading, audit_if-Keeps, insert_audit_event-Keeps, link_transfer-Keeps, reserve-Keeps, Keeps-id,
}
use lenz.Invariant.Reads.{existing_event-Keeps}

module _ {P : Store → Type 0} where
  pub normalize_review-Keeps :
      (input : RecordProviderEventReviewInput)
      → Keeps P (normalize_provider_event_review_input input)
  unfolding normalize_provider_event_review_input
  normalize_review-Keeps input = search reading depth 12

  pub find_review_of_event-Keeps :
      (input : RecordProviderEventReviewInput) → Keeps P (find_review_of_event input)
  unfolding find_review_of_event accept_replay
  find_review_of_event-Keeps input = search reading depth 16

  pub find_review_by_key-Keeps :
      (input : RecordProviderEventReviewInput) → Keeps P (find_review_by_key input)
  unfolding find_review_by_key accept_replay
  find_review_by_key-Keeps input = search reading depth 16

  get_item-Keeps : (i t : String) → Keeps P (get_item i t)
  unfolding get_item
  get_item-Keeps i t = search reading depth 12

  inspected-Keeps : (i t : String) → Keeps P (inspected i t)
  unfolding inspected
  inspected-Keeps i t = search (reading, get_item-Keeps) depth 12

module _ {P : Store → Type 0} (log : IsLogInvariant P) where
  pub audit_review-Keeps :
      (input : RecordProviderEventReviewInput) (t : Transfer) (a : Account)
      → Keeps P (audit_external_inbound_review input t a)
  unfolding audit_external_inbound_review
  audit_review-Keeps input t a = audit_if-Keeps log _

module _ {P : Store → Type 0} (log : IsLogInvariant P)
    (on_insert : (t : Transfer) → Keeps P (insert_transfer t)) where
  write_review_transfer-Keeps :
      (input : RecordProviderEventReviewInput) (a : Account) (now : ℕ)
      → Keeps P (write_review_transfer input a now)
  unfolding write_review_transfer
  write_review_transfer-Keeps input a now =
      search (reading, Keeps-id, log, on_insert, link_transfer-Keeps, audit_review-Keeps) depth 16

  record_new_review-Keeps :
      (input : RecordProviderEventReviewInput) → Keeps P (record_new_review input)
  unfolding record_new_review
  record_new_review-Keeps input =
      search (reading, log, reserve-Keeps, write_review_transfer-Keeps, existing_event-Keeps) depth
        16

  pub record_review-Keeps :
      (input : RecordProviderEventReviewInput) → Keeps P (record_provider_event_review input)
  unfolding record_provider_event_review
  record_review-Keeps input =
      search
        (
          reading, normalize_review-Keeps, find_review_of_event-Keeps, find_review_by_key-Keeps,
          record_new_review-Keeps,
        )
        depth 16

module _ {P : Store → Type 0} (log : IsLogInvariant P)
    (on_review : (i t : String) (status note : String) (now : ℕ) (by : String)
      → Keeps P (update_transfer i t (with_review status note now by))) where
  write_review-Keeps :
      (input : MarkReconciliationItemReviewedInput) (now : ℕ) (by : String)
      → Keeps P (write_review input now by)
  unfolding write_review
  write_review-Keeps input now by = search (reading, on_review) depth 12

  pub mark_reviewed-Keeps :
      (input : MarkReconciliationItemReviewedInput) → Keeps P (mark_reviewed input)
  unfolding mark_reviewed
  mark_reviewed-Keeps input =
      search
        (
          reading, log, inspected-Keeps, write_review-Keeps, insert_audit_event-Keeps,
          get_item-Keeps,
        )
        depth 16
