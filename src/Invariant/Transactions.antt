-- ===== src/Invariant/Transactions.antt =====
-- Any sequence of the repository's transactions, each of which may fail, with what changes outside
-- the database between them (the time, the random identifiers, the caller).
use lenz.Prelude.{String, List, [], ◌∷◌}
use lenz.Prelude.Text.{trim_space}
use lenz.Model.{
  Transfer, AccountStatus, RecordTransferInput, ReverseTransferInput, AccountControlInput,
  AccountLienInput, ReleaseLienInput, RecordProviderEventReviewInput,
  MarkReconciliationItemReviewedInput,
}
use lenz.Tx.{Store, Environment}
use lenz.Tx.Keeps.{Keeps-with_tx}
use lenz.Transfers.Record.{begin_external_outbound_transfer}
use lenz.Transfers.Complete.{complete_external_outbound_transfer}
use lenz.Transfers.Requery.{normalize_requery, complete_external_transfer_requery}
use lenz.Transfers.Reverse.{reverse_transfer}
use lenz.Transfers.Review.{record_provider_event_review_in_tx}
use lenz.Reconciliation.{mark_reconciliation_item_reviewed}
use lenz.Invariant.Reviews.{record_review-Keeps, mark_reviewed-Keeps}
use lenz.Controls.{set_account_status, place_account_lien, release_account_lien}
use lenz.Invariant.{IsTransferInvariant}
use lenz.Invariant.Operations.{
  record_transfer-Keeps, complete_external_outbound-Keeps, requery-Keeps, reverse-Keeps,
}
use lenz.Invariant.Controls.{set_status-Keeps, place_lien-Keeps, release_lien-Keeps}

-- A transaction of the repository, or a change outside the database.
pub data Call : Type 0 where
  record_call : RecordTransferInput → Call
  complete_call : String → RecordTransferInput → Call
  requery_call : String → RecordTransferInput → Call
  reverse_call : ReverseTransferInput → Call
  status_call : AccountControlInput → AccountStatus → List AccountStatus → Call
  lien_call : AccountLienInput → Call
  release_call : ReleaseLienInput → Call
  review_call : RecordProviderEventReviewInput → Call
  mark_call : MarkReconciliationItemReviewedInput → Call
  outside : Environment → Call

unfoldable pub run : Call → Store → Store
run (record_call input) s = (begin_external_outbound_transfer input s).1
run (complete_call id input) s = (complete_external_outbound_transfer id input s).1
run (requery_call id input) s = (complete_external_transfer_requery id input s).1
run (reverse_call input) s = (reverse_transfer input s).1
run (status_call input status allowed) s = (set_account_status input status allowed s).1
run (lien_call input) s = (place_account_lien input s).1
run (release_call input) s = (release_account_lien input s).1
run (review_call input) s = (record_provider_event_review_in_tx input s).1
run (mark_call input) s = (mark_reconciliation_item_reviewed input s).1
run (outside env) s = record s { env = env }

unfoldable pub run_all : List Call → Store → Store
run_all [] s = s
run_all (c ∷ cs) s = run_all cs (run c s)

module _ {P : Store → Type 0} {Open : Transfer → Type 0} (inv : IsTransferInvariant P Open) where
  run-keeps : (c : Call) (s : Store) → P s → P (run c s)
  unfolding run begin_external_outbound_transfer complete_external_outbound_transfer
      complete_external_transfer_requery reverse_transfer set_account_status place_account_lien
      release_account_lien record_provider_event_review_in_tx mark_reconciliation_item_reviewed
  run-keeps (record_call input) s = Keeps-with_tx _ s (record_transfer-Keeps inv input)
  run-keeps (complete_call id input) s =
      Keeps-with_tx _ s (complete_external_outbound-Keeps inv (trim_space id) input)
  run-keeps (requery_call id input) s =
      Keeps-with_tx _ s (requery-Keeps inv (trim_space id) (normalize_requery input))
  run-keeps (reverse_call input) s = Keeps-with_tx _ s (reverse-Keeps inv input)
  run-keeps (status_call input status allowed) s =
      Keeps-with_tx _ s (set_status-Keeps inv.ledger input status allowed)
  run-keeps (lien_call input) s = Keeps-with_tx _ s (place_lien-Keeps inv.ledger input)
  run-keeps (release_call input) s = Keeps-with_tx _ s (release_lien-Keeps inv.ledger input)
  run-keeps (review_call input) s =
      Keeps-with_tx _ s (record_review-Keeps inv.ledger.holding.log inv.on_insert input)
  run-keeps (mark_call input) s =
      Keeps-with_tx _ s (mark_reviewed-Keeps inv.ledger.holding.log inv.on_review input)
  run-keeps (outside env) s = inv.ledger.holding.log.on_env s env

  pub run_all-keeps : (cs : List Call) (s : Store) → P s → P (run_all cs s)
  unfolding run_all
  run_all-keeps [] s h = h
  run_all-keeps (c ∷ cs) s h = run_all-keeps cs (run c s) (run-keeps c s h)
