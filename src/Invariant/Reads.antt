-- ===== src/Invariant/Reads.antt =====
-- What the operations read keeps every property, and what they change of a row leaves its key.
use lenz.Prelude.{refl, Option, ℕ, String, Bool, List, [], ◌∷◌}
use lenz.Model.{
  LedgerStatus, ReconciliationStatus, Status, Account, Transfer, Posting, RecordTransferInput,
}
use lenz.Tx.{Store}
use lenz.Tx.Keeps.{Keeps}
use lenz.Transfers.Replay.{
  only_account_id, original_counterparty_account_id, same_transfer_replay_by_fields,
  same_transfer_replay, accept_replay, find_event_replay, find_replay,
  existing_provider_event_transfer,
}
use lenz.Transfers.Settle.{check_hold, settled_row}
use lenz.Transfers.Complete.{external_outbound_transfer_statuses, completed_row}
use lenz.Transfers.Requery.{requeried_row}
use lenz.Invariant.{KeepsKey}
use lenz.Invariant.Parts.{reading}

module _ {P : Store → Type 0} where
  pub only_account_id-Keeps : (ps : List Posting) → Keeps P (only_account_id ps)
  only_account_id-Keeps [] = search reading
  only_account_id-Keeps (p ∷ []) = search reading
  only_account_id-Keeps (p ∷ q ∷ ps) = search reading

  pub original_counterparty-Keeps : (t : Transfer) → Keeps P (original_counterparty_account_id t)
  unfolding original_counterparty_account_id
  original_counterparty-Keeps t = search (reading, only_account_id-Keeps) depth 12

  pub same_by_fields-Keeps :
      (t : Transfer) (input : RecordTransferInput)
      → Keeps P (same_transfer_replay_by_fields t input)
  unfolding same_transfer_replay_by_fields
  same_by_fields-Keeps t input = search (reading, original_counterparty-Keeps) depth 12

  pub same_replay-Keeps :
      (t : Transfer) (input : RecordTransferInput) (f : String)
      → Keeps P (same_transfer_replay t input f)
  unfolding same_transfer_replay
  same_replay-Keeps t input f = search (reading, same_by_fields-Keeps) depth 12

  pub accept_replay-Keeps : (b : Bool) (t : Transfer) → Keeps P (accept_replay b t)
  unfolding accept_replay
  accept_replay-Keeps b t = search reading depth 12

  pub find_event_replay-Keeps :
      (input : RecordTransferInput) (f : String) → Keeps P (find_event_replay input f)
  unfolding find_event_replay
  find_event_replay-Keeps input f = search (reading, accept_replay-Keeps) depth 12

  pub find_replay-Keeps : (input : RecordTransferInput) (f : String) → Keeps P (find_replay input f)
  unfolding find_replay
  find_replay-Keeps input f =
      search (reading, accept_replay-Keeps, same_replay-Keeps, find_event_replay-Keeps) depth 12

  pub existing_event-Keeps :
      (input : RecordTransferInput) (f : String)
      → Keeps P (existing_provider_event_transfer input f)
  unfolding existing_provider_event_transfer
  existing_event-Keeps input f = search reading depth 12

  pub check_hold-Keeps :
      (t : Transfer) (input : RecordTransferInput) (a : Account) → Keeps P (check_hold t input a)
  unfolding check_hold
  check_hold-Keeps t input a = search reading depth 12

  pub statuses-Keeps :
      (input : RecordTransferInput) → Keeps P (external_outbound_transfer_statuses input)
  unfolding external_outbound_transfer_statuses
  statuses-Keeps input = search reading depth 12

pub settled_row-KeepsKey :
    (input : RecordTransferInput) (st ps : Status) (o : LedgerStatus × ReconciliationStatus)
    (j : Option String) (now : ℕ)
    → KeepsKey (settled_row input st ps o j now)
settled_row-KeepsKey input st ps o j now = record { on_id = λ t. refl; on_institution = λ t. refl }

pub completed_row-KeepsKey :
    (input : RecordTransferInput) (st ps : Status) (o : LedgerStatus × ReconciliationStatus)
    (j : Option String) (now : ℕ)
    → KeepsKey (completed_row input st ps o j now)
completed_row-KeepsKey input st ps o j now = record {
  on_id = λ t. refl;
  on_institution = λ t. refl;
}

pub requeried_row-KeepsKey :
    (input : RecordTransferInput) (ps : Status) (o : LedgerStatus × ReconciliationStatus)
    (reason : String) (now : ℕ)
    → KeepsKey (requeried_row input ps o reason now)
requeried_row-KeepsKey input ps o reason now = record {
  on_id = λ t. refl;
  on_institution = λ t. refl;
}
