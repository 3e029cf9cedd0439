-- ===== src/Invariant/Operations.antt =====
-- A ledger invariant is kept by the bodies of the repository's transactions.
use lenz.Prelude.{ℕ, String, Bool}
use lenz.Model.{Status, Direction, Account, Transfer, RecordTransferInput, ReverseTransferInput}
use lenz.Tx.{Store}
use lenz.Tx.Keeps.{keeps_rules, Keeps-if_not, Keeps-if_found-known, Keeps}
use lenz.Accounts.{LockedAccountBalance}
use lenz.Transfers.Settle.{
  post_held, settle_status, settle_reserved, reserve_event, settle_pending_transfer,
}
use lenz.Transfers.Record.{
  write_transfer, record_new, record_settled, record_by_reference, record_transfer,
}
use lenz.Transfers.Complete.{
  complete_status, link_completed, complete_reserved, complete_pending, complete_external_outbound,
}
use lenz.Transfers.Requery.{
  update_pending_inbound_requery, requery_direction, requery_pending, requery,
}
use lenz.Transfers.Reverse.{record_reversal, reverse}
use lenz.Invariant.{IsLogInvariant, IsLedgerInvariant, IsTransferInvariant}
use lenz.Invariant.Parts.{
  reading, audit_posted-Keeps, audit_inbound-Keeps, audit_outbound-Keeps, create-Keeps,
  release-Keeps, consume-Keeps, reserve-Keeps, link_transfer-Keeps, Keeps-bind-get_pending,
  Keeps-bind-get_transfer, Keeps-id,
}
use lenz.Invariant.Reads.{
  original_counterparty-Keeps, same_by_fields-Keeps, find_replay-Keeps, existing_event-Keeps,
  check_hold-Keeps, statuses-Keeps, settled_row-KeepsKey, completed_row-KeepsKey,
  requeried_row-KeepsKey,
}

module _ {P : Store → Type 0} (log : IsLogInvariant P) where
  pub reserve_event-Keeps :
      (input : RecordTransferInput) (t : String) (now : ℕ) → Keeps P (reserve_event input t now)
  unfolding reserve_event
  reserve_event-Keeps input t now = search (reading, reserve-Keeps) depth 12

module _ {P : Store → Type 0} (inv : IsLedgerInvariant P) where
  post_held-Keeps :
      (t : Transfer) (input : RecordTransferInput) (held : Bool) (now : ℕ)
      → Keeps P (post_held t input held now)
  unfolding post_held
  post_held-Keeps t input held now = search (reading, inv.on_post, consume-Keeps) depth 12

  settle_status-Keeps :
      (t : Transfer) (input : RecordTransferInput) (a c : Account) (now : ℕ) (st : Status)
      → Keeps P (settle_status t input a c now st)
  unfolding settle_status
  settle_status-Keeps t input a c now Status.succeeded =
      search (reading, check_hold-Keeps, post_held-Keeps) depth 12
  settle_status-Keeps t input a c now Status.failed = search (reading, release-Keeps) depth 12
  settle_status-Keeps t input a c now _ = search reading

  complete_status-Keeps :
      (t : Transfer) (input : RecordTransferInput) (a c : Account) (now : ℕ) (st : Status)
      → Keeps P (complete_status t input a c now st)
  unfolding complete_status
  complete_status-Keeps t input a c now Status.succeeded =
      search (reading, check_hold-Keeps, post_held-Keeps) depth 12
  complete_status-Keeps t input a c now Status.failed = search (reading, release-Keeps) depth 12
  complete_status-Keeps t input a c now Status.pending = search reading depth 12
  complete_status-Keeps t input a c now _ = search reading

  link_completed-Keeps :
      (input : RecordTransferInput) (t : Transfer) → Keeps P (link_completed input t)
  unfolding link_completed
  link_completed-Keeps input t = search (reading, link_transfer-Keeps)

module _ {P : Store → Type 0} {Open : Transfer → Type 0} (inv : IsTransferInvariant P Open) where
  settle_reserved-Keeps :
      (t : Transfer) (input : RecordTransferInput) (l c : LockedAccountBalance) (now : ℕ)
      → Open t
      → Keeps P (settle_reserved t input l c now)
  unfolding settle_reserved
  settle_reserved-Keeps t input l c now opened =
      search
        (
          reading, settle_status-Keeps, inv.ledger, inv.ledger.holding.log, inv.on_end,
          settled_row-KeepsKey, audit_posted-Keeps, audit_inbound-Keeps,
        )
        depth 16

  pub settle_pending_transfer-Keeps :
      (t : Transfer) (input : RecordTransferInput)
      → Open t
      → Keeps P (settle_pending_transfer t input)
  unfolding settle_pending_transfer
  settle_pending_transfer-Keeps t input opened =
      search
        (
          reading, inv.ledger.holding.log, reserve_event-Keeps, settle_reserved-Keeps,
          existing_event-Keeps,
        )
        depth 16

  write_transfer-Keeps :
      (input : RecordTransferInput) (f : String) (l c : LockedAccountBalance) (id : String)
      (st ps : Status) (b : Bool) (now : ℕ)
      → Keeps P (write_transfer input f l c id st ps b now)
  unfolding write_transfer
  write_transfer-Keeps input f l c id st ps b now =
      search
        (
          reading, inv.ledger, inv.ledger.holding.log, inv.ledger.on_post, inv.on_insert,
          create-Keeps, link_transfer-Keeps, audit_posted-Keeps, audit_inbound-Keeps,
        )
        depth 16

  record_new-Keeps : (input : RecordTransferInput) (f : String) → Keeps P (record_new input f)
  unfolding record_new
  record_new-Keeps input f =
      search
        (
          reading, inv.ledger.holding.log, Keeps-id, reserve_event-Keeps, write_transfer-Keeps,
          existing_event-Keeps,
        )
        depth 16

  record_settled-Keeps :
      (input : RecordTransferInput) (f : String) → Keeps P (record_settled input f)
  unfolding record_settled
  record_settled-Keeps input f = search (reading, same_by_fields-Keeps, record_new-Keeps) depth 12

  record_by_reference-Keeps :
      (input : RecordTransferInput) (f : String) → Keeps P (record_by_reference input f)
  unfolding record_by_reference
  record_by_reference-Keeps input f =
      search
        (
          keeps_rules,
          Keeps-bind-get_pending inv,
          Keeps-if_found-known,
          settle_pending_transfer-Keeps,
          record_settled-Keeps,
          record_new-Keeps,
        )
        depth 12

  pub record_transfer-Keeps : (input : RecordTransferInput) → Keeps P (record_transfer input)
  unfolding record_transfer
  record_transfer-Keeps input =
      search (reading, find_replay-Keeps, record_by_reference-Keeps) depth 12

  complete_reserved-Keeps :
      (t : Transfer) (input : RecordTransferInput) (l c : LockedAccountBalance) (now : ℕ)
      → Open t
      → Keeps P (complete_reserved t input l c now)
  unfolding complete_reserved
  complete_reserved-Keeps t input l c now opened =
      search
        (
          reading, inv.ledger, inv.ledger.holding.log, statuses-Keeps, complete_status-Keeps,
          inv.on_end, completed_row-KeepsKey, link_completed-Keeps, audit_outbound-Keeps,
        )
        depth 16

  complete_pending-Keeps :
      (t : Transfer) (input : RecordTransferInput) → Open t → Keeps P (complete_pending t input)
  unfolding complete_pending
  complete_pending-Keeps t input opened =
      search
        (
          reading, inv.ledger.holding.log, reserve_event-Keeps, complete_reserved-Keeps,
          existing_event-Keeps,
        )
        depth 16

  pub complete_external_outbound-Keeps :
      (t : String) (input : RecordTransferInput) → Keeps P (complete_external_outbound t input)
  unfolding complete_external_outbound
  complete_external_outbound-Keeps t input =
      search (keeps_rules, Keeps-bind-get_transfer inv, Keeps-if_not, complete_pending-Keeps) depth
        16

  requery_inbound-Keeps :
      (t : Transfer) (input : RecordTransferInput) (ps : Status)
      → Open t
      → Keeps P (update_pending_inbound_requery t input ps)
  unfolding update_pending_inbound_requery
  requery_inbound-Keeps t input ps opened =
      search
        (reading, inv.ledger.holding.log, inv.on_end, requeried_row-KeepsKey, audit_inbound-Keeps)
        depth 16

  requery_direction-Keeps :
      (d : Direction) (t : Transfer) (input : RecordTransferInput) (st : Status × Status)
      → Open t
      → Keeps P (requery_direction d t input st)
  requery_direction-Keeps Direction.outbound t input st opened =
      complete_external_outbound-Keeps t.id input
  requery_direction-Keeps Direction.inbound t input st opened =
      search (reading, requery_inbound-Keeps, settle_pending_transfer-Keeps) depth 12
  requery_direction-Keeps _ t input st opened = search reading

  requery_pending-Keeps :
      (t : Transfer) (input : RecordTransferInput) → Open t → Keeps P (requery_pending t input)
  unfolding requery_pending
  requery_pending-Keeps t input opened =
      search (reading, statuses-Keeps, requery_direction-Keeps) depth 12

  pub requery-Keeps : (t : String) (input : RecordTransferInput) → Keeps P (requery t input)
  unfolding requery
  requery-Keeps t input =
      search (keeps_rules, Keeps-bind-get_transfer inv, Keeps-if_not, requery_pending-Keeps) depth
        20

  record_reversal-Keeps :
      (input : ReverseTransferInput) (t : Transfer) → Keeps P (record_reversal input t)
  unfolding record_reversal
  record_reversal-Keeps input t =
      search (reading, original_counterparty-Keeps, record_transfer-Keeps, inv.on_turn) depth 16

  pub reverse-Keeps : (input : ReverseTransferInput) → Keeps P (reverse input)
  unfolding reverse
  reverse-Keeps input = search (reading, record_reversal-Keeps) depth 16
