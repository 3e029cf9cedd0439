-- ===== src/Tests.antt =====
-- The theorems at concrete inputs.
mod Data
mod Parties
mod Services
use Data.{
  customer, settlement, no_money, environment, opened, deposit, payment, lien, control, reversal,
  a_day, recorded, with_transfer, leaky, deposited, cash, after_cash, tomorrow, funded,
}
use lenz.Prelude.{◌≡◌, refl, String, true, false, none, some, List, [], ◌∷◌}
use lenz.Prelude.Int.{pos, ◌≤ℤ◌}
use lenz.Prelude.Table.{All}
use lenz.Model.{
  Status, Direction, LedgerStatus, ReconciliationStatus, AccountKind, AccountStatus, Side, Account,
  AccountBalance, Transfer, RecordTransferInput, AccountLienInput, AccountControlInput,
  ReverseTransferInput, Error,
}
use lenz.Model.{is_failed}
use lenz.Prelude.Decimal.{format_int}
use lenz.Prelude.Int.{◌+ℤ◌, ◌-ℤ◌, in_int64, int64_half}
use lenz.Prelude.Table.{find, count, update, insert, every}
use lenz.Prelude.Text.{trim_space}
use lenz.Transfers.Replay.{find_replay}
use lenz.Transfers.{
  get_transfer_by_idempotency, stated_provider_status, insert_transfer, one_active_reversal,
  ledger_outcome,
}
use lenz.Ledger.{post_journal}
use lenz.Tx.{new_id, ◌>>=◌, Store, Environment, ok, err}
use lenz.Tx.Yields.{Ends}
use lenz.Fingerprint.{transfer_request_fingerprint, transfer_request_fingerprint_matches}
use lenz.Policy.{
  would_create_reversal_deficit, transfer_statuses, customer_initiated_outbound,
  enforce_transfer_controls,
}
use lenz.Policy.Laws.{enforce_transfer_controls_lem}
use lenz.Audit.Transfers.{audit_posted_internal_transfer, audit_external_inbound_transfer}
use lenz.Audit.{insert_audit_event, AuditEventInput, new_audit_event}
use lenz.Audit.Laws.{IsSafe, new_audit_event-IsSafe}
use lenz.Accounts.{
  update_balance, lock_account_balance, balances_fit, lock_transfer_account_balances,
}
use lenz.Accounts.Laws.{AreLocked, lock_transfer_account_balances-Ends}
use lenz.Ledger.Balanced.{IsDoubleEntry}
use lenz.Ledger.Consistent.{IsConsistent, posted}
use lenz.Transfers.Record.{record_transfer, begin_external_outbound_transfer}
use lenz.Transfers.Record.Covered.{record_transfer-IsCovered}
use lenz.Invariant.Settled.{IsStored, run_all-IsStored}
use lenz.Transfers.Record.Repeated.{
  begin_external_outbound_transfer-again, begin_external_outbound_transfer-repeated,
}
use lenz.Transfers.Complete.{complete_external_outbound_transfer}
use lenz.Transfers.Complete.Final.{IsFinal, complete_external_outbound_transfer-IsFinal}
use lenz.Invariant.Transactions.{
  Call, reverse_call, record_call, complete_call, status_call, lien_call, run_all,
}
use lenz.Transfers.Reverse.{reversal_input}
use lenz.Transfers.Reverse.Undone.{ledgers, original_input, post_journal-undone}
use lenz.Controls.{place_lien, release_lien}
use lenz.Controls.Liens.{availables, release_of, place_lien-undone}
use lenz.Service.Controls.Lifecycle.{Operation, IsStep, perform, perform-IsStep}
use lenz.Invariant.Consistent.{run_all-IsConsistent}
use lenz.Invariant.DoubleEntry.{run_all-IsDoubleEntry}

run_all-IsConsistent_example : IsConsistent (run_all a_day opened)
unfolding posted
run_all-IsConsistent_example =
    run_all-IsConsistent a_day opened (record { cached = (refl, (refl, tt)) })

run_all-IsDoubleEntry_example : IsDoubleEntry (run_all a_day opened)
run_all-IsDoubleEntry_example =
    run_all-IsDoubleEntry a_day opened (record { known = tt; balanced = tt })

record_transfer-IsCovered_example :
    Ends
      (λ r _. r.1 ≡ true → is_failed r.0.status ≡ false → payment.amount_minor ≤ℤ pos 500)
      (record_transfer payment funded)
unfolding customer_initiated_outbound find
record_transfer-IsCovered_example =
    record_transfer-IsCovered payment funded customer
      (record (no_money "a1") { available_minor = pos 500; ledger_minor = pos 500 }) refl refl refl
      refl refl

begin_external_outbound_transfer-repeated_example :
    begin_external_outbound_transfer
      (record payment { request_fingerprint = "v1:abc" })
      with_transfer
    ≡ (ok (recorded, false), with_transfer)
unfolding find transfer_request_fingerprint_matches transfer_request_fingerprint trim_space
begin_external_outbound_transfer-repeated_example =
    begin_external_outbound_transfer-repeated (record payment { request_fingerprint = "v1:abc" })
      with_transfer recorded refl refl

complete_external_outbound_transfer-IsFinal_example :
    IsFinal recorded payment with_transfer
      (complete_external_outbound_transfer " t1" payment with_transfer)
unfolding find trim_space
complete_external_outbound_transfer-IsFinal_example =
    complete_external_outbound_transfer-IsFinal " t1" payment with_transfer recorded refl refl

enforce_transfer_controls_example :
    enforce_transfer_controls payment
      (record customer { status = AccountStatus.post_no_debit })
      settlement
      opened
    ≡ err Error.invalid_request
enforce_transfer_controls_example =
    enforce_transfer_controls_lem payment (record customer { status = AccountStatus.post_no_debit })
      settlement opened

lock_transfer_account_balances_example :
    Ends
      (λ pair t. (t ≡ opened) × AreLocked opened "i1" "c1" "a1" pair)
      (lock_transfer_account_balances "i1" "c1" "a1" opened)
lock_transfer_account_balances_example = lock_transfer_account_balances-Ends "i1" "c1" "a1" opened

new_audit_event-IsSafe_example : All IsSafe (new_audit_event environment "e1" leaky).metadata
new_audit_event-IsSafe_example = new_audit_event-IsSafe environment "e1" leaky

run_all-IsStored_example : IsStored recorded (run_all (reverse_call reversal ∷ a_day) with_transfer)
unfolding count
run_all-IsStored_example =
    run_all-IsStored recorded refl (reverse_call reversal ∷ a_day) with_transfer
      (record { present = refl; rows = ((λ _. (refl, refl, refl, refl, refl, refl, refl)), tt) })

cash_recorded : begin_external_outbound_transfer cash opened ≡ (ok (deposited, true), after_cash)
unfolding begin_external_outbound_transfer ◌>>=◌ find_replay get_transfer_by_idempotency find
    lock_transfer_account_balances lock_account_balance enforce_transfer_controls
    customer_initiated_outbound new_id stated_provider_status post_journal count update_balance
    balances_fit update in_int64 int64_half ◌+ℤ◌ ◌-ℤ◌ insert_transfer insert every
    one_active_reversal ledger_outcome format_int audit_posted_internal_transfer
    audit_external_inbound_transfer insert_audit_event new_audit_event would_create_reversal_deficit
    transfer_statuses transfer_request_fingerprint
cash_recorded = refl

begin_external_outbound_transfer-again_example :
    begin_external_outbound_transfer cash (record after_cash { env = tomorrow })
    ≡ (ok (deposited, false), record after_cash { env = tomorrow })
unfolding transfer_request_fingerprint trim_space
begin_external_outbound_transfer-again_example =
    begin_external_outbound_transfer-again cash opened after_cash deposited tomorrow cash_recorded
      refl refl

post_journal-undone_example :
    Ends
      (λ _ t. ledgers t ≡ ledgers opened)
      ((post_journal (original_input deposit reversal recorded) "t1" 7 "" >>= λ _.
          post_journal (reversal_input reversal recorded "c1") "t2" 8 "")
        opened)
post_journal-undone_example =
    post_journal-undone deposit reversal recorded "t1" "t2" "" "" 7 8 opened

place_lien-undone_example :
    Ends
      (λ _ t. availables t ≡ availables funded)
      ((place_lien lien >>= λ hold. release_lien (release_of lien "court-2" "lifted" hold)) funded)
unfolding find
place_lien-undone_example = place_lien-undone lien "court-2" "lifted" funded refl

perform-IsStep_example :
    IsStep Operation.freeze "i1" "a1" customer
      (perform Operation.freeze (λ _. true) control opened)
      opened
unfolding find trim_space
perform-IsStep_example = perform-IsStep Operation.freeze (λ _. true) control customer opened refl
