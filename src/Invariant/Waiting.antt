-- ===== src/Invariant/Waiting.antt =====
-- A review moves no money: neither that of an event that cannot be posted, nor that of a transfer.
use lenz.Prelude.{◌≡◌, refl, String, List, none, ℕ, ◌⊎◌, inl, inr}
use lenz.Prelude.Table.{insert}
use lenz.Model.{
  LedgerStatus, ReconciliationStatus, AccountBalance, AccountHold, JournalEntry, Posting, Transfer,
  Account, RecordProviderEventReviewInput, MarkReconciliationItemReviewedInput,
}
use lenz.Tx.{Store, Result, ok, err, Tx, outcome, with_tx}
use lenz.Tx.Keeps.{Keeps, Keeps-with_tx, Keeps-gets, Keeps-pure}
use lenz.Tx.Yields.{Ends, Yields, Yields-bind, Yields-if, Yields-if_found, Yields-pure, Ends-map}
use lenz.Transfers.{insert_transfer, update_transfer}
use lenz.Transfers.Rows.{insert_transfer-Ends, update_transfer-Ends}
use lenz.Transfers.Review.{
  write_review_transfer, record_new_review, record_provider_event_review,
  record_provider_event_review_in_tx, review_transfer,
}
use lenz.Reconciliation.{mark_reviewed, mark_reconciliation_item_reviewed}
use lenz.Invariant.{IsLogInvariant}
use lenz.Invariant.Parts.{
  reading, Keeps-id, link_transfer-Keeps, lock_account_balance-Keeps, reserve-Keeps,
}
use lenz.Invariant.Reads.{existing_event-Keeps}
use lenz.Invariant.Reviews.{
  record_review-Keeps, mark_reviewed-Keeps, audit_review-Keeps, normalize_review-Keeps,
  find_review_of_event-Keeps, find_review_by_key-Keeps,
}

-- The tables of money.
abbrev pub Money : Type 0
Money = List AccountBalance × List AccountHold × List JournalEntry × List Posting

abbrev pub money : Store → Money
money s = (s.balances, s.holds, s.journal_entries, s.postings)

module _ (m : Money) where
  same_money-IsLogInvariant : IsLogInvariant (λ t. money t ≡ m)
  same_money-IsLogInvariant = record {
    on_env = λ s e h. h;
    on_events = λ s es h. h;
    on_audit = λ s es h. h;
  }

  insert_same_money : (t : Transfer) → Keeps (λ u. money u ≡ m) (insert_transfer t)
  insert_same_money t = record {
    at = λ s h. Ends-map (insert_transfer t s) (insert_transfer-Ends t s) (λ _ u e. rw e.0 h);
  }

  update_same_money :
      (i t : String) (f : Transfer → Transfer) → Keeps (λ u. money u ≡ m) (update_transfer i t f)
  update_same_money i t f = record {
    at = λ s h. Ends-map (update_transfer i t f s) (update_transfer-Ends i t f s) (λ _ u e. rw e h);
  }

-- The mark of a review leaves the balances, the holds, the journal and its postings as they are.
pub mark_reconciliation_item_reviewed-money :
    (input : MarkReconciliationItemReviewedInput) (s : Store)
    → money (mark_reconciliation_item_reviewed input s).1 ≡ money s
unfolding mark_reconciliation_item_reviewed
mark_reconciliation_item_reviewed-money input s =
    Keeps-with_tx {P = λ t. money t ≡ money s} (mark_reviewed input) s
      (mark_reviewed-Keeps (same_money-IsLogInvariant (money s))
        (λ i t status note now by. update_same_money (money s) i t _) input)
      refl

-- The row of a transfer that waits for a person.
abbrev pub IsWaiting : Transfer → Type 0
IsWaiting t =
    (t.ledger_status ≡ LedgerStatus.no_posting)
    × (t.reconciliation_status ≡ ReconciliationStatus.manual_review)
    × (t.journal_entry_id ≡ none)

module _ (ts : List Transfer) where
  same_rows-IsLogInvariant : IsLogInvariant (λ t. t.transfers ≡ ts)
  same_rows-IsLogInvariant = record {
    on_env = λ s e h. h;
    on_events = λ s es h. h;
    on_audit = λ s es h. h;
  }

keep : {A : Type 0} {P : Store → Type 0} {m : Tx A} → Keeps P m → Yields P m (λ _. P)
keep k = record { at = k.at }

module _ (ts : List Transfer) where
  -- What is recorded is an old row, or a new one that waits.
  abbrev pub IsRecorded : Transfer → Store → Type 0
  IsRecorded transfer t =
      (t.transfers ≡ ts) ⊎ ((t.transfers ≡ insert transfer ts) × IsWaiting transfer)

  abbrev IsAsBefore : Store → Type 0
  IsAsBefore t = t.transfers ≡ ts

  old : {m : Tx Transfer} → Keeps IsAsBefore m → Yields IsAsBefore m IsRecorded
  old {m} k = record { at = λ s h. Ends-map (m s) (k.at s h) (λ a t e. inl e) }

  insert-Yields :
      (t : Transfer) → Yields IsAsBefore (insert_transfer t) (λ _ u. u.transfers ≡ insert t ts)
  insert-Yields t = record {
    at = λ s h.
        Ends-map (insert_transfer t s) (insert_transfer-Ends t s) (λ _ u e. rw (e.0, h) refl);
  }

  write_review_transfer-Yields :
      (input : RecordProviderEventReviewInput) (a : Account) (now : ℕ)
      → Yields IsAsBefore (write_review_transfer input a now) IsRecorded
  unfolding write_review_transfer
  write_review_transfer-Yields input a now =
      Yields-bind (λ _. IsAsBefore) _ _ (keep (Keeps-id (same_rows-IsLogInvariant ts)))
        λ id.
          let log = same_rows-IsLogInvariant (insert (review_transfer input id now) ts) in
          let P : Store → Type 0 = λ u. u.transfers ≡ insert (review_transfer input id now) ts in
          Yields-bind (λ _. P) _ _ (insert-Yields (review_transfer input id now))
            λ _.
              Yields-bind (λ _. P) _ _ (keep (search (reading, log, link_transfer-Keeps) depth 12))
                λ _.
                  Yields-bind (λ _. P) _ _
                    (keep (audit_review-Keeps log input (review_transfer input id now) a))
                    λ _. Yields-pure _ λ u e. inr (e, (refl, refl, refl))

  record_new_review-Yields :
      (input : RecordProviderEventReviewInput)
      → Yields IsAsBefore (record_new_review input) IsRecorded
  unfolding record_new_review
  record_new_review-Yields input =
      let log = same_rows-IsLogInvariant ts in
      Yields-bind (λ _. IsAsBefore) _ _ (keep (lock_account_balance-Keeps _ _))
        λ locked.
          Yields-bind (λ _. IsAsBefore) _ _ (keep (Keeps-gets _))
            λ now.
              Yields-bind (λ _. IsAsBefore) _ _
                (keep (search (reading, log, reserve-Keeps) depth 12))
                λ inserted.
                  Yields-if inserted _ _
                    (λ _. write_review_transfer-Yields input locked.account now)
                    (λ _. old (existing_event-Keeps _ _))

  record_provider_event_review-Yields :
      (input : RecordProviderEventReviewInput)
      → Yields IsAsBefore (record_provider_event_review input) IsRecorded
  unfolding record_provider_event_review
  record_provider_event_review-Yields given =
      Yields-bind (λ _. IsAsBefore) _ _ (keep (normalize_review-Keeps given))
        λ input.
          Yields-bind (λ _. IsAsBefore) _ _
            (keep (search (reading, find_review_of_event-Keeps) depth 12))
            λ seen.
              Yields-if_found seen _ _ (λ t _. old (Keeps-pure t))
                λ _.
                  Yields-bind (λ _. IsAsBefore) _ _ (keep (find_review_by_key-Keeps input))
                    λ keyed.
                      Yields-if_found keyed _ _ (λ t _. old (Keeps-pure t))
                        λ _. record_new_review-Yields input

abbrev pub IsReview : Store → Result Transfer × Store → Type 0
IsReview s (ok transfer, t) = (money t ≡ money s) × IsRecorded s.transfers transfer t
IsReview s (err e, t) = t ≡ s

outcome-IsReview :
    (s : Store) (r : Result (Transfer × Store))
    → Ends (λ _ t. money t ≡ money s) r
    → Ends (IsRecorded s.transfers) r
    → IsReview s (outcome s r)
outcome-IsReview s (ok (a, t)) h k = (h, k)
outcome-IsReview s (err e) h k = refl

-- The review of an event leaves the balances, the holds, the journal and its postings as they are.
-- If it returns, either no transfer is added, or the one returned is, which has no posting and waits
-- for a manual review; if it fails, nothing changes.
pub record_provider_event_review_in_tx-IsReview :
    (input : RecordProviderEventReviewInput) (s : Store)
    → IsReview s (record_provider_event_review_in_tx input s)
unfolding record_provider_event_review_in_tx with_tx
record_provider_event_review_in_tx-IsReview input s =
    outcome-IsReview s (record_provider_event_review input s)
      ((record_review-Keeps (same_money-IsLogInvariant (money s)) (insert_same_money (money s))
          input).at
        s refl)
      ((record_provider_event_review-Yields s.transfers input).at s refl)
