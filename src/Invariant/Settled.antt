-- ===== src/Invariant/Settled.antt =====
-- A settled transfer stays as it is, whatever transactions run.
use lenz.Holds.{add_available, take_available}
use lenz.Accounts.Laws.{update_balance-Keeps}
use lenz.Ledger.{post_journal}
use lenz.Ledger.Effects.{post_journal-Ends}
use lenz.Transfers.Reverse.{turned}
use lenz.Prelude.{
  ap, if◌then◌else◌, ◌≡◌, refl, sym, ◌∙◌, subst, String, Bool, true, false, List, inl, inr,
  Bool-cases, eqb, eq_iff, arith,
}
use lenz.Prelude.Table.{
  update, insert, count, All, All-map, All-update, All-insert, count-insert, count-none, none-count,
  count-update,
}
use lenz.Model.{is_pending, Transfer}
use lenz.Tx.{Store}
use lenz.Tx.Yields.{Ends-map}
use lenz.Tx.Keeps.{Keeps}
use lenz.Reconciliation.{with_review}
use lenz.ProviderEvents.{is_transfer}
use lenz.Transfers.{insert_transfer, update_transfer, is_rival}
use lenz.Transfers.Rows.{insert_transfer-Ends, update_transfer-Ends}
use lenz.Invariant.{IsLedgerInvariant, IsTransferInvariant, KeepsKey}
use lenz.Invariant.Transactions.{Call, run_all, run_all-keeps}

abbrev pub is_row : Transfer → Transfer → Bool
is_row x t = is_transfer x.institution_id x.id t

-- What never changes of a settled transfer; its direction does, when it turns out as a reversal.
abbrev pub IsSame : Transfer → Transfer → Type 0
IsSame x t =
    (t.status ≡ x.status)
    × (t.ledger_status ≡ x.ledger_status)
    × (t.journal_entry_id ≡ x.journal_entry_id)
    × (t.account_id ≡ x.account_id)
    × (t.amount_minor ≡ x.amount_minor)
    × (t.currency_id ≡ x.currency_id)
    × (t.reversal_of_transfer_id ≡ x.reversal_of_transfer_id)

-- The transfer is there, and every row with its key is the same as it.
pub record IsStored (x : Transfer) (s : Store) : Type 0 where
  pub present : eqb (count (is_row x) s.transfers) 0 ≡ false
  pub rows : All (λ t. is_row x t ≡ true → IsSame x t) s.transfers

impossible : {A : Type 0} → true ≡ false → A
impossible {A} e = subst (λ b. if b then Unit {0} else A) e tt

-- A row that is no rival of a row with the key of `x` has another key.
other_row : (x new r : Transfer) → is_row x new ≡ true → is_rival new r ≡ false → is_row x r ≡ false
other_row x new r same other =
    ground (arith, eq_iff r.id new.id, eq_iff new.id x.id, eq_iff r.id x.id)

is_row-change :
    (x : Transfer) (f : Transfer → Transfer)
    → KeepsKey f
    → (r : Transfer) → is_row x (f r) ≡ is_row x r
is_row-change x f k r = rw (k.on_id r, k.on_institution r) refl

-- A row with the key of another has what is said of that key.
same_row :
    (x t r : Transfer)
    → is_row x t ≡ false
    → is_transfer t.institution_id t.id r ≡ true
    → is_row x r ≡ false
same_row x t r other same = ground (
  arith,
  eq_iff r.id t.id,
  eq_iff r.id x.id,
  eq_iff t.id x.id,
  eq_iff r.institution_id t.institution_id,
  eq_iff r.institution_id x.institution_id,
  eq_iff t.institution_id x.institution_id,
)

module _ (x : Transfer) where
  insert-IsStored :
      (s : Store) (new : Transfer)
      → count (is_rival new) s.transfers ≡ 0
      → IsStored x s
      → IsStored x (record s { transfers = insert new s.transfers })
  insert-IsStored s new fresh h = record {
    present = rw (count-insert (is_row x) new s.transfers) (ground (arith, h.present));
    rows =
        All-insert _ new (λ t k. k)
          (λ same. impossible (
            sym (
              rw
                (none-count (is_row x) s.transfers (
                  All-map _ _ (λ r other. other_row x new r same other) s.transfers
                    (count-none (is_rival new) s.transfers fresh)))
                refl)
            ∙ h.present))
          s.transfers h.rows;
  }

  end-IsStored :
      (s : Store) (t : Transfer) (f : Transfer → Transfer)
      → KeepsKey f
      → is_row x t ≡ false
      → IsStored x s
      → IsStored x
          (record s { transfers = update (is_transfer t.institution_id t.id) f s.transfers })
  end-IsStored s t f k other h = record {
    present =
        rw
          (count-update (is_row x) (is_transfer t.institution_id t.id) f (is_row-change x f k)
            s.transfers)
          h.present;
    rows =
        All-update _ (is_transfer t.institution_id t.id) f
          (λ r kept. elim (Bool-cases (is_transfer t.institution_id t.id r)) [
            | inr left ↦ rw left kept
            | inl chosen ↦ rw chosen (λ same.
                impossible (sym same ∙ is_row-change x f k r ∙ same_row x t r other chosen))
          ])
          s.transfers h.rows;
  }

  change-IsStored :
      (s : Store) (i t : String) (f : Transfer → Transfer)
      → KeepsKey f
      → ((r : Transfer) → IsSame x r → IsSame x (f r))
      → IsStored x s
      → IsStored x (record s { transfers = update (is_transfer i t) f s.transfers })
  change-IsStored s i t f k same h = record {
    present =
        rw (count-update (is_row x) (is_transfer i t) f (is_row-change x f k) s.transfers)
          h.present;
    rows =
        All-update _ (is_transfer i t) f
          (λ r kept. elim (Bool-cases (is_transfer i t r)) [
            | inr left ↦ rw left kept
            | inl chosen ↦ rw chosen (λ it. same r (kept (sym (is_row-change x f k r) ∙ it)))
          ])
          s.transfers h.rows;
  }

  IsStored-IsLedgerInvariant : IsLedgerInvariant (IsStored x)
  IsStored-IsLedgerInvariant = record {
    holding = record {
      log = record {
        on_env = λ s e h. record { present = h.present; rows = h.rows };
        on_events = λ s es h. record { present = h.present; rows = h.rows };
        on_audit = λ s es h. record { present = h.present; rows = h.rows };
      };
      on_holds = λ s hs h. record { present = h.present; rows = h.rows };
      on_add = λ i a amount now.
          update_balance-Keeps i a (add_available amount now)
            (λ s h. record { present = h.present; rows = h.rows });
      on_take = λ i a amount now.
          update_balance-Keeps i a (take_available amount now)
            (λ s h. record { present = h.present; rows = h.rows });
    };
    on_status = λ s i a status now h. record { present = h.present; rows = h.rows };
    on_post = λ input transfer_id now held. record {
      at = λ s h.
          Ends-map (post_journal input transfer_id now held s)
            (post_journal-Ends input transfer_id now held s)
            (λ _ u e. subst (IsStored x) (sym e.1) (record { present = h.present; rows = h.rows }));
    };
  }

module _ (x : Transfer) (settled : is_pending x.status ≡ false) where
  opens :
      (s : Store)
      → IsStored x s
      → All (λ t. is_pending t.status ≡ true → is_row x t ≡ false) s.transfers
  opens s h =
      All-map _ _
        (λ t same pending. elim (Bool-cases (is_row x t)) [
          | inr other ↦ other
          | inl it ↦ it ∙ (sym pending ∙ ap is_pending (same it).0 ∙ settled)
        ])
        s.transfers h.rows

  change :
      (i t : String) (f : Transfer → Transfer)
      → KeepsKey f
      → ((r : Transfer) → IsSame x r → IsSame x (f r))
      → Keeps (IsStored x) (update_transfer i t f)
  change i t f k same = record {
    at = λ s h.
        Ends-map (update_transfer i t f s) (update_transfer-Ends i t f s)
          (λ _ u e. subst (IsStored x) (sym e) (change-IsStored x s i t f k same h));
  }

  IsStored-IsTransferInvariant : IsTransferInvariant (IsStored x) (λ t. is_row x t ≡ false)
  IsStored-IsTransferInvariant = record {
    ledger = IsStored-IsLedgerInvariant x;
    opens = opens;
    on_insert = λ new. record {
      at = λ s h.
          Ends-map (insert_transfer new s) (insert_transfer-Ends new s)
            (λ _ u e. subst (IsStored x) (sym e.0) (insert-IsStored x s new e.1 h));
    };
    on_end = λ t f k other. record {
      at = λ s h.
          Ends-map (update_transfer t.institution_id t.id f s)
            (update_transfer-Ends t.institution_id t.id f s)
            (λ _ u e. subst (IsStored x) (sym e) (end-IsStored x s t f k other h));
    };
    on_turn = λ i t now.
        change i t (turned now) (record { on_id = λ r. refl; on_institution = λ r. refl })
          (λ r same. same);
    on_review = λ i t status note now by.
        change i t (with_review status note now by)
          (record { on_id = λ r. refl; on_institution = λ r. refl }) (λ r same. same);
  }

  -- Once a transfer is stored as succeeded or failed, it stays stored, with its status, its ledger
  -- status, its journal entry, its account, its amount, its currency and the transfer that it
  -- reverses, through every sequence of the repository's transactions and of changes outside the
  -- database.
  pub run_all-IsStored : (cs : List Call) (s : Store) → IsStored x s → IsStored x (run_all cs s)
  run_all-IsStored cs s h = run_all-keeps IsStored-IsTransferInvariant cs s h
