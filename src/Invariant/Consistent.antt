-- ===== src/Invariant/Consistent.antt =====
-- The cached balances stay in step with the postings, and within 64 bits, whatever transactions
-- run.
use lenz.Prelude.{◌≡◌, refl, ℕ, String, List, [], ◌∷◌, arith, inl, inr, Bool-cases}
use lenz.Prelude.Int.{ℤ}
use lenz.Prelude.Table.{find, update, All-map, All-update}
use lenz.Model.{AccountStatus, Account}
use lenz.Tx.{Store}
use lenz.Tx.Keeps.{Keeps}
use lenz.Accounts.{is_account, is_balance, update_balance}
use lenz.Accounts.Laws.{update_balance-Keeps}
use lenz.Controls.{with_status}
use lenz.Holds.{add_available, take_available}
use lenz.Ledger.Effects.{side_of}
use lenz.Ledger.Consistent.{IsCached, IsConsistent, post_journal-Keeps-IsConsistent}
use lenz.Invariant.{IsLedgerInvariant, IsTransferInvariant}
use lenz.Invariant.Parts.{transfer_blind}
use lenz.Invariant.Transactions.{Call, run_all, run_all-keeps}

-- A change of status leaves the side on which an account grows.
side_of-update :
    (j b i a : String) (status : AccountStatus) (now : ℕ) (accounts : List Account)
    → side_of (update (is_account j b) (with_status status now) accounts) i a ≡ side_of accounts i a
unfolding side_of find update
side_of-update j b i a status now [] = refl
side_of-update j b i a status now (x ∷ xs) = grind (arith, side_of-update j b i a status now xs)

status-IsConsistent :
    (s : Store) (i a : String) (status : AccountStatus) (now : ℕ)
    → IsConsistent s
    → IsConsistent
        (record s { accounts = update (is_account i a) (with_status status now) s.accounts })
status-IsConsistent s i a status now h = record {
  cached =
      All-map (IsCached s.accounts s.postings) _
        (λ b e. rw (side_of-update i a b.institution_id b.account_id status now s.accounts) e)
        s.balances h.cached;
}

-- The available balance is no part of what the postings say.
module _ (i a : String) (amount : ℤ) (now : ℕ) where
  add-IsConsistent : Keeps IsConsistent (update_balance i a (add_available amount now))
  add-IsConsistent = update_balance-Keeps i a (add_available amount now) λ s h. record {
    cached =
        All-update (IsCached s.accounts s.postings) (is_balance i a) (add_available amount now)
          (λ b e. elim (Bool-cases (is_balance i a b)) [
            | inl same ↦ rw same e
            | inr different ↦ rw different e
          ])
          s.balances h.cached;
  }

  take-IsConsistent : Keeps IsConsistent (update_balance i a (take_available amount now))
  take-IsConsistent = update_balance-Keeps i a (take_available amount now) λ s h. record {
    cached =
        All-update (IsCached s.accounts s.postings) (is_balance i a) (take_available amount now)
          (λ b e. elim (Bool-cases (is_balance i a b)) [
            | inl same ↦ rw same e
            | inr different ↦ rw different e
          ])
          s.balances h.cached;
  }

IsConsistent-IsLedgerInvariant : IsLedgerInvariant IsConsistent
IsConsistent-IsLedgerInvariant = record {
  holding = record {
    log = record {
      on_env = λ s e h. record { cached = h.cached };
      on_events = λ s es h. record { cached = h.cached };
      on_audit = λ s es h. record { cached = h.cached };
    };
    on_holds = λ s hs h. record { cached = h.cached };
    on_add = add-IsConsistent;
    on_take = take-IsConsistent;
  };
  on_status = status-IsConsistent;
  on_post = post_journal-Keeps-IsConsistent;
}

IsConsistent-IsTransferInvariant : IsTransferInvariant IsConsistent (λ _. Unit)
IsConsistent-IsTransferInvariant =
    transfer_blind IsConsistent-IsLedgerInvariant (λ s ts h. record { cached = h.cached })

-- From a store in which every cached ledger balance is the sum of the postings of its account,
-- signed by the account's normal balance, every sequence of the repository's transactions, failed
-- ones among them, and of changes of the time, the random identifiers and the caller, leads to such
-- a store.
pub run_all-IsConsistent :
    (cs : List Call) (s : Store) → IsConsistent s → IsConsistent (run_all cs s)
run_all-IsConsistent cs s h = run_all-keeps IsConsistent-IsTransferInvariant cs s h
