-- ===== src/Invariant/DoubleEntry.antt =====
-- Double entry holds whatever transactions run.
use lenz.Prelude.{List}
use lenz.Tx.{Store}
use lenz.Holds.{add_available, take_available}
use lenz.Accounts.Laws.{update_balance-Keeps}
use lenz.Ledger.Balanced.{IsDoubleEntry, post_journal-Keeps-IsDoubleEntry}
use lenz.Invariant.{IsLedgerInvariant, IsTransferInvariant}
use lenz.Invariant.Parts.{transfer_blind}
use lenz.Invariant.Transactions.{Call, run_all, run_all-keeps}

IsDoubleEntry-IsLedgerInvariant : IsLedgerInvariant IsDoubleEntry
IsDoubleEntry-IsLedgerInvariant = record {
  holding = record {
    log = record {
      on_env = λ s e h. record { known = h.known; balanced = h.balanced };
      on_events = λ s es h. record { known = h.known; balanced = h.balanced };
      on_audit = λ s es h. record { known = h.known; balanced = h.balanced };
    };
    on_holds = λ s hs h. record { known = h.known; balanced = h.balanced };
    on_add = λ i a amount now.
        update_balance-Keeps i a (add_available amount now)
          (λ s h. record { known = h.known; balanced = h.balanced });
    on_take = λ i a amount now.
        update_balance-Keeps i a (take_available amount now)
          (λ s h. record { known = h.known; balanced = h.balanced });
  };
  on_status = λ s i a status now h. record { known = h.known; balanced = h.balanced };
  on_post = post_journal-Keeps-IsDoubleEntry;
}

IsDoubleEntry-IsTransferInvariant : IsTransferInvariant IsDoubleEntry (λ _. Unit)
IsDoubleEntry-IsTransferInvariant =
    transfer_blind IsDoubleEntry-IsLedgerInvariant
      (λ s ts h. record { known = h.known; balanced = h.balanced })

-- From a store in which every posting belongs to a journal entry and every entry states the sum of
-- its debits and the sum of its credits, which are equal, every sequence of the repository's
-- transactions and of changes outside the database leads to such a store.
pub run_all-IsDoubleEntry :
    (cs : List Call) (s : Store) → IsDoubleEntry s → IsDoubleEntry (run_all cs s)
run_all-IsDoubleEntry cs s h = run_all-keeps IsDoubleEntry-IsTransferInvariant cs s h
