-- ===== src/Ledger/Journal.antt =====
-- A journal entry with its postings (corebanking/sql_ledger_repository.go).
use lenz.Prelude.{ltb, eqb, String, Bool, ◌&&◌, ◌||◌, ◌==◌}
use lenz.Prelude.Int.{eqb_ℤ}
use lenz.Prelude.Text.{text_ltb}
use lenz.Prelude.Table.{find, select}
use lenz.Prelude.Listing.{order_by}
use lenz.Model.{Posting, JournalWithPostings, Error}
use lenz.Tx.{Tx, pure, gets, require, ◌>>=◌}

-- `created_at, id`
abbrev pub is_earlier : Posting → Posting → Bool
is_earlier p q =
    ltb p.created_at q.created_at || (eqb p.created_at q.created_at && text_ltb p.id q.id)

-- `GetJournal`
unfoldable pub get_journal : String → String → Tx JournalWithPostings
unfolding find select order_by
get_journal institution_id journal_entry_id = do
  found ← gets (λ s.
      find (λ e. e.institution_id == institution_id && e.id == journal_entry_id) s.journal_entries)
  entry ← require found Error.not_found
  postings ← gets (λ s. order_by is_earlier (
      select (λ p. p.institution_id == institution_id && p.journal_entry_id == journal_entry_id)
        s.postings))
  pure (record {
    journal_entry = entry;
    postings = postings;
    balanced = eqb_ℤ entry.total_debit_minor entry.total_credit_minor;
  })
