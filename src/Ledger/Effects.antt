-- ===== src/Ledger/Effects.antt =====
-- What `post_leg` and `post_journal` write when they return.
use lenz.Prelude.{◌≡◌, ℕ, suc, String, none, some, List, ◌==◌, arith, if◌then◌else◌}
use lenz.Prelude.Int.{pos, ◌+ℤ◌}
use lenz.Prelude.Table.{find, insert, update, count}
use lenz.Model.{
  Direction, is_outbound, Side, JournalEntry, Account, Posting, AccountBalance, RecordTransferInput,
}
use lenz.Tx.{Store, ◌>>=◌, new_id}
use lenz.Tx.Yields.{Ends}
use lenz.Accounts.{is_account, is_balance, update_balance}
use lenz.Ledger.{posting_delta, post_leg, post_journal}

module _ (input : RecordTransferInput) (journal_id held : String) (account_id : String)
    (side direction : Side) (now : ℕ) where
  abbrev pub leg_posting : String → Posting
  leg_posting id = record {
    id = id;
    institution_id = input.institution_id;
    journal_entry_id = journal_id;
    account_id = account_id;
    direction = direction;
    amount_minor = input.amount_minor;
    currency_id = input.currency_id;
    created_at = now;
  }

  abbrev pub leg_balance : AccountBalance → AccountBalance
  leg_balance b =
      let delta = posting_delta side direction input.amount_minor in
      record b {
        available_minor = b.available_minor +ℤ (if account_id == held then pos 0 else delta);
        ledger_minor = b.ledger_minor +ℤ delta;
        last_journal_entry_id = some journal_id;
        updated_at = now;
      }

  abbrev pub leg_store : Store → Store
  leg_store s = record s {
    env = record s.env { drawn = suc s.env.drawn };
    postings = insert (leg_posting (s.env.uuid s.env.drawn)) s.postings;
    balances = update (is_balance input.institution_id account_id) leg_balance s.balances;
  }

  pub post_leg-Ends :
      (s : Store)
      → Ends
          (λ _ t. t ≡ leg_store s)
          (post_leg input journal_id held account_id side direction now s)
  unfolding post_leg update_balance new_id ◌>>=◌
  post_leg-Ends s = ground arith

-- The side on which the account grows.
unfoldable pub side_of : List Account → String → String → Side
side_of accounts institution_id account_id =
    elim (find (is_account institution_id account_id) accounts) [
      | none ↦ Side.credit
      | some a ↦ a.normal_balance
    ]

abbrev pub debited : RecordTransferInput → String
debited input = if is_outbound input.direction then input.account_id else input.clearing_account_id

abbrev pub credited : RecordTransferInput → String
credited input = if is_outbound input.direction then input.clearing_account_id else input.account_id

module _ (input : RecordTransferInput) (transfer_id : String) (now : ℕ) (held : String) where
  abbrev pub journal_entry : String → JournalEntry
  journal_entry id = record {
    id = id;
    institution_id = input.institution_id;
    transfer_id = transfer_id;
    entry_type =
        if input.reversal_of_transfer_id == "" then input.direction else Direction.reversal;
    currency_id = input.currency_id;
    narration = input.narration;
    total_debit_minor = input.amount_minor;
    total_credit_minor = input.amount_minor;
    created_at = now;
  }

  abbrev pub entry_store : Store → Store
  entry_store s = record s {
    env = record s.env { drawn = suc s.env.drawn };
    journal_entries = insert (journal_entry (s.env.uuid s.env.drawn)) s.journal_entries;
  }

  abbrev pub debit_store : Store → Store
  debit_store s =
      leg_store input (s.env.uuid s.env.drawn) held (debited input)
        (side_of s.accounts input.institution_id (debited input)) Side.debit now (entry_store s)

  abbrev pub journal_store : Store → Store
  journal_store s =
      leg_store input (s.env.uuid s.env.drawn) held (credited input)
        (side_of s.accounts input.institution_id (credited input)) Side.credit now (debit_store s)

  -- A posted journal is one entry with a debit and a credit, and moves the two balances.
  pub post_journal-Ends :
      (s : Store)
      → Ends
          (λ id t. (id ≡ s.env.uuid s.env.drawn) × (t ≡ journal_store s))
          (post_journal input transfer_id now held s)
  unfolding post_journal side_of update_balance new_id ◌>>=◌
  post_journal-Ends s = ground arith

  -- No entry had the identifier of the new one.
  pub post_journal-Ends-fresh :
      (s : Store)
      → Ends
          (λ _ _. count (λ e. e.id == s.env.uuid s.env.drawn) s.journal_entries ≡ 0)
          (post_journal input transfer_id now held s)
  unfolding post_journal update_balance new_id ◌>>=◌
  post_journal-Ends-fresh s = ground arith
