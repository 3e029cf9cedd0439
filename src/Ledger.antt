-- ===== src/Ledger.antt =====
-- The ledger (corebanking/sql_ledger_repository.go): a transfer is posted as one journal entry with
-- a debit and a credit, and each posting moves the cached balance of its account.
pub mod Journal
pub mod Balanced
pub mod Consistent
pub mod Effects
pub mod Book
use lenz.Prelude.{ℕ, String, Bool, Option, none, some, List, not, ◌==◌, eqb, if◌then◌else◌}
use lenz.Prelude.Int.{ℤ, pos, ◌+ℤ◌, ◌-ℤ◌, ltb_ℤ, leb_ℤ}
use lenz.Prelude.Table.{find, insert, count}
use lenz.Model.{
  Direction, is_outbound, Side, same_side, JournalEntry, Posting, AccountBalance,
  RecordTransferInput, Error,
}
use lenz.Tx.{Store, Tx, pure, gets, require, fail_if, modify, new_id, ◌>>=◌, ◌>>◌}
use lenz.Accounts.{is_account, update_balance}

-- The text of a CHECK of the tables: `other` is none of the three directions.
abbrev pub unlisted_direction : Direction → Bool
unlisted_direction (Direction.other _) = Bool.true
unlisted_direction _ = Bool.false

unfoldable pub insert_journal_entry : JournalEntry → Tx (Unit {0})
insert_journal_entry entry = do
  rows ← gets (λ s. s.journal_entries)
  fail_if (not (eqb (count (λ e. e.id == entry.id) rows) 0)) Error.database
  fail_if (ltb_ℤ entry.total_debit_minor (pos 0)) Error.database
  fail_if (unlisted_direction entry.entry_type) Error.database
  modify (λ s. record s { journal_entries = insert entry s.journal_entries })

unfoldable pub insert_posting : Posting → Tx (Unit {0})
insert_posting posting = do
  rows ← gets (λ s. s.postings)
  fail_if (not (eqb (count (λ p. p.id == posting.id) rows) 0)) Error.database
  fail_if (leb_ℤ posting.amount_minor (pos 0)) Error.database
  modify (λ s. record s { postings = insert posting s.postings })

-- What a posting adds to a balance: an account grows on its own side.
abbrev pub posting_delta : Side → Side → ℤ → ℤ
posting_delta normal_balance direction amount_minor =
    if same_side normal_balance direction then amount_minor else pos 0 -ℤ amount_minor

-- `applyPostingBalance`; with the override the available balance stays as it is.
unfoldable pub apply_posting_balance :
    String → String → Side → Side → ℤ → String → ℕ → Bool → Tx (Unit {0})
apply_posting_balance institution_id account_id normal_balance direction amount_minor journal_id now
      override =
    let delta = posting_delta normal_balance direction amount_minor in
    update_balance institution_id account_id λ b. record b {
      available_minor = b.available_minor +ℤ (if override then pos 0 else delta);
      ledger_minor = b.ledger_minor +ℤ delta;
      last_journal_entry_id = some journal_id;
      updated_at = now;
    }

-- One round of the loop over the two postings.
unfoldable pub post_leg :
    RecordTransferInput → String → String → String → Side → Side → ℕ → Tx (Unit {0})
unfolding insert_posting apply_posting_balance
post_leg input journal_id held_account_id account_id normal_balance direction now = do
  id ← new_id
  insert_posting (record {
    id = id;
    institution_id = input.institution_id;
    journal_entry_id = journal_id;
    account_id = account_id;
    direction = direction;
    amount_minor = input.amount_minor;
    currency_id = input.currency_id;
    created_at = now;
  })
  apply_posting_balance input.institution_id account_id normal_balance direction input.amount_minor
      journal_id now (account_id == held_account_id)

-- One entry of the map that `normalBalances` returns.
unfoldable pub normal_balance_of : String → String → Tx Side
normal_balance_of institution_id account_id = do
  found ←
      require (← gets (λ s. find (is_account institution_id account_id) s.accounts)) Error.not_found
  pure found.normal_balance

-- `postJournal`; the empty text stands for no held account.
unfoldable pub post_journal : RecordTransferInput → String → ℕ → String → Tx String
unfolding insert_journal_entry normal_balance_of post_leg
post_journal input transfer_id now held_account_id = do
  journal_id ← new_id
  insert_journal_entry (record {
    id = journal_id;
    institution_id = input.institution_id;
    transfer_id = transfer_id;
    entry_type =
        if input.reversal_of_transfer_id == "" then input.direction else Direction.reversal;
    currency_id = input.currency_id;
    narration = input.narration;
    total_debit_minor = input.amount_minor;
    total_credit_minor = input.amount_minor;
    created_at = now;
  })
  let outgoing = is_outbound input.direction
  let debit_account_id = if outgoing then input.account_id else input.clearing_account_id
  let credit_account_id = if outgoing then input.clearing_account_id else input.account_id
  debit_side ← normal_balance_of input.institution_id debit_account_id
  credit_side ← normal_balance_of input.institution_id credit_account_id
  post_leg input journal_id held_account_id debit_account_id debit_side Side.debit now
  post_leg input journal_id held_account_id credit_account_id credit_side Side.credit now
  pure journal_id
