-- ===== src/Ledger/Book.antt =====
-- The ledger as its clients see it: a book that gives, for each account of an institution, what is
-- on it. It forgets the rows, their order and their other columns.
use lenz.Prelude.{
  ◌≡◌, refl, String, Option, none, some, List, [], ◌∷◌, ◌==◌, inl, inr, Bool-cases, eq_iff, arith,
  if◌then◌else◌, ℕ, Bool,
}
use lenz.Prelude.Int.{ℤ, ◌+ℤ◌}
use lenz.Prelude.Table.{find, update}
use lenz.Model.{Side, Account, AccountBalance, RecordTransferInput}
use lenz.Tx.{Store}
use lenz.Accounts.{is_balance}
use lenz.Ledger.{posting_delta}
use lenz.Ledger.Effects.{leg_balance, journal_store, side_of, debited, credited}

abbrev pub Book : Type 0
Book = String → Option ℤ

abbrev ledger_of : Option AccountBalance → Option ℤ
ledger_of none = none
ledger_of (some b) = some b.ledger_minor

-- The book that the rows of `account_balances` hold.
unfoldable pub book_of : List AccountBalance → String → Book
book_of rows institution_id account_id =
    ledger_of (find (is_balance institution_id account_id) rows)

abbrev plus : ℤ → Option ℤ → Option ℤ
plus d none = none
plus d (some x) = some (x +ℤ d)

-- An amount is added on an account.
abbrev pub entered : String → ℤ → Book → Book
entered account_id d book a = if account_id == a then plus d (book a) else book a

-- What posting a transfer means: the amount is debited on one account and credited on the other,
-- and either grows on its own side.
abbrev pub moved : List Account → RecordTransferInput → Book → Book
moved accounts input book =
    let side = side_of accounts input.institution_id in
    entered (credited input) (posting_delta (side (credited input)) Side.credit input.amount_minor)
      (entered (debited input) (posting_delta (side (debited input)) Side.debit input.amount_minor)
        book)

module _ (input : RecordTransferInput) (journal held account_id : String) (side direction : Side)
    (now : ℕ) where
  pub book_of-leg :
      (rows : List AccountBalance) (a : String)
      → book_of
          (update
            (is_balance input.institution_id account_id)
            (leg_balance input journal held account_id side direction now)
            rows)
          input.institution_id
          a
        ≡ entered account_id
            (posting_delta side direction input.amount_minor)
            (book_of rows input.institution_id)
            a
  unfolding book_of find update
  book_of-leg [] a = ground arith
  book_of-leg (b ∷ bs) a = elim (Bool-cases (is_balance input.institution_id a b)) [
    | inl found ↦
        ground
          (arith, found, eq_iff b.account_id a, eq_iff b.account_id account_id, eq_iff account_id a)
    | inr other ↦ ground (arith, other, book_of-leg bs a)
  ]

-- The posting of a transfer is what it means.
pub journal_store-book :
    (input : RecordTransferInput) (transfer_id : String) (now : ℕ) (held : String) (s : Store)
    (a : String)
    → book_of (journal_store input transfer_id now held s).balances input.institution_id a
      ≡ moved s.accounts input (book_of s.balances input.institution_id) a
journal_store-book input transfer_id now held s a =
    rw
      (
        book_of-leg input _ held (credited input) _ Side.credit now _ a,
        book_of-leg input _ held (debited input) _ Side.debit now s.balances a,
      )
      refl

-- What changes no ledger balance changes no book.
pub book_of-available :
    (p : AccountBalance → Bool) (f : AccountBalance → AccountBalance)
    → ((b : AccountBalance)
        → ((f b).institution_id ≡ b.institution_id)
          × ((f b).account_id ≡ b.account_id)
          × ((f b).ledger_minor ≡ b.ledger_minor))
    → (rows : List AccountBalance) (i a : String) → book_of (update p f rows) i a ≡ book_of rows i a
unfolding book_of find update
book_of-available p f same [] i a = refl
book_of-available p f same (b ∷ bs) i a =
    ground (arith, (same b).0, (same b).1, (same b).2, book_of-available p f same bs i a)
