-- ===== src/Ledger/Consistent.antt =====
-- The cached balances agree with the postings (README.md: "account balances are cached views of
-- that ledger").
use lenz.Prelude.{
  ◌≡◌, refl, sym, subst, ℕ, String, inl, inr, true, false, List, [], ◌∷◌, ◌&&◌, ◌==◌, eq_iff,
  Bool-cases, arith, if◌then◌else◌,
}
use lenz.Prelude.Int.{ℤ, pos, ◌+ℤ◌, int_laws}
use lenz.Prelude.Table.{insert, update, All, All-update}
use lenz.Model.{Side, Account, AccountBalance, Posting, RecordTransferInput}
use lenz.Tx.{Store}
use lenz.Tx.Yields.{Ends-map}
use lenz.Tx.Keeps.{Keeps}
use lenz.Accounts.{is_balance}
use lenz.Ledger.{posting_delta, post_journal}
use lenz.Ledger.Effects.{
  leg_posting, leg_balance, side_of, debited, credited, journal_store, post_journal-Ends,
}

-- What a posting adds to the balance of an account.
abbrev pub share : Side → String → String → Posting → ℤ
share side institution_id account_id p =
    if p.institution_id == institution_id && p.account_id == account_id
    then posting_delta side p.direction p.amount_minor
    else pos 0

-- The sum of the postings of one account, signed by its normal balance.
unfoldable pub posted : Side → String → String → List Posting → ℤ
posted side institution_id account_id [] = pos 0
posted side institution_id account_id (p ∷ ps) =
    share side institution_id account_id p +ℤ posted side institution_id account_id ps

pub posted-insert :
    (side : Side) (i a : String) (p : Posting) (ps : List Posting)
    → posted side i a (insert p ps) ≡ posted side i a ps +ℤ share side i a p
unfolding posted insert
posted-insert side i a p [] = omega int_laws
posted-insert side i a p (q ∷ ps) = rw (posted-insert side i a p ps) (omega int_laws)

abbrev pub IsCached : List Account → List Posting → AccountBalance → Type 0
IsCached accounts postings b =
    b.ledger_minor
    ≡ posted (side_of accounts b.institution_id b.account_id) b.institution_id b.account_id postings

-- Every cached ledger balance is the sum of the postings of its account.
pub record IsConsistent (s : Store) : Type 0 where
  pub cached : All (IsCached s.accounts s.postings) s.balances

-- One posting and the update that goes with it, on the row of a balance.
module _ (input : RecordTransferInput) (journal_id held account_id id : String) (side : Side)
    (direction : Side) (now : ℕ) (accounts : List Account) (postings : List Posting)
    (known : side ≡ side_of accounts input.institution_id account_id) where
  abbrev posting : Posting
  posting = leg_posting input journal_id held account_id side direction now id

  abbrev change : AccountBalance → AccountBalance
  change = leg_balance input journal_id held account_id side direction now

  share-change :
      (b : AccountBalance)
      → is_balance input.institution_id account_id b ≡ true
      → share (side_of accounts b.institution_id b.account_id) b.institution_id b.account_id posting
        ≡ posting_delta side direction input.amount_minor
  share-change b h = ground (
    arith,
    known,
    eq_iff b.institution_id input.institution_id,
    eq_iff b.account_id account_id,
    eq_iff input.institution_id b.institution_id,
    eq_iff account_id b.account_id,
  )

  share-other :
      (s : Side) (b : AccountBalance)
      → is_balance input.institution_id account_id b ≡ false
      → share s b.institution_id b.account_id posting ≡ pos 0
  share-other s b h = ground (
    arith,
    eq_iff b.institution_id input.institution_id,
    eq_iff b.account_id account_id,
    eq_iff input.institution_id b.institution_id,
    eq_iff account_id b.account_id,
  )

  leg-IsCached :
      (b : AccountBalance)
      → IsCached accounts postings b
      → IsCached accounts
          (insert posting postings)
          (if is_balance input.institution_id account_id b then change b else b)
  leg-IsCached b h = elim (Bool-cases (is_balance input.institution_id account_id b)) [
    | inl same ↦ rw same (rw (posted-insert, share-change b same, h))
    | inr other ↦ rw other (rw (posted-insert, share-other _ b other, h) (omega int_laws))
  ]

  leg-All :
      (rows : List AccountBalance)
      → All (IsCached accounts postings) rows
      → All
          (IsCached accounts (insert posting postings))
          (update (is_balance input.institution_id account_id) change rows)
  leg-All = All-update (IsCached accounts (insert posting postings)) _ change leg-IsCached

-- A posted journal keeps every cached balance equal to the sum of its postings.
journal_store-IsConsistent :
    (input : RecordTransferInput) (transfer_id : String) (now : ℕ) (held : String) (s : Store)
    → IsConsistent s
    → IsConsistent (journal_store input transfer_id now held s)
journal_store-IsConsistent input transfer_id now held s h =
    let journal_id = s.env.uuid s.env.drawn in
    record {
      cached =
          leg-All input journal_id held (credited input) _ _ Side.credit now s.accounts _ refl _ (
            leg-All input journal_id held (debited input) _ _ Side.debit now s.accounts s.postings
              refl s.balances h.cached);
    }

-- The postings of a journal keep every cached balance equal to the sum of its postings.
pub post_journal-Keeps-IsConsistent :
    (input : RecordTransferInput) (transfer_id : String) (now : ℕ) (held : String)
    → Keeps IsConsistent (post_journal input transfer_id now held)
post_journal-Keeps-IsConsistent input transfer_id now held = record {
  at = λ s h.
      Ends-map (post_journal input transfer_id now held s)
        (post_journal-Ends input transfer_id now held s)
        (λ id t e.
          subst IsConsistent (sym e.1) (journal_store-IsConsistent input transfer_id now held s h));
}
