-- ===== src/Ledger/Balanced.antt =====
-- Double entry: the debits and the credits of every journal entry are what the entry says, and
-- equal.
use lenz.Prelude.{
  ◌≡◌, refl, sym, subst, ◌∙◌, ℕ, suc, String, Bool, true, false, not, ◌&&◌, List, [], ◌∷◌, ◌==◌,
  eqb, eq_iff, eq_refl, arith, Bool-cases, inl, inr, if◌then◌else◌,
}
use lenz.Prelude.Int.{ℤ, pos, ◌+ℤ◌, int_laws}
use lenz.Prelude.Table.{insert, count, All, All-insert, All-zip, count-insert, count-none}
use lenz.Model.{Side, same_side, JournalEntry, Posting, RecordTransferInput}
use lenz.Tx.{Store}
use lenz.Tx.Yields.{Ends-map, Ends-both}
use lenz.Tx.Keeps.{Keeps}
use lenz.Ledger.{post_journal}
use lenz.Ledger.Effects.{
  leg_posting, side_of, debited, credited, journal_entry, journal_store, post_journal-Ends,
  post_journal-Ends-fresh,
}

abbrev amount_in : Side → String → Posting → ℤ
amount_in side journal_id p =
    if journal_id == p.journal_entry_id && same_side p.direction side then p.amount_minor else pos 0

-- The sum of the postings of one journal entry on one side.
unfoldable pub entry_total : Side → String → List Posting → ℤ
entry_total side journal_id [] = pos 0
entry_total side journal_id (p ∷ ps) = amount_in side journal_id p +ℤ entry_total side journal_id ps

abbrev pub is_recorded : List JournalEntry → String → Bool
is_recorded entries journal_id = not (eqb (count (λ e. e.id == journal_id) entries) 0)

-- An entry states the sums of its postings, and they are equal.
abbrev pub IsBalancedEntry : List Posting → JournalEntry → Type 0
IsBalancedEntry postings e =
    (e.total_debit_minor ≡ entry_total Side.debit e.id postings)
    × (e.total_credit_minor ≡ entry_total Side.credit e.id postings)
    × (e.total_debit_minor ≡ e.total_credit_minor)

-- Every posting belongs to a journal entry, and every journal entry balances.
pub record IsDoubleEntry (s : Store) : Type 0 where
  pub known : All (λ p. is_recorded s.journal_entries p.journal_entry_id ≡ true) s.postings
  pub balanced : All (IsBalancedEntry s.postings) s.journal_entries

entry_total-insert :
    (side : Side) (j : String) (p : Posting) (ps : List Posting)
    → entry_total side j (insert p ps) ≡ entry_total side j ps +ℤ amount_in side j p
unfolding entry_total insert
entry_total-insert side j p [] = omega int_laws
entry_total-insert side j p (q ∷ ps) = rw (entry_total-insert side j p ps) (omega int_laws)

recorded-same :
    (entries : List JournalEntry) (j k : String)
    → j ≡ k
    → count (λ e. e.id == j) entries ≡ 0
    → is_recorded entries k ≡ true
    → true ≡ false
recorded-same entries j k e none known =
    let none' = subst (λ i. count (λ (x : JournalEntry). x.id == i) entries ≡ 0) e none in
    ground arith

unrecorded-other :
    (j : String) (entries : List JournalEntry) (p : Posting)
    → count (λ e. e.id == j) entries ≡ 0
    → is_recorded entries p.journal_entry_id ≡ true
    → (j == p.journal_entry_id) ≡ false
unrecorded-other j entries p none known = elim (Bool-cases (j == p.journal_entry_id)) [
  | inr other ↦ other
  | inl same ↦
      same
      ∙ recorded-same entries j p.journal_entry_id ((eq_iff j p.journal_entry_id).0 same) none known
]

-- An entry that is not there has no postings.
entry_total-fresh :
    (side : Side) (j : String) (entries : List JournalEntry) (ps : List Posting)
    → count (λ e. e.id == j) entries ≡ 0
    → All (λ p. is_recorded entries p.journal_entry_id ≡ true) ps
    → entry_total side j ps ≡ pos 0
unfolding entry_total
entry_total-fresh side j entries [] none known = refl
entry_total-fresh side j entries (p ∷ ps) none known =
    rw (unrecorded-other j entries p none known.0, entry_total-fresh side j entries ps none known.1)
      (omega int_laws)

is_recorded-insert :
    (e : JournalEntry) (entries : List JournalEntry) (j : String)
    → is_recorded entries j ≡ true
    → is_recorded (insert e entries) j ≡ true
is_recorded-insert e entries j known =
    rw (count-insert (λ (x : JournalEntry). x.id == j) e entries) (ground arith)

is_recorded-new :
    (e : JournalEntry) (entries : List JournalEntry) → is_recorded (insert e entries) e.id ≡ true
is_recorded-new e entries =
    rw (count-insert (λ (x : JournalEntry). x.id == e.id) e entries) (ground (arith, eq_refl e.id))

entry_total-both :
    (side : Side) (j : String) (d c : Posting) (ps : List Posting)
    → entry_total side j (insert c (insert d ps))
      ≡ entry_total side j ps +ℤ amount_in side j d +ℤ amount_in side j c
entry_total-both side j d c ps =
    rw (entry_total-insert side j c (insert d ps), entry_total-insert side j d ps) refl

-- Two postings of another entry leave the total.
entry_total-other :
    (side : Side) (j : String) (d c : Posting) (ps : List Posting)
    → (j == d.journal_entry_id) ≡ false
    → (j == c.journal_entry_id) ≡ false
    → entry_total side j (insert c (insert d ps)) ≡ entry_total side j ps
entry_total-other side j d c ps od oc = rw (entry_total-both side j d c ps, od, oc) (omega int_laws)

-- The journal of one transfer.
module _ (input : RecordTransferInput) (transfer_id : String) (now : ℕ) (held : String)
    (s : Store) where
  abbrev journal_id : String
  journal_id = s.env.uuid s.env.drawn

  abbrev entry : JournalEntry
  entry = journal_entry input transfer_id now held journal_id

  abbrev leg : Side → String → Side → String → Posting
  leg side account direction id = leg_posting input journal_id held account side direction now id

  abbrev debit_leg : Posting
  debit_leg =
      leg (side_of s.accounts input.institution_id (debited input)) (debited input) Side.debit
        (s.env.uuid (suc s.env.drawn))

  abbrev credit_leg : Posting
  credit_leg =
      leg (side_of s.accounts input.institution_id (credited input)) (credited input) Side.credit
        (s.env.uuid (suc (suc s.env.drawn)))

  -- The new postings are none of an older entry's.
  older-IsBalancedEntry :
      (e : JournalEntry)
      → IsBalancedEntry s.postings e × ((e.id == journal_id) ≡ false)
      → IsBalancedEntry (insert credit_leg (insert debit_leg s.postings)) e
  older-IsBalancedEntry e (h, other) = (
    h.0 ∙ sym (entry_total-other Side.debit e.id debit_leg credit_leg s.postings other other),
    h.1 ∙ sym (entry_total-other Side.credit e.id debit_leg credit_leg s.postings other other),
    h.2,
  )

  new_total :
      (side : Side)
      → count (λ e. e.id == journal_id) s.journal_entries ≡ 0
      → IsDoubleEntry s
      → input.amount_minor
        ≡ entry_total side journal_id (insert credit_leg (insert debit_leg s.postings))
  new_total Side.debit fresh h =
      rw
        (
          entry_total-both Side.debit journal_id debit_leg credit_leg s.postings,
          entry_total-fresh Side.debit journal_id s.journal_entries s.postings fresh h.known,
          eq_refl journal_id,
        )
        (omega int_laws)
  new_total Side.credit fresh h =
      rw
        (
          entry_total-both Side.credit journal_id debit_leg credit_leg s.postings,
          entry_total-fresh Side.credit journal_id s.journal_entries s.postings fresh h.known,
          eq_refl journal_id,
        )
        (omega int_laws)

  journal_store-IsDoubleEntry :
      count (λ e. e.id == journal_id) s.journal_entries ≡ 0
      → IsDoubleEntry s
      → IsDoubleEntry (journal_store input transfer_id now held s)
  journal_store-IsDoubleEntry fresh h = record {
    known =
        All-insert _ credit_leg (λ _ k. k) (is_recorded-new entry s.journal_entries) _
          (All-insert _ debit_leg
            (λ p. is_recorded-insert entry s.journal_entries p.journal_entry_id)
            (is_recorded-new entry s.journal_entries) s.postings h.known);
    balanced =
        All-insert _ entry older-IsBalancedEntry
          (new_total Side.debit fresh h, new_total Side.credit fresh h, refl) s.journal_entries
          (All-zip (IsBalancedEntry s.postings) _ s.journal_entries h.balanced
            (count-none (λ e. e.id == journal_id) s.journal_entries fresh));
  }

pub post_journal-Keeps-IsDoubleEntry :
    (input : RecordTransferInput) (transfer_id : String) (now : ℕ) (held : String)
    → Keeps IsDoubleEntry (post_journal input transfer_id now held)
post_journal-Keeps-IsDoubleEntry input transfer_id now held = record {
  at = λ s h.
      Ends-map (post_journal input transfer_id now held s)
        (Ends-both _ _ (post_journal input transfer_id now held s)
          (post_journal-Ends input transfer_id now held s)
          (post_journal-Ends-fresh input transfer_id now held s))
        (λ id t e.
          subst IsDoubleEntry (sym e.0.1)
            (journal_store-IsDoubleEntry input transfer_id now held s e.1 h));
}
