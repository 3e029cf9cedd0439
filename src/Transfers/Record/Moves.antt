-- ===== src/Transfers/Record/Moves.antt =====
-- Recording a new transfer does to the book what the transfer means.
use lenz.Prelude.{◌≡◌, refl, ◌∙◌, subst, String, Bool, true, false, ℕ, if◌then◌else◌, arith, ◌&&◌}
use lenz.Model.{Status, is_succeeded, Transfer, RecordTransferInput}
use lenz.Tx.{Store, Tx, new_id, ◌>>=◌}
use lenz.Tx.Keeps.{Keeps}
use lenz.Tx.Yields.{Ends, Ends-map, Yields, Yields-bind, Yields-if, Yields-pure}
use lenz.Accounts.{LockedAccountBalance, update_balance, is_balance}
use lenz.Prelude.Table.{update}
use lenz.Ledger.{post_journal}
use lenz.Ledger.Book.{Book, book_of, moved, journal_store-book, book_of-available}
use lenz.Ledger.Effects.{post_journal-Ends}
use lenz.Holds.{create, insert_hold, take_available}
use lenz.Transfers.{insert_transfer, stated_provider_status, effective_status}
use lenz.Transfers.Record.Covered.{write_transfer-Yields}
use lenz.Transfers.Rows.{insert_transfer-Ends}
use lenz.Transfers.Record.{
  new_transfer, write_transfer, post_if_succeeded, record_transfer, is_insufficient,
}
use lenz.Fingerprint.{transfer_request_fingerprint}
use lenz.Transfers.Record.New.{new_status, IsUnmoved, record_transfer-new}
use lenz.Invariant.{IsLogInvariant}
use lenz.Invariant.Parts.{reading, audit_posted-Keeps, audit_inbound-Keeps, link_transfer-Keeps}

module _ (institution_id : String) (book : Book) where
  -- The store holds the book.
  abbrev pub HasBook : Store → Type 0
  HasBook t = (a : String) → book_of t.balances institution_id a ≡ book a

  HasBook-IsLogInvariant : IsLogInvariant HasBook
  HasBook-IsLogInvariant = record {
    on_env = λ s e h. h;
    on_events = λ s es h. h;
    on_audit = λ s es h. h;
  }

  insert-HasBook : (t : Transfer) → Keeps HasBook (insert_transfer t)
  insert-HasBook t = record {
    at = λ s h. Ends-map (insert_transfer t s) (insert_transfer-Ends t s) (λ _ u e. rw e.0 h);
  }

  create-Ends :
      (t : Transfer) (now : ℕ) (s : Store)
      → Ends
          (λ _ u.
            u.balances
            ≡ update
                (is_balance t.institution_id t.account_id)
                (take_available t.amount_minor now)
                s.balances)
          (create t now s)
  unfolding create insert_hold update_balance new_id ◌>>=◌
  create-Ends t now s = ground arith

  create-HasBook : (t : Transfer) (now : ℕ) → Keeps HasBook (create t now)
  create-HasBook t now = record {
    at = λ s h. Ends-map (create t now s) (create-Ends t now s) (λ _ u e a.
        rw e (book_of-available _ _ (λ b. (refl, refl, refl)) s.balances institution_id a ∙ h a));
  }

-- The book after a transfer of that status.
abbrev pub book_after : Store → RecordTransferInput → Status → Book
book_after s input status =
    let before = book_of s.balances input.institution_id in
    if is_succeeded status then moved s.accounts input before else before

post-HasBook :
    (s : Store) (input : RecordTransferInput) (id : String) (now : ℕ) (status : Status)
    → Yields
        (IsUnmoved s)
        (post_if_succeeded input id now status)
        (λ _. HasBook input.institution_id (book_after s input status))
unfolding post_if_succeeded
post-HasBook s input id now status =
    Yields-if (is_succeeded status) _ _
      (λ succeeded. rw succeeded (
        Yields-bind
          (λ _.
            HasBook input.institution_id
              (moved s.accounts input (book_of s.balances input.institution_id)))
          _ _
          (record {
            at = λ t h.
                Ends-map (post_journal input id now "" t) (post_journal-Ends input id now "" t)
                  (λ _ u e a. rw (e.1, journal_store-book input id now "" t a, h.0, h.1) refl);
          })
          λ journal. Yields-pure _ λ u h. h))
      (λ other. Yields-pure _ λ t h a. rw (other, h.1) refl)

module _ (input : RecordTransferInput) (s : Store) where
  abbrev pub IsMoved : Transfer → Store → Type 0
  IsMoved transfer t = HasBook input.institution_id (book_after s input transfer.status) t

  after :
      {A : Type 0} (status : Status) (m : Tx A)
      → Keeps (HasBook input.institution_id (book_after s input status)) m
      → Yields
          (HasBook input.institution_id (book_after s input status))
          m
          (λ _. HasBook input.institution_id (book_after s input status))
  after status m k = record { at = k.at }

  succeeded :
      (short strict : Bool)
      → strict ≡ true
      → (short && strict) ≡ false
      → stated_provider_status input ≡ Status.succeeded
      → input.status ≡ Status.succeeded
      → (if short
          then Status.failed
          else effective_status (stated_provider_status input) input.status)
        ≡ Status.succeeded
  succeeded true strict given accepted stated status = ground (arith, accepted, given)
  succeeded false strict given accepted stated status = rw (stated, status) refl

  write_transfer-IsMoved :
      (f : String) (l c : LockedAccountBalance) (id : String) (st ps : Status) (b : Bool) (now : ℕ)
      → Yields (IsUnmoved s) (write_transfer input f l c id st ps b now) IsMoved
  unfolding write_transfer
  write_transfer-IsMoved f l c id st ps b now =
      let H : Store → Type 0 = HasBook input.institution_id (book_after s input st) in
      let log = HasBook-IsLogInvariant input.institution_id (book_after s input st) in
      Yields-bind (λ _. H) _ _ (post-HasBook s input id now st)
        λ journal.
          Yields-bind (λ _. H) _ _ (after st _ (insert-HasBook _ _ _))
            λ _.
              Yields-bind (λ _. H) _ _ (after st _ (search (reading, create-HasBook) depth 12))
                λ _.
                  Yields-bind (λ _. H) _ _
                    (after st _ (search (reading, log, link_transfer-Keeps) depth 12))
                    λ _.
                      Yields-bind (λ _. H) _ _ (after st _ (audit_posted-Keeps log _ _ _ _))
                        λ _.
                          Yields-bind (λ _. H) _ _ (after st _ (audit_inbound-Keeps log _ _ _))
                            λ _.
                              Yields-pure (new_transfer input l id f st ps b journal now) λ t h. h

  -- A succeeded transfer that may not fail for want of money.
  pub record_transfer-succeeded :
      input.reject_insufficient ≡ true
      → stated_provider_status input ≡ Status.succeeded
      → input.status ≡ Status.succeeded
      → Ends (λ r t. r.1 ≡ true → r.0.status ≡ Status.succeeded) (record_transfer input s)
  record_transfer-succeeded strict stated status =
      record_transfer-new input s (λ t _. t.status ≡ Status.succeeded)
        λ pair id now known accepted.
          let status' = succeeded (is_insufficient input pair.0) _ strict accepted stated status in
          let f = transfer_request_fingerprint s.env.sha256_hex input in
          let writes =
            write_transfer input f pair.0 pair.1 id (new_status input s (λ _ _. Unit) pair.0)
              (stated_provider_status input) (is_insufficient input pair.0) now in
          subst (λ st. Yields (IsUnmoved s) writes (λ t _. t.status ≡ st)) status'
            (write_transfer-Yields input f pair.0 pair.1 id _ _ _ now)

  -- When a request is recorded as a new transfer, the book of the institution is the one before with
  -- the amount debited on one account and credited on the other, if the transfer succeeded, and the
  -- one before else.
  pub record_transfer-IsMoved : Ends (λ r t. r.1 ≡ true → IsMoved r.0 t) (record_transfer input s)
  record_transfer-IsMoved =
      record_transfer-new input s IsMoved
        λ pair id now known _. write_transfer-IsMoved _ pair.0 pair.1 id _ _ _ now
