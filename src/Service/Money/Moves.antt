-- ===== src/Service/Money/Moves.antt =====
-- What money inside the institution does to the book.
use lenz.Prelude.{
  ◌≡◌, refl, sym, ◌∙◌, subst, String, Bool, true, false, some, eq_iff, arith, not, ◌||◌,
}
use lenz.Prelude.Int.{ℤ, pos, ◌-ℤ◌}
use lenz.Prelude.Text.{trim_space}
use lenz.Prelude.Table.{find}
use lenz.Model.{
  Status, Direction, Side, Account, Transfer, RecordTransferInput, InternalTransferInput,
}
use lenz.Tx.{Store, ◌>>=◌}
use lenz.Tx.Yields.{
  Ends, Ends-map, Ends-both, Yields, Yields-bind-known, Yields-bind-fail_if, Yields-pure,
}
use lenz.Accounts.{is_account, get_account}
use lenz.Accounts.Laws.{found-is_account}
use lenz.Ledger.Book.{Book, book_of, entered}
use lenz.Ledger.Effects.{side_of}
use lenz.Transfers.{stated_provider_status}
use lenz.Transfers.Record.{record_transfer}
use lenz.Transfers.Record.Moves.{
  IsMoved, HasBook, record_transfer-IsMoved, record_transfer-succeeded,
}
use lenz.Service.{
  require_institution_id, valid_debit_customer_account, valid_credit_customer_account,
}
use lenz.Service.Money.{internal_transfer_input}

get_account-Ends :
    (i a : String) (s : Store)
    → Ends (λ x t. (t ≡ s) × (find (is_account i a) s.accounts ≡ some x)) (get_account i a s)
unfolding get_account ◌>>=◌
get_account-Ends i a s = ground arith

get_account-Yields :
    (i a : String) (s : Store)
    → Yields
        (λ t. t ≡ s)
        (get_account i a)
        (λ x t. (find (is_account i a) s.accounts ≡ some x) × (t ≡ s))
get_account-Yields i a s = record {
  at = λ t h.
      Ends-map (get_account i a t) (get_account-Ends i a t) (λ x u e. (rw (sym h) e.1, e.0 ∙ h));
}

found_id :
    (s : Store) (i a : String) (x : Account) → find (is_account i a) s.accounts ≡ some x → x.id ≡ a
found_id s i a x found = (eq_iff x.id a).0 (found-is_account i a s.accounts x found)

neither : (b d : Bool) → (not b || not d) ≡ false → (b ≡ true) × (d ≡ true)
neither true true h = (refl, refl)
neither true false h = ground (arith, h)
neither false d h = ground (arith, h)

-- A customer's account grows on the credit side.
debit_side :
    (s : Store) (i a currency : String) (x : Account)
    → find (is_account i a) s.accounts ≡ some x
    → valid_debit_customer_account x i currency ≡ true
    → side_of s.accounts i a ≡ Side.credit
unfolding valid_debit_customer_account side_of
debit_side s i a currency x found valid = rw (side_of, found) (ground (arith, valid))

credit_side :
    (s : Store) (i a currency : String) (x : Account)
    → find (is_account i a) s.accounts ≡ some x
    → valid_credit_customer_account x i currency ≡ true
    → side_of s.accounts i a ≡ Side.credit
unfolding valid_credit_customer_account side_of
credit_side s i a currency x found valid = rw (side_of, found) (ground (arith, valid))

-- A request that moves `amount` from one customer's account to another's, at once or not at all.
record IsRequest (s : Store) (i a c : String) (amount : ℤ) (r : RecordTransferInput) : Type 0 where
  on_institution : r.institution_id ≡ i
  on_account : r.account_id ≡ a
  on_counterparty : r.clearing_account_id ≡ c
  on_direction : r.direction ≡ Direction.outbound
  on_status : r.status ≡ Status.succeeded
  on_provider_status : stated_provider_status r ≡ Status.succeeded
  on_insufficient : r.reject_insufficient ≡ true
  on_amount : r.amount_minor ≡ amount
  on_source : side_of s.accounts i a ≡ Side.credit
  on_destination : side_of s.accounts i c ≡ Side.credit

stated_succeeded :
    (r : RecordTransferInput)
    → r.provider_status ≡ Status.succeeded
    → stated_provider_status r ≡ Status.succeeded
unfolding stated_provider_status
stated_succeeded r e = rw e refl

-- The book with the amount moved from one account to the other.
abbrev pub with_moved : String → String → ℤ → Book → Book
with_moved a c amount book = entered c amount (entered a (pos 0 -ℤ amount) book)

module _ (is_uuid : String → Bool) (input : InternalTransferInput) (s : Store) where
  abbrev i : String
  i = trim_space input.institution_id

  abbrev a : String
  a = trim_space input.source_account_id

  abbrev c : String
  c = trim_space input.destination_account_id

  internal_transfer_input-IsRequest :
      Yields
        (λ t. t ≡ s)
        (internal_transfer_input is_uuid input)
        (λ r t. IsRequest s i a c input.amount_minor r × (t ≡ s))
  unfolding internal_transfer_input require_institution_id
  internal_transfer_input-IsRequest =
      Yields-bind-known (λ x. x ≡ i) (λ t. t ≡ s) _ _
        (Yields-bind-fail_if _ _ _ λ _. Yields-pure _ λ t h. (refl, h))
        λ institution named. Yields-bind-fail_if _ _ _ λ _. Yields-bind-fail_if _ _ _ λ _.
          Yields-bind-fail_if _ _ _ λ _. Yields-bind-fail_if _ _ _ λ _.
            Yields-bind-known _ (λ t. t ≡ s) _ _ (get_account-Yields institution a s)
              λ source found.
                Yields-bind-known _ (λ t. t ≡ s) _ _ (get_account-Yields institution c s)
                  λ destination found'. Yields-bind-fail_if _ _ _ λ valid.
                    let (debits, credits) = neither _ _ valid in
                    Yields-pure _ λ t h. (
                      record {
                        on_institution = named;
                        on_account = found_id s institution a source found;
                        on_counterparty = found_id s institution c destination found';
                        on_direction = refl;
                        on_status = refl;
                        on_provider_status = stated_succeeded _ refl;
                        on_insufficient = refl;
                        on_amount = refl;
                        on_source =
                            rw (sym named) (debit_side s institution a _ source found debits);
                        on_destination =
                            rw (sym named)
                              (credit_side s institution c _ destination found' credits);
                      },
                      h,
                    )

  request_moves :
      (r : RecordTransferInput)
      → IsRequest s i a c input.amount_minor r
      → (transfer : Transfer) (t : Store) → transfer.status ≡ Status.succeeded
      → IsMoved r s transfer t
      → HasBook i (with_moved a c input.amount_minor (book_of s.balances i)) t
  request_moves r q transfer t status h x =
      rw
        (
          status, q.on_direction, q.on_institution, q.on_account, q.on_counterparty, q.on_amount,
          q.on_source, q.on_destination,
        )
        at (h x)

  -- An internal transfer whose checks pass and that is recorded as a new transfer takes the amount
  -- off the source account and adds it to the destination account, and leaves every other account
  -- of the institution as it is: the book after it is the book before with the amount moved.
  pub internal_transfer-moves :
      Ends
        (λ r t. r.1 ≡ true → HasBook i (with_moved a c input.amount_minor (book_of s.balances i)) t)
        ((internal_transfer_input is_uuid input >>= record_transfer) s)
  internal_transfer-moves =
      (Yields-bind-known (IsRequest s i a c input.amount_minor) (λ t. t ≡ s) _ _
          internal_transfer_input-IsRequest
          λ r q. record {
            at = λ t h.
                subst
                  (λ v.
                    Ends
                      (λ p u.
                        p.1 ≡ true
                        → HasBook i (with_moved a c input.amount_minor (book_of s.balances i)) u)
                      (record_transfer r v))
                  (sym h)
                  (Ends-map (record_transfer r s)
                    (Ends-both _ _ (record_transfer r s) (record_transfer-IsMoved r s) (
                      record_transfer-succeeded r s q.on_insufficient q.on_provider_status
                        q.on_status))
                    (λ p u e is_new. request_moves r q p.0 u (e.1 is_new) (e.0 is_new)));
          }).at
        s refl
