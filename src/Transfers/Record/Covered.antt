-- ===== src/Transfers/Record/Covered.antt =====
-- A new outbound transfer of a customer is covered by the money that is available.
use lenz.Prelude.{
  ◌≡◌, refl, sym, ap, ◌∙◌, String, Bool, true, false, Bool-cases, inl, inr, none, some, arith,
  if◌then◌else◌,
}
use lenz.Prelude.Int.{◌≤ℤ◌}
use lenz.Prelude.Table.{find}
use lenz.Model.{
  Status, is_failed, is_customer, Account, AccountBalance, Transfer, RecordTransferInput,
}
use lenz.Tx.{Store}
use lenz.Tx.Yields.{Ends, Yields, Yields-any, Yields-bind, Ends-map, Yields-pure}
use lenz.Policy.{customer_initiated_outbound, can_use_available_balance}
use lenz.Accounts.{LockedAccountBalance, is_account, is_balance}
use lenz.Accounts.Laws.{IsLocked}
use lenz.Transfers.Record.New.{record_transfer-new}
use lenz.Transfers.Record.{is_insufficient, write_transfer, record_transfer}

some_inj : {A : Type 0} {x y : A} → some x ≡ some y → x ≡ y
some_inj {A} {x} h = ap (λ o. elim o [ none ↦ x | some z ↦ z ]) h

pub write_transfer-Yields :
    {P : Store → Type 0} (input : RecordTransferInput) (f : String) (l c : LockedAccountBalance)
    (id : String) (st ps : Status) (b : Bool) (now : _)
    → Yields P (write_transfer input f l c id st ps b now) (λ t _. t.status ≡ st)
unfolding write_transfer
write_transfer-Yields input f l c id st ps b now = Yields-bind _ _ _ (Yields-any _) λ journal.
    Yields-bind _ _ _ (Yields-any _) λ _. Yields-bind _ _ _ (Yields-any _) λ _.
      Yields-bind _ _ _ (Yields-any _) λ _.
        Yields-bind _ _ _ (Yields-any _)
          λ _. Yields-bind _ _ _ (Yields-any _) λ _. Yields-pure _ λ _ _. refl

module _ (input : RecordTransferInput) (s : Store) (account : Account)
    (balance : AccountBalance) where
  -- A transfer that did not fail takes no more than the balance has.
  abbrev IsCovered : Transfer → Store → Type 0
  IsCovered transfer _ =
      is_failed transfer.status ≡ false → input.amount_minor ≤ℤ balance.available_minor

  module _ (out : customer_initiated_outbound input ≡ true)
      (a : find (is_account input.institution_id input.account_id) s.accounts ≡ some account)
      (b : find (is_balance input.institution_id input.account_id) s.balances ≡ some balance)
      (customer : is_customer account.kind ≡ true) (strict : account.allow_negative ≡ false) where
    sufficient :
        (locked : LockedAccountBalance)
        → (find (is_account input.institution_id input.account_id) s.accounts ≡ some locked.account)
        → (find (is_balance input.institution_id input.account_id) s.balances ≡ some locked.balance)
        → is_insufficient input locked ≡ false
        → input.amount_minor ≤ℤ balance.available_minor
    unfolding is_insufficient can_use_available_balance
    sufficient locked la lb enough =
        let same : locked.account ≡ account = some_inj (sym la ∙ a) in
        let row : locked.balance ≡ balance = some_inj (sym lb ∙ b) in ground arith

    covered :
        (locked : LockedAccountBalance)
        → IsLocked s input.institution_id input.account_id locked
        → (transfer : Transfer) (st : Status)
        → transfer.status ≡ (if is_insufficient input locked then Status.failed else st)
        → is_failed transfer.status ≡ false
        → input.amount_minor ≤ℤ balance.available_minor
    covered locked known transfer st status succeeded =
        elim (Bool-cases (is_insufficient input locked)) [
          | inr enough ↦ sufficient locked known.0 known.1 enough
          | inl short ↦ ground (arith, short, status, succeeded)
        ]

    -- When a new outbound transfer of a customer, whose account may not go below zero, is recorded
    -- and not as failed, its amount was available before.
    pub record_transfer-IsCovered :
        Ends (λ r t. r.1 ≡ true → IsCovered r.0 t) (record_transfer input s)
    record_transfer-IsCovered = record_transfer-new input s IsCovered λ pair id now known _.
        record {
          at = λ t h.
              Ends-map _ ((write_transfer-Yields {P = λ _. Unit} _ _ _ _ _ _ _ _ _).at t tt)
                (λ transfer u status. covered pair.0 known.0 transfer _ status);
        }
