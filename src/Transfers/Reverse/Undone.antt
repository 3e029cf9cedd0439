-- ===== src/Transfers/Reverse/Undone.antt =====
-- The journal of a reversal takes back what the journal of the original moved.
use lenz.Prelude.{
  ◌≡◌, refl, ◌∙◌, ap, ℕ, String, Bool, true, false, List, map, not, Bool-cases, inl, inr,
  if◌then◌else◌,
}
use lenz.Prelude.Int.{ℤ, ◌+ℤ◌, ◌-ℤ◌, pos, int_laws}
use lenz.Prelude.Table.{step, column-update}
use lenz.Prelude.Text.{trim_space}
use lenz.Model.{
  Direction, is_outbound, Side, AccountBalance, Transfer, RecordTransferInput, ReverseTransferInput,
}
use lenz.Tx.{Store, ◌>>=◌}
use lenz.Tx.Yields.{Ends, Ends-map, Yields-bind}
use lenz.Accounts.{is_balance}
use lenz.Ledger.{post_journal, posting_delta}
use lenz.Ledger.Effects.{leg_balance, debited, credited, journal_store, post_journal-Ends}
use lenz.Transfers.Reverse.{opposite, reversal_input}

abbrev pub ledgers : Store → List ℤ
ledgers s = map (λ b. b.ledger_minor) s.balances

-- A debit and a credit of the same amount cancel, on either side.
deltas_cancel :
    (side : Side) (amount : ℤ)
    → posting_delta side Side.credit amount ≡ pos 0 -ℤ posting_delta side Side.debit amount
deltas_cancel Side.debit amount = omega int_laws
deltas_cancel Side.credit amount = omega int_laws

opposite-is_outbound : (d : Direction) → is_outbound (opposite d) ≡ not (is_outbound d)
opposite-is_outbound Direction.outbound = refl
opposite-is_outbound Direction.inbound = refl
opposite-is_outbound Direction.reversal = refl
opposite-is_outbound (Direction.other text) = refl

-- The input of the transfer `original`, as far as its journal depends on it.
abbrev pub original_input :
    RecordTransferInput → ReverseTransferInput → Transfer → RecordTransferInput
original_input input reversal original = record input {
  institution_id = trim_space reversal.institution_id;
  account_id = original.account_id;
  direction = original.direction;
  amount_minor = original.amount_minor;
}

-- One posting on one balance.
module _ (input : RecordTransferInput) (j h account : String) (side direction : Side) (now : ℕ)
    (b : AccountBalance) where
  abbrev leg : AccountBalance
  leg =
      step (is_balance input.institution_id account)
        (leg_balance input j h account side direction now) b

  leg_ledger :
      leg.ledger_minor
      ≡ b.ledger_minor
        +ℤ (if is_balance input.institution_id account b
            then posting_delta side direction input.amount_minor
            else pos 0)
  leg_ledger = elim (Bool-cases (is_balance input.institution_id account b)) [
    | inl same ↦ rw same refl
    | inr other ↦ rw other (omega int_laws)
  ]

  leg_ledger_if :
      (p : Bool)
      → is_balance input.institution_id account b ≡ p
      → leg.ledger_minor
        ≡ b.ledger_minor +ℤ (if p then posting_delta side direction input.amount_minor else pos 0)
  leg_ledger_if p e =
      leg_ledger
      ∙ ap
          (λ q.
            b.ledger_minor
            +ℤ (if q then posting_delta side direction input.amount_minor else pos 0))
          e

  leg_key : (i x : String) → is_balance i x leg ≡ is_balance i x b
  leg_key i x = elim (Bool-cases (is_balance input.institution_id account b)) [
    | inl same ↦ rw same refl
    | inr other ↦ rw other refl
  ]

-- Four movements, of which the last two take back the first two.
undone_sum :
    (l l1 l2 l3 l4 dd kc dc cd : ℤ) (on_d on_c : Bool)
    → l1 ≡ l +ℤ (if on_d then dd else pos 0)
    → l2 ≡ l1 +ℤ (if on_c then kc else pos 0)
    → l3 ≡ l2 +ℤ (if on_c then dc else pos 0)
    → l4 ≡ l3 +ℤ (if on_d then cd else pos 0)
    → cd ≡ pos 0 -ℤ dd
    → kc ≡ pos 0 -ℤ dc
    → l4 ≡ l
undone_sum l l1 l2 l3 l4 dd kc dc cd true true e1 e2 e3 e4 f g =
    rw (e4, e3, e2, e1, f, g) (omega int_laws)
undone_sum l l1 l2 l3 l4 dd kc dc cd true false e1 e2 e3 e4 f g =
    rw (e4, e3, e2, e1, f) (omega int_laws)
undone_sum l l1 l2 l3 l4 dd kc dc cd false true e1 e2 e3 e4 f g =
    rw (e4, e3, e2, e1, g) (omega int_laws)
undone_sum l l1 l2 l3 l4 dd kc dc cd false false e1 e2 e3 e4 f g =
    rw (e4, e3, e2, e1) (omega int_laws)

module _ (input : RecordTransferInput) (reversal : ReverseTransferInput) (original : Transfer) where
  abbrev there : RecordTransferInput
  there = original_input input reversal original

  abbrev back : RecordTransferInput
  back = reversal_input reversal original input.clearing_account_id

  debited-back : debited back ≡ credited there
  unfolding reversal_input
  debited-back = elim (Bool-cases (is_outbound original.direction)) [
    | inl out ↦ rw (opposite-is_outbound original.direction, out) refl
    | inr other ↦ rw (opposite-is_outbound original.direction, other) refl
  ]

  credited-back : credited back ≡ debited there
  unfolding reversal_input
  credited-back = elim (Bool-cases (is_outbound original.direction)) [
    | inl out ↦ rw (opposite-is_outbound original.direction, out) refl
    | inr other ↦ rw (opposite-is_outbound original.direction, other) refl
  ]

  balance-undone :
      (j k h g d c : String) (sd sc : Side) (now later : ℕ) (b : AccountBalance)
      → (leg back k g d sd Side.credit later (
          leg back k g c sc Side.debit later (
            leg there j h c sc Side.credit now (leg there j h d sd Side.debit now b)))).ledger_minor
        ≡ b.ledger_minor
  unfolding reversal_input
  balance-undone j k h g d c sd sc now later b =
      let i = trim_space reversal.institution_id in
      let b1 = leg there j h d sd Side.debit now b in
      let b2 = leg there j h c sc Side.credit now b1 in
      let b3 = leg back k g c sc Side.debit later b2 in
      let b4 = leg back k g d sd Side.credit later b3 in
      let key1 = leg_key there j h d sd Side.debit now b in
      let key2 = λ (x : String). leg_key there j h c sc Side.credit now b1 i x ∙ key1 i x in
      let key3 = λ (x : String). leg_key back k g c sc Side.debit later b2 i x ∙ key2 x in
      undone_sum b.ledger_minor b1.ledger_minor b2.ledger_minor b3.ledger_minor b4.ledger_minor _ _
        _ _ (is_balance i d b) (is_balance i c b) (leg_ledger there j h d sd Side.debit now b)
        (leg_ledger_if there j h c sc Side.credit now b1 _ (key1 i c))
        (leg_ledger_if back k g c sc Side.debit later b2 _ (key2 c))
        (leg_ledger_if back k g d sd Side.credit later b3 _ (key3 d))
        (deltas_cancel sd original.amount_minor) (deltas_cancel sc original.amount_minor)

  -- Both journals, on all balances.
  journals-undone :
      (transfer_id reversal_id held g : String) (now later : ℕ) (s : Store)
      → ledgers
          (journal_store back reversal_id later g (journal_store there transfer_id now held s))
        ≡ ledgers s
  unfolding reversal_input
  journals-undone transfer_id reversal_id held g now later s =
      let t = journal_store there transfer_id now held s in
      rw (debited-back, credited-back)
        (column-update (λ b. b.ledger_minor) _ _ _ _ _ _ _ _
          (λ b.
            balance-undone (s.env.uuid s.env.drawn) (t.env.uuid t.env.drawn) held g (debited there)
              (credited there) _ _ now later b)
          s.balances)

  -- A posted transfer and then the posting of its reversal, if both return, leave every ledger
  -- balance as it was before.
  pub post_journal-undone :
      (transfer_id reversal_id held g : String) (now later : ℕ) (s : Store)
      → Ends
          (λ _ t. ledgers t ≡ ledgers s)
          ((post_journal there transfer_id now held >>= λ _. post_journal back reversal_id later g)
            s)
  post_journal-undone transfer_id reversal_id held g now later s =
      let m = journal_store there transfer_id now held s in
      (Yields-bind {P = λ t. t ≡ s} (λ _ t. t ≡ m) (post_journal there transfer_id now held)
          (λ _. post_journal back reversal_id later g)
          (record {
            at = λ t e.
                Ends-map (post_journal there transfer_id now held t)
                  (post_journal-Ends there transfer_id now held t)
                  (λ _ u k. k.1 ∙ ap (journal_store there transfer_id now held) e);
          })
          (λ _. record {
            at = λ t e.
                Ends-map (post_journal back reversal_id later g t)
                  (post_journal-Ends back reversal_id later g t)
                  (λ _ u k.
                    ap ledgers (k.1 ∙ ap (journal_store back reversal_id later g) e)
                    ∙ journals-undone transfer_id reversal_id held g now later s);
          })).at
        s refl
