-- ===== src/Service/Controls/Lifecycle.antt =====
-- The lifecycle of an account's status under the controls.
use lenz.Prelude.{
  ◌≡◌, refl, sym, ap, subst, ◌⊎◌, inl, inr, String, not, Bool, true, false, some, List, [], ◌∷◌,
  ◌||◌, ◌==◌, eq_refl, arith,
}
use lenz.Prelude.Text.{trim_space}
use lenz.Prelude.Table.{find, find-update, select, select-update, update}
use lenz.Model.{
  same_account_status, AccountStatus, account_status_text, Account, AccountControlInput,
}
use lenz.Tx.Yields.{Ends, Ends-map}
use lenz.Tx.{Store, Result, ok, err, ◌>>=◌, with_tx, outcome, new_id}
use lenz.Audit.{insert_audit_event}
use lenz.Accounts.{is_account, get_account}
use lenz.Controls.{
  set_account_status, with_status, set_status, change_status, allowed_account_status_transition,
}
use lenz.Service.{require_institution_id, checked}
use lenz.Service.Controls.{
  validate_account_control_input, check_control, freeze_account, unfreeze_account,
  activate_post_no_debit, deactivate_post_no_debit,
}

-- The accounts after a change of status that returns.
abbrev IsChanged : String → String → AccountStatus → Account → Store → Account → Store → Type 0
IsChanged i a status account s changed t =
    ((changed ≡ account) × (t.accounts ≡ s.accounts))
    ⊎ ((changed ≡ with_status status s.env.now account)
        × (t.accounts ≡ update (is_account i a) (with_status status s.env.now) s.accounts))

-- A change of status that returns was allowed, and the account has the status asked for.
set_status-Ends :
    (input : AccountControlInput) (status : AccountStatus) (allowed : List AccountStatus)
    (account : Account) (s : Store)
    → find (is_account input.institution_id input.account_id) s.accounts ≡ some account
    → Ends
        (λ changed t.
          (allowed_account_status_transition account.status allowed ≡ true)
          × ((account_status_text changed.status == account_status_text status) ≡ true)
          × IsChanged input.institution_id input.account_id status account s changed t)
        (set_status input status allowed s)
unfolding set_status change_status get_account insert_audit_event new_id ◌>>=◌
set_status-Ends input status allowed account s found =
    ground (arith, found, eq_refl (account_status_text status))

-- The four operations on the status.
pub data Operation : Type 0 where
  freeze unfreeze activate deactivate : Operation

abbrev pub perform :
    Operation → (String → Bool) → AccountControlInput → Store → Result Account × Store
perform Operation.freeze = freeze_account
perform Operation.unfreeze = unfreeze_account
perform Operation.activate = activate_post_no_debit
perform Operation.deactivate = deactivate_post_no_debit

-- The status that an operation starts from, and the one that it gives.
abbrev pub before : Operation → AccountStatus
before Operation.freeze = AccountStatus.active
before Operation.unfreeze = AccountStatus.frozen
before Operation.activate = AccountStatus.active
before Operation.deactivate = AccountStatus.post_no_debit

abbrev pub given : Operation → AccountStatus
given Operation.freeze = AccountStatus.frozen
given Operation.unfreeze = AccountStatus.active
given Operation.activate = AccountStatus.post_no_debit
given Operation.deactivate = AccountStatus.active

-- What an operation does to the account with the identifiers, and to the others.
abbrev pub IsStep : Operation → String → String → Account → Result Account × Store → Store → Type 0
IsStep op i a account (ok changed, t) s =
    (same_account_status account.status (before op) ≡ true)
    × (same_account_status changed.status (given op) ≡ true)
    × (find (is_account i a) t.accounts ≡ some changed)
    × (select (λ x. not (is_account i a x)) t.accounts
        ≡ select (λ x. not (is_account i a x)) s.accounts)
IsStep op i a account (err e, t) s = t ≡ s

-- A change of the status is one row's.
IsChanged-stored :
    (i a : String) (status : AccountStatus) (account changed : Account) (s t : Store)
    → find (is_account i a) s.accounts ≡ some account
    → IsChanged i a status account s changed t
    → (find (is_account i a) t.accounts ≡ some changed)
      × (select (λ x. not (is_account i a x)) t.accounts
          ≡ select (λ x. not (is_account i a x)) s.accounts)
IsChanged-stored i a status account changed s t found (inl (same, kept)) =
    (rw (kept, same) found, ap (select (λ x. not (is_account i a x))) kept)
IsChanged-stored i a status account changed s t found (inr (new, written)) =
    let f = with_status status s.env.now in
    (
      rw (written, new) (find-update (is_account i a) f (λ x. refl) s.accounts account found),
      rw written (select-update (is_account i a) f (λ x. refl) s.accounts),
    )

outcome-IsStep :
    (op : Operation) (i a : String) (account : Account) (s : Store) (r : Result (Account × Store))
    → find (is_account i a) s.accounts ≡ some account
    → Ends
        (λ changed t.
          (same_account_status account.status (before op) ≡ true)
          × (same_account_status changed.status (given op) ≡ true)
          × IsChanged i a (given op) account s changed t)
        r
    → IsStep op i a account (outcome s r) s
outcome-IsStep op i a account s (ok (changed, t)) found h =
    let stored = IsChanged-stored i a (given op) account changed s t found h.2 in
    (h.0, h.1, stored.0, stored.1)
outcome-IsStep op i a account s (err e) found h = refl

or_false : (b : Bool) → (b || false) ≡ true → b ≡ true
or_false b h = ground arith

set_account_status-IsStep :
    (op : Operation) (valid : AccountControlInput) (account : Account) (s : Store)
    → find (is_account valid.institution_id valid.account_id) s.accounts ≡ some account
    → IsStep op valid.institution_id valid.account_id account
        (set_account_status valid (given op) (before op ∷ []) s)
        s
unfolding set_account_status with_tx allowed_account_status_transition
set_account_status-IsStep op valid account s found =
    outcome-IsStep op _ _ account s (set_status valid (given op) (before op ∷ []) s) found (
      Ends-map (set_status valid (given op) (before op ∷ []) s)
        (set_status-Ends valid (given op) (before op ∷ []) account s found)
        (λ changed t e. (or_false _ e.0, e.1, e.2)))

check_control-Ends :
    (is_uuid : String → Bool) (input : AccountControlInput) (s : Store)
    → Ends
        (λ valid _.
          (valid.institution_id ≡ trim_space input.institution_id)
          × (valid.account_id ≡ trim_space input.account_id))
        (check_control is_uuid input s)
unfolding check_control validate_account_control_input require_institution_id get_account ◌>>=◌
check_control-Ends is_uuid input s = ground arith

checked-IsStep :
    (op : Operation) (account : Account) (f : AccountControlInput → Store → Result Account × Store)
    (i a : String) (s : Store) (r : Result (AccountControlInput × Store))
    → ((valid : AccountControlInput)
        → valid.institution_id ≡ i
        → valid.account_id ≡ a
        → IsStep op i a account (f valid s) s)
    → Ends (λ valid _. (valid.institution_id ≡ i) × (valid.account_id ≡ a)) r
    → IsStep op i a account (elim r [ ok (valid, t) ↦ f valid s | err e ↦ (err e, s) ]) s
checked-IsStep op account f i a s (ok (valid, t)) k h = k valid h.0 h.1
checked-IsStep op account f i a s (err e) k h = refl

perform-checked :
    (op : Operation) (is_uuid : String → Bool) (input : AccountControlInput) (s : Store)
    → perform op is_uuid input s
      ≡ checked
          (check_control is_uuid input)
          (λ valid. set_account_status valid (given op) (before op ∷ []))
          s
unfolding freeze_account unfreeze_account activate_post_no_debit deactivate_post_no_debit
perform-checked Operation.freeze is_uuid input s = refl
perform-checked Operation.unfreeze is_uuid input s = refl
perform-checked Operation.activate is_uuid input s = refl
perform-checked Operation.deactivate is_uuid input s = refl

renamed-IsStep :
    (op : Operation) (valid : AccountControlInput) (account : Account) (s : Store) (i a : String)
    → valid.institution_id ≡ i
    → valid.account_id ≡ a
    → find (is_account i a) s.accounts ≡ some account
    → IsStep op i a account (set_account_status valid (given op) (before op ∷ []) s) s
renamed-IsStep op valid account s i a same_i same_a found =
    subst (λ j. IsStep op j a account (set_account_status valid (given op) (before op ∷ []) s) s)
      same_i
      (subst
        (λ b.
          IsStep op valid.institution_id b account
            (set_account_status valid (given op) (before op ∷ []) s) s)
        same_a (set_account_status-IsStep op valid account s (rw (same_i, same_a) found)))

-- An operation on the status of an account that is there, if it returns, found the account in the
-- status that the operation starts from and gives it the operation's own: active to frozen and back,
-- active to no debits and back. The account that it returns is the one stored then, and all other
-- accounts are as before. If it fails, it changes nothing.
pub perform-IsStep :
    (op : Operation) (is_uuid : String → Bool) (input : AccountControlInput) (account : Account)
    (s : Store)
    → find (is_account (trim_space input.institution_id) (trim_space input.account_id)) s.accounts
      ≡ some account
    → IsStep op
        (trim_space input.institution_id)
        (trim_space input.account_id)
        account
        (perform op is_uuid input s)
        s
unfolding checked
perform-IsStep op is_uuid input account s found =
    let i = trim_space input.institution_id in
    let a = trim_space input.account_id in
    subst (λ r. IsStep op i a account r s) (sym (perform-checked op is_uuid input s))
      (checked-IsStep op account (λ valid. set_account_status valid (given op) (before op ∷ [])) i a
        s (check_control is_uuid input s)
        (λ valid same_i same_a. renamed-IsStep op valid account s i a same_i same_a found)
        (check_control-Ends is_uuid input s))
