-- ===== src/Controls.antt =====
-- The controls on an account: its status, and liens on its money
-- (corebanking/sql_account_controls.go).
pub mod Liens
use lenz.Prelude.{
  ℕ, String, Bool, true, false, Option, none, some, List, [], ◌∷◌, not, ◌&&◌, ◌||◌, ◌==◌,
  if◌then◌else◌,
}
use lenz.Prelude.Int.{ltb_ℤ, eqb_ℤ}
use lenz.Prelude.Decimal.{format_int}
use lenz.Prelude.Table.{find, update}
use lenz.Model.{
  HoldStatus, AccountStatus, is_active_hold, is_customer, is_closed, same_account_status,
  account_status_text, Account, AccountHold, AccountControlInput, AccountLienInput,
  ReleaseLienInput, Error,
}
use lenz.Tx.{
  Store, Result, Tx, pure, gets, require, fail_if, if_found, modify, new_id, with_tx, ◌>>=◌, ◌>>◌,
}
use lenz.Audit.{AuditEventInput, optional_audit_value, insert_audit_event}
use lenz.Accounts.{
  LockedAccountBalance, is_account, get_account, lock_account_balance, update_balance,
}
use lenz.Holds.{insert_hold, update_hold, add_available, take_available, end_hold}

-- `allowedAccountStatusTransition`: no list allows every status.
abbrev is_among : AccountStatus → List AccountStatus → Bool
is_among current [] = false
is_among current (a ∷ allowed) = same_account_status current a || is_among current allowed

unfoldable pub allowed_account_status_transition : AccountStatus → List AccountStatus → Bool
allowed_account_status_transition current [] = true
allowed_account_status_transition current (a ∷ allowed) = is_among current (a ∷ allowed)

abbrev is_post_no_debit : AccountStatus → Bool
is_post_no_debit AccountStatus.post_no_debit = true
is_post_no_debit _ = false

-- `accountStatusAuditAction`
unfoldable pub account_status_audit_action : AccountStatus → AccountStatus → String
account_status_audit_action old AccountStatus.frozen = "account.frozen"
account_status_audit_action old AccountStatus.post_no_debit = "account.pnd_activated"
account_status_audit_action old _ =
    if is_post_no_debit old then "account.pnd_deactivated" else "account.unfrozen"

-- The audit event that the controls write, with what each leaves out empty.
abbrev control_event :
    String
    → String
    → String
    → String
    → String
    → String
    → String
    → String
    → String
    → List (String × String)
    → ℕ
    → AuditEventInput
control_event institution_id action entity_type entity_id customer_id account_id reference
      old_status new_status metadata now =
    record {
      institution_id = institution_id;
      action = action;
      entity_type = entity_type;
      entity_id = entity_id;
      customer_id = customer_id;
      account_id = account_id;
      transfer_id = "";
      journal_entry_id = "";
      idempotency_key = "";
      reference = reference;
      old_status = old_status;
      new_status = new_status;
      metadata = metadata;
      created_at = now;
    }

-- `SET status = …, updated_at = …`
abbrev pub with_status : AccountStatus → ℕ → Account → Account
with_status status now a = record a { status = status; updated_at = now }

-- UPDATE accounts SET status = …
unfoldable pub change_status : AccountControlInput → AccountStatus → Account → Tx Account
change_status input status account = do
  now ← gets (λ s. s.env.now)
  modify (λ s. record s {
    accounts =
        update (is_account input.institution_id input.account_id) (with_status status now)
          s.accounts;
  })
  insert_audit_event (
      control_event input.institution_id (account_status_audit_action account.status status)
        "account" account.id (optional_audit_value account.customer_id) account.id input.reference
        (account_status_text account.status) (account_status_text status)
        (("reason", input.reason) ∷ []) now)
  pure (with_status status now account)

-- The body of `SetAccountStatus`.
unfoldable pub set_status : AccountControlInput → AccountStatus → List AccountStatus → Tx Account
unfolding change_status
set_status input status allowed = do
  account ← get_account input.institution_id input.account_id
  fail_if (not (allowed_account_status_transition account.status allowed)) Error.invalid_request
  if same_account_status account.status status
      then pure account
      else change_status input status account

-- `SetAccountStatus`
unfoldable pub set_account_status :
    AccountControlInput → AccountStatus → List AccountStatus → Store → Result Account × Store
unfolding set_status with_tx
set_account_status input status allowed = with_tx (set_status input status allowed)

abbrev pub is_lien : Option String → Bool
is_lien none = true
is_lien (some _) = false

-- An active lien with the reference, on this account or (`same` false) on another.
abbrev pub is_active_lien : Bool → String → String → String → AccountHold → Bool
is_active_lien same institution_id account_id reference h =
    h.institution_id == institution_id
    && (if same then h.account_id == account_id else not (h.account_id == account_id))
    && h.reference == reference
    && is_lien h.transfer_id
    && is_active_hold h.status

-- `getActiveLienByReference`: `none` is ErrNotFound.
unfoldable pub get_active_lien_by_reference : String → String → String → Tx (Option AccountHold)
get_active_lien_by_reference institution_id account_id reference =
    gets (λ s. find (is_active_lien true institution_id account_id reference) s.holds)

abbrev is_some_hold : Option AccountHold → Bool
is_some_hold none = false
is_some_hold (some _) = true

-- `ensureNoOtherActiveLienByReference`
unfoldable pub ensure_no_other_active_lien_by_reference : String → String → String → Tx (Unit {0})
ensure_no_other_active_lien_by_reference institution_id account_id reference = do
  other ← gets (λ s. find (is_active_lien false institution_id account_id reference) s.holds)
  fail_if (is_some_hold other) Error.conflict

-- `accountLienReplayMatches`
unfoldable pub account_lien_replay_matches : AccountLienInput → AccountHold → Bool
account_lien_replay_matches input hold =
    hold.institution_id == input.institution_id
    && hold.account_id == input.account_id
    && hold.reference == input.reference
    && eqb_ℤ hold.amount_minor input.amount_minor
    && hold.currency_id == input.currency_id

abbrev new_lien : AccountLienInput → String → ℕ → AccountHold
new_lien input id now = record {
  id = id;
  institution_id = input.institution_id;
  account_id = input.account_id;
  transfer_id = none;
  amount_minor = input.amount_minor;
  currency_id = input.currency_id;
  status = HoldStatus.active;
  reason = input.reason;
  reference = input.reference;
  created_at = now;
  updated_at = now;
  released_at = none;
}

-- The writes of `PlaceAccountLien`.
unfoldable pub write_lien : AccountLienInput → Tx AccountHold
write_lien input = do
  now ← gets (λ s. s.env.now)
  id ← new_id
  let hold = new_lien input id now
  insert_hold hold
  update_balance input.institution_id input.account_id (take_available input.amount_minor now)
  insert_audit_event (
      control_event input.institution_id "account.lien_placed" "account_hold" hold.id ""
        hold.account_id input.reference "" "active"
        (("amount_minor", format_int input.amount_minor)
          ∷ ("currency_id", input.currency_id)
          ∷ ("reason", input.reason)
          ∷ [])
        now)
  pure hold

-- What is checked of a lien that is not there yet.
unfoldable pub new_lien_checks : AccountLienInput → LockedAccountBalance → Tx (Unit {0})
unfolding ensure_no_other_active_lien_by_reference
new_lien_checks input locked = do
  ensure_no_other_active_lien_by_reference input.institution_id input.account_id input.reference
  fail_if (not (locked.account.currency_id == input.currency_id)) Error.invalid_request
  fail_if (ltb_ℤ locked.balance.available_minor input.amount_minor) Error.insufficient

-- The body of `PlaceAccountLien`.
unfoldable pub place_lien : AccountLienInput → Tx AccountHold
unfolding write_lien new_lien_checks
place_lien input = do
  locked ← lock_account_balance input.institution_id input.account_id
  fail_if (not (is_customer locked.account.kind) || is_closed locked.account.status)
      Error.invalid_request
  existing ← get_active_lien_by_reference input.institution_id input.account_id input.reference
  if_found existing
      (λ hold. fail_if (not (account_lien_replay_matches input hold)) Error.conflict >> pure hold)
      (new_lien_checks input locked >> write_lien input)

-- `PlaceAccountLien`
unfoldable pub place_account_lien : AccountLienInput → Store → Result AccountHold × Store
unfolding place_lien with_tx
place_account_lien input = with_tx (place_lien input)

abbrev pub is_lien_row : String → String → String → AccountHold → Bool
is_lien_row institution_id account_id lien_id h =
    h.institution_id == institution_id && h.account_id == account_id && h.id == lien_id

-- `getLienForUpdate`
unfoldable pub get_lien : String → String → String → Tx AccountHold
get_lien institution_id account_id lien_id = do
  found ← gets (λ s.
      find (λ h. is_lien_row institution_id account_id lien_id h && is_lien h.transfer_id) s.holds)
  require found Error.not_found

-- The writes of `ReleaseAccountLien`.
unfoldable pub write_lien_release : ReleaseLienInput → AccountHold → Tx AccountHold
write_lien_release input current = do
  now ← gets (λ s. s.env.now)
  update_hold (is_lien_row input.institution_id input.account_id input.lien_id)
      (end_hold HoldStatus.released now)
  update_balance input.institution_id input.account_id (add_available current.amount_minor now)
  hold ← get_lien input.institution_id input.account_id input.lien_id
  insert_audit_event (
      control_event input.institution_id "account.lien_released" "account_hold" hold.id ""
        hold.account_id input.reference "active" "released"
        (("amount_minor", format_int hold.amount_minor)
          ∷ ("currency_id", hold.currency_id)
          ∷ ("reason", input.reason)
          ∷ [])
        now)
  pure hold

-- The body of `ReleaseAccountLien`.
unfoldable pub release_lien : ReleaseLienInput → Tx AccountHold
unfolding write_lien_release
release_lien input = do
  current ← get_lien input.institution_id input.account_id input.lien_id
  if not (is_active_hold current.status) then pure current else write_lien_release input current

-- `ReleaseAccountLien`
unfoldable pub release_account_lien : ReleaseLienInput → Store → Result AccountHold × Store
unfolding release_lien with_tx
release_account_lien input = with_tx (release_lien input)
