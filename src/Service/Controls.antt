-- ===== src/Service/Controls.antt =====
-- The controls on accounts as the service offers them (corebanking/service_account_controls.go).
pub mod Lifecycle
use lenz.Prelude.{String, Bool, true, false, List, [], ◌∷◌, not, ◌&&◌, ◌||◌, ◌==◌, if◌then◌else◌}
use lenz.Prelude.Int.{pos, leb_ℤ}
use lenz.Prelude.Text.{trim_space, to_upper}
use lenz.Model.{
  AccountStatus, is_customer, is_closed, Account, AccountHold, AccountControlInput,
  AccountLienInput, ReleaseLienInput, Error,
}
use lenz.Tx.{Store, Result, ok, err, Tx, pure, fail_if, with_tx, ◌>>=◌, ◌>>◌}
use lenz.Accounts.{get_account}
use lenz.Controls.{set_account_status, place_account_lien, release_account_lien}
use lenz.Service.{require_institution_id, checked}

-- `controllableAccount`
unfoldable pub controllable_account : Account → Bool
controllable_account account = is_customer account.kind && not (is_closed account.status)

module _ (is_uuid : String → Bool) where
  -- `validateAccountControlInput` with the reason required, as every caller has it.
  unfoldable pub validate_account_control_input : AccountControlInput → Tx AccountControlInput
  unfolding require_institution_id
  validate_account_control_input input = do
    institution_id ← require_institution_id input.institution_id
    let trimmed : AccountControlInput = record {
      institution_id = institution_id;
      account_id = trim_space input.account_id;
      reference = trim_space input.reference;
      reason = trim_space input.reason;
    }
    fail_if (not (is_uuid trimmed.account_id)) Error.invalid_request
    fail_if (trimmed.reference == "" || trimmed.reason == "") Error.invalid_request
    pure trimmed

  -- The body that the four operations on the status share, up to the statuses.
  unfoldable pub check_control : AccountControlInput → Tx AccountControlInput
  unfolding validate_account_control_input controllable_account
  check_control input = do
    valid ← validate_account_control_input input
    account ← get_account valid.institution_id valid.account_id
    fail_if (not (controllable_account account)) Error.invalid_request
    pure valid

  -- `FreezeAccount`
  unfoldable pub freeze_account : AccountControlInput → Store → Result Account × Store
  unfolding check_control checked
  freeze_account input =
      checked (check_control input)
        (λ valid. set_account_status valid AccountStatus.frozen (AccountStatus.active ∷ []))

  -- `UnfreezeAccount`
  unfoldable pub unfreeze_account : AccountControlInput → Store → Result Account × Store
  unfolding check_control checked
  unfreeze_account input =
      checked (check_control input)
        (λ valid. set_account_status valid AccountStatus.active (AccountStatus.frozen ∷ []))

  -- `ActivatePostNoDebit`
  unfoldable pub activate_post_no_debit : AccountControlInput → Store → Result Account × Store
  unfolding check_control checked
  activate_post_no_debit input =
      checked (check_control input)
        (λ valid. set_account_status valid AccountStatus.post_no_debit (AccountStatus.active ∷ []))

  -- `DeactivatePostNoDebit`
  unfoldable pub deactivate_post_no_debit : AccountControlInput → Store → Result Account × Store
  unfolding check_control checked
  deactivate_post_no_debit input =
      checked (check_control input)
        (λ valid. set_account_status valid AccountStatus.active (AccountStatus.post_no_debit ∷ []))

  -- The checks of `PlaceAccountLien`.
  unfoldable pub validate_lien_input : AccountLienInput → Tx AccountLienInput
  unfolding require_institution_id
  validate_lien_input input = do
    institution_id ← require_institution_id input.institution_id
    let trimmed = record input {
      institution_id = institution_id;
      account_id = trim_space input.account_id;
      currency_id = to_upper (trim_space input.currency_id);
      reference = trim_space input.reference;
      reason = trim_space input.reason;
    }
    fail_if (not (is_uuid trimmed.account_id)) Error.invalid_request
    fail_if
        (leb_ℤ trimmed.amount_minor (pos 0)
          || trimmed.currency_id == ""
          || trimmed.reference == ""
          || trimmed.reason == "")
        Error.invalid_request
    pure trimmed

  -- `PlaceAccountLien` of the service
  unfoldable pub request_account_lien : AccountLienInput → Store → Result AccountHold × Store
  unfolding validate_lien_input checked
  request_account_lien input = checked (validate_lien_input input) place_account_lien

  -- The checks of `ReleaseAccountLien`.
  unfoldable pub validate_release_input : ReleaseLienInput → Tx ReleaseLienInput
  unfolding require_institution_id
  validate_release_input input = do
    institution_id ← require_institution_id input.institution_id
    let trimmed : ReleaseLienInput = record {
      institution_id = institution_id;
      account_id = trim_space input.account_id;
      lien_id = trim_space input.lien_id;
      reference = trim_space input.reference;
      reason = trim_space input.reason;
    }
    fail_if (not (is_uuid trimmed.account_id)) Error.invalid_request
    fail_if (not (is_uuid trimmed.lien_id)) Error.invalid_request
    fail_if (trimmed.reference == "") Error.invalid_request
    pure trimmed

  -- `ReleaseAccountLien` of the service
  unfoldable pub request_lien_release : ReleaseLienInput → Store → Result AccountHold × Store
  unfolding validate_release_input checked
  request_lien_release input = checked (validate_release_input input) release_account_lien
