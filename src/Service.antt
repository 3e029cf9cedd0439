-- ===== src/Service.antt =====
-- The service over the repository (corebanking/service.go): it checks what a caller sends before a
-- transaction runs. Whether a text is a UUID is a parameter (`uuid.Parse` of package
-- github.com/google/uuid).
pub mod Controls
pub mod Money
pub mod Action
pub mod External
pub mod Mock
pub mod Reads
use lenz.Prelude.{String, Bool, true, false, not, ◌&&◌, ◌||◌, ◌==◌}
use lenz.Prelude.Text.{trim_space}
use lenz.Model.{Side, AccountStatus, is_customer, same_side, same_account_status, Account, Error}
use lenz.Tx.{Store, Result, ok, err, Tx, pure, fail_if, ◌>>=◌, ◌>>◌}

-- `requireInstitutionID`
unfoldable pub require_institution_id : String → Tx String
require_institution_id institution_id = do
  fail_if (trim_space institution_id == "") Error.invalid_request
  pure (trim_space institution_id)

-- What follows a step that may fail before the transaction, as `if err != nil { return … }`. The
-- steps only read.
unfoldable pub checked :
    {A B : Type 0} → Tx A → (A → Store → Result B × Store) → Store → Result B × Store
checked m f s = elim (m s) [ ok (a, t) ↦ f a s | err e ↦ (err e, s) ]

-- `validInternalSettlementAccount`
unfoldable pub valid_internal_settlement_account : Account → String → String → Bool
valid_internal_settlement_account account institution_id currency_id =
    account.institution_id == institution_id
    && not (is_customer account.kind)
    && account.product_type == "internal"
    && account.allow_negative
    && account.currency_id == currency_id
    && same_side account.normal_balance Side.debit
    && same_account_status account.status AccountStatus.active

-- `validDebitCustomerAccount`
unfoldable pub valid_debit_customer_account : Account → String → String → Bool
valid_debit_customer_account account institution_id currency_id =
    account.institution_id == institution_id
    && is_customer account.kind
    && account.currency_id == currency_id
    && same_side account.normal_balance Side.credit
    && same_account_status account.status AccountStatus.active

-- `validCreditCustomerAccount`
unfoldable pub valid_credit_customer_account : Account → String → String → Bool
valid_credit_customer_account account institution_id currency_id =
    account.institution_id == institution_id
    && is_customer account.kind
    && account.currency_id == currency_id
    && same_side account.normal_balance Side.credit
    && (same_account_status account.status AccountStatus.active
        || same_account_status account.status AccountStatus.post_no_debit)
