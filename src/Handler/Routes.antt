-- ===== src/Handler/Routes.antt =====
-- The handlers of the requests that change something (corebanking/handler.go,
-- handler_account_controls.go and handler_reconciliation.go): the institution of the caller, the
-- body, and the call of the service. A path gives UUIDs as texts.
use lenz.Prelude.{String, Bool, Option, List}
use lenz.Model.{
  Account, AccountHold, Transfer, ReconciliationItem, ExternalNameEnquiryResult,
  ExternalOutboundTransferResult, ExternalTransferRequeryResult,
}
use lenz.Tx.{Result, ok, err, Principal}
use lenz.Provider.{TransferProvider}
use lenz.Service.Action.{Action, stop, transact}
use lenz.Service.Money.{internal_credit, internal_debit, internal_transfer, request_reversal}
use lenz.Service.Controls.{
  freeze_account, unfreeze_account, activate_post_no_debit, deactivate_post_no_debit,
  request_account_lien, request_lien_release,
}
use lenz.Service.Reads.{mark_item_reviewed}
use lenz.Service.External as External
use lenz.Service.External.Outbound as Outbound
use lenz.Service.External.Requery as Requery
use lenz.Handler.{institution_scope}
use lenz.Handler.Bodies.{
  InternalCreditRequest, InternalDebitRequest, InternalTransferRequest, ExternalNameEnquiryRequest,
  ExternalOutboundTransferRequest, ExternalTransferRequeryRequest, AccountControlRequest,
  AccountLienRequest, ReleaseLienRequest, MarkReconciliationItemReviewedRequest,
}
use lenz.Handler.Binding.{
  bind_internal_credit_request, bind_internal_debit_request, bind_internal_transfer_request,
  bind_external_name_enquiry_request, bind_external_outbound_transfer_request,
  bind_external_transfer_requery_request,
}
use lenz.Handler.Controls.{
  bind_account_control_request, bind_account_lien_request, bind_release_lien_request,
  bind_mark_reviewed_request,
}

-- `if err != nil { return nil, err }`
abbrev pub run : {S A B : Type 0} → Result A → (A → Action S B) → Action S B
run (ok a) f = f a
run (err e) f = stop e

module _ {S Payload : Type 0} (is_uuid : String → Bool)
    (providers : List (String × TransferProvider S Payload)) (caller : Option Principal)
    (header : Option String) where
  -- The first lines of each handler.
  abbrev scoped : {B : Type 0} → (String → Action S B) → Action S B
  scoped = run (institution_scope caller header)

  -- `CreateInternalCredit`
  unfoldable pub create_internal_credit : Option InternalCreditRequest → Action S Transfer
  unfolding bind_internal_credit_request internal_credit
  create_internal_credit body = scoped λ i.
      run (bind_internal_credit_request i body) λ input. transact (internal_credit is_uuid input)

  -- `CreateInternalDebit`
  unfoldable pub create_internal_debit : Option InternalDebitRequest → Action S Transfer
  unfolding bind_internal_debit_request internal_debit
  create_internal_debit body =
      scoped λ i.
        run (bind_internal_debit_request i body) λ input. transact (internal_debit is_uuid input)

  -- `CreateInternalTransfer`
  unfoldable pub create_internal_transfer : Option InternalTransferRequest → Action S Transfer
  unfolding bind_internal_transfer_request internal_transfer
  create_internal_transfer body = scoped λ i.
      run (bind_internal_transfer_request i body)
        λ input. transact (internal_transfer is_uuid input)

  -- `ExternalNameEnquiry`
  unfoldable pub external_name_enquiry :
      Option ExternalNameEnquiryRequest → Action S ExternalNameEnquiryResult
  unfolding bind_external_name_enquiry_request External.external_name_enquiry
  external_name_enquiry body = scoped λ i.
      run (bind_external_name_enquiry_request i body)
        λ input. External.external_name_enquiry providers input

  -- `ExternalOutboundTransfer`
  unfoldable pub external_outbound_transfer :
      Option ExternalOutboundTransferRequest → Action S ExternalOutboundTransferResult
  unfolding bind_external_outbound_transfer_request Outbound.external_outbound_transfer
  external_outbound_transfer body = scoped λ i.
      run (bind_external_outbound_transfer_request i body)
        λ input. Outbound.external_outbound_transfer is_uuid providers input

  -- `ExternalTransferRequery`
  unfoldable pub external_transfer_requery :
      String → Option ExternalTransferRequeryRequest → Action S ExternalTransferRequeryResult
  unfolding bind_external_transfer_requery_request Requery.external_transfer_requery
  external_transfer_requery transfer_id body = scoped λ i.
      run (bind_external_transfer_requery_request i transfer_id body)
        λ input. Requery.external_transfer_requery is_uuid providers input

  -- `ReverseTransfer`
  unfoldable pub reverse_transfer : String → String → Action S Transfer
  unfolding request_reversal
  reverse_transfer transfer_id idempotency_key =
      scoped λ i. transact (request_reversal is_uuid i transfer_id idempotency_key)

  -- `FreezeAccount`
  unfoldable pub freeze : String → Option AccountControlRequest → Action S Account
  unfolding bind_account_control_request freeze_account
  freeze account_id body = scoped λ i.
      run (bind_account_control_request i account_id body)
        λ input. transact (freeze_account is_uuid input)

  -- `UnfreezeAccount`
  unfoldable pub unfreeze : String → Option AccountControlRequest → Action S Account
  unfolding bind_account_control_request unfreeze_account
  unfreeze account_id body = scoped λ i.
      run (bind_account_control_request i account_id body)
        λ input. transact (unfreeze_account is_uuid input)

  -- `ActivatePostNoDebit`
  unfoldable pub activate : String → Option AccountControlRequest → Action S Account
  unfolding bind_account_control_request activate_post_no_debit
  activate account_id body = scoped λ i.
      run (bind_account_control_request i account_id body)
        λ input. transact (activate_post_no_debit is_uuid input)

  -- `DeactivatePostNoDebit`
  unfoldable pub deactivate : String → Option AccountControlRequest → Action S Account
  unfolding bind_account_control_request deactivate_post_no_debit
  deactivate account_id body = scoped λ i.
      run (bind_account_control_request i account_id body)
        λ input. transact (deactivate_post_no_debit is_uuid input)

  -- `PlaceAccountLien`
  unfoldable pub place_account_lien : String → Option AccountLienRequest → Action S AccountHold
  unfolding bind_account_lien_request request_account_lien
  place_account_lien account_id body = scoped λ i.
      run (bind_account_lien_request i account_id body)
        λ input. transact (request_account_lien is_uuid input)

  -- `ReleaseAccountLien`
  unfoldable pub release_account_lien :
      String → String → Option ReleaseLienRequest → Action S AccountHold
  unfolding bind_release_lien_request request_lien_release
  release_account_lien account_id lien_id body = scoped λ i.
      run (bind_release_lien_request i account_id lien_id body)
        λ input. transact (request_lien_release is_uuid input)

  -- `MarkReconciliationItemReviewed`
  unfoldable pub mark_reviewed :
      String → Option MarkReconciliationItemReviewedRequest → Action S ReconciliationItem
  unfolding bind_mark_reviewed_request mark_item_reviewed
  mark_reviewed transfer_id body = scoped λ i.
      run (bind_mark_reviewed_request i transfer_id body)
        λ input. transact (mark_item_reviewed is_uuid input)
