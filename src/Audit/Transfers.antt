-- ===== src/Audit/Transfers.antt =====
-- Which event the audit trail gets for a transfer (the `audit…` and `…AuditInput` functions of
-- corebanking/sql_transfer_repository.go).
use lenz.Prelude.{
  String, Bool, true, false, Option, none, some, [], ◌∷◌, ◌++◌, not, ◌||◌, ◌&&◌, ◌==◌,
  if◌then◌else◌,
}
use lenz.Prelude.Decimal.{format_int}
use lenz.Model.{
  ReconciliationStatus, is_succeeded, is_failed, is_unknown, is_outbound, is_inbound, is_customer,
  status_text, ledger_status_text, reconciliation_status_text, account_status_text, Account,
  Transfer, RecordTransferInput,
}
use lenz.Tx.{Tx, pure}
use lenz.Audit.{AuditEventInput, optional_audit_value, insert_audit_event}
use lenz.Audit.Sanitize.{Metadata}

abbrev pub ledger_internal : String
ledger_internal = "ledger_internal"

abbrev pub is_manual_review : ReconciliationStatus → Bool
is_manual_review ReconciliationStatus.manual_review = true
is_manual_review _ = false

abbrev is_some : Option String → Bool
is_some none = false
is_some (some _) = true

-- `postedInternalTransferAuditInput`: `none` is the result `false`.
unfoldable pub posted_internal_transfer_audit_input :
    RecordTransferInput → Transfer → Account → Account → Option AuditEventInput
posted_internal_transfer_audit_input input transfer account clearing =
    let to_customer : Bool = is_outbound input.direction && is_customer clearing.kind in
    if not (is_succeeded transfer.status)
      || not (input.provider == ledger_internal)
      || not (input.reversal_of_transfer_id == "")
    then none
    else some (record {
      institution_id = transfer.institution_id;
      action =
          if to_customer
          then "internal_transfer.posted"
          else if is_outbound input.direction
          then "internal_debit.posted"
          else "internal_credit.posted";
      entity_type = "transfer";
      entity_id = transfer.id;
      customer_id = "";
      account_id = account.id;
      transfer_id = transfer.id;
      journal_entry_id = optional_audit_value transfer.journal_entry_id;
      idempotency_key = input.idempotency_key;
      reference = input.provider_reference;
      old_status = "";
      new_status = "";
      metadata =
          ("amount_minor", format_int input.amount_minor)
          ∷ ("currency_id", input.currency_id)
          ∷ (if to_customer
              then ("source_account_id", account.id) ∷ ("destination_account_id", clearing.id) ∷ []
              else []);
      created_at = transfer.created_at;
    })

-- The metadata that both external events share.
abbrev external_metadata : Transfer → Account → Metadata
external_metadata transfer account =
    ("amount_minor", format_int transfer.amount_minor)
    ∷ ("currency_id", transfer.currency_id)
    ∷ ("provider", transfer.provider)
    ∷ ("provider_status", status_text transfer.provider_status)
    ∷ ("ledger_status", ledger_status_text transfer.ledger_status)
    ∷ ("reconciliation_status", reconciliation_status_text transfer.reconciliation_status)
    ∷ ("account_status", account_status_text account.status)
    ∷ []

abbrev external_event : Transfer → Account → String → Metadata → AuditEventInput
external_event transfer account action metadata = record {
  institution_id = transfer.institution_id;
  action = action;
  entity_type = "transfer";
  entity_id = transfer.id;
  customer_id = "";
  account_id = account.id;
  transfer_id = transfer.id;
  journal_entry_id = optional_audit_value transfer.journal_entry_id;
  idempotency_key = transfer.idempotency_key;
  reference = transfer.provider_reference;
  old_status = "";
  new_status = status_text transfer.status;
  metadata = metadata;
  created_at = transfer.updated_at;
}

abbrev failure_entry : String → Metadata
failure_entry reason = if reason == "" then [] else ("failure_reason", reason) ∷ []

-- `externalInboundTransferAuditInput`
unfoldable pub external_inbound_transfer_audit_input :
    Transfer → Account → String → Option AuditEventInput
external_inbound_transfer_audit_input transfer account failure_reason =
    let reason : String =
      if failure_reason == ""
      then optional_audit_value transfer.failure_reason
      else failure_reason in
    if not (is_inbound transfer.direction)
      || transfer.provider == ledger_internal
      || is_some transfer.reversal_of_transfer_id
    then none
    else some (
        external_event transfer account
          (if is_manual_review transfer.reconciliation_status
            then "external_inbound.manual_review"
            else if is_succeeded transfer.status
            then "external_inbound.succeeded"
            else if is_failed transfer.status
            then "external_inbound.failed"
            else "external_inbound.pending")
          (external_metadata transfer account ++ failure_entry reason))

abbrev optional_failure : Option String → Metadata
optional_failure none = []
optional_failure (some reason) = ("failure_reason", reason) ∷ []

-- `externalOutboundTransferAuditInput`
unfoldable pub external_outbound_transfer_audit_input :
    RecordTransferInput → Transfer → Account → Account → Option AuditEventInput
external_outbound_transfer_audit_input input transfer account clearing =
    if not (is_outbound transfer.direction)
      || input.provider == ledger_internal
      || not (input.reversal_of_transfer_id == "")
    then none
    else some (
        external_event transfer account
          (if is_unknown transfer.provider_status
            then "external_outbound.provider_unknown"
            else if is_succeeded transfer.status
            then "external_outbound.succeeded"
            else if is_failed transfer.status
            then "external_outbound.failed"
            else "external_outbound.pending")
          (external_metadata transfer account
            ++ (("clearing_account_id", clearing.id) ∷ optional_failure transfer.failure_reason)))

unfoldable pub audit_if : Option AuditEventInput → Tx (Unit {0})
audit_if none = pure tt
audit_if (some input) = insert_audit_event input

-- `auditPostedInternalTransfer`
unfoldable pub audit_posted_internal_transfer :
    RecordTransferInput → Transfer → Account → Account → Tx (Unit {0})
unfolding audit_if posted_internal_transfer_audit_input
audit_posted_internal_transfer input transfer account clearing =
    audit_if (posted_internal_transfer_audit_input input transfer account clearing)

-- `auditExternalInboundTransfer`
unfoldable pub audit_external_inbound_transfer :
    RecordTransferInput → Transfer → Account → Tx (Unit {0})
unfolding audit_if external_inbound_transfer_audit_input
audit_external_inbound_transfer input transfer account =
    audit_if (external_inbound_transfer_audit_input transfer account input.failure_reason)

-- `auditExternalOutboundTransfer`
unfoldable pub audit_external_outbound_transfer :
    RecordTransferInput → Transfer → Account → Account → Tx (Unit {0})
unfolding audit_if external_outbound_transfer_audit_input
audit_external_outbound_transfer input transfer account clearing =
    audit_if (external_outbound_transfer_audit_input input transfer account clearing)
