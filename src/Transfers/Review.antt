-- ===== src/Transfers/Review.antt =====
-- An event of a provider that cannot be posted and waits for a person
-- (`recordProviderEventReview` of corebanking/sql_transfer_repository.go).
use lenz.Prelude.{ℕ, String, Bool, true, false, Option, none, some, not, ◌||◌, ◌==◌, if◌then◌else◌}
use lenz.Prelude.Int.{pos, leb_ℤ}
use lenz.Prelude.Text.{trim_space, to_upper}
use lenz.Model.{
  LedgerStatus, ReconciliationStatus, normalize_status, normalize_direction, is_empty_direction,
  is_blank, Account, Transfer, RecordTransferInput, RecordProviderEventReviewInput, Error,
}
use lenz.Tx.{Store, Result, Tx, pure, gets, fail_if, if_found, new_id, with_tx, ◌>>=◌, ◌>>◌}
use lenz.Fingerprint.{transfer_request_fingerprint_matches}
use lenz.Audit.{AuditEventInput}
use lenz.Audit.Sanitize.{put}
use lenz.Audit.Transfers.{audit_if, external_inbound_transfer_audit_input}
use lenz.Accounts.{lock_account_balance}
use lenz.ProviderEvents.{optional, reserve, link_transfer, payload_matches, get_transfer_of_event}
use lenz.Transfers.{
  get_transfer_by_idempotency, insert_transfer, narration_or, unlisted_status,
  unlisted_provider_status,
}
use lenz.Transfers.Replay.{accept_replay, existing_provider_event_transfer}

abbrev trimmed_review : RecordProviderEventReviewInput → RecordProviderEventReviewInput
trimmed_review input =
    let status = normalize_status input.status in
    let provider_status = normalize_status input.provider_status in
    record {
      institution_id = trim_space input.institution_id;
      account_id = trim_space input.account_id;
      direction = normalize_direction input.direction;
      status = status;
      provider_status = if is_blank provider_status then status else provider_status;
      amount_minor = input.amount_minor;
      currency_id = to_upper (trim_space input.currency_id);
      idempotency_key = trim_space input.idempotency_key;
      provider = trim_space input.provider;
      provider_reference = trim_space input.provider_reference;
      provider_event_id = trim_space input.provider_event_id;
      request_fingerprint = trim_space input.request_fingerprint;
      failure_reason = trim_space input.failure_reason;
      narration = narration_or input.narration "Provider event manual review";
      reserve_provider_event = input.reserve_provider_event;
    }

abbrev is_incomplete_review : RecordProviderEventReviewInput → Bool
is_incomplete_review input =
    input.institution_id == ""
    || input.account_id == ""
    || is_empty_direction input.direction
    || leb_ℤ input.amount_minor (pos 0)
    || not (input.currency_id == "NGN")
    || input.idempotency_key == ""
    || input.provider == ""
    || input.provider_event_id == ""
    || input.provider_reference == ""
    || input.request_fingerprint == ""
    || unlisted_status input.status
    || unlisted_provider_status input.provider_status

-- `normalizeProviderEventReviewInput`
unfoldable pub normalize_provider_event_review_input :
    RecordProviderEventReviewInput → Tx RecordProviderEventReviewInput
normalize_provider_event_review_input input = do
  fail_if (is_incomplete_review (trimmed_review input)) Error.invalid_request
  pure (trimmed_review input)

-- `providerReviewRecordTransferInput`
abbrev pub provider_review_record_transfer_input :
    RecordProviderEventReviewInput → RecordTransferInput
provider_review_record_transfer_input input = record {
  institution_id = input.institution_id;
  account_id = input.account_id;
  clearing_account_id = "";
  direction = input.direction;
  status = input.status;
  amount_minor = input.amount_minor;
  currency_id = input.currency_id;
  idempotency_key = input.idempotency_key;
  provider = input.provider;
  provider_reference = input.provider_reference;
  provider_event_id = input.provider_event_id;
  provider_status = input.provider_status;
  reversal_of_transfer_id = "";
  request_fingerprint = input.request_fingerprint;
  failure_reason = input.failure_reason;
  narration = input.narration;
  reject_insufficient = false;
  require_available = false;
}

abbrev review_action : RecordProviderEventReviewInput → AuditEventInput → AuditEventInput
review_action input event = record event {
  action = "external_inbound.manual_review";
  metadata =
      if input.failure_reason == ""
      then event.metadata
      else put "review_reason" input.failure_reason event.metadata;
}

abbrev review_audit_input :
    RecordProviderEventReviewInput → Option AuditEventInput → Option AuditEventInput
review_audit_input input none = none
review_audit_input input (some event) = some (review_action input event)

-- `auditExternalInboundReview`
unfoldable pub audit_external_inbound_review :
    RecordProviderEventReviewInput → Transfer → Account → Tx (Unit {0})
unfolding audit_if external_inbound_transfer_audit_input
audit_external_inbound_review input transfer account = audit_if (
    review_audit_input input
      (external_inbound_transfer_audit_input transfer account input.failure_reason))

-- The row of a transfer that waits for a review: nothing is posted for it.
abbrev pub review_transfer : RecordProviderEventReviewInput → String → ℕ → Transfer
review_transfer input id now = record {
  id = id;
  institution_id = input.institution_id;
  account_id = input.account_id;
  direction = input.direction;
  status = input.status;
  provider_status = input.provider_status;
  ledger_status = LedgerStatus.no_posting;
  reconciliation_status = ReconciliationStatus.manual_review;
  amount_minor = input.amount_minor;
  currency_id = input.currency_id;
  idempotency_key = input.idempotency_key;
  provider = input.provider;
  provider_reference = input.provider_reference;
  provider_event_id = some input.provider_event_id;
  journal_entry_id = none;
  reversal_of_transfer_id = none;
  request_fingerprint = input.request_fingerprint;
  failure_reason = optional input.failure_reason;
  narration = input.narration;
  created_at = now;
  updated_at = now;
  review_status = none;
  review_note = none;
  reviewed_at = none;
  reviewed_by = none;
}

-- The writes for a new transfer that waits for a review.
unfoldable pub write_review_transfer : RecordProviderEventReviewInput → Account → ℕ → Tx Transfer
unfolding audit_external_inbound_review
write_review_transfer input account now = do
  id ← new_id
  let transfer = review_transfer input id now
  insert_transfer transfer
  if input.reserve_provider_event
      then link_transfer transfer.id input.institution_id input.provider input.provider_event_id
      else pure tt
  audit_external_inbound_review input transfer account
  pure transfer

-- The part from the lock on: an event that was not seen before.
unfoldable pub record_new_review : RecordProviderEventReviewInput → Tx Transfer
unfolding write_review_transfer
record_new_review input = do
  locked ← lock_account_balance input.institution_id input.account_id
  now ← gets (λ s. s.env.now)
  let event_input = provider_review_record_transfer_input input
  inserted ← if input.reserve_provider_event then reserve event_input "" now else pure true
  if inserted
      then write_review_transfer input locked.account now
      else existing_provider_event_transfer event_input input.request_fingerprint

-- The transfer of the same event, or of the same key.
unfoldable pub find_review_of_event : RecordProviderEventReviewInput → Tx (Option Transfer)
unfolding accept_replay
find_review_of_event input = do
  existing ← get_transfer_of_event input.institution_id input.provider input.provider_event_id
  if_found existing
      (λ transfer.
        payload_matches (provider_review_record_transfer_input input) input.request_fingerprint
        >>= λ same. accept_replay same transfer)
      (pure none)

unfoldable pub find_review_by_key : RecordProviderEventReviewInput → Tx (Option Transfer)
unfolding accept_replay
find_review_by_key input = do
  existing ← get_transfer_by_idempotency input.institution_id input.idempotency_key
  if_found existing
      (λ transfer.
        accept_replay (transfer_request_fingerprint_matches transfer input.request_fingerprint)
          transfer)
      (pure none)

-- `recordProviderEventReview`
unfoldable pub record_provider_event_review : RecordProviderEventReviewInput → Tx Transfer
unfolding normalize_provider_event_review_input find_review_of_event find_review_by_key
    record_new_review
record_provider_event_review given = do
  input ← normalize_provider_event_review_input given
  seen ← if input.reserve_provider_event then find_review_of_event input else pure none
  if_found seen pure
      (find_review_by_key input >>= λ keyed. if_found keyed pure (record_new_review input))

-- `RecordProviderEventReview`
unfoldable pub record_provider_event_review_in_tx :
    RecordProviderEventReviewInput → Store → Result Transfer × Store
unfolding record_provider_event_review with_tx
record_provider_event_review_in_tx input = with_tx (record_provider_event_review input)
