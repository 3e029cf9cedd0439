-- ===== src/Tests/Parties.antt =====
-- The inputs of the tests of the service, of the reviews and of the provider.
use lenz.Auth.{Request}
use lenz.Tx.{Principal}
use lenz.Prelude.{◌==◌, if◌then◌else◌, String, Bool, true, false, Option, none, some, List, [], ◌∷◌}
use lenz.Prelude.Int.{pos}
use lenz.Model.{
  Status, LedgerStatus, ExternalTransferRequeryInput, Direction, AccountStatus, Account, Transfer,
  InternalTransferInput, ExternalOutboundTransferInput, ProviderTransferRequest,
  ProviderTransferResult, ProviderWebhookEvent, RecordProviderEventReviewInput,
  MarkReconciliationItemReviewedInput, Error, ListOptions, ListReconciliationItemsOptions,
}
use lenz.Prelude.Decimal.{format_int}
use lenz.Tx.{Store}
use lenz.Provider.{TransferProvider}
use lenz.Provider.MockNip.{MockNipProvider}
use lenz.Provider.MockNip.Webhook.{MockWebhookPayload, mock_nip_provider}
use lenz.Tests.Data.{customer, settlement, opened, funded, recorded}

abbrev pub friend : Account
friend = record customer { id = "a2"; account_number = "0000000002"; name = "Bo" }

abbrev pub frozen : Account
frozen = record customer { status = AccountStatus.frozen }

-- A store with two customers.
abbrev pub two_customers : Store
two_customers = record funded {
  accounts = customer ∷ friend ∷ settlement ∷ [];
  balances = lenz.Tests.Data.no_money "a2" ∷ funded.balances;
}

abbrev pub gift : InternalTransferInput
gift = record {
  institution_id = "i1";
  source_account_id = " a1";
  destination_account_id = "a2";
  amount_minor = pos 120;
  currency_id = "ngn";
  idempotency_key = "key-5";
  reference = "";
  narration = "";
}

abbrev pub any_uuid : String → Bool
any_uuid _ = true

abbrev pub mock : MockNipProvider
mock = record {
  transfers = [];
  requery_errors = [];
  context_error = none;
  now = 7;
  uuid = λ n. format_int (pos n);
  drawn = 0;
  sha256_hex = λ text. text;
}

-- The mock with a deadline that has passed.
abbrev pub late : MockNipProvider
late = record mock { context_error = some Error.deadline_exceeded }

abbrev pub providers : List (String × TransferProvider MockNipProvider (Option MockWebhookPayload))
providers = ("mock_nip", mock_nip_provider) ∷ []

abbrev pub sent : ExternalOutboundTransferInput
sent = record {
  institution_id = "i1";
  source_account_id = "a1";
  destination_institution_code = "058";
  bank_code = "";
  destination_account_number = "0123456789";
  destination_account_name = "Chi";
  amount_minor = pos 200;
  currency_id = "NGN";
  idempotency_key = "key-7";
  provider = "";
  narration = "Rent";
  reference = "rent-7";
  scenario = "";
}

abbrev pub request : ProviderTransferRequest
request = record {
  institution_id = "i1";
  account_id = "a1";
  destination_institution_code = "058";
  destination_account_number = "0123456789";
  destination_account_name = "Chi";
  amount_minor = pos 200;
  currency_id = "NGN";
  idempotency_key = "key-7";
  provider_reference = "rent-7";
  provider_event_id = "";
  status = Status.other "";
  failure_reason = "";
  narration = "Rent";
  scenario = "delayed";
  delay_seconds = pos 60;
}

-- The answer to the request.
abbrev pub delayed_result : ProviderTransferResult
delayed_result = record {
  provider = "mock_nip";
  provider_reference = "rent-7";
  provider_event_id = "";
  status = Status.pending;
  provider_status = Status.pending;
  failure_reason = "";
  narration = "Rent";
  delayed = true;
  delayed_until = some (pos 60000000007);
}

abbrev pub event : ProviderWebhookEvent
event = record {
  provider = "mock_nip";
  institution_id = "i1";
  account_id = "a1";
  destination_account_number = "";
  direction = Direction.inbound;
  status = Status.succeeded;
  amount_minor = pos 80;
  currency_id = "NGN";
  idempotency_key = "";
  provider_reference = "in-1";
  provider_event_id = "event-8";
  reversal_of_transfer_id = "";
  sender_name = "Dan";
  sender_account_number = "";
  sender_institution_code = "";
  failure_reason = "";
  narration = "Salary";
  scenario = "";
  request_fingerprint = "";
  delayed = false;
  delayed_until = none;
}

abbrev pub review : RecordProviderEventReviewInput
review = record {
  institution_id = "i1";
  account_id = "a1";
  direction = Direction.inbound;
  status = Status.failed;
  provider_status = Status.succeeded;
  amount_minor = pos 80;
  currency_id = "NGN";
  idempotency_key = "key-8";
  provider = "mock_nip";
  provider_reference = "in-1";
  provider_event_id = "event-8";
  request_fingerprint = "v1:e";
  failure_reason = "blocked_destination_account";
  narration = "Salary";
  reserve_provider_event = true;
}

abbrev pub mark : MarkReconciliationItemReviewedInput
mark = record {
  institution_id = "i1";
  transfer_id = "t1";
  resolution_note = "seen";
  resolution_status = "reviewed";
}

-- A transfer that the provider failed and the ledger posted.
abbrev pub contradicted : Transfer
contradicted = record recorded { provider_status = Status.failed }

-- A transfer of the same time as another.
abbrev pub with_two : Store
with_two = record opened { transfers = recorded ∷ record recorded { id = "t2" } ∷ [] }

abbrev pub all_of_them : ListOptions
all_of_them = record { limit = pos 100000; before_created_at = none; before_id = "" }

abbrev pub whole_queue : ListReconciliationItemsOptions
whole_queue = record {
  limit = pos 100000;
  before_created_at = none;
  before_transfer_id = "";
  status = "";
  provider_status = "";
  ledger_status = "";
  reconciliation_status = "";
  stale_pending_minutes = pos 0;
}

-- The key of a transfer that is stored.
abbrev pub sent_before : ExternalOutboundTransferInput
sent_before = record sent { idempotency_key = "key-2" }

abbrev pub dev_env : String → String
dev_env name =
    if name == "LENZ_DEV_AUTH_TOKEN"
    then "s3"
    else if name == "LENZ_DEV_INSTITUTION_ID"
    then "i1"
    else ""

abbrev pub dev_request : Request
dev_request = record {
  path = "/api/v1/transfers";
  authorization = "Bearer s3";
  source_ip = "10.0.0.1";
  user_agent = "curl";
}

abbrev pub dev_caller : Principal
dev_caller = record {
  institution_id = "i1";
  actor_type = "dev_user";
  actor_id = "dev-user";
  roles = "developer" ∷ [];
  scopes = "corebanking:read" ∷ "corebanking:write" ∷ [];
  source_ip = "10.0.0.1";
  user_agent = "curl";
}

-- A delayed transfer whose time has come, with the database and the mock that know it.
abbrev pub waiting : Transfer
waiting = record recorded {
  status = Status.pending;
  provider_status = Status.pending;
  ledger_status = LedgerStatus.pending;
  provider_reference = "rent-7";
}

abbrev pub with_waiting : Store
with_waiting = record opened { transfers = waiting ∷ [] }

abbrev pub ripe_mock : MockNipProvider
ripe_mock = record mock { transfers = ("rent-7", delayed_result) ∷ []; now = 60000000007 }

abbrev pub asked_again : ExternalTransferRequeryInput
asked_again = record {
  institution_id = "i1";
  transfer_id = "t1";
  provider_reference = "";
  scenario = " ";
  note = "";
}
