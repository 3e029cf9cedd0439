-- ===== src/Tests/Data.antt =====
-- The inputs and stores of the tests: one institution with a customer's account and the settlement
-- account of its currency.
use lenz.Prelude.{String, true, false, none, some, List, [], ◌∷◌}
use lenz.Prelude.Int.{pos}
use lenz.Model.{
  Status, Direction, LedgerStatus, ReconciliationStatus, AccountKind, AccountStatus, Side, Account,
  AccountBalance, Transfer, RecordTransferInput, AccountLienInput, AccountControlInput,
  ReverseTransferInput,
}
use lenz.Prelude.Decimal.{format_int}
use lenz.Tx.{Store, Environment}
use lenz.Audit.{AuditEventInput}
use lenz.Transfers.Record.{begin_external_outbound_transfer}
use lenz.Invariant.Transactions.{Call, record_call, complete_call, status_call, lien_call}

abbrev pub customer : Account
customer = record {
  id = "a1";
  institution_id = "i1";
  customer_id = some "k1";
  account_number = "0000000001";
  name = "Ada";
  kind = AccountKind.customer;
  product_type = "savings";
  allow_negative = false;
  currency_id = "NGN";
  normal_balance = Side.credit;
  status = AccountStatus.active;
  created_at = 1;
  updated_at = 1;
}

abbrev pub settlement : Account
settlement = record customer {
  id = "c1";
  customer_id = none;
  account_number = "9000000001";
  name = "Settlement";
  kind = AccountKind.internal;
  product_type = "internal";
  allow_negative = true;
  normal_balance = Side.debit;
}

abbrev pub no_money : String → AccountBalance
no_money account_id = record {
  account_id = account_id;
  institution_id = "i1";
  available_minor = pos 0;
  ledger_minor = pos 0;
  currency_id = "NGN";
  last_journal_entry_id = none;
  updated_at = 1;
}

abbrev pub environment : Environment
environment = record {
  uuid = λ n. format_int (pos n);
  drawn = 0;
  now = 7;
  sha256_hex = λ text. text;
  request_id = "r1";
  principal = none;
}

abbrev pub opened : Store
opened = record {
  accounts = customer ∷ settlement ∷ [];
  balances = no_money "a1" ∷ no_money "c1" ∷ [];
  transfers = [];
  journal_entries = [];
  postings = [];
  holds = [];
  provider_events = [];
  audit_events = [];
  env = environment;
}

abbrev pub deposit : RecordTransferInput
deposit = record {
  institution_id = "i1";
  account_id = "a1";
  clearing_account_id = "c1";
  direction = Direction.inbound;
  status = Status.succeeded;
  amount_minor = pos 500;
  currency_id = "NGN";
  idempotency_key = "key-1";
  provider = "mock_nip";
  provider_reference = "ref-1";
  provider_event_id = "event-1";
  provider_status = Status.succeeded;
  reversal_of_transfer_id = "";
  request_fingerprint = "";
  failure_reason = "";
  narration = "Deposit";
  reject_insufficient = false;
  require_available = false;
}

abbrev pub payment : RecordTransferInput
payment = record deposit {
  direction = Direction.outbound;
  status = Status.pending;
  amount_minor = pos 200;
  idempotency_key = "key-2";
  provider_reference = "ref-2";
  provider_event_id = "";
  provider_status = Status.pending;
  narration = "Payment";
  reject_insufficient = true;
  require_available = true;
}

abbrev pub lien : AccountLienInput
lien = record {
  institution_id = "i1";
  account_id = "a1";
  amount_minor = pos 100;
  currency_id = "NGN";
  reference = "court";
  reason = "order";
}

abbrev pub control : AccountControlInput
control = record { institution_id = "i1"; account_id = "a1"; reference = "c"; reason = "r" }

abbrev pub reversal : ReverseTransferInput
reversal = record {
  institution_id = "i1";
  transfer_id = "t1";
  idempotency_key = "key-9";
  provider = "";
  provider_reference = "";
  provider_event_id = "";
  failure_reason = "";
  narration = "";
}

abbrev pub a_day : List Call
a_day =
    record_call deposit
    ∷ record_call payment
    ∷ lien_call lien
    ∷ complete_call "6" (record payment { status = Status.succeeded })
    ∷ status_call control AccountStatus.frozen []
    ∷ record_call payment
    ∷ []

abbrev pub recorded : Transfer
recorded = record {
  id = "t1";
  institution_id = "i1";
  account_id = "a1";
  direction = Direction.outbound;
  status = Status.succeeded;
  provider_status = Status.succeeded;
  ledger_status = LedgerStatus.posted;
  reconciliation_status = ReconciliationStatus.matched;
  amount_minor = pos 200;
  currency_id = "NGN";
  idempotency_key = "key-2";
  provider = "mock_nip";
  provider_reference = "ref-2";
  provider_event_id = none;
  journal_entry_id = some "j1";
  reversal_of_transfer_id = none;
  request_fingerprint = "v1:abc";
  failure_reason = none;
  narration = "Payment";
  created_at = 3;
  updated_at = 4;
  review_status = none;
  review_note = none;
  reviewed_at = none;
  reviewed_by = none;
}

abbrev pub with_transfer : Store
with_transfer = record opened { transfers = recorded ∷ [] }

abbrev pub leaky : AuditEventInput
leaky = record {
  institution_id = "i1";
  action = "account.frozen";
  entity_type = "account";
  entity_id = "a1";
  customer_id = "";
  account_id = "a1";
  transfer_id = "";
  journal_entry_id = "";
  idempotency_key = "";
  reference = "";
  old_status = "active";
  new_status = "frozen";
  metadata = ("Api_Token", "t") ∷ ("reason", "his password is x") ∷ [];
  created_at = 7;
}

abbrev pub deposited : Transfer
deposited = record {
  id = "0";
  institution_id = "i1";
  account_id = "a1";
  direction = Direction.inbound;
  status = Status.succeeded;
  provider_status = Status.succeeded;
  ledger_status = LedgerStatus.posted;
  reconciliation_status = ReconciliationStatus.matched;
  amount_minor = pos 500;
  currency_id = "NGN";
  idempotency_key = "key-1";
  provider = "mock_nip";
  provider_reference = "";
  provider_event_id = none;
  journal_entry_id = some "1";
  reversal_of_transfer_id = none;
  request_fingerprint = "v1:abc";
  failure_reason = none;
  narration = "Deposit";
  created_at = 7;
  updated_at = 7;
  review_status = none;
  review_note = none;
  reviewed_at = none;
  reviewed_by = none;
}

abbrev pub cash : RecordTransferInput
cash = record deposit {
  provider_reference = "";
  provider_event_id = "";
  request_fingerprint = "v1:abc";
}

abbrev pub after_cash : Store
after_cash = (begin_external_outbound_transfer cash opened).1

abbrev pub tomorrow : Environment
tomorrow = record environment { drawn = 100; now = 86407 }

abbrev pub funded : Store
funded = record opened {
  balances =
      record (no_money "a1") { available_minor = pos 500; ledger_minor = pos 500 }
      ∷ record (no_money "c1") { available_minor = pos 500; ledger_minor = pos 500 }
      ∷ [];
}
