-- ===== src/Lib.antt =====
-- The core of Lenz Core, a ledger for banks (apps/core/internal/corebanking, in Go): the transfers
-- between a customer's account and a counterparty, the double-entry ledger that they are posted to,
-- the money on hold for them, their replay, and the controls on accounts.
--
-- The program is a repository of SQL transactions under a service. Each transaction is a function
-- here from the store (`Tx.State`: the tables as lists of rows, and the environment) to a result and
-- a store; an error drops the writes, as `WithTx` does. Transactions are serialised, as the row
-- locks and the advisory locks of the code order them, so a lock is no step of the model. The random
-- identifiers, the time, the digest sha256 and the caller's identity are arguments, in the
-- environment. An identifier is its text, and two are the same if their texts are: this is what the
-- `uuid` columns and `uuid.Parse` make of UUIDs in the canonical form, the one that the program draws
-- and that its handlers pass on; another spelling of a UUID is not made canonical. The primary keys, unique indexes and CHECKs of the migrations that these operations
-- can break are written out, as an error `database`; foreign keys and the lengths of columns are not.
--
-- Files and code (paths in apps/core/internal/corebanking, but for Auth):
--   Model            model.go: constants, rows, inputs and errors
--   Tx               transaction.go: `WithTx`, and rules for reasoning about actions
--   Policy           policy.go
--   Fingerprint      idempotency.go: the fingerprints of the requests
--   Audit            audit.go, and `insertAuditEvent` of sql_audit_repository.go
--   Accounts         sql_account_repository.go and sql_integrity.go: lookups, locks, `execOneRow`
--   Ledger           sql_ledger_repository.go: `postJournal`
--   Holds            sql_holds.go
--   ProviderEvents   sql_provider_event_repository.go
--   Transfers        sql_transfer_repository.go: `recordTransfer` (Record, Replay),
--                    `settlePendingTransfer` (Settle), `completeExternalOutboundTransfer`
--                    (Complete), `CompleteExternalTransferRequery` (Requery),
--                    `ReverseTransfer` (Reverse) and `recordProviderEventReview` (Review)
--   Controls         sql_account_controls.go: statuses and liens
--   Reconciliation   sql_reconciliation_repository.go: which transfers need a review (State) and
--                    the mark of a review
--   Lists            the options and the queries of the lists, whose pages are those of
--                    Prelude.Listing (ORDER BY, LIMIT, and the cursor of a page)
--   Provider         provider.go: the interface of a provider; MockNip: mock_nip_provider.go
--   Service          service.go and service_external.go, with `uuid.Parse` as a parameter and the
--                    providers as a list of interfaces: Action (a step of the store and of the
--                    provider), Money (inside the institution), External (between banks), Mock (the
--                    webhooks and transfers of a mock), Reads, Controls
--                    (service_account_controls.go)
--   Auth             apps/auth/authn: the development token and the caller that it stands for
--   Handler          handler.go, handler_account_controls.go and handler_reconciliation.go: whose
--                    institution a request is for, its body, and the answers to errors; Routes: the
--                    handlers; Events: those of inbound events and of the mock's transfers, and the
--                    decoding of a requery's request
--   Invariant        what all sequences of these transactions keep
--   Tests            the theorems at concrete inputs (Tests.Data: the inputs)
--
-- Numbers: an `int64` is an integer, and the columns of the balances refuse what does not fit in 64
-- bits. The one subtraction that the program does in Go itself wraps round (`sub_int64`); its one
-- negation is of an amount that a CHECK has found positive. No function runs on fuel except the
-- printing of a decimal, which has a digit for every digit of a 64-bit number.
--
-- Times are numbers of nanoseconds since Go's zero time, and a `time.Duration` wraps round as an `int64`.
--
-- A provider is a record of functions on a state of its own, so a call of it and a transaction of the
-- store are two steps in the order of the code. A body of a webhook is a `Payload`: for the mock it is
-- what `json.Unmarshal` makes of it. The bodies of requests are the schemas of
-- design/openapi/core/corebanking.yaml, from which the code for them is generated.
--
-- Not modelled: the server, the routing and JSON (I/O and libraries), the seed of the demonstration,
-- customers, the creation of accounts, the decoding of the other requests than a requery's (a handler is
-- given what its path, its header and its body are decoded to), and the letter case of other alphabets than ASCII.
pub mod Prelude
pub mod Model
pub mod Tx
pub mod Policy
pub mod Fingerprint
pub mod Audit
pub mod Accounts
pub mod Ledger
pub mod Holds
pub mod ProviderEvents
pub mod Transfers
pub mod Controls
pub mod Invariant
pub mod Service
pub mod Tests
pub mod Reconciliation
pub mod Provider
pub mod Lists
pub mod Auth
pub mod Handler
