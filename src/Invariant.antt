-- ===== src/Invariant.antt =====
-- Invariants of the store. `IsLogInvariant` is what the writes of events and of the audit log need;
-- `IsHoldInvariant` adds the holds, `IsLedgerInvariant` is what the operations on the ledger, the holds, the
-- events, the audit log and the controls need; `IsTransferInvariant` adds the writes of transfers.
-- A property that these writes keep is kept by every operation of the repository.
pub mod Parts
pub mod Reads
pub mod Operations
pub mod Controls
pub mod Reviews
pub mod Transactions
pub mod Consistent
pub mod DoubleEntry
pub mod Settled
pub mod Unposted
pub mod Waiting
use lenz.Transfers.{insert_transfer, update_transfer}
use lenz.Transfers.Reverse.{turned}
use lenz.Reconciliation.{with_review}
use lenz.Prelude.{◌≡◌, true, ℕ, String, List}
use lenz.Prelude.Int.{ℤ}
use lenz.Prelude.Table.{update, All}
use lenz.Model.{
  is_pending, AccountStatus, Transfer, AccountHold, ProviderEvent, AuditEvent, RecordTransferInput,
}
use lenz.Tx.{Store, Environment}
use lenz.Tx.Keeps.{Keeps}
use lenz.Accounts.{is_account, update_balance}
use lenz.Controls.{with_status}
use lenz.Ledger.{post_journal}
use lenz.Holds.{add_available, take_available}

-- What changes outside the tables of money: the environment, the events, the audit log.
pub record IsLogInvariant (P : Store → Type 0) : Type 0 where
  pub on_env : (s : Store) (e : Environment) → P s → P (record s { env = e })
  pub on_events :
      (s : Store) (es : List ProviderEvent) → P s → P (record s { provider_events = es })
  pub on_audit : (s : Store) (es : List AuditEvent) → P s → P (record s { audit_events = es })

-- With the holds, and what they take from the balances and give back.
pub record IsHoldInvariant (P : Store → Type 0) : Type 0 where
  pub log : IsLogInvariant P
  pub on_holds : (s : Store) (hs : List AccountHold) → P s → P (record s { holds = hs })
  pub on_add :
      (i a : String) (amount : ℤ) (now : ℕ)
      → Keeps P (update_balance i a (add_available amount now))
  pub on_take :
      (i a : String) (amount : ℤ) (now : ℕ)
      → Keeps P (update_balance i a (take_available amount now))

pub record IsLedgerInvariant (P : Store → Type 0) : Type 0 where
  pub holding : IsHoldInvariant P
  pub on_status :
      (s : Store) (i a : String) (status : AccountStatus) (now : ℕ)
      → P s
      → P (record s { accounts = update (is_account i a) (with_status status now) s.accounts })
  pub on_post :
      (input : RecordTransferInput) (transfer_id : String) (now : ℕ) (held : String)
      → Keeps P (post_journal input transfer_id now held)

-- The change of a row leaves its key.
pub record KeepsKey (f : Transfer → Transfer) : Type 0 where
  pub on_id : (t : Transfer) → (f t).id ≡ t.id
  pub on_institution : (t : Transfer) → (f t).institution_id ≡ t.institution_id

-- With `Open`, what is known of a row that is still pending.
pub record IsTransferInvariant (P : Store → Type 0) (Open : Transfer → Type 0) : Type 0 where
  pub ledger : IsLedgerInvariant P
  pub opens : (s : Store) → P s → All (λ t. is_pending t.status ≡ true → Open t) s.transfers
  pub on_insert : (t : Transfer) → Keeps P (insert_transfer t)
  pub on_end :
      (t : Transfer) (f : Transfer → Transfer)
      → KeepsKey f
      → Open t
      → Keeps P (update_transfer t.institution_id t.id f)
  pub on_turn : (i t : String) (now : ℕ) → Keeps P (update_transfer i t (turned now))
  pub on_review :
      (i t : String) (status note : String) (now : ℕ) (by : String)
      → Keeps P (update_transfer i t (with_review status note now by))
