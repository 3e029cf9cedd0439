-- ===== src/Invariant/Parts.antt =====
-- A ledger invariant is kept by the parts of which the operations are made.
use lenz.Prelude.{arith, ◌≡◌, true, some, ◌&&◌, ℕ, String, Bool, Option, List}
use lenz.Model.{Error, is_pending, Direction, Account, Transfer, AccountHold, RecordTransferInput}
use lenz.Prelude.Table.{find, find-All, All-always, All-select, best-All}
use lenz.Tx.{Store, Tx, ◌>>=◌, new_id}
use lenz.ProviderEvents.{is_transfer}
use lenz.Transfers.{is_referenced, older}
use lenz.Tx.Keeps.{
  Keeps, Keeps-bind-gets, Keeps-bind-require, Keeps-new_id, Keeps-modify, keeps_rules,
}
use lenz.Policy.{enforce_transfer_controls}
use lenz.Audit.{AuditEventInput, insert_audit_event}
use lenz.Audit.Transfers.{
  audit_if, audit_posted_internal_transfer, audit_external_inbound_transfer,
  audit_external_outbound_transfer,
}
use lenz.Accounts.{get_account, lock_account_balance, lock_transfer_account_balances}
use lenz.Holds.{
  insert_hold, update_hold, create, release, release_hold, consume, get_active_for_transfer,
}
use lenz.ProviderEvents.{reserve, payload_matches, get_transfer_of_event, link_transfer}
use lenz.Transfers.{
  get_transfer, get_transfer_by_idempotency, get_active_reversal_of,
  get_pending_transfer_by_provider_reference, get_settled_transfer_by_provider_reference,
  insert_transfer, update_transfer,
}
use lenz.Transfers.Reverse.{turned}
use lenz.Reconciliation.{with_review}
use lenz.Invariant.{IsLogInvariant, IsHoldInvariant, IsLedgerInvariant, IsTransferInvariant}

-- Reading keeps every property.
module _ {P : Store → Type 0} where
  pub enforce_transfer_controls-Keeps :
      (input : RecordTransferInput) (a c : Account) → Keeps P (enforce_transfer_controls input a c)
  unfolding enforce_transfer_controls
  enforce_transfer_controls-Keeps input a c = search keeps_rules depth 12

  pub get_account-Keeps : (i a : String) → Keeps P (get_account i a)
  unfolding get_account
  get_account-Keeps i a = search keeps_rules depth 12

  pub lock_account_balance-Keeps : (i a : String) → Keeps P (lock_account_balance i a)
  unfolding lock_account_balance
  lock_account_balance-Keeps i a = search keeps_rules depth 12

  pub lock_transfer_account_balances-Keeps :
      (i a c : String) → Keeps P (lock_transfer_account_balances i a c)
  unfolding lock_transfer_account_balances
  lock_transfer_account_balances-Keeps i a c =
      search (keeps_rules, lock_account_balance-Keeps) depth 12

  pub get_active_for_transfer-Keeps : (i t : String) → Keeps P (get_active_for_transfer i t)
  unfolding get_active_for_transfer
  get_active_for_transfer-Keeps i t = search keeps_rules

  pub get_transfer-Keeps : (i t : String) → Keeps P (get_transfer i t)
  unfolding get_transfer
  get_transfer-Keeps i t = search keeps_rules

  pub payload_matches-Keeps :
      (input : RecordTransferInput) (f : String) → Keeps P (payload_matches input f)
  unfolding payload_matches
  payload_matches-Keeps input f = search keeps_rules depth 12

  pub get_transfer_of_event-Keeps : (i p e : String) → Keeps P (get_transfer_of_event i p e)
  unfolding get_transfer_of_event
  get_transfer_of_event-Keeps i p e = search keeps_rules depth 12

  pub get_transfer_by_idempotency-Keeps : (i k : String) → Keeps P (get_transfer_by_idempotency i k)
  unfolding get_transfer_by_idempotency
  get_transfer_by_idempotency-Keeps i k = search keeps_rules

  pub get_active_reversal_of-Keeps : (i o : String) → Keeps P (get_active_reversal_of i o)
  unfolding get_active_reversal_of
  get_active_reversal_of-Keeps i o = search keeps_rules

  pub get_pending-Keeps :
      (i p r : String) (d : Direction)
      → Keeps P (get_pending_transfer_by_provider_reference i p r d)
  unfolding get_pending_transfer_by_provider_reference
  get_pending-Keeps i p r d = search keeps_rules

  pub get_settled-Keeps :
      (i p r : String) (d : Direction)
      → Keeps P (get_settled_transfer_by_provider_reference i p r d)
  unfolding get_settled_transfer_by_provider_reference
  get_settled-Keeps i p r d = search keeps_rules

pub ruleset reading = (
  keeps_rules, enforce_transfer_controls-Keeps, get_account-Keeps, lock_account_balance-Keeps,
  lock_transfer_account_balances-Keeps, get_active_for_transfer-Keeps, get_transfer-Keeps,
  payload_matches-Keeps, get_transfer_of_event-Keeps, get_transfer_by_idempotency-Keeps,
  get_active_reversal_of-Keeps, get_pending-Keeps, get_settled-Keeps,
)

module _ {P : Store → Type 0} (log : IsLogInvariant P) where
  pub Keeps-id : Keeps P new_id
  Keeps-id = Keeps-new_id (λ s n h. log.on_env s (record s.env { drawn = n }) h)

  pub insert_audit_event-Keeps : (input : AuditEventInput) → Keeps P (insert_audit_event input)
  unfolding insert_audit_event
  insert_audit_event-Keeps input = search (reading, Keeps-id, Keeps-modify, log.on_audit) depth 12

  pub audit_if-Keeps : (o : Option AuditEventInput) → Keeps P (audit_if o)
  unfolding audit_if
  audit_if-Keeps Option.none = search keeps_rules
  audit_if-Keeps (Option.some input) = insert_audit_event-Keeps input

  pub audit_posted-Keeps :
      (input : RecordTransferInput) (t : Transfer) (a c : Account)
      → Keeps P (audit_posted_internal_transfer input t a c)
  unfolding audit_posted_internal_transfer
  audit_posted-Keeps input t a c = audit_if-Keeps _

  pub audit_inbound-Keeps :
      (input : RecordTransferInput) (t : Transfer) (a : Account)
      → Keeps P (audit_external_inbound_transfer input t a)
  unfolding audit_external_inbound_transfer
  audit_inbound-Keeps input t a = audit_if-Keeps _

  pub audit_outbound-Keeps :
      (input : RecordTransferInput) (t : Transfer) (a c : Account)
      → Keeps P (audit_external_outbound_transfer input t a c)
  unfolding audit_external_outbound_transfer
  audit_outbound-Keeps input t a c = audit_if-Keeps _

  pub reserve-Keeps :
      (input : RecordTransferInput) (t : String) (now : ℕ) → Keeps P (reserve input t now)
  unfolding reserve
  reserve-Keeps input t now = search (reading, Keeps-id, Keeps-modify, log.on_events) depth 14

  pub link_transfer-Keeps : (t i p e : String) → Keeps P (link_transfer t i p e)
  unfolding link_transfer
  link_transfer-Keeps t i p e = search (reading, Keeps-modify, log.on_events) depth 12

module _ {P : Store → Type 0} (inv : IsHoldInvariant P) where
  pub insert_hold-Keeps : (hold : AccountHold) → Keeps P (insert_hold hold)
  unfolding insert_hold
  insert_hold-Keeps hold = search (reading, Keeps-modify, inv.on_holds) depth 12

  pub update_hold-Keeps :
      (p : AccountHold → Bool) (f : AccountHold → AccountHold) → Keeps P (update_hold p f)
  unfolding update_hold
  update_hold-Keeps p f = search (reading, Keeps-modify, inv.on_holds) depth 12

  pub create-Keeps : (t : Transfer) (now : ℕ) → Keeps P (create t now)
  unfolding create
  create-Keeps t now = search (reading, Keeps-id, inv.log, insert_hold-Keeps, inv.on_take) depth 12

  release_hold-Keeps : (i : String) (h : AccountHold) (now : ℕ) → Keeps P (release_hold i h now)
  unfolding release_hold
  release_hold-Keeps i h now = search (reading, update_hold-Keeps, inv.on_add) depth 12

  pub release-Keeps : (i t : String) (now : ℕ) → Keeps P (release i t now)
  unfolding release
  release-Keeps i t now = search (reading, release_hold-Keeps) depth 12

  pub consume-Keeps : (i t : String) (now : ℕ) → Keeps P (consume i t now)
  unfolding consume
  consume-Keeps i t now = search (reading, update_hold-Keeps) depth 12

and_right : (a b : Bool) → (a && b) ≡ true → b ≡ true
and_right a b h = ground arith

-- A transfer that is read, if it is pending, is open.
module _ {P : Store → Type 0} {Open : Transfer → Type 0} (inv : IsTransferInvariant P Open) where
  pub found-Open :
      (s : Store) (p : Transfer → Bool) (t : Transfer)
      → P s
      → find p s.transfers ≡ some t
      → is_pending t.status ≡ true
      → Open t
  found-Open s p t h e =
      find-All (λ u. is_pending u.status ≡ true → Open u) p s.transfers t (inv.opens s h) e

  pub Keeps-bind-get_transfer :
      {B : Type 0} (i t : String) (f : Transfer → Tx B)
      → ((u : Transfer) → (is_pending u.status ≡ true → Open u) → Keeps P (f u))
      → Keeps P (get_transfer i t >>= f)
  unfolding get_transfer ◌>>=◌
  Keeps-bind-get_transfer i t f k = record {
    at = λ s h.
        (Keeps-bind-require (find (is_transfer i t) s.transfers) Error.not_found f
            (λ u e. k u (found-Open s (is_transfer i t) u h e))).at
          s h;
  }

  pub Keeps-bind-get_pending :
      {B : Type 0} (i p r : String) (d : Direction) (f : Option Transfer → Tx B)
      → ((o : Option Transfer) → ((u : Transfer) → o ≡ some u → Open u) → Keeps P (f o))
      → Keeps P (get_pending_transfer_by_provider_reference i p r d >>= f)
  unfolding get_pending_transfer_by_provider_reference
  Keeps-bind-get_pending i p r d f k = Keeps-bind-gets _ f λ s h. k _ λ u e.
      let row = best-All _ older _ u (All-select _ _ s.transfers (inv.opens s h)) e in
      row.0 (and_right (is_referenced i p r d u) (is_pending u.status) row.1)

-- An invariant on which no transfer bears.
module _ {P : Store → Type 0} (inv : IsLedgerInvariant P)
    (blind : (s : Store) (ts : List Transfer) → P s → P (record s { transfers = ts })) where
  insert_transfer-Keeps : (t : Transfer) → Keeps P (insert_transfer t)
  unfolding insert_transfer
  insert_transfer-Keeps t = search (keeps_rules, Keeps-modify, blind) depth 18

  update_transfer-Keeps : (i t : String) (f : Transfer → Transfer) → Keeps P (update_transfer i t f)
  unfolding update_transfer
  update_transfer-Keeps i t f = search (keeps_rules, Keeps-modify, blind) depth 14

  pub transfer_blind : IsTransferInvariant P (λ _. Unit)
  transfer_blind = record {
    ledger = inv;
    opens = λ s h. All-always _ (λ t _. tt) s.transfers;
    on_insert = insert_transfer-Keeps;
    on_end = λ t f _ _. update_transfer-Keeps t.institution_id t.id f;
    on_turn = λ i t now. update_transfer-Keeps i t (turned now);
    on_review =
        λ i t status note now by. update_transfer-Keeps i t (with_review status note now by);
  }
