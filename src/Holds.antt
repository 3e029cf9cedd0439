-- ===== src/Holds.antt =====
-- Holds of a pending outbound transfer (corebanking/sql_holds.go).
use lenz.Prelude.{ℕ, String, Bool, false, Option, none, some, not, ◌&&◌, ◌||◌, ◌==◌, eqb}
use lenz.Prelude.Int.{ℤ, pos, ◌+ℤ◌, ◌-ℤ◌, leb_ℤ}
use lenz.Prelude.Table.{find, insert, update, count}
use lenz.Model.{HoldStatus, is_active_hold, AccountHold, AccountBalance, Transfer, Error}
use lenz.Tx.{Tx, pure, gets, require, fail_if, if_found, modify, new_id, ◌>>=◌, ◌>>◌}
use lenz.Accounts.{update_balance}

-- A nullable column holds this text.
abbrev pub holds_text : Option String → String → Bool
holds_text none text = false
holds_text (some t) text = t == text

abbrev pub is_hold : String → String → AccountHold → Bool
is_hold institution_id hold_id h = h.institution_id == institution_id && h.id == hold_id

abbrev pub is_transfer_hold : String → String → AccountHold → Bool
is_transfer_hold institution_id transfer_id h =
    h.institution_id == institution_id && holds_text h.transfer_id transfer_id

abbrev pub is_active_transfer_hold : String → String → AccountHold → Bool
is_active_transfer_hold institution_id transfer_id h =
    is_transfer_hold institution_id transfer_id h && is_active_hold h.status

abbrev is_active_lien : String → String → String → AccountHold → Bool
is_active_lien institution_id account_id reference h =
    h.institution_id == institution_id
    && h.account_id == account_id
    && h.reference == reference
    && not (reference == "")
    && (elim h.transfer_id [ none ↦ Bool.true | some _ ↦ false ])
    && is_active_hold h.status

-- A row that breaks a unique index of `account_holds`: another row has its identifier, is a hold
-- of the same transfer, or is an active lien with the same reference.
abbrev pub is_rival : AccountHold → AccountHold → Bool
is_rival hold h = h.id == hold.id || (elim hold.transfer_id [
  | some transfer_id ↦ is_transfer_hold hold.institution_id transfer_id h
  | none ↦
      is_active_hold hold.status
      && is_active_lien hold.institution_id hold.account_id hold.reference h
])

-- INSERT INTO account_holds
unfoldable pub insert_hold : AccountHold → Tx (Unit {0})
insert_hold hold = do
  rows ← gets (λ s. s.holds)
  fail_if (leb_ℤ hold.amount_minor (pos 0)) Error.database
  fail_if (not (eqb (count (is_rival hold) rows) 0)) Error.database
  modify (λ s. record s { holds = insert hold s.holds })

-- `execOneRow` of an UPDATE of `account_holds`.
unfoldable pub update_hold : (AccountHold → Bool) → (AccountHold → AccountHold) → Tx (Unit {0})
update_hold p f = do
  rows ← gets (λ s. s.holds)
  fail_if (not (eqb (count p rows) 1)) Error.data_integrity
  modify (λ s. record s { holds = update p f rows })

abbrev pub add_available : ℤ → ℕ → AccountBalance → AccountBalance
add_available amount now b = record b {
  available_minor = b.available_minor +ℤ amount;
  updated_at = now;
}

abbrev pub take_available : ℤ → ℕ → AccountBalance → AccountBalance
take_available amount now b = record b {
  available_minor = b.available_minor -ℤ amount;
  updated_at = now;
}

-- `SET status = …, updated_at = …, released_at = …`
abbrev pub end_hold : HoldStatus → ℕ → AccountHold → AccountHold
end_hold status now h = record h { status = status; updated_at = now; released_at = some now }

-- `create`
unfoldable pub create : Transfer → ℕ → Tx (Unit {0})
unfolding insert_hold
create transfer now = do
  id ← new_id
  insert_hold (record {
    id = id;
    institution_id = transfer.institution_id;
    account_id = transfer.account_id;
    transfer_id = some transfer.id;
    amount_minor = transfer.amount_minor;
    currency_id = transfer.currency_id;
    status = HoldStatus.active;
    reason = "pending_outbound_transfer";
    reference = transfer.provider_reference;
    created_at = now;
    updated_at = now;
    released_at = none;
  })
  update_balance transfer.institution_id transfer.account_id
      (take_available transfer.amount_minor now)

-- `getForTransfer`: `none` is ErrNotFound.
unfoldable pub get_for_transfer : String → String → Tx (Option AccountHold)
get_for_transfer institution_id transfer_id = gets (λ s.
    find (λ h. h.institution_id == institution_id && holds_text h.transfer_id transfer_id) s.holds)

-- `getActiveForTransfer`: `none` is ErrNotFound.
unfoldable pub get_active_for_transfer : String → String → Tx (Option AccountHold)
get_active_for_transfer institution_id transfer_id =
    gets (λ s. find (is_active_transfer_hold institution_id transfer_id) s.holds)

unfoldable pub release_hold : String → AccountHold → ℕ → Tx (Unit {0})
release_hold institution_id hold now = do
  update_hold (is_hold institution_id hold.id) (end_hold HoldStatus.released now)
  update_balance institution_id hold.account_id (add_available hold.amount_minor now)

-- `release`: nothing is to be done where no hold is active.
unfoldable pub release : String → String → ℕ → Tx (Unit {0})
release institution_id transfer_id now = do
  found ← get_active_for_transfer institution_id transfer_id
  if_found found (λ hold. release_hold institution_id hold now) (pure tt)

-- `consume`
unfoldable pub consume : String → String → ℕ → Tx (Unit {0})
unfolding get_active_for_transfer
consume institution_id transfer_id now = do
  hold ← require (← get_active_for_transfer institution_id transfer_id) Error.not_found
  update_hold (is_hold institution_id hold.id) (end_hold HoldStatus.consumed now)
