-- ===== src/Invariant/Controls.antt =====
-- A ledger invariant is kept by the controls on accounts.
use lenz.Prelude.{String, List}
use lenz.Model.{
  AccountStatus, Account, AccountControlInput, AccountLienInput, ReleaseLienInput, AccountHold,
}
use lenz.Tx.{Store}
use lenz.Tx.Keeps.{Keeps, Keeps-modify}
use lenz.Accounts.{LockedAccountBalance}
use lenz.Controls.{
  change_status, set_status, get_active_lien_by_reference, ensure_no_other_active_lien_by_reference,
  new_lien_checks, write_lien, place_lien, get_lien, write_lien_release, release_lien,
}
use lenz.Invariant.{IsLedgerInvariant}
use lenz.Invariant.Parts.{
  reading, insert_audit_event-Keeps, insert_hold-Keeps, update_hold-Keeps, Keeps-id,
}

module _ {P : Store → Type 0} where
  get_lien-Keeps : (i a l : String) → Keeps P (get_lien i a l)
  unfolding get_lien
  get_lien-Keeps i a l = search reading depth 12

  get_active_lien-Keeps : (i a r : String) → Keeps P (get_active_lien_by_reference i a r)
  unfolding get_active_lien_by_reference
  get_active_lien-Keeps i a r = search reading

  no_other-Keeps : (i a r : String) → Keeps P (ensure_no_other_active_lien_by_reference i a r)
  unfolding ensure_no_other_active_lien_by_reference
  no_other-Keeps i a r = search reading depth 12

  new_lien_checks-Keeps :
      (input : AccountLienInput) (l : LockedAccountBalance) → Keeps P (new_lien_checks input l)
  unfolding new_lien_checks
  new_lien_checks-Keeps input l = search (reading, no_other-Keeps) depth 12

module _ {P : Store → Type 0} (inv : IsLedgerInvariant P) where
  change_status-Keeps :
      (input : AccountControlInput) (st : AccountStatus) (a : Account)
      → Keeps P (change_status input st a)
  unfolding change_status
  change_status-Keeps input st a =
      search (reading, Keeps-modify, inv.on_status, insert_audit_event-Keeps, inv.holding.log) depth
        14

  pub set_status-Keeps :
      (input : AccountControlInput) (st : AccountStatus) (allowed : List AccountStatus)
      → Keeps P (set_status input st allowed)
  unfolding set_status
  set_status-Keeps input st allowed = search (reading, change_status-Keeps) depth 14

  write_lien-Keeps : (input : AccountLienInput) → Keeps P (write_lien input)
  unfolding write_lien
  write_lien-Keeps input =
      search
        (
          reading, Keeps-id, insert_hold-Keeps, inv.holding.on_take, insert_audit_event-Keeps,
          inv.holding.log,
        )
        depth 16

  pub place_lien-Keeps : (input : AccountLienInput) → Keeps P (place_lien input)
  unfolding place_lien
  place_lien-Keeps input =
      search (reading, get_active_lien-Keeps, new_lien_checks-Keeps, write_lien-Keeps) depth 16

  write_lien_release-Keeps :
      (input : ReleaseLienInput) (h : AccountHold) → Keeps P (write_lien_release input h)
  unfolding write_lien_release
  write_lien_release-Keeps input h =
      search
        (
          reading, update_hold-Keeps, inv.holding.on_add, get_lien-Keeps, insert_audit_event-Keeps,
          inv.holding.log,
        )
        depth 16

  pub release_lien-Keeps : (input : ReleaseLienInput) → Keeps P (release_lien input)
  unfolding release_lien
  release_lien-Keeps input = search (reading, get_lien-Keeps, write_lien_release-Keeps) depth 16
