-- ===== src/Transfers/Record/New.antt =====
-- What `recordTransfer` gives for a new transfer follows from what the writes give: every other way
-- to return says that the transfer is not new.
use lenz.Prelude.{◌≡◌, refl, subst, String, Bool, true, false, not, ◌&&◌, ◌==◌, ℕ, if◌then◌else◌}
use lenz.Model.{Status, is_pending, Transfer, RecordTransferInput}
use lenz.Tx.{Store, Tx, pure, if_found, ◌>>=◌}
use lenz.Tx.Yields.{
  Ends, Ends-map, Yields, Yields-bind, Yields-bind-known, Yields-bind-fail_if, Yields-skip,
  Yields-if, Yields-if_found, Yields-pure,
}
use lenz.Tx.Keeps.{Keeps}
use lenz.Fingerprint.{transfer_request_fingerprint}
use lenz.Accounts.{LockedAccountBalance, lock_transfer_account_balances}
use lenz.Accounts.Laws.{AreLocked, lock_transfer_account_balances-Ends}
use lenz.Transfers.{
  get_pending_transfer_by_provider_reference, stated_provider_status, effective_status,
}
use lenz.Transfers.Settle.{settle_pending_transfer}
use lenz.Transfers.Record.{
  is_insufficient, write_transfer, record_new, record_settled, record_by_reference, record_transfer,
}
use lenz.Tx.Keeps.{Keeps-gets}
use lenz.Invariant.{IsLogInvariant}
use lenz.Invariant.Operations.{reserve_event-Keeps}
use lenz.Invariant.Parts.{
  enforce_transfer_controls-Keeps, Keeps-id, get_settled-Keeps, get_pending-Keeps,
}
use lenz.Invariant.Reads.{find_replay-Keeps}

-- The accounts and their balances are those of `s`.
abbrev pub IsUnmoved : Store → Store → Type 0
IsUnmoved s t = (t.accounts ≡ s.accounts) × (t.balances ≡ s.balances)

unmoved-IsLogInvariant : (s : Store) → IsLogInvariant (IsUnmoved s)
unmoved-IsLogInvariant s = record {
  on_env = λ t e h. h;
  on_events = λ t es h. h;
  on_audit = λ t es h. h;
}

module _ (input : RecordTransferInput) (s : Store) (Q : Transfer → Store → Type 0) where
  -- The status of a new transfer.
  abbrev pub new_status : LockedAccountBalance → Status
  new_status locked =
      if is_insufficient input locked
      then Status.failed
      else effective_status (stated_provider_status input) input.status

  abbrev pub WritesYield : Type 0
  WritesYield =
      (pair : LockedAccountBalance × LockedAccountBalance) (id : String) (now : ℕ)
      → AreLocked s input.institution_id input.account_id input.clearing_account_id pair
      → (is_insufficient input pair.0 && input.reject_insufficient) ≡ false
      → Yields (IsUnmoved s)
          (write_transfer input (transfer_request_fingerprint s.env.sha256_hex input) pair.0 pair.1
            id (new_status pair.0) (stated_provider_status input) (is_insufficient input pair.0)
            now)
          Q

  abbrev IfNew : Transfer × Bool → Store → Type 0
  IfNew (transfer, is_new) t = is_new ≡ true → Q transfer t

  old : (transfer : Transfer) (t : Store) → IfNew (transfer, false) t
  old transfer t h = subst (λ b. if b then Q transfer t else Unit {0}) h tt

  locks :
      Yields
        (λ t. t ≡ s)
        (lock_transfer_account_balances input.institution_id input.account_id
          input.clearing_account_id)
        (λ pair t.
          AreLocked s input.institution_id input.account_id input.clearing_account_id pair
          × IsUnmoved s t)
  locks = record {
    at = λ t e.
        Ends-map
          {Q = λ pair u.
            AreLocked s input.institution_id input.account_id input.clearing_account_id pair
            × IsUnmoved s u}
          _
          (lock_transfer_account_balances-Ends input.institution_id input.account_id
            input.clearing_account_id t)
          (λ pair u k. (
            subst
                (λ v.
                  AreLocked v input.institution_id input.account_id input.clearing_account_id pair)
                e k.1,
            (rw (k.0, e) refl, rw (k.0, e) refl),
          ));
  }

  reads : {A : Type 0} (m : Tx A) → Keeps (λ t. t ≡ s) m → Yields (λ t. t ≡ s) m (λ _ t. t ≡ s)
  reads m k = record { at = k.at }

  before :
      {A : Type 0} (m : Tx A) → Keeps (IsUnmoved s) m → Yields (IsUnmoved s) m (λ _. IsUnmoved s)
  before m k = record { at = k.at }

  module _ (writes : WritesYield) where
    abbrev f : String
    f = transfer_request_fingerprint s.env.sha256_hex input

    record_new-Yields : Yields (λ t. t ≡ s) (record_new input f) IfNew
    unfolding record_new
    record_new-Yields =
        let log = unmoved-IsLogInvariant s in
        let U = λ (A : Type 0) (_ : A). IsUnmoved s in
        Yields-bind-known _ (IsUnmoved s) _ _ locks λ pair known.
          Yields-bind (U _) _ _ (before _ (enforce_transfer_controls-Keeps _ _ _)) λ _.
            Yields-bind-fail_if _ _ _ λ accepted.
              Yields-bind (U _) _ _ (before _ (Keeps-id log)) λ id.
                Yields-bind (U _) _ _ (before _ (Keeps-gets _)) λ now.
                  Yields-bind (U _) _ _ (before _ (reserve_event-Keeps log input "" now))
                    λ reserved.
                      Yields-if reserved _ _
                        (λ _.
                          Yields-bind Q _ _ (writes pair id now known accepted)
                            λ transfer. Yields-pure (transfer, true) λ t q _. q)
                        (λ _.
                          Yields-skip _ _
                            λ transfer. Yields-pure (transfer, false) λ t _. old transfer t)

    record_settled-Yields : Yields (λ t. t ≡ s) (record_settled input f) IfNew
    unfolding record_settled
    record_settled-Yields =
        Yields-bind (λ _ t. t ≡ s) _ _ (reads _ (get_settled-Keeps _ _ _ _))
          λ settled.
            Yields-if_found settled _ _
              (λ transfer _.
                Yields-skip _ _
                  λ _. Yields-skip _ _ λ _. Yields-pure (transfer, false) λ t _. old transfer t)
              (λ _. record_new-Yields)

    ended_or_new-Yields :
        Yields
          (λ t. t ≡ s)
          (get_pending_transfer_by_provider_reference input.institution_id input.provider
              input.provider_reference input.direction
            >>= λ pending.
                if_found pending
                  (λ transfer.
                    settle_pending_transfer transfer input >>= λ settled. pure (settled, false))
                  (record_settled input f))
          IfNew
    ended_or_new-Yields =
        Yields-bind (λ _ t. t ≡ s) _ _ (reads _ (get_pending-Keeps _ _ _ _))
          λ pending.
            Yields-if_found pending _ _
              (λ transfer _. Yields-skip _ _ λ ended. Yields-pure (ended, false) λ t _. old ended t)
              (λ _. record_settled-Yields)

    record_by_reference-Yields : Yields (λ t. t ≡ s) (record_by_reference input f) IfNew
    unfolding record_by_reference
    record_by_reference-Yields =
        Yields-if (not (input.provider_reference == "") && not (is_pending input.status)) _ _
          (λ _. ended_or_new-Yields) (λ _. record_new-Yields)

    pub record_transfer-new : Ends IfNew (record_transfer input s)
    unfolding record_transfer ◌>>=◌
    record_transfer-new =
        (Yields-bind (λ _ t. t ≡ s) _ _ (reads _ (find_replay-Keeps input f))
            λ replay.
              Yields-if_found replay _ _
                (λ transfer _. Yields-pure (transfer, false) λ t _. old transfer t)
                (λ _. record_by_reference-Yields)).at
          s refl
