-- ===== src/Invariant/Unposted.antt =====
-- An external outbound transfer is begun, and completed without success, under any invariant that
-- the holds and the rows of transfers keep: nothing is posted for it.
use lenz.Prelude.{
  ◌≡◌, refl, ℕ, String, Bool, true, false, not, ◌&&◌, ◌||◌, ◌==◌, arith, if◌then◌else◌,
}
use lenz.Model.{
  Status, is_succeeded, is_pending, is_failed, Account, Transfer, RecordTransferInput,
  normalize_status,
}
use lenz.Tx.{Store, Tx, Result, ok, err, ◌>>=◌}
use lenz.Tx.Keeps.{Keeps, Keeps-pure}
use lenz.Tx.Yields.{Ends}
use lenz.Accounts.{LockedAccountBalance}
use lenz.Transfers.{insert_transfer, update_transfer, effective_status}
use lenz.Transfers.Record.{
  post_if_succeeded, write_transfer, record_new, record_by_reference, record_transfer,
}
use lenz.Transfers.Complete.{
  external_outbound_transfer_statuses, complete_status, complete_reserved, complete_pending,
  complete_external_outbound,
}
use lenz.Invariant.{IsHoldInvariant}
use lenz.Invariant.Parts.{
  reading, create-Keeps, link_transfer-Keeps, audit_posted-Keeps, audit_inbound-Keeps, Keeps-id,
  audit_outbound-Keeps, release-Keeps,
}
use lenz.Invariant.Operations.{reserve_event-Keeps}
use lenz.Invariant.Reads.{existing_event-Keeps, find_replay-Keeps}

pub record IsUnpostedInvariant (P : Store → Type 0) : Type 0 where
  pub holding : IsHoldInvariant P
  pub on_insert : (t : Transfer) → Keeps P (insert_transfer t)
  pub on_update : (i t : String) (f : Transfer → Transfer) → Keeps P (update_transfer i t f)

-- The status is one of a transfer that has not succeeded.
abbrev pub is_unpaid : Status → Bool
is_unpaid status = is_pending status || is_failed status

not_succeeded : (st : Status) → is_unpaid st ≡ true → is_succeeded st ≡ false
not_succeeded st h = ground arith

normal_unpaid : (st : Status) → is_unpaid st ≡ true → normalize_status st ≡ st
unfolding normalize_status
normal_unpaid Status.pending h = refl
normal_unpaid Status.failed h = refl
normal_unpaid Status.succeeded h = ground arith
normal_unpaid Status.provider_unknown h = ground arith
normal_unpaid (Status.other t) h = ground arith

new_unpaid :
    (short : Bool) (st ps : Status)
    → st ≡ Status.pending
    → is_succeeded (if short then Status.failed else effective_status ps st) ≡ false
new_unpaid true st ps pending = refl
new_unpaid false st ps pending = rw pending (ground arith)

if_unpaid :
    {A : Type 0} {P : Store → Type 0} (b : Bool) (st : Status) (m n : Tx A)
    → st ≡ Status.pending
    → Keeps P n
    → Keeps P (if b && not (is_pending st) then m else n)
if_unpaid true st m n pending k = rw pending k
if_unpaid false st m n pending k = k

module _ {A B : Type 0} {P : Store → Type 0} where
  Ends-fact :
      (Q : A → Type 0) (r : Result (A × Store)) (f : A → Tx B) (s : Store)
      → Ends (λ a t. Q a × (t ≡ s)) r
      → ((a : A) → Q a → Keeps P (f a))
      → P s
      → Ends (λ _. P) (elim r [ ok (a, t) ↦ f a t | err e ↦ err e ])
  Ends-fact Q (ok (a, t)) f s q kf h = (kf a q.0).at t (rw q.1 h)
  Ends-fact Q (err e) f s q kf h = tt

  -- A fact on the result of an action that only reads.
  Keeps-bind-fact :
      (Q : A → Type 0) (m : Tx A) (f : A → Tx B)
      → ((s : Store) → Ends (λ a t. Q a × (t ≡ s)) (m s))
      → ((a : A) → Q a → Keeps P (f a))
      → Keeps P (m >>= f)
  unfolding ◌>>=◌
  Keeps-bind-fact Q m f q kf = record { at = λ s h. Ends-fact Q (m s) f s (q s) kf h }

module _ {P : Store → Type 0} (inv : IsUnpostedInvariant P) where
  post_if_succeeded-Keeps :
      (input : RecordTransferInput) (id : String) (now : ℕ) (st : Status)
      → is_succeeded st ≡ false
      → Keeps P (post_if_succeeded input id now st)
  unfolding post_if_succeeded
  post_if_succeeded-Keeps input id now st other = rw other (Keeps-pure _)

  write_unpaid-Keeps :
      (input : RecordTransferInput) (f : String) (l c : LockedAccountBalance) (id : String)
      (st ps : Status) (b : Bool) (now : ℕ)
      → is_succeeded st ≡ false
      → Keeps P (write_transfer input f l c id st ps b now)
  unfolding write_transfer
  write_unpaid-Keeps input f l c id st ps b now other =
      search
        (
          reading, post_if_succeeded-Keeps, inv.holding, inv.holding.log, inv.on_insert,
          create-Keeps, link_transfer-Keeps, audit_posted-Keeps, audit_inbound-Keeps,
        )
        depth 16

  record_new_unpaid-Keeps :
      (input : RecordTransferInput) (f : String)
      → input.status ≡ Status.pending
      → Keeps P (record_new input f)
  unfolding record_new
  record_new_unpaid-Keeps input f pending =
      search
        (
          reading, inv.holding.log, Keeps-id, reserve_event-Keeps, write_unpaid-Keeps, new_unpaid,
          existing_event-Keeps,
        )
        depth 18

  by_reference_unpaid-Keeps :
      (input : RecordTransferInput) (f : String)
      → input.status ≡ Status.pending
      → Keeps P (record_by_reference input f)
  unfolding record_by_reference
  by_reference_unpaid-Keeps input f pending =
      if_unpaid (not (input.provider_reference == "")) input.status _ _ pending
        (record_new_unpaid-Keeps input f pending)

  -- A pending transfer is recorded.
  pub record_pending-Keeps :
      (input : RecordTransferInput)
      → input.status ≡ Status.pending
      → Keeps P (record_transfer input)
  unfolding record_transfer
  record_pending-Keeps input pending =
      search (reading, find_replay-Keeps, by_reference_unpaid-Keeps) depth 12

  complete_status_unpaid-Keeps :
      (t : Transfer) (input : RecordTransferInput) (a c : Account) (now : ℕ) (st : Status)
      → is_succeeded st ≡ false
      → Keeps P (complete_status t input a c now st)
  unfolding complete_status
  complete_status_unpaid-Keeps t input a c now Status.succeeded other = ground arith
  complete_status_unpaid-Keeps t input a c now Status.failed other =
      search (reading, inv.holding, release-Keeps) depth 12
  complete_status_unpaid-Keeps t input a c now Status.pending other = search reading depth 12
  complete_status_unpaid-Keeps t input a c now _ other = search reading

  module _ (input : RecordTransferInput) (unpaid : is_unpaid input.status ≡ true) where
    statuses_unpaid :
        (s : Store)
        → Ends
            (λ st t. (is_succeeded st.0 ≡ false) × (t ≡ s))
            (external_outbound_transfer_statuses input s)
    unfolding external_outbound_transfer_statuses ◌>>=◌
    statuses_unpaid s = rw (normal_unpaid input.status unpaid) (ground (arith, unpaid))

    complete_reserved_unpaid-Keeps :
        (t : Transfer) (l c : LockedAccountBalance) (now : ℕ)
        → Keeps P (complete_reserved t input l c now)
    unfolding complete_reserved
    complete_reserved_unpaid-Keeps t l c now =
        Keeps-bind-fact (λ st. is_succeeded st.0 ≡ false) _ _ statuses_unpaid
          λ st other.
            search
              (
                reading, complete_status_unpaid-Keeps, inv.on_update, inv.holding.log,
                link_transfer-Keeps, audit_outbound-Keeps,
              )
              depth 16

    complete_pending_unpaid-Keeps : (t : Transfer) → Keeps P (complete_pending t input)
    unfolding complete_pending
    complete_pending_unpaid-Keeps t =
        search
          (
            reading, inv.holding.log, reserve_event-Keeps, complete_reserved_unpaid-Keeps,
            existing_event-Keeps,
          )
          depth 16

    pub complete_unpaid-Keeps : (t : String) → Keeps P (complete_external_outbound t input)
    unfolding complete_external_outbound
    complete_unpaid-Keeps t = search (reading, complete_pending_unpaid-Keeps) depth 16
