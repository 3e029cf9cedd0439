-- ===== src/Transfers/Record/Repeated.antt =====
-- A request that repeats an idempotency key.
use lenz.Prelude.{
  ◌∙◌, String, Bool, true, refl, sym, subst, ℕ, ◌||◌, eq_refl, ◌≡◌, false, some, ◌==◌, arith,
  if◌then◌else◌,
}
use lenz.Prelude.Table.{find, All-map, find-insert, count-none}
use lenz.Prelude.Text.{trim_space}
use lenz.Model.{Status, Transfer, RecordTransferInput, Error}
use lenz.Tx.{Environment, Tx, Store, ok, err, ◌>>=◌, with_tx}
use lenz.Tx.Yields.{Ends-outcome, Ends-map, Yields, Yields-bind, Yields-skip, Yields-pure}
use lenz.Tx.Keeps.{Keeps}
use lenz.Accounts.{LockedAccountBalance}
use lenz.Accounts.Laws.{update_balance-Keeps}
use lenz.Holds.{add_available, take_available}
use lenz.Ledger.{post_journal}
use lenz.Ledger.Effects.{post_journal-Ends}
use lenz.Transfers.Record.New.{record_transfer-new}
use lenz.Invariant.{IsLedgerInvariant}
use lenz.Invariant.Parts.{
  reading, create-Keeps, link_transfer-Keeps, audit_posted-Keeps, audit_inbound-Keeps,
}
use lenz.Fingerprint.{transfer_request_fingerprint, transfer_request_fingerprint_matches}
use lenz.Transfers.Rows.{insert_transfer-Ends}
use lenz.Transfers.{is_rival, insert_transfer, is_keyed, get_transfer_by_idempotency}
use lenz.Transfers.Replay.{same_transfer_replay, accept_replay, find_replay}
use lenz.Transfers.Record.{
  new_transfer, write_transfer, record_transfer, begin_external_outbound_transfer,
}

-- A request whose idempotency key an earlier transfer of the institution has, stored with a
-- fingerprint, changes nothing: it gets that transfer, as one that is not new, if the fingerprints
-- agree, and a conflict if they do not.
pub begin_external_outbound_transfer-repeated :
    (input : RecordTransferInput) (s : Store) (t : Transfer)
    → find (is_keyed input.institution_id input.idempotency_key) s.transfers ≡ some t
    → (trim_space t.request_fingerprint == "") ≡ false
    → begin_external_outbound_transfer input s ≡ (
        if transfer_request_fingerprint_matches t
          (transfer_request_fingerprint s.env.sha256_hex input)
        then (ok (t, false), s)
        else (err Error.conflict, s))
unfolding begin_external_outbound_transfer record_transfer get_transfer_by_idempotency find_replay
    same_transfer_replay accept_replay with_tx ◌>>=◌
begin_external_outbound_transfer-repeated input s t found stored = ground (arith, found, stored)

or_right : (a b : Bool) → (a || b) ≡ false → b ≡ false
or_right a b h = ground arith

is_keyed_self : (t : Transfer) → is_keyed t.institution_id t.idempotency_key t ≡ true
is_keyed_self t = ground (arith, eq_refl t.institution_id, eq_refl t.idempotency_key)

-- The transfer is the one that its key finds.
module _ (transfer : Transfer) where
  abbrev IsFound : Store → Type 0
  IsFound s =
      find (is_keyed transfer.institution_id transfer.idempotency_key) s.transfers ≡ some transfer

  IsFound-IsLedgerInvariant : IsLedgerInvariant IsFound
  IsFound-IsLedgerInvariant = record {
    holding = record {
      log = record { on_env = λ s e h. h; on_events = λ s es h. h; on_audit = λ s es h. h };
      on_holds = λ s hs h. h;
      on_add = λ i a amount now. update_balance-Keeps i a (add_available amount now) (λ s h. h);
      on_take = λ i a amount now. update_balance-Keeps i a (take_available amount now) (λ s h. h);
    };
    on_status = λ s i a status now h. h;
    on_post = λ input transfer_id now held. record {
      at = λ s h.
          Ends-map (post_journal input transfer_id now held s)
            (post_journal-Ends input transfer_id now held s) (λ _ u e. subst IsFound (sym e.1) h);
    };
  }

  insert-IsFound : Yields (λ _. Unit) (insert_transfer transfer) (λ _. IsFound)
  insert-IsFound = record {
    at = λ s _. Ends-map (insert_transfer transfer s) (insert_transfer-Ends transfer s) (λ _ u e.
        subst IsFound (sym e.0) (
          find-insert _ transfer s.transfers
            (All-map _ _
              (λ r other.
                or_right (r.id == transfer.id)
                  (is_keyed transfer.institution_id transfer.idempotency_key r) other)
              s.transfers (count-none (is_rival transfer) s.transfers e.1))
            (is_keyed_self transfer)));
  }

  -- What follows the INSERT.
  kept : {A : Type 0} (m : Tx A) → Keeps IsFound m → Yields IsFound m (λ _. IsFound)
  kept m k = record { at = k.at }

write_transfer-IsFound :
    {P : Store → Type 0} (input : RecordTransferInput) (f : String) (l c : LockedAccountBalance)
    (id : String) (st ps : Status) (b : Bool) (now : ℕ)
    → Yields P (write_transfer input f l c id st ps b now) (λ t u.
      (find (is_keyed input.institution_id input.idempotency_key) u.transfers ≡ some t)
      × (t.request_fingerprint ≡ f))
unfolding write_transfer
write_transfer-IsFound input f l c id st ps b now = Yields-skip _ _ λ journal.
    let transfer : Transfer = new_transfer input l id f st ps b journal now in
    let found : IsLedgerInvariant (IsFound transfer) = IsFound-IsLedgerInvariant transfer in
    Yields-bind (λ _. IsFound transfer) _ _ (insert-IsFound transfer)
      λ _.
        Yields-bind (λ _. IsFound transfer) _ _
          (kept transfer _ (search (reading, create-Keeps, found.holding) depth 12))
          λ _.
            Yields-bind (λ _. IsFound transfer) _ _
              (kept transfer _ (search (reading, link_transfer-Keeps, found.holding.log) depth 12))
              λ _.
                Yields-bind (λ _. IsFound transfer) _ _
                  (kept transfer _ (audit_posted-Keeps found.holding.log _ _ _ _))
                  λ _.
                    Yields-bind (λ _. IsFound transfer) _ _
                      (kept transfer _ (audit_inbound-Keeps found.holding.log _ _ _))
                      λ _. Yields-pure transfer λ u h. (h, refl)

-- A stored fingerprint agrees with itself.
matches_self :
    (t : Transfer) (f : String)
    → t.request_fingerprint ≡ f
    → (trim_space f == "") ≡ false
    → transfer_request_fingerprint_matches t f ≡ true
unfolding transfer_request_fingerprint_matches
matches_self t f same stored = rw (same, stored, eq_refl (trim_space f)) refl

-- After a request was recorded as a new transfer, the same request, at any later time and by any
-- caller, gets the same transfer, as one that is not new, and changes nothing, provided that its
-- fingerprint is not blank and the digest is the same.
pub begin_external_outbound_transfer-again :
    (input : RecordTransferInput) (s t : Store) (transfer : Transfer) (later : Environment)
    → begin_external_outbound_transfer input s ≡ (ok (transfer, true), t)
    → later.sha256_hex ≡ s.env.sha256_hex
    → (trim_space (transfer_request_fingerprint s.env.sha256_hex input) == "") ≡ false
    → begin_external_outbound_transfer input (record t { env = later })
      ≡ (ok (transfer, false), record t { env = later })
unfolding begin_external_outbound_transfer with_tx
begin_external_outbound_transfer-again input s t transfer later recorded digest stored =
    let f = transfer_request_fingerprint s.env.sha256_hex input in
    let (found, same) =
      Ends-outcome _ (record_transfer input s) s (transfer, true) t
        (record_transfer-new input s _
          λ pair id now _ _. write_transfer-IsFound input f pair.0 pair.1 id _ _ _ now)
        recorded refl in
    begin_external_outbound_transfer-repeated input (record t { env = later }) transfer found
      (rw same stored)
    ∙ rw (digest, matches_self transfer f same stored) refl
