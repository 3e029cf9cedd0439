-- ===== src/Service/External/Repeated.antt =====
-- An external transfer that is asked for again.
use lenz.Prelude.{
  ◌≡◌, refl, sym, subst, String, Bool, true, false, List, some, ◌==◌, if◌then◌else◌, Option-cases,
  inl, inr,
}
use lenz.Prelude.Text.{trim_space}
use lenz.Prelude.Table.{find}
use lenz.Prelude.Assoc.{lookup}
use lenz.Model.{
  Transfer, RecordTransferInput, ExternalOutboundTransferInput, ExternalOutboundTransferResult,
  Error,
}
use lenz.Tx.{Store, Result, ok, err}
use lenz.Tx.Yields.{Yields, Yields-bind-fact, Yields-bind-fail_if, Yields-pure}
use lenz.Transfers.{is_keyed}
use lenz.Transfers.Record.{begin_external_outbound_transfer}
use lenz.Transfers.Record.Repeated.{begin_external_outbound_transfer-repeated}
use lenz.Provider.{TransferProvider}
use lenz.Service.{require_institution_id}
use lenz.Service.Action.{transact}
use lenz.Service.Action.Leads.{
  Outcome, Leads, Leads-bind, Leads-done, Leads-query, Leads-stop, Leads-if, Leads-read,
  Leads-given,
}
use lenz.Service.External.{provider_of}
use lenz.Service.External.Inputs.{normalize_external_outbound_transfer_input}
use lenz.Service.External.Outbound.{
  external_outbound_transfer, external_outbound_transfer_result, intent_input,
}

pub require_institution_id-trim_space :
    (i : String) → Yields (λ _. Unit) (require_institution_id i) (λ j _. j ≡ trim_space i)
unfolding require_institution_id
require_institution_id-trim_space i =
    Yields-bind-fail_if _ _ _ λ named. Yields-pure (trim_space i) λ s h. refl

-- The input keeps its key.
abbrev IsKeyedAs : ExternalOutboundTransferInput → ExternalOutboundTransferInput → Type 0
IsKeyedAs given input =
    (input.institution_id ≡ trim_space given.institution_id)
    × (input.idempotency_key ≡ trim_space given.idempotency_key)

normalize-IsKeyedAs :
    (is_uuid : String → Bool) (given : ExternalOutboundTransferInput)
    → Yields
        (λ _. Unit)
        (normalize_external_outbound_transfer_input is_uuid given)
        (λ input _. IsKeyedAs given input)
unfolding normalize_external_outbound_transfer_input
normalize-IsKeyedAs is_uuid given =
    Yields-bind-fact (λ j. j ≡ trim_space given.institution_id) _ _
      (require_institution_id-trim_space given.institution_id)
      λ j same.
        Yields-bind-fail_if _ _ _
          λ _. Yields-bind-fail_if _ _ _ λ _. Yields-pure _ λ s h. (same, refl)

module _ {S : Type 0} (t : Transfer) (s : Store) (p : S) where
  abbrev IsSame : Store × S → Type 0
  IsSame w = w ≡ (s, p)

  -- The request began nothing: the transfer is the earlier one.
  record IsOld (begun : Transfer × Bool) : Type 0 where
    on_transfer : begun.0 ≡ t
    on_new : begun.1 ≡ false

  old :
      (b : Bool) (r : Result (Transfer × Bool) × Store)
      → r ≡ (if b then (ok (t, false), s) else (err Error.conflict, s))
      → Outcome (λ begun w. IsSame w × IsOld begun) IsSame (r.0, (r.1, p))
  old true r e = rw e (refl, record { on_transfer = refl; on_new = refl })
  old false r e = rw e refl

  begin-IsOld :
      (input : RecordTransferInput)
      → find (is_keyed input.institution_id input.idempotency_key) s.transfers ≡ some t
      → (trim_space t.request_fingerprint == "") ≡ false
      → Leads IsSame
          (transact (begin_external_outbound_transfer input))
          (λ begun w. IsSame w × IsOld begun)
          IsSame
  unfolding transact
  begin-IsOld input found stored = record {
    at = λ w h.
        subst
          (λ v.
            Outcome (λ begun w. IsSame w × IsOld begun) IsSame
              (transact (begin_external_outbound_transfer input) v))
          (sym h)
          (old _ (begin_external_outbound_transfer input s)
            (begin_external_outbound_transfer-repeated input s t found stored));
  }

  provider_of-IsSame :
      {Payload : Type 0} (providers : List (String × TransferProvider S Payload)) (name : String)
      → Leads IsSame (provider_of providers name) (λ _. IsSame) IsSame
  unfolding provider_of
  provider_of-IsSame providers name =
      Leads-if (trim_space name == "") _ _ (Leads-stop _ λ w h. h)
        (elim (Option-cases (lookup (trim_space name) providers)) [
          | inl missing ↦ rw missing (Leads-stop _ λ w h. h)
          | inr (provider, found) ↦ rw found (Leads-done provider λ w h. h)
        ])

  result-IsSame :
      (transfer : Transfer)
      → Leads IsSame
          (external_outbound_transfer_result transfer)
          (λ r w. (r.transfer_id ≡ transfer.id) × IsSame w)
          IsSame
  unfolding external_outbound_transfer_result
  result-IsSame transfer =
      Leads-bind (λ _. IsSame) _ _ (Leads-query _) λ hold_id. Leads-done _ λ w h. (refl, h)

  -- A result about the earlier transfer, or an error, and nothing has changed.
  abbrev pub IsRepeated : Result ExternalOutboundTransferResult × (Store × S) → Type 0
  IsRepeated = Outcome (λ r w. (r.transfer_id ≡ t.id) × IsSame w) IsSame

  -- An external outbound transfer whose idempotency key an earlier transfer of the institution has,
  -- stored with a fingerprint, asks no provider and changes nothing in the database: it returns what
  -- it knows of the earlier transfer, or an error.
  pub external_outbound_transfer-IsRepeated :
      {Payload : Type 0} (is_uuid : String → Bool)
      (providers : List (String × TransferProvider S Payload))
      (given : ExternalOutboundTransferInput)
      → find
          (is_keyed (trim_space given.institution_id) (trim_space given.idempotency_key))
          s.transfers
        ≡ some t
      → (trim_space t.request_fingerprint == "") ≡ false
      → IsRepeated (external_outbound_transfer is_uuid providers given (s, p))
  unfolding external_outbound_transfer
  external_outbound_transfer-IsRepeated is_uuid providers given found stored =
      (Leads-bind (λ input w. IsSame w × IsKeyedAs given input) _ _
          (Leads-read (IsKeyedAs given) s p _ ((normalize-IsKeyedAs is_uuid given).at s tt))
          λ input. Leads-given _ _ λ same.
            Leads-bind (λ _. IsSame) _ _ (provider_of-IsSame providers input.provider)
              λ provider.
                Leads-bind (λ _. IsSame) _ _ (Leads-query _)
                  λ clearing.
                    Leads-bind (λ _. IsSame) _ _ (Leads-query _)
                      λ digest.
                        Leads-bind (λ begun w. IsSame w × IsOld begun) _ _
                          (begin-IsOld (intent_input digest input clearing.id)
                            (rw (same.0, same.1) found) stored)
                          λ begun. Leads-given _ _ λ earlier. rw earlier.on_new (
                            subst
                              (λ u.
                                Leads IsSame (external_outbound_transfer_result begun.0)
                                  (λ r w. (r.transfer_id ≡ u.id) × IsSame w) IsSame)
                              earlier.on_transfer (result-IsSame begun.0))).at
        (s, p) refl
