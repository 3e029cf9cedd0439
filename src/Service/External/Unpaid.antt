-- ===== src/Service/External/Unpaid.antt =====
-- A provider that does not say that it has paid: nothing is posted.
use lenz.Prelude.{
  ◌≡◌, refl, String, Bool, true, List, none, some, Option, arith, ◌==◌, Bool-cases, inl, inr,
  Option-cases,
}
use lenz.Prelude.Assoc.{lookup}
use lenz.Model.{
  Status, normalize_status, JournalEntry, Posting, Transfer, RecordTransferInput,
  ExternalOutboundTransferInput, ProviderTransferRequest, ProviderTransferResult,
}
use lenz.Tx.{Store, Result, ok, err}
use lenz.Tx.Keeps.{Keeps-with_tx}
use lenz.Tx.Yields.{Ends-map}
use lenz.Accounts.Laws.{update_balance-Keeps}
use lenz.Holds.{add_available, take_available}
use lenz.Transfers.{insert_transfer, update_transfer}
use lenz.Transfers.Rows.{insert_transfer-Ends, update_transfer-Ends}
use lenz.Transfers.Record.{record_transfer, begin_external_outbound_transfer}
use lenz.Transfers.Complete.{complete_external_outbound, complete_external_outbound_transfer}
use lenz.Prelude.Text.{trim_space}
use lenz.Provider.{TransferProvider, provider_transfer_status_unknown}
use lenz.Invariant.{IsHoldInvariant}
use lenz.Invariant.Unposted.{
  IsUnpostedInvariant, is_unpaid, record_pending-Keeps, complete_unpaid-Keeps,
}
use lenz.Service.Action.{Action, transact}
use lenz.Service.Action.Leads.{
  Outcome, outcome_end, Leads, Leads-bind, Leads-done, Leads-stop, Leads-if, Leads-query,
  Leads-transact, Leads-answer, Leads-given,
}
use lenz.Service.External.{answer_of, provider_of}
use lenz.Service.External.Inputs.{external_outbound_completion_input}
use lenz.Service.External.Outbound.{
  external_outbound_transfer, external_outbound_transfer_result, ask_and_complete, intent_input,
}

-- The journal and its postings.
abbrev pub Journal : Type 0
Journal = List JournalEntry × List Posting

abbrev pub journal : Store → Journal
journal s = (s.journal_entries, s.postings)

module _ (j : Journal) where
  abbrev HasJournal : Store → Type 0
  HasJournal t = journal t ≡ j

  HasJournal-IsHoldInvariant : IsHoldInvariant HasJournal
  HasJournal-IsHoldInvariant = record {
    log = record { on_env = λ s e h. h; on_events = λ s es h. h; on_audit = λ s es h. h };
    on_holds = λ s hs h. h;
    on_add = λ i a amount now. update_balance-Keeps i a (add_available amount now) (λ s h. h);
    on_take = λ i a amount now. update_balance-Keeps i a (take_available amount now) (λ s h. h);
  }

  HasJournal-IsUnpostedInvariant : IsUnpostedInvariant HasJournal
  HasJournal-IsUnpostedInvariant = record {
    holding = HasJournal-IsHoldInvariant;
    on_insert = λ t. record {
      at = λ s h. Ends-map (insert_transfer t s) (insert_transfer-Ends t s) (λ _ u e. rw e.0 h);
    };
    on_update = λ i t f. record {
      at = λ s h.
          Ends-map (update_transfer i t f s) (update_transfer-Ends i t f s) (λ _ u e. rw e h);
    };
  }

-- The provider answers with an error, with nothing, or that the transfer is pending or has failed.
abbrev pub IsUnpaid : Result (Option ProviderTransferResult) → Type 0
IsUnpaid (ok (some result)) = is_unpaid (normalize_status result.status) ≡ true
IsUnpaid _ = Unit

-- The transfer is then completed as pending or failed.
completion_unpaid :
    (name : String) (request : ProviderTransferRequest) (intent : RecordTransferInput)
    (answer : Result (Option ProviderTransferResult))
    → IsUnpaid answer
    → is_unpaid (external_outbound_completion_input intent (answer_of name request answer)).status
      ≡ true
unfolding external_outbound_completion_input answer_of normalize_status
completion_unpaid name request intent (ok (some result)) h = ground (arith, h)
completion_unpaid name request intent (ok none) h = refl
completion_unpaid name request intent (err e) h =
    elim (Bool-cases (provider_transfer_status_unknown e)) [
      | inl unknown ↦ rw unknown refl
      | inr known ↦ rw known refl
    ]

module _ {S : Type 0} (j : Journal) (p : S) where
  -- The journal is `j`.
  abbrev HasIt : Store × S → Type 0
  HasIt w = journal w.0 ≡ j

  -- And no provider was called yet.
  abbrev IsBefore : Store × S → Type 0
  IsBefore w = (journal w.0 ≡ j) × (w.1 ≡ p)

  complete-HasIt :
      (id : String) (input : RecordTransferInput)
      → is_unpaid input.status ≡ true
      → Leads HasIt (transact (complete_external_outbound_transfer id input)) (λ _. HasIt) HasIt
  unfolding complete_external_outbound_transfer
  complete-HasIt id input unpaid =
      Leads-transact (complete_external_outbound_transfer id input) λ s q h.
        Keeps-with_tx (complete_external_outbound (trim_space id) input) s
          (complete_unpaid-Keeps (HasJournal-IsUnpostedInvariant j) input unpaid (trim_space id)) h

  begin-IsBefore :
      (input : RecordTransferInput)
      → input.status ≡ Status.pending
      → Leads IsBefore (transact (begin_external_outbound_transfer input)) (λ _. IsBefore) IsBefore
  unfolding begin_external_outbound_transfer
  begin-IsBefore input pending = Leads-transact (begin_external_outbound_transfer input) λ s q h. (
    Keeps-with_tx (record_transfer input) s
        (record_pending-Keeps (HasJournal-IsUnpostedInvariant j) input pending) h.0,
    h.1,
  )

  result-HasIt :
      (t : Transfer) → Leads {S = S} HasIt (external_outbound_transfer_result t) (λ _. HasIt) HasIt
  unfolding external_outbound_transfer_result
  result-HasIt t = Leads-bind (λ _. HasIt) _ _ (Leads-query _) λ hold. Leads-done _ λ w h. h

  before :
      {A : Type 0} (m : Action S A)
      → Leads HasIt m (λ _. HasIt) HasIt
      → Leads IsBefore m (λ _. HasIt) HasIt
  before m k = record { at = λ w h. k.at w h.0 }

  -- An error too leaves the journal.
  first :
      {A : Type 0} {m : Action S A}
      → Leads IsBefore m (λ _. IsBefore) IsBefore
      → Leads IsBefore m (λ _. IsBefore) HasIt
  first {A} {m} k = record { at = λ w h. weaker (m w) (k.at w h) }
    where
      weaker :
          (r : Result A × (Store × S))
          → Outcome (λ _. IsBefore) IsBefore r
          → Outcome (λ _. IsBefore) HasIt r
      weaker (ok a, w) h = h
      weaker (err e, w) h = h.0

module _ {S Payload : Type 0} (j : Journal) (p : S) where
  ask-HasIt :
      (provider : TransferProvider S Payload) (intent : Transfer) (input : RecordTransferInput)
      (request : ProviderTransferRequest)
      → IsUnpaid (provider.initiate_transfer request p).0
      → Leads
          (IsBefore j p)
          (ask_and_complete provider intent input request)
          (λ _. HasIt j p)
          (HasIt j p)
  unfolding ask_and_complete
  ask-HasIt provider intent input request unpaid =
      Leads-bind (λ r w. (HasIt j p) w × (r ≡ (provider.initiate_transfer request p).0)) _ _
        (Leads-answer (λ s. journal s ≡ j) p (provider.initiate_transfer request))
        λ answer. Leads-given _ _ λ same.
          complete-HasIt j p intent.id _
            (completion_unpaid provider.name request input answer (rw same unpaid))

  provider_of-Leads :
      (providers : List (String × TransferProvider S Payload)) (name : String)
      → Leads
          (IsBefore j p)
          (provider_of providers name)
          (λ provider w. (IsBefore j p) w × (lookup (trim_space name) providers ≡ some provider))
          (HasIt j p)
  unfolding provider_of
  provider_of-Leads providers name =
      Leads-if (trim_space name == "") _ _ (Leads-stop _ λ w h. h.0)
        (elim (Option-cases (lookup (trim_space name) providers)) [
          | inl missing ↦ rw missing (Leads-stop _ λ w h. h.0)
          | inr (provider, found) ↦ rw found (Leads-done provider λ w h. (h, refl))
        ])

  -- While a provider answers the transfers that it is given with an error, with nothing, or with a
  -- pending or failed status, no external outbound transfer, repeated or refused or new, changes the
  -- journal or its postings.
  pub external_outbound_transfer-unposted :
      (is_uuid : String → Bool) (providers : List (String × TransferProvider S Payload))
      → ((name : String) (provider : TransferProvider S Payload)
          → lookup name providers ≡ some provider
          → (request : ProviderTransferRequest) → IsUnpaid (provider.initiate_transfer request p).0)
      → (input : ExternalOutboundTransferInput) (s : Store) → journal s ≡ j
      → journal (external_outbound_transfer is_uuid providers input (s, p)).1.0 ≡ j
  unfolding external_outbound_transfer
  external_outbound_transfer-unposted is_uuid providers unpaid given s h =
      outcome_end (HasIt j p) (external_outbound_transfer is_uuid providers given (s, p)) (
        (Leads-bind (λ _. IsBefore j p) _ _ (first j p (Leads-query _))
            λ input.
              Leads-bind
                (λ provider w.
                  IsBefore j p w × (lookup (trim_space input.provider) providers ≡ some provider))
                _ _ (provider_of-Leads providers input.provider)
                λ provider. Leads-given _ _ λ found.
                  Leads-bind (λ _. IsBefore j p) _ _ (first j p (Leads-query _))
                    λ clearing.
                      Leads-bind (λ _. IsBefore j p) _ _ (first j p (Leads-query _))
                        λ digest.
                          Leads-bind (λ _. IsBefore j p) _ _ (first j p (begin-IsBefore j p _ refl))
                            λ begun.
                              Leads-if begun.1 _ _
                                (Leads-bind (λ _. HasIt j p) _ _
                                  (ask-HasIt provider begun.0
                                    (intent_input digest input clearing.id) _
                                    (unpaid (trim_space input.provider) provider found _))
                                  λ completed. result-HasIt j p completed)
                                (before j p _ (result-HasIt j p begun.0))).at
          (s, p) (h, refl))
