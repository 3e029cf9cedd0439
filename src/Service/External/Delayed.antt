-- ===== src/Service/External/Delayed.antt =====
-- A delayed transfer of the mock provider, asked again after its time has come.
use lenz.Prelude.{
  ◌≡◌, ◌∙◌, ap, Option, refl, sym, subst, String, Bool, true, false, none, some, List, ◌==◌, not,
  if◌then◌else◌,
}
use lenz.Prelude.Assoc.{lookup}
use lenz.Prelude.Table.{find}
use lenz.Prelude.Text.{trim_space, to_lower}
use lenz.Prelude.Int.{ℤ, pos, ltb_ℤ}
use lenz.Model.{
  is_pending as pending, Status, Transfer, ProviderTransferResult, ExternalTransferRequeryInput,
  Error,
}
use lenz.Tx.{Store, Tx, Result, ok, err, ◌>>=◌}
use lenz.Provider.{TransferProvider}
use lenz.Provider.MockNip.{MockNipProvider, unless_done, ripened, requery_transfer}
use lenz.Provider.MockNip.Webhook.{MockWebhookPayload, mock_nip_provider}
use lenz.Service.Action.{Action, done, query, call, attempt}
use lenz.Service.Action.Leads.{
  Outcome, Leads, Leads-bind, Leads-query, Leads-stop_if, Leads-given, Leads-read,
}
use lenz.Service.External.{provider_of}
use lenz.Service.External.Contradicted.{refused, ripened_status, ripened_provider_status}
use lenz.Tx.Yields.{Yields, Yields-bind-fact, Yields-bind-fail_if, Yields-pure}
use lenz.ProviderEvents.{is_transfer}
use lenz.Transfers.{get_transfer}
use lenz.Service.External.Repeated.{require_institution_id-trim_space}
use lenz.Service.External.Requery.{
  external_transfer_requery, ask_again, apply_mock_requery_scenario, requery_answer,
}
use lenz.Service.External.Inputs.{
  normalize_external_transfer_requery_input, requery_provider_reference,
  external_transfer_requery_completion_input,
}

-- The mock stores the transfer as pending and delayed, and its time has come.
pub record IsRipe (p : MockNipProvider) (reference : String) (result : ProviderTransferResult)
    : Type 0 where
  pub until : ℤ
  pub running : p.context_error ≡ none
  pub named : (trim_space reference == "") ≡ false
  pub quiet : lookup (trim_space reference) p.requery_errors ≡ none
  pub stored : lookup (trim_space reference) p.transfers ≡ some result
  pub is_pending : result.status ≡ Status.pending
  pub provider_pending : result.provider_status ≡ Status.pending
  pub delayed : result.delayed ≡ true
  pub delayed_until : result.delayed_until ≡ some until
  pub come : ltb_ℤ (pos p.now) until ≡ false

-- The request is refused, and leaves the database and the providers as they were.
abbrev pub IsRefused : {S A : Type 0} → Store × S → Result A × (Store × S) → Type 0
IsRefused w (ok a, w') = ⊥
IsRefused w (err e, w') = w' ≡ w

running-unless_done :
    {A : Type 0} (p : MockNipProvider) (r : Result A × MockNipProvider)
    → p.context_error ≡ none
    → unless_done p r ≡ r
running-unless_done p r h = ap (λ o. elim o [ some e ↦ (err e, p) | none ↦ r ]) h

mock_requery :
    (p : MockNipProvider) (reference : String) (result : ProviderTransferResult)
    → IsRipe p reference result
    → mock_nip_provider.requery_transfer reference p ≡ (ok (some (ripened p.now result)), p)
unfolding mock_nip_provider requery_transfer
mock_requery p reference result h =
    running-unless_done p _ h.running ∙ rw (h.named, h.quiet, h.stored) refl

refused_ripe :
    (p : MockNipProvider) (transfer : Transfer) (clearing r note : String)
    (result : ProviderTransferResult) (reference : String) (s : Store)
    → IsRipe p reference result
    → external_transfer_requery_completion_input transfer clearing r note (ripened p.now result) s
      ≡ err Error.conflict
refused_ripe p transfer clearing r note result reference s h =
    refused (ripened p.now result) transfer clearing r note s
      (ripened_status p.now result h.until h.is_pending h.delayed h.delayed_until h.come)
      (ripened_provider_status p.now result h.until h.provider_pending h.delayed h.delayed_until
        h.come)

-- What the checks of a requery leave of its input.
abbrev IsNormal : ExternalTransferRequeryInput → ExternalTransferRequeryInput → Type 0
IsNormal given input =
    (input.institution_id ≡ trim_space given.institution_id)
    × (input.transfer_id ≡ trim_space given.transfer_id)
    × (input.provider_reference ≡ trim_space given.provider_reference)
    × (input.scenario ≡ to_lower (trim_space given.scenario))

normalize-IsNormal :
    (is_uuid : String → Bool) (given : ExternalTransferRequeryInput)
    → Yields
        (λ _. Unit)
        (normalize_external_transfer_requery_input is_uuid given)
        (λ input _. IsNormal given input)
unfolding normalize_external_transfer_requery_input
normalize-IsNormal is_uuid given =
    Yields-bind-fact (λ j. j ≡ trim_space given.institution_id) _ _
      (require_institution_id-trim_space given.institution_id)
      λ j same.
        Yields-bind-fail_if _ _ _
          λ _. Yields-bind-fail_if _ _ _ λ _. Yields-pure _ λ s h. (same, refl, refl, refl)

get_known :
    (input given : ExternalTransferRequeryInput) (transfer : Transfer) (s : Store)
    (p : MockNipProvider)
    → IsNormal given input
    → find
        (is_transfer (trim_space given.institution_id) (trim_space given.transfer_id))
        s.transfers
      ≡ some transfer
    → query (get_transfer input.institution_id input.transfer_id) (s, p) ≡ (ok transfer, (s, p))
unfolding query get_transfer ◌>>=◌
get_known input given transfer s p same found = rw (same.0, same.1, found) refl

module _ (s : Store) (p : MockNipProvider) where
  abbrev IsSame : Store × MockNipProvider → Type 0
  IsSame w = w ≡ (s, p)

  -- A step whose outcome is computed.
  Leads-known :
      {A : Type 0} (m : Action MockNipProvider A) (a : A)
      → m (s, p) ≡ (ok a, (s, p))
      → Leads IsSame m (λ b w. IsSame w × (b ≡ a)) IsSame
  Leads-known m a h = record {
    at = λ w same.
        subst (λ v. Outcome (λ b w. IsSame w × (b ≡ a)) IsSame (m v)) (sym same)
          (subst (Outcome (λ b w. IsSame w × (b ≡ a)) IsSame) (sym h) (refl, refl));
  }

  Leads-refused :
      {A : Type 0} (m : Tx A) (e : Error) → m s ≡ err e → Leads IsSame (query m) (λ _ _. ⊥) IsSame
  unfolding query
  Leads-refused m e h = record {
    at = λ w same. subst (λ v. Outcome (λ _ _. ⊥) IsSame (query m v)) (sym same) (rw h refl);
  }

  Leads-never : {B : Type 0} (m : Action MockNipProvider B) → Leads (λ _. ⊥) m (λ _ _. ⊥) IsSame
  Leads-never m = record { at = λ w h. absurd h }

  -- The rest of the requery of a transfer that is still pending.
  ask_again-IsSame :
      (providers : List (String × TransferProvider MockNipProvider (Option MockWebhookPayload)))
      (input : ExternalTransferRequeryInput) (transfer : Transfer) (reference : String)
      (result : ProviderTransferResult)
      → (trim_space transfer.provider == "") ≡ false
      → lookup (trim_space transfer.provider) providers ≡ some mock_nip_provider
      → requery_provider_reference transfer input.provider_reference s ≡ ok (reference, s)
      → input.scenario ≡ ""
      → IsRipe p reference result
      → Leads IsSame (ask_again providers input transfer) (λ _ _. ⊥) IsSame
  unfolding ask_again provider_of query done apply_mock_requery_scenario attempt call requery_answer
  ask_again-IsSame providers input transfer reference result given found referred blank ripe =
      Leads-bind (λ r w. IsSame w × (r ≡ reference)) _ _
        (Leads-known _ reference (rw referred refl))
        λ r. Leads-given _ _ λ same_reference.
          Leads-bind (λ v w. IsSame w × (v ≡ mock_nip_provider)) _ _
            (Leads-known _ mock_nip_provider (rw (given, found) refl))
            λ v. Leads-given _ _ λ is_mock.
              Leads-bind (λ u w. IsSame w × (u ≡ tt)) _ _ (Leads-known _ tt (rw blank refl))
                λ u. Leads-given _ _ λ _.
                  Leads-bind (λ a w. IsSame w × (a ≡ ok (some (ripened p.now result)))) _ _
                    (Leads-known _ (ok (some (ripened p.now result)))
                      (rw (is_mock, same_reference, mock_requery p reference result ripe) refl))
                    λ a. Leads-given _ _ λ answered.
                      Leads-bind (λ x w. IsSame w × (x ≡ ripened p.now result)) _ _
                        (Leads-known _ (ripened p.now result) (rw answered refl))
                        λ x. Leads-given _ _ λ is_ripened.
                          Leads-bind (λ _. IsSame) _ _ (Leads-query _)
                            λ clearing.
                              Leads-bind (λ _ _. ⊥) _ _
                                (Leads-refused _ Error.conflict (
                                  rw is_ripened (
                                    refused_ripe p transfer clearing.id r input.note result
                                      reference s ripe)))
                                λ c. Leads-never _

  Leads-pending :
      {A : Type 0} (b : Bool) (m n : Action MockNipProvider A)
      → b ≡ true
      → Leads IsSame n (λ _ _. ⊥) IsSame
      → Leads IsSame (if not b then m else n) (λ _ _. ⊥) IsSame
  Leads-pending b m n h k = rw h k

  stuck :
      {A : Type 0} (r : Result A × (Store × MockNipProvider))
      → Outcome (λ _ _. ⊥) IsSame r
      → IsRefused (s, p) r
  stuck (ok a, w) h = h
  stuck (err e, w) h = h

  -- A pending transfer that the mock provider has stored as pending and delayed, and whose time has
  -- come, is not ended by a requery without a scenario: the requery is refused, whatever its note is,
  -- and changes neither the database nor the provider.
  pub external_transfer_requery-IsRefused :
      (is_uuid : String → Bool)
      (providers : List (String × TransferProvider MockNipProvider (Option MockWebhookPayload)))
      (given : ExternalTransferRequeryInput) (transfer : Transfer) (reference : String)
      (result : ProviderTransferResult)
      → find
          (is_transfer (trim_space given.institution_id) (trim_space given.transfer_id))
          s.transfers
        ≡ some transfer
      → pending transfer.status ≡ true
      → (trim_space transfer.provider == "") ≡ false
      → lookup (trim_space transfer.provider) providers ≡ some mock_nip_provider
      → requery_provider_reference transfer (trim_space given.provider_reference) s
        ≡ ok (reference, s)
      → to_lower (trim_space given.scenario) ≡ ""
      → IsRipe p reference result
      → IsRefused (s, p) (external_transfer_requery is_uuid providers given (s, p))
  unfolding external_transfer_requery
  external_transfer_requery-IsRefused is_uuid providers given transfer reference result found
        waiting named mock referred blank ripe =
      stuck (external_transfer_requery is_uuid providers given (s, p)) (
        (Leads-bind (λ input w. IsSame w × IsNormal given input) _ _
            (Leads-read (IsNormal given) s p _ ((normalize-IsNormal is_uuid given).at s tt))
            λ input. Leads-given _ _ λ same.
              Leads-bind (λ t w. IsSame w × (t ≡ transfer)) _ _
                (Leads-known _ transfer (get_known input given transfer s p same found))
                λ t. Leads-given _ _ λ same_transfer.
                  Leads-bind (λ _. IsSame) _ _ (Leads-stop_if _ _)
                    λ _. Leads-pending (pending t.status) _ _ (rw same_transfer waiting) (
                      Leads-bind (λ _. IsSame) _ _ (Leads-stop_if _ _)
                        λ _.
                          subst (λ u. Leads IsSame (ask_again providers input u) (λ _ _. ⊥) IsSame)
                            (sym same_transfer)
                            (ask_again-IsSame providers input transfer reference result named mock
                              (rw same.2 referred) (same.3 ∙ blank) ripe))).at
          (s, p) refl)
