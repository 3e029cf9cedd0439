-- ===== src/Provider/MockNip/Requeried.antt =====
-- What the mock provider says of a transfer when it is asked again.
use lenz.Prelude.{
  ◌≡◌, ◌∙◌, refl, sym, subst, not, ◌&&◌, arith, ℕ, String, Bool, true, false, Option, none, some,
  ◌==◌, if◌then◌else◌, eq_refl, Bool-cases, inl, inr,
}
use lenz.Prelude.Assoc.{lookup, lookup-store}
use lenz.Prelude.Text.{trim_space}
use lenz.Prelude.Int.{pos, leb_ℤ}
use lenz.Model.{is_pending, Status, ProviderTransferRequest, ProviderTransferResult, Error}
use lenz.Tx.{Result, ok, err}
use lenz.Provider.MockNip.{
  MockNipProvider, mock_scenario, resolve_scenario, store_initiated, initiate_resolved,
  initiate_checked, is_incomplete_request, initiate_transfer, ripened, requery_transfer,
  provider_reference, initiated,
}

-- What an answer must be for a requery under its reference to find it.
abbrev IsFound :
    MockNipProvider → String → Result (Option ProviderTransferResult) × MockNipProvider → Type 0
IsFound p reference (ok (some result), q) =
    trim_space reference ≡ result.provider_reference
    → (result.provider_reference == "") ≡ false
    → lookup result.provider_reference p.requery_errors ≡ none
    → (later : ℕ)
    → (requery_transfer reference (record q { context_error = none; now = later })).0
      ≡ ok (some (ripened later result))
IsFound p reference (_, q) = Unit

record IsAnswered (p : MockNipProvider) (reference : String)
    (r : Result (Option ProviderTransferResult) × MockNipProvider) : Type 0 where
  again : IsFound p reference r

-- To draw a reference leaves the errors.
reference_errors :
    (prefix existing : String) (p : MockNipProvider)
    → (provider_reference prefix existing p).1.requery_errors ≡ p.requery_errors
unfolding provider_reference
reference_errors prefix existing p = elim (Bool-cases (trim_space existing == "")) [
  | inl missing ↦ rw missing refl
  | inr given ↦ rw given refl
]

initiated_reference :
    (request : ProviderTransferRequest) (reference : String) (resolved : Status × String × Bool)
    (p : MockNipProvider)
    → (initiated request reference resolved p).provider_reference ≡ reference
initiated_reference request reference resolved p =
    elim (Bool-cases (mock_scenario request.scenario == "provider_unknown")) [
      | inl marked ↦ rw marked refl
      | inr plain ↦ rw plain refl
    ]

store_initiated-IsFound :
    (request : ProviderTransferRequest) (resolved : Status × String × Bool) (p : MockNipProvider)
    (reference : String)
    → IsFound p reference (store_initiated request resolved p)
unfolding store_initiated requery_transfer
store_initiated-IsFound request resolved p reference = λ same named clear later.
    let given = (provider_reference "mock-nip-out" request.provider_reference p).0 in
    let is_given = initiated_reference request given resolved p in
    rw
      (
        same ∙ is_given,
        rw is_given at named,
        reference_errors "mock-nip-out" request.provider_reference p,
        rw is_given at clear,
        lookup-store _ _ _ _,
        same ∙ is_given,
        eq_refl given,
      )
      refl

resolved-IsFound :
    (request : ProviderTransferRequest) (p : MockNipProvider) (reference : String)
    (r : Result (Status × String × Bool))
    → IsAnswered p reference (initiate_resolved request r p)
unfolding initiate_resolved
resolved-IsFound request p reference (ok resolved) = record {
  again = store_initiated-IsFound request resolved p reference;
}
resolved-IsFound request p reference (err e) = record { again = tt }

if-IsFound :
    (p : MockNipProvider) (reference : String) (b : Bool)
    (x y : Result (Option ProviderTransferResult) × MockNipProvider)
    → IsAnswered p reference x
    → IsAnswered p reference y
    → IsAnswered p reference (if b then x else y)
if-IsFound p reference true x y hx hy = hx
if-IsFound p reference false x y hx hy = hy

unless-IsFound :
    (p : MockNipProvider) (reference : String) (o : Option Error)
    (r : Result (Option ProviderTransferResult) × MockNipProvider)
    → IsAnswered p reference r
    → IsAnswered p reference (elim o [ some e ↦ (err e, p) | none ↦ r ])
unless-IsFound p reference none r h = h
unless-IsFound p reference (some e) r h = record { again = tt }

checked-IsFound :
    (request : ProviderTransferRequest) (p : MockNipProvider) (reference : String)
    → IsAnswered p reference (initiate_checked request p)
unfolding initiate_checked
checked-IsFound request p reference =
    let resolved =
      resolve_scenario request.status request.failure_reason (mock_scenario request.scenario) in
    let rest = initiate_resolved request resolved p in
    let timeout = mock_scenario request.scenario == "timeout" in
    if-IsFound p reference (is_incomplete_request request) (err Error.invalid_request, p)
      (if timeout then (err Error.provider_status_unknown, p) else rest) (record { again = tt })
      (if-IsFound p reference timeout (err Error.provider_status_unknown, p) rest
        (record { again = tt }) (resolved-IsFound request p reference resolved))

initiate_transfer-IsFound :
    (request : ProviderTransferRequest) (p : MockNipProvider) (reference : String)
    → IsFound p reference (initiate_transfer request p)
unfolding initiate_transfer
initiate_transfer-IsFound request p reference =
    let answered : IsAnswered p reference (initiate_transfer request p) =
      unless-IsFound p reference p.context_error (initiate_checked request p)
        (checked-IsFound request p reference) in
    answered.again

-- The time of a delayed result has come.
abbrev pub is_due : ℕ → ProviderTransferResult → Bool
is_due later result =
    result.delayed
    && (elim result.delayed_until [ some until ↦ leb_ℤ until (pos later) | none ↦ false ])

-- What a requery at a time says of the result that was given first.
abbrev pub IsRequeried :
    ℕ → ProviderTransferResult → Result (Option ProviderTransferResult) → Type 0
IsRequeried later given (ok (some answer)) =
    (answer.status
      ≡ (if is_due later given && is_pending given.status then Status.succeeded else given.status))
    × (answer.delayed ≡ (given.delayed && not (is_due later given)))
    × (answer.delayed_until ≡ (if is_due later given then none else given.delayed_until))
    × (answer.provider ≡ given.provider)
    × (answer.provider_reference ≡ given.provider_reference)
    × (answer.provider_event_id ≡ given.provider_event_id)
    × (answer.provider_status ≡ given.provider_status)
    × (answer.failure_reason ≡ given.failure_reason)
    × (answer.narration ≡ given.narration)
IsRequeried later given _ = ⊥

ripened-IsRequeried :
    (later : ℕ) (given : ProviderTransferResult)
    → IsRequeried later given (ok (some (ripened later given)))
unfolding ripened
ripened-IsRequeried later given = ground arith

-- A transfer that the mock provider has accepted is found again under the reference that it gave,
-- when it is asked for next, whatever the clock then shows, unless a test had set an error for that
-- reference. The answer is the one given first, except that a delayed transfer whose time has come is
-- no longer delayed, and has succeeded if its status was pending; its provider status stays.
pub requery_transfer-initiate_transfer :
    (request : ProviderTransferRequest) (p q : MockNipProvider) (result : ProviderTransferResult)
    (reference : String) (later : ℕ)
    → initiate_transfer request p ≡ (ok (some result), q)
    → trim_space reference ≡ result.provider_reference
    → (result.provider_reference == "") ≡ false
    → lookup result.provider_reference p.requery_errors ≡ none
    → IsRequeried later result
        (requery_transfer reference (record q { context_error = none; now = later })).0
requery_transfer-initiate_transfer request p q result reference later accepted same named quiet =
    subst (IsRequeried later result)
      (sym (
        subst (IsFound p reference) accepted (initiate_transfer-IsFound request p reference) same
          named quiet later))
      (ripened-IsRequeried later result)
