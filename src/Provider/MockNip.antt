-- ===== src/Provider/MockNip.antt =====
-- The mock of the NIP provider (corebanking/mock_nip_provider.go). Its mutex makes each operation one
-- step. The error of the context, the clock, the random identifiers and the digest sha256 are part
-- of its state; what `json.Unmarshal` makes of a payload is the payload here, `none` if it fails.
pub mod Webhook
pub mod Requeried
use lenz.Prelude.{
  ℕ, suc, String, Bool, true, false, Option, none, some, List, [], ◌∷◌, not, ◌&&◌, ◌||◌, ◌==◌,
  if◌then◌else◌,
}
use lenz.Prelude.Assoc.{lookup, store, delete}
use lenz.Prelude.Int.{ℤ, pos, pos_part, leb_ℤ, ltb_ℤ, ◌+ℤ◌}
use lenz.Prelude.Text.{trim_space, to_lower, to_upper}
use lenz.Prelude.Time.{duration, second}
use lenz.Model.{
  Status, Direction, normalize_status, normalize_direction, is_blank, is_empty_direction,
  is_reversal, is_pending, NameEnquiryRequest, NameEnquiryResult, ProviderTransferRequest,
  ProviderTransferResult, ProviderWebhookEvent, Error,
}
use lenz.Fingerprint.{provider_webhook_request_fingerprint}
use lenz.Tx.{Result, ok, err}
use lenz.Transfers.{narration_or}
use lenz.Provider.{
  TransferProvider, first_non_blank, header_value, is_ten_digit_account_number,
  provider_unknown_failure_reason,
}
use Prim.Native.String.{◌++◌}

abbrev pub mock_nip : String
mock_nip = "mock_nip"

abbrev pub demo_institution_id : String
demo_institution_id = "11111111-1111-1111-1111-111111111111"

-- The struct `MockNIPProvider`, with what it reads from outside.
pub record MockNipProvider : Type 0 where
  pub transfers : List (String × ProviderTransferResult)
  pub requery_errors : List (String × Error)
  pub context_error : Option Error
  pub now : ℕ
  pub uuid : ℕ → String
  pub drawn : ℕ
  pub sha256_hex : String → String

-- `mockScenario`
unfoldable pub mock_scenario : String → String
mock_scenario scenario = to_lower (trim_space scenario)

-- `delayDuration`
unfoldable pub delay_duration : ℤ → ℤ
unfolding duration
delay_duration seconds =
    if leb_ℤ seconds (pos 0) then duration 5 second else duration (pos_part seconds) second

-- The end of `resolveScenario`: the reason that goes with a status.
unfoldable pub with_reason : Status → String → Bool → Result (Status × String × Bool)
with_reason Status.succeeded reason delayed = ok (Status.succeeded, "", delayed)
with_reason Status.pending reason delayed = ok (Status.pending, reason, delayed)
with_reason Status.failed reason delayed =
    ok (Status.failed, if reason == "" then "mock_provider_failed" else reason, delayed)
with_reason _ reason delayed = err Error.invalid_request

-- `resolveScenario`: the status, the reason of a failure, and whether it comes later.
unfoldable pub resolve_scenario : Status → String → String → Result (Status × String × Bool)
unfolding mock_scenario with_reason
resolve_scenario requested_status requested_failure_reason scenario =
    let status = normalize_status requested_status in
    let reason = trim_space requested_failure_reason in
    let name = if mock_scenario scenario == "" then "success" else mock_scenario scenario in
    if name == "success" || name == "duplicate" || name == "reversal"
    then with_reason (if is_blank status then Status.succeeded else status) reason false
    else if name == "pending" || name == "provider_unknown"
    then with_reason Status.pending reason false
    else if name == "failed"
    then with_reason Status.failed reason false
    else if name == "delayed"
    then with_reason (if is_blank status then Status.pending else status) reason true
    else err Error.invalid_request

-- `providerReference`: a new one is drawn only if there is none.
unfoldable pub provider_reference : String → String → MockNipProvider → String × MockNipProvider
provider_reference prefix existing p =
    if trim_space existing == ""
    then (prefix ++ "-" ++ p.uuid p.drawn, record p { drawn = suc p.drawn })
    else (trim_space existing, p)

-- `if err := ctx.Err(); err != nil { return nil, err }`
abbrev pub unless_done :
    {A : Type 0} → MockNipProvider → Result A × MockNipProvider → Result A × MockNipProvider
unless_done p r = elim p.context_error [ some e ↦ (err e, p) | none ↦ r ]

-- `NameEnquiry`
unfoldable pub name_enquiry :
    NameEnquiryRequest → MockNipProvider → Result (Option NameEnquiryResult) × MockNipProvider
unfolding provider_reference
name_enquiry request p =
    let bank_code = trim_space request.bank_code in
    let account_number = trim_space request.account_number in
    let (reference, p') = provider_reference "mock-nip-ne" "" p in
    unless_done p (
      if bank_code == "" || account_number == ""
      then (err Error.invalid_request, p)
      else if bank_code == "999998"
      then (err Error.provider_unavailable, p)
      else if not (bank_code == "999001") || not (account_number == "9990000001")
      then (err Error.not_found, p)
      else (
        ok (
            some (record {
              provider = mock_nip;
              provider_reference = reference;
              account_name = "Ada Demo Wallet";
              bank_code = bank_code;
              account_number = account_number;
            })),
        p',
      ))

-- The mark of the scenario `provider_unknown`.
abbrev pub mark_unknown : String → ProviderTransferResult → ProviderTransferResult
mark_unknown scenario result =
    if scenario == "provider_unknown"
    then record result {
      provider_status = Status.provider_unknown;
      failure_reason = provider_unknown_failure_reason;
    }
    else result

abbrev pub delayed_until_of : MockNipProvider → Bool → ℤ → Option ℤ
delayed_until_of p delayed seconds =
    if delayed then some (pos p.now +ℤ delay_duration seconds) else none

-- The result that `InitiateTransfer` stores and returns.
abbrev pub initiated :
    ProviderTransferRequest
    → String
    → Status × String × Bool
    → MockNipProvider
    → ProviderTransferResult
initiated request reference (status, reason, delayed) p =
    mark_unknown (mock_scenario request.scenario) (record {
      provider = mock_nip;
      provider_reference = reference;
      provider_event_id = trim_space request.provider_event_id;
      status = status;
      provider_status = status;
      failure_reason = reason;
      narration = trim_space request.narration;
      delayed = delayed;
      delayed_until = delayed_until_of p delayed request.delay_seconds;
    })

-- The part of `InitiateTransfer` after the scenario is resolved.
unfoldable pub store_initiated :
    ProviderTransferRequest
    → Status × String × Bool
    → MockNipProvider
    → Result (Option ProviderTransferResult) × MockNipProvider
unfolding provider_reference mock_scenario delay_duration
store_initiated request resolved p =
    let (reference, p') = provider_reference "mock-nip-out" request.provider_reference p in
    let result = initiated request reference resolved p in
    (ok (some result), record p' { transfers = store reference result p'.transfers })

-- The request lacks something.
abbrev pub is_incomplete_request : ProviderTransferRequest → Bool
is_incomplete_request request =
    trim_space request.account_id == ""
    || leb_ℤ request.amount_minor (pos 0)
    || trim_space request.idempotency_key == ""

-- The part of `InitiateTransfer` that resolves the scenario.
unfoldable pub initiate_resolved :
    ProviderTransferRequest
    → Result (Status × String × Bool)
    → MockNipProvider
    → Result (Option ProviderTransferResult) × MockNipProvider
unfolding store_initiated
initiate_resolved request (ok resolved) p = store_initiated request resolved p
initiate_resolved request (err e) p = (err e, p)

-- The part of `InitiateTransfer` after the context is checked.
unfoldable pub initiate_checked :
    ProviderTransferRequest
    → MockNipProvider
    → Result (Option ProviderTransferResult) × MockNipProvider
unfolding mock_scenario resolve_scenario initiate_resolved
initiate_checked request p =
    if is_incomplete_request request
    then (err Error.invalid_request, p)
    else if mock_scenario request.scenario == "timeout"
    then (err Error.provider_status_unknown, p)
    else initiate_resolved request
        (resolve_scenario request.status request.failure_reason (mock_scenario request.scenario)) p

-- `InitiateTransfer`
unfoldable pub initiate_transfer :
    ProviderTransferRequest
    → MockNipProvider
    → Result (Option ProviderTransferResult) × MockNipProvider
unfolding initiate_checked
initiate_transfer request p = unless_done p (initiate_checked request p)

-- A delayed result whose time has come: a pending one has succeeded.
unfoldable pub ripened : ℕ → ProviderTransferResult → ProviderTransferResult
ripened now result = elim result.delayed_until [
  | none ↦ result
  | some until ↦
      if result.delayed && not (ltb_ℤ (pos now) until)
      then record result {
        delayed = false;
        delayed_until = none;
        status = if is_pending result.status then Status.succeeded else result.status;
      }
      else result
]

-- `RequeryTransfer`
unfoldable pub requery_transfer :
    String → MockNipProvider → Result (Option ProviderTransferResult) × MockNipProvider
unfolding ripened
requery_transfer reference p =
    let key = trim_space reference in
    unless_done p (
      if key == "" then (err Error.invalid_request, p) else elim (lookup key p.requery_errors) [
        | some e ↦ (err e, p)
        | none ↦ elim (lookup key p.transfers) [
          | none ↦ (err Error.not_found, p)
          | some result ↦ (ok (some (ripened p.now result)), p)
        ]
      ])
