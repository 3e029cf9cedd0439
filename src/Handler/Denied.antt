-- ===== src/Handler/Denied.antt =====
-- A request of a caller who may not act for the institution that it names.
use lenz.Prelude.{
  ◌≡◌, ◌≢◌, refl, ◌⊎◌, inl, inr, String, Bool, true, false, Option, none, some, List, not, ◌==◌,
  eq_iff, if◌then◌else◌, Bool-cases,
}
use lenz.Prelude.Text.{trim_space}
use lenz.Model.{Error, TransferRequest}
use lenz.Tx.{Store, Result, ok, err, Principal}
use lenz.Provider.{TransferProvider}
use lenz.Service.Action.{Action, stop}
use lenz.Handler.{scope_of_caller, institution_scope_string, institution_scope, error_response}
use lenz.Handler.Bodies.{
  InternalCreditRequest, InternalDebitRequest, InternalTransferRequest,
  ExternalOutboundTransferRequest, ExternalTransferRequeryRequest, ExternalInboundEventRequest,
  MockTransferRequest,
}
use lenz.Handler.Routes.{
  run, create_internal_credit, create_internal_debit, create_internal_transfer,
  external_outbound_transfer, external_transfer_requery, reverse_transfer,
}
use lenz.Handler.Events.{
  invalid_mock_transfer_request, apply_request_scope, bind_mock_transfer_request,
  external_inbound_event, mock_inbound_transfer, mock_outbound_transfer,
}

-- A caller who may not act for the institution that the header names: nobody, somebody without an
-- institution, or somebody of another one.
abbrev pub IsStranger : Option Principal → Option String → Type 0
IsStranger none header = Unit
IsStranger (some p) none = trim_space p.institution_id ≡ ""
IsStranger (some p) (some header) =
    (trim_space p.institution_id ≡ "")
    ⊎ ((trim_space header ≢ "") × (trim_space header ≢ trim_space p.institution_id))

-- The request is answered with 401 or 403, and leaves the database and the providers as they were.
abbrev pub IsDenied : {S A : Type 0} → Store × S → Result A × (Store × S) → Type 0
IsDenied w (ok a, w') = ⊥
IsDenied w (err e, w') =
    ((error_response e ≡ (401, "unauthorized")) ⊎ (error_response e ≡ (403, "forbidden")))
    × (w' ≡ w)

-- The request is answered with an error, and leaves the database and the providers as they were.
abbrev pub IsFailed : {S A : Type 0} → Store × S → Result A × (Store × S) → Type 0
IsFailed w (ok a, w') = ⊥
IsFailed w (err e, w') = w' ≡ w

-- A scope that is refused.
abbrev IsRefused : Result String → Type 0
IsRefused (ok i) = ⊥
IsRefused (err e) =
    (error_response e ≡ (401, "unauthorized")) ⊎ (error_response e ≡ (403, "forbidden"))

of_false : (a b : String) → (a ≢ b) → (a == b) ≡ false
of_false a b differ = elim (Bool-cases (a == b)) [
  | inl same ↦ absurd (differ ((eq_iff a b).0 same))
  | inr other ↦ other
]

to_true : (a b : String) → a ≡ b → (a == b) ≡ true
to_true a b same = (eq_iff a b).1 same

blank-IsRefused :
    (p : Principal) (header : String)
    → trim_space p.institution_id ≡ ""
    → IsRefused (scope_of_caller (some p) header)
unfolding error_response
blank-IsRefused p header blank = rw (to_true (trim_space p.institution_id) "" blank) (inl refl)

other-IsRefused :
    (p : Principal) (header : String)
    → (trim_space header ≢ "")
    → (trim_space header ≢ trim_space p.institution_id)
    → IsRefused (scope_of_caller (some p) header)
unfolding error_response
other-IsRefused p header named other = elim (Bool-cases (trim_space p.institution_id == "")) [
  | inl blank ↦ rw blank (inl refl)
  | inr given ↦
      rw
        (
          given,
          of_false (trim_space header) "" named,
          of_false (trim_space header) (trim_space p.institution_id) other,
        )
        (inr refl)
]

nobody-IsRefused : (header : String) → IsRefused (scope_of_caller none header)
unfolding error_response
nobody-IsRefused header = inl refl

-- The context knows no caller without an institution.
known-IsRefused :
    (p : Principal) (header : String)
    → IsRefused (scope_of_caller (some p) header)
    → IsRefused (institution_scope_string (some p) header)
unfolding institution_scope_string
known-IsRefused p header h = elim (Bool-cases (p.institution_id == "")) [
  | inl blank ↦ rw blank (nobody-IsRefused header)
  | inr given ↦ rw given h
]

stranger-IsRefused :
    (caller : Option Principal) (header : Option String)
    → IsStranger caller header
    → IsRefused (institution_scope caller header)
unfolding institution_scope institution_scope_string
stranger-IsRefused none none h = nobody-IsRefused ""
stranger-IsRefused none (some header) h = nobody-IsRefused header
stranger-IsRefused (some p) none blank = known-IsRefused p "" (blank-IsRefused p "" blank)
stranger-IsRefused (some p) (some header) (inl blank) =
    known-IsRefused p header (blank-IsRefused p header blank)
stranger-IsRefused (some p) (some header) (inr (named, other)) =
    known-IsRefused p header (other-IsRefused p header named other)

module _ {S A : Type 0} where
  run-IsDenied :
      (scope : Result String) (f : String → Action S A) (w : Store × S)
      → IsRefused scope
      → IsDenied w (run scope f w)
  unfolding stop
  run-IsDenied (ok i) f w h = absurd h
  run-IsDenied (err e) f w h = (h, refl)

  run-IsFailed :
      {B : Type 0} (r : Result B) (f : B → Action S A) (w : Store × S) (e : Error)
      → r ≡ err e
      → IsFailed w (run r f w)
  unfolding stop
  run-IsFailed r f w e h = rw h refl

  demo-IsFailed :
      (demo_routes : Bool) (m : Action S A) (w : Store × S)
      → IsFailed w (m w)
      → IsFailed w ((if not demo_routes then stop Error.not_found else m) w)
  unfolding stop
  demo-IsFailed true m w h = h
  demo-IsFailed false m w h = refl

-- A body that is bound is bound in a scope.
bind-fails :
    (scope : Result String) (key : String) (body : Option MockTransferRequest)
    → IsRefused scope
    → (e : Error) × (bind_mock_transfer_request scope key body ≡ err e)
unfolding bind_mock_transfer_request apply_request_scope
bind-fails (ok i) key body h = absurd h
bind-fails (err e) key none h = (Error.invalid_request, refl)
bind-fails (err e) key (some body) h = elim (Bool-cases (invalid_mock_transfer_request body)) [
  | inl bad ↦ (Error.invalid_request, rw bad refl)
  | inr good ↦ (e, rw good refl)
]

module _ {S Payload : Type 0} (is_uuid : String → Bool)
    (providers : List (String × TransferProvider S Payload)) (caller : Option Principal)
    (header : Option String) where
  -- The handlers of internal credits, debits and transfers, of external outbound transfers, requeries
  -- and inbound events, and of reversals answer a caller who is unknown, who has no institution, or
  -- who has another one than the header names, with 401 or 403, whatever the request is, once its path
  -- and body are decoded. Those of the mock's transfers answer such a caller with an error. None of
  -- them changes anything in the database or asks a provider.
  pub routes-IsDenied :
      IsStranger caller header
      → (w : Store × S) (credit : Option InternalCreditRequest)
        (debit : Option InternalDebitRequest) (transfer : Option InternalTransferRequest)
        (outbound : Option ExternalOutboundTransferRequest)
        (requery : Option ExternalTransferRequeryRequest)
        (event : Option ExternalInboundEventRequest) (mocked : Option MockTransferRequest)
        (event_json : ExternalInboundEventRequest → Payload) (mock_json : TransferRequest → Payload)
        (demo_routes : Bool) (transfer_id key : String)
      → IsDenied w (create_internal_credit is_uuid providers caller header credit w)
        × IsDenied w (create_internal_debit is_uuid providers caller header debit w)
        × IsDenied w (create_internal_transfer is_uuid providers caller header transfer w)
        × IsDenied w (external_outbound_transfer is_uuid providers caller header outbound w)
        × IsDenied w
            (external_transfer_requery is_uuid providers caller header transfer_id requery w)
        × IsDenied w (external_inbound_event is_uuid providers caller event_json header event w)
        × IsDenied w (reverse_transfer is_uuid providers caller header transfer_id key w)
        × IsFailed w (
            mock_inbound_transfer is_uuid providers caller demo_routes mock_json header key mocked
              w)
        × IsFailed w
            (mock_outbound_transfer is_uuid providers caller demo_routes header key mocked w)
  unfolding create_internal_credit create_internal_debit create_internal_transfer
      external_outbound_transfer external_transfer_requery external_inbound_event reverse_transfer
      mock_inbound_transfer mock_outbound_transfer
  routes-IsDenied stranger w credit debit transfer outbound requery event mocked event_json
        mock_json demo_routes transfer_id key =
      let scope = institution_scope caller header in
      let refused = stranger-IsRefused caller header stranger in
      let fails = bind-fails scope key mocked refused in
      (
        run-IsDenied scope _ w refused,
        run-IsDenied scope _ w refused,
        run-IsDenied scope _ w refused,
        run-IsDenied scope _ w refused,
        run-IsDenied scope _ w refused,
        run-IsDenied scope _ w refused,
        run-IsDenied scope _ w refused,
        demo-IsFailed demo_routes _ w (run-IsFailed _ _ w fails.0 fails.1),
        demo-IsFailed demo_routes _ w (run-IsFailed _ _ w fails.0 fails.1),
      )
