-- ===== src/Tests/Services.antt =====
-- The theorems on the service, the reviews and the provider at concrete inputs.
use lenz.Prelude.{
  ◌≢◌, false, eq_iff, ◌≡◌, refl, subst, String, true, Option, none, some, ◌==◌, Bool-cases, inl,
  inr,
}
use lenz.Prelude.{◌∷◌, []}
use lenz.Prelude.Assoc.{lookup}
use lenz.Prelude.Int.{pos, ◌+ℤ◌}
use lenz.Prelude.Text.{trim_space, to_lower}
use mathlib.Core.Option.{some-injective, none-ne-some}
use lenz.Model.{normalize_status}
use lenz.Tx.{ok, ◌>>=◌}
use lenz.Tx.Yields.{Ends}
use lenz.Ledger.Book.{book_of}
use lenz.Transfers.Record.{record_transfer}
use lenz.Transfers.Record.Moves.{HasBook, IsMoved, record_transfer-IsMoved}
use lenz.Service.Money.{internal_transfer_input}
use lenz.Service.Money.Moves.{with_moved, internal_transfer-moves}
use lenz.Invariant.Waiting.{
  money, IsReview, record_provider_event_review_in_tx-IsReview,
  mark_reconciliation_item_reviewed-money,
}
use lenz.Transfers.Review.{record_provider_event_review_in_tx}
use lenz.Reconciliation.{mark_reconciliation_item_reviewed}
use lenz.Reconciliation.State.{
  reconciliation_item, reconciliation_review_state, reconciliation_issue,
}
use lenz.Reconciliation.Agree.{reconciliation_issue_agrees}
use lenz.Provider.{TransferProvider}
use lenz.Provider.MockNip.{MockNipProvider, initiate_transfer, requery_transfer}
use lenz.Provider.MockNip.Webhook.{MockWebhookPayload, mock_nip_provider}
use lenz.Provider.MockNip.Requeried.{IsRequeried, requery_transfer-initiate_transfer}
use lenz.Service.External.Inbound.{after_destination, destination_needs_review}
use lenz.Service.External.Blocked.{after_destination-blocked}
use lenz.Service.External.Outbound.{external_outbound_transfer}
use lenz.Service.External.Unpaid.{IsUnpaid, journal, external_outbound_transfer-unposted}
use lenz.Service.External.Inputs.{requery_provider_reference}
use lenz.Service.External.Requery as Requery
use lenz.Provider.{first_non_blank}
use lenz.Service.External.Delayed.{IsRefused, external_transfer_requery-IsRefused}
use lenz.Prelude.{arith}
use lenz.Prelude.Listing.{length, order_by}
use lenz.Prelude.Table.{select, find}
use lenz.Prelude.Listing.Pages.{read_pages}
use lenz.Lists.{query_time}
use lenz.Lists.Queries.{list_audit_events}
use lenz.Service.Reads.{list_transfers, list_reconciliation_items, get_transactions}
use lenz.Service.Reads.Pages.{page_of, all_transfers, read_pages-list_transfers}
use lenz.Service.Reads.Bounds.{IsShort, lists-IsShort}
use lenz.Service.External.Repeated.{IsRepeated, external_outbound_transfer-IsRepeated}
use lenz.Auth.{
  AuthScope, authentication, requires_auth, token_of_header, valid_development_token,
  development_principal, env_csv,
}
use lenz.Handler.{institution_scope, institution_scope_string}
use lenz.Handler.Scope.{IsEntitled, authentication-IsEntitled}
use lenz.Handler.Denied.{IsDenied, IsFailed, routes-IsDenied}
use lenz.Handler.Events.{external_inbound_event, mock_inbound_transfer, mock_outbound_transfer}
use lenz.Handler.Routes.{
  create_internal_credit, create_internal_debit, create_internal_transfer, reverse_transfer,
  external_outbound_transfer as route_outbound, external_transfer_requery,
}
use lenz.Tests.Parties.{sent_before, dev_env, dev_request, dev_caller}
use lenz.Tests.Data.{opened, deposit, funded, with_transfer, recorded}
use lenz.Tests.Parties.{
  with_two, all_of_them, whole_queue, two_customers, gift, any_uuid, mock, late, providers, sent,
  request, waiting, with_waiting, ripe_mock, asked_again, delayed_result, event, review, mark,
  contradicted, frozen,
}

record_transfer-IsMoved_example :
    Ends (λ r t. r.1 ≡ true → IsMoved deposit opened r.0 t) (record_transfer deposit opened)
record_transfer-IsMoved_example = record_transfer-IsMoved deposit opened

internal_transfer-moves_example :
    Ends
      (λ r t.
        r.1 ≡ true
        → HasBook "i1" (with_moved "a1" "a2" (pos 120) (book_of two_customers.balances "i1")) t)
      ((internal_transfer_input any_uuid gift >>= record_transfer) two_customers)
unfolding trim_space
internal_transfer-moves_example = internal_transfer-moves any_uuid gift two_customers

record_provider_event_review_in_tx-IsReview_example :
    IsReview funded (record_provider_event_review_in_tx review funded)
record_provider_event_review_in_tx-IsReview_example =
    record_provider_event_review_in_tx-IsReview review funded

mark_reconciliation_item_reviewed-money_example :
    money (mark_reconciliation_item_reviewed mark with_transfer).1 ≡ money with_transfer
mark_reconciliation_item_reviewed-money_example =
    mark_reconciliation_item_reviewed-money mark with_transfer

reconciliation_issue_agrees_example :
    reconciliation_issue (pos 0) contradicted
    ≡ (reconciliation_review_state (reconciliation_item contradicted) (pos 0)).2
reconciliation_issue_agrees_example = reconciliation_issue_agrees (pos 0) contradicted

requery_transfer-initiate_transfer_example :
    IsRequeried 60000000007 delayed_result
      (requery_transfer "rent-7"
        (record (initiate_transfer request mock).1 { context_error = none; now = 60000000007 })).0
unfolding initiate_transfer trim_space to_lower normalize_status ◌+ℤ◌ lookup
requery_transfer-initiate_transfer_example =
    requery_transfer-initiate_transfer request mock (initiate_transfer request mock).1
      delayed_result "rent-7" 60000000007 refl refl refl refl

after_destination-blocked_example :
    money (after_destination event (ok frozen) (funded, mock)).1.0 ≡ money funded
unfolding destination_needs_review
after_destination-blocked_example = after_destination-blocked event (ok frozen) funded mock refl

external_transfer_requery-IsRefused_example :
    IsRefused
      (with_waiting, ripe_mock)
      (Requery.external_transfer_requery any_uuid providers asked_again (with_waiting, ripe_mock))
unfolding find trim_space to_lower lookup requery_provider_reference first_non_blank ◌>>=◌
external_transfer_requery-IsRefused_example =
    external_transfer_requery-IsRefused with_waiting ripe_mock any_uuid providers asked_again
      waiting "rent-7" delayed_result refl refl refl refl refl refl
      (record {
        until = pos 60000000007;
        running = refl;
        named = refl;
        quiet = refl;
        stored = refl;
        is_pending = refl;
        provider_pending = refl;
        delayed = refl;
        delayed_until = refl;
        come = refl;
      })

-- The only provider.
only :
    (name : String) (provider : TransferProvider MockNipProvider (Option MockWebhookPayload))
    → lookup name providers ≡ some provider
    → mock_nip_provider ≡ provider
unfolding lookup
only name provider found = elim (Bool-cases ("mock_nip" == name)) [
  | inl same ↦ some-injective _ _ (rw same at found)
  | inr other ↦ absurd (none-ne-some _ (rw other at found))
]

external_outbound_transfer-unposted_example :
    journal (external_outbound_transfer any_uuid providers sent (funded, late)).1.0 ≡ journal funded
unfolding mock_nip_provider initiate_transfer
external_outbound_transfer-unposted_example =
    external_outbound_transfer-unposted (journal funded) late any_uuid providers
      (λ name provider found request.
        subst (λ x. IsUnpaid (x.initiate_transfer request late).0) (only name provider found) tt)
      sent funded refl

-- Two transfers, read one by one.
read_pages-list_transfers_example :
    read_pages (page_of any_uuid "i1" (pos 1) with_two) 3 none
    ≡ all_transfers any_uuid "i1" (pos 1) with_two
unfolding trim_space query_time length order_by select
read_pages-list_transfers_example =
    read_pages-list_transfers any_uuid "i1" (pos 1) with_two refl
      ((refl, refl, refl, refl), ((refl, refl, refl, refl), tt)) ((refl, tt), (tt, tt)) 3
      (omega arith)

lists-IsShort_example :
    Ends IsShort (list_transfers any_uuid "i1" all_of_them with_two)
    × Ends IsShort (list_audit_events any_uuid "i1" all_of_them with_two)
    × Ends IsShort (list_reconciliation_items any_uuid "i1" whole_queue with_two)
    × Ends IsShort (get_transactions any_uuid "i1" "a1" all_of_them with_two)
lists-IsShort_example = lists-IsShort any_uuid "i1" "a1" all_of_them whole_queue with_two

external_outbound_transfer-IsRepeated_example :
    IsRepeated recorded with_transfer mock
      (external_outbound_transfer any_uuid providers sent_before (with_transfer, mock))
unfolding find trim_space
external_outbound_transfer-IsRepeated_example =
    external_outbound_transfer-IsRepeated recorded with_transfer mock any_uuid providers sent_before
      refl refl

authentication-IsEntitled_example : IsEntitled dev_env dev_request (some "i1") "i1"
unfolding authentication requires_auth token_of_header valid_development_token development_principal
    env_csv institution_scope institution_scope_string trim_space to_lower
authentication-IsEntitled_example =
    authentication-IsEntitled (AuthScope.required ∷ []) dev_env dev_request (some "i1")
      (some dev_caller) "i1" refl refl

other_text : (a b : String) → (a == b) ≡ false → a ≢ b
other_text a b other = λ same. ground (arith, other, (eq_iff a b).1 same)

routes-IsDenied_example :
    IsDenied
      (funded, mock)
      (create_internal_credit any_uuid providers (some dev_caller) (some "i2") none (funded, mock))
    × IsDenied
        (funded, mock)
        (create_internal_debit any_uuid providers (some dev_caller) (some "i2") none (funded, mock))
    × IsDenied
        (funded, mock)
        (create_internal_transfer any_uuid providers
          (some dev_caller)
          (some "i2")
          none
          (funded, mock))
    × IsDenied
        (funded, mock)
        (route_outbound any_uuid providers (some dev_caller) (some "i2") none (funded, mock))
    × IsDenied
        (funded, mock)
        (external_transfer_requery any_uuid providers
          (some dev_caller)
          (some "i2")
          "t1"
          none
          (funded, mock))
    × IsDenied
        (funded, mock)
        (external_inbound_event any_uuid providers
          (some dev_caller)
          (λ _. none)
          (some "i2")
          none
          (funded, mock))
    × IsDenied
        (funded, mock)
        (reverse_transfer any_uuid providers
          (some dev_caller)
          (some "i2")
          "t1"
          "key-1"
          (funded, mock))
    × IsFailed
        (funded, mock)
        (mock_inbound_transfer any_uuid providers
          (some dev_caller)
          true
          (λ _. none)
          (some "i2")
          "key-1"
          none
          (funded, mock))
    × IsFailed
        (funded, mock)
        (mock_outbound_transfer any_uuid providers
          (some dev_caller)
          true
          (some "i2")
          "key-1"
          none
          (funded, mock))
unfolding trim_space
routes-IsDenied_example =
    routes-IsDenied any_uuid providers (some dev_caller) (some "i2")
      (inr (other_text "i2" "" refl, other_text "i2" "i1" refl)) (funded, mock) none none none none
      none none none (λ _. none) (λ _. none) true "t1" "key-1"
