-- ===== src/Service/External/Blocked.antt =====
-- An event whose destination takes no money moves none.
use lenz.Prelude.{◌≡◌, refl, ◌∙◌, ap, String, Bool, true, ◌==◌}
use lenz.Prelude.Text.{trim_space}
use lenz.Model.{Account, Transfer, ProviderWebhookEvent, Error}
use lenz.Tx.{Store, Result, ok, err}
use lenz.Transfers.Review.{record_provider_event_review_in_tx}
use lenz.Invariant.Waiting.{Money, money, IsReview, record_provider_event_review_in_tx-IsReview}
use lenz.Service.Action.Leads.{
  outcome_end, Leads, Leads-bind, Leads-done, Leads-stop, Leads-if, Leads-query, Leads-transact,
}
use lenz.Service.External.Inbound.{
  destination_needs_review, fingerprinted, review_account_id, record_external_inbound_review,
  known_destination, after_destination,
}

review-money : (s : Store) (r : Result Transfer × Store) → IsReview s r → money r.1 ≡ money s
review-money s (ok t, u) h = h.0
review-money s (err e, u) h = ap money h

-- No destination was found, or it needs a review.
abbrev pub IsBlocked : Result Account → Type 0
IsBlocked (ok account) = destination_needs_review account ≡ true
IsBlocked (err e) = Unit

module _ {S : Type 0} (m : Money) where
  abbrev HasMoney : Store × S → Type 0
  HasMoney w = money w.0 ≡ m

  review_account_id-HasMoney :
      (event : ProviderWebhookEvent) (a : String)
      → Leads HasMoney (review_account_id event a) (λ _. HasMoney) HasMoney
  unfolding review_account_id
  review_account_id-HasMoney event a =
      Leads-if (trim_space a == "") _ _
        (Leads-bind (λ _. HasMoney) _ _ (Leads-query _) λ clearing. Leads-done _ λ w h. h)
        (Leads-done _ λ w h. h)

  record_review-HasMoney :
      (event : ProviderWebhookEvent) (a reason : String) (reserve : Bool)
      → Leads HasMoney
          (record_external_inbound_review event a reason reserve)
          (λ _. HasMoney)
          HasMoney
  unfolding record_external_inbound_review
  record_review-HasMoney event a reason reserve =
      Leads-bind (λ _. HasMoney) _ _ (review_account_id-HasMoney event a)
        λ id.
          Leads-bind (λ _. HasMoney) _ _
            (Leads-transact (record_provider_event_review_in_tx _)
              λ s p h. review-money s _ (record_provider_event_review_in_tx-IsReview _ s) ∙ h)
            λ transfer. Leads-done _ λ w h. h

  blocked-HasMoney :
      (event : ProviderWebhookEvent) (found : Result Account)
      → IsBlocked found
      → Leads HasMoney (after_destination event found) (λ _. HasMoney) HasMoney
  unfolding after_destination known_destination
  blocked-HasMoney event (ok account) blocked =
      Leads-bind (λ _. HasMoney) _ _ (Leads-query _)
        λ digest. rw blocked (
          record_review-HasMoney
            (fingerprinted digest (record event { account_id = account.id }) account.id) account.id
            _ true)
  blocked-HasMoney event (err Error.not_found) blocked =
      Leads-bind (λ _. HasMoney) _ _ (Leads-query _)
        λ digest. record_review-HasMoney (fingerprinted digest event "") "" _ true
  blocked-HasMoney event (err e) blocked = Leads-stop e λ w h. h

-- An inbound event whose destination is not found, or is a customer's account that is frozen or
-- closed, changes no balance, no hold, no journal entry and no posting, whether it returns or fails.
pub after_destination-blocked :
    {S : Type 0} (event : ProviderWebhookEvent) (found : Result Account) (s : Store) (p : S)
    → IsBlocked found
    → money (after_destination event found (s, p)).1.0 ≡ money s
after_destination-blocked event found s p blocked =
    outcome_end (HasMoney (money s)) (after_destination event found (s, p))
      ((blocked-HasMoney (money s) event found blocked).at (s, p) refl)
