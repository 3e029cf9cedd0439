-- ===== src/Handler/Controls.antt =====
-- The bodies of requests that control an account or mark a review
-- (corebanking/handler_account_controls.go and handler_reconciliation.go).
use lenz.Prelude.{String, Option, not, ◌||◌, ◌==◌}
use lenz.Prelude.Int.{pos, leb_ℤ}
use lenz.Prelude.Text.{trim_space}
use lenz.Model.{
  AccountControlInput, AccountLienInput, ReleaseLienInput, MarkReconciliationItemReviewedInput,
}
use lenz.Tx.{Result}
use lenz.Reconciliation.{valid_reconciliation_review_status}
use lenz.Handler.Bodies.{
  AccountControlRequest, AccountLienRequest, ReleaseLienRequest,
  MarkReconciliationItemReviewedRequest,
}
use lenz.Handler.Binding.{optional_string, bind_valid}

-- `bindAccountControlRequest`
unfoldable pub bind_account_control_request :
    String → String → Option AccountControlRequest → Result AccountControlInput
bind_account_control_request institution_id account_id =
    bind_valid (λ body. trim_space body.reference == "" || trim_space body.reason == "")
      λ body. record {
        institution_id = institution_id;
        account_id = account_id;
        reference = body.reference;
        reason = body.reason;
      }

-- `bindAccountLienRequest`
unfoldable pub bind_account_lien_request :
    String → String → Option AccountLienRequest → Result AccountLienInput
bind_account_lien_request institution_id account_id =
    bind_valid
      (λ body.
        leb_ℤ body.amount_minor (pos 0)
        || trim_space body.currency_id == ""
        || trim_space body.reference == ""
        || trim_space body.reason == "")
      λ body. record {
        institution_id = institution_id;
        account_id = account_id;
        amount_minor = body.amount_minor;
        currency_id = body.currency_id;
        reference = body.reference;
        reason = body.reason;
      }

-- `bindReleaseLienRequest`
unfoldable pub bind_release_lien_request :
    String → String → String → Option ReleaseLienRequest → Result ReleaseLienInput
bind_release_lien_request institution_id account_id lien_id =
    bind_valid (λ body. trim_space body.reference == "")
      λ body. record {
        institution_id = institution_id;
        account_id = account_id;
        lien_id = lien_id;
        reference = body.reference;
        reason = optional_string body.reason;
      }

-- `bindMarkReconciliationItemReviewedRequest`
unfoldable pub bind_mark_reviewed_request :
    String
    → String
    → Option MarkReconciliationItemReviewedRequest
    → Result MarkReconciliationItemReviewedInput
unfolding valid_reconciliation_review_status
bind_mark_reviewed_request institution_id transfer_id =
    bind_valid
      (λ body.
        trim_space body.resolution_note == ""
        || not (valid_reconciliation_review_status body.resolution_status))
      λ body. record {
        institution_id = institution_id;
        transfer_id = transfer_id;
        resolution_note = body.resolution_note;
        resolution_status = body.resolution_status;
      }
