-- ===== src/Reconciliation/Agree.antt =====
-- The program and the query agree on which transfers need a review.
use lenz.Prelude.{◌≡◌, arith}
use lenz.Prelude.Int.{ℤ}
use lenz.Model.{Transfer}
use lenz.Reconciliation.State.{
  reconciliation_item, reconciliation_review_state, reconciliation_issue,
}

-- The query of the list selects, among the transfers without a review, exactly those of which the
-- program says that they need one: the two ways to tell give the same answer for every transfer and
-- every cutoff.
pub reconciliation_issue_agrees :
    (cutoff : ℤ) (t : Transfer)
    → reconciliation_issue cutoff t ≡ (reconciliation_review_state (reconciliation_item t) cutoff).2
unfolding reconciliation_issue reconciliation_review_state reconciliation_item
reconciliation_issue_agrees cutoff t = ground arith
