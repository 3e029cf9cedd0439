-- ===== src/Lists/Queries.antt =====
-- The queries of the lists: `ListTransfers` (corebanking/sql_transfer_repository.go),
-- `ListAuditEvents` (corebanking/sql_audit_repository.go) and `ListReconciliationItems`
-- (corebanking/sql_reconciliation_repository.go).
use lenz.Prelude.{String, Bool, true, Option, none, some, List, map, ◌&&◌, ◌||◌, ◌==◌}
use lenz.Prelude.Int.{ℤ, pos_part}
use lenz.Prelude.Text.{trim_space}
use lenz.Prelude.Listing.{page}
use lenz.Model.{
  Transfer, AuditEvent, ReconciliationItem, ListOptions, ListReconciliationItemsOptions,
  status_text, ledger_status_text, reconciliation_status_text,
}
use lenz.Tx.{Tx, pure, gets, ◌>>=◌}
use lenz.ProviderEvents.{optional}
use lenz.Reconciliation.State.{
  reconciliation_item, reconciliation_issue, reconciliation_stale_pending_cutoff,
  decorate_reconciliation_item,
}
use lenz.Lists.{query_time, normalize_list_transfers_options, normalize_list_audit_events_options}

module _ (is_uuid : String → Bool) where
  -- `ListTransfers`
  unfoldable pub list_transfers : String → ListOptions → Tx (List Transfer)
  unfolding normalize_list_transfers_options query_time page
  list_transfers institution_id given = do
    options ← normalize_list_transfers_options is_uuid given
    gets (λ s.
        page (λ t. t.created_at) (λ t. t.id) (λ t. t.institution_id == institution_id)
          (query_time options.before_created_at) (optional options.before_id)
          (pos_part options.limit) s.transfers)

  -- `ListAuditEvents`
  unfoldable pub list_audit_events : String → ListOptions → Tx (List AuditEvent)
  unfolding normalize_list_audit_events_options query_time page
  list_audit_events institution_id given = do
    options ← normalize_list_audit_events_options is_uuid given
    gets (λ s.
        page (λ e. e.created_at) (λ e. e.id) (λ e. e.institution_id == institution_id)
          (query_time options.before_created_at) (optional options.before_id)
          (pos_part options.limit) s.audit_events)

-- `addFilter`
abbrev pub meets_filter : String → String → Bool
meets_filter column value = trim_space value == "" || column == trim_space value

-- `review_status IS NULL OR review_status = 'manual_followup_required'`
abbrev pub is_open : Option String → Bool
is_open none = true
is_open (some status) = status == "manual_followup_required"

-- The clauses of `ListReconciliationItems`, but for the cursor.
unfoldable pub in_queue : String → ListReconciliationItemsOptions → ℤ → Transfer → Bool
unfolding reconciliation_issue
in_queue institution_id options cutoff t =
    t.institution_id == institution_id
    && reconciliation_issue cutoff t
    && is_open t.review_status
    && meets_filter (status_text t.status) options.status
    && meets_filter (status_text t.provider_status) options.provider_status
    && meets_filter (ledger_status_text t.ledger_status) options.ledger_status
    && meets_filter (reconciliation_status_text t.reconciliation_status)
        options.reconciliation_status

-- `ListReconciliationItems`
unfoldable pub list_reconciliation_items :
    String → ListReconciliationItemsOptions → Tx (List ReconciliationItem)
unfolding in_queue query_time page reconciliation_stale_pending_cutoff
list_reconciliation_items institution_id options = do
  now ← gets (λ s. s.env.now)
  let cutoff = reconciliation_stale_pending_cutoff options.stale_pending_minutes now
  rows ← gets (λ s.
      page (λ t. t.created_at) (λ t. t.id) (in_queue institution_id options cutoff)
        (query_time options.before_created_at) (optional (trim_space options.before_transfer_id))
        (pos_part options.limit) s.transfers)
  pure (map (λ t. decorate_reconciliation_item cutoff (reconciliation_item t)) rows)
