-- ===== src/Audit.antt =====
-- Audit events (corebanking/audit.go, and `insertAuditEvent` of sql_audit_repository.go): every
-- event is stamped with the caller, and its metadata is cleaned of secrets before it is stored.
pub mod Sanitize
pub mod Transfers
pub mod Laws
use lenz.Prelude.{
  ℕ, String, Bool, true, false, Option, none, some, List, [], ◌∷◌, ◌++◌, not, ◌||◌, ◌==◌, eqb,
  if◌then◌else◌,
}
use lenz.Prelude.Text.{trim_space, join}
use lenz.Prelude.Table.{insert, count}
use lenz.Model.{AuditEvent, Error}
use lenz.Tx.{Store, Environment, Principal, Tx, gets, fail_if, modify, new_id, ◌>>=◌, ◌>>◌}
use lenz.Audit.Sanitize.{Metadata, sanitized_audit_metadata, merge_audit_metadata}

-- The struct `auditEventInput`; the empty text stands for an absent value.
pub record AuditEventInput : Type 0 where
  pub institution_id : String
  pub action : String
  pub entity_type : String
  pub entity_id : String
  pub customer_id : String
  pub account_id : String
  pub transfer_id : String
  pub journal_entry_id : String
  pub idempotency_key : String
  pub reference : String
  pub old_status : String
  pub new_status : String
  pub metadata : Metadata
  pub created_at : ℕ

-- `optionalAuditString`
unfoldable pub optional_audit_string : String → Option String
optional_audit_string value =
    let trimmed = trim_space value in if trimmed == "" then none else some trimmed

-- `optionalAuditValue`
abbrev pub optional_audit_value : Option String → String
optional_audit_value none = ""
optional_audit_value (some value) = value

abbrev or_default : String → String → String
or_default value default = if trim_space value == "" then default else trim_space value

-- The entry of a context value that is present.
abbrev entry : String → String → Metadata
entry key value = if value == "" then [] else (key, value) ∷ []

abbrev is_empty_list : List String → Bool
is_empty_list [] = true
is_empty_list _ = false

abbrev caller : Option Principal → String × String × Metadata
caller none = ("system", "system", [])
caller (some p) = (
  or_default p.actor_type "principal",
  or_default p.actor_id "unknown",
  (if is_empty_list p.roles then [] else ("actor_roles", join p.roles ",") ∷ [])
      ++ ((if is_empty_list p.scopes then [] else ("actor_scopes", join p.scopes ",") ∷ [])
          ++ (entry "source_ip" (trim_space p.source_ip)
              ++ entry "user_agent" (trim_space p.user_agent))),
)

-- `auditContext`: the actor's type and id, the request's id, and what else the context tells.
unfoldable pub audit_context : Environment → String × String × String × Metadata
audit_context env =
    let (actor_type, actor_id, metadata) = caller env.principal in
    (actor_type, actor_id, or_default env.request_id "service", metadata)

-- `newAuditEvent`, with the identifier drawn.
unfoldable pub new_audit_event : Environment → String → AuditEventInput → AuditEvent
unfolding audit_context optional_audit_string
new_audit_event env id input =
    let (actor_type, actor_id, request_id, context_metadata) = audit_context env in
    record {
      id = id;
      institution_id = trim_space input.institution_id;
      actor_type = actor_type;
      actor_id = actor_id;
      request_id = request_id;
      action = trim_space input.action;
      entity_type = trim_space input.entity_type;
      entity_id = trim_space input.entity_id;
      customer_id = optional_audit_string input.customer_id;
      account_id = optional_audit_string input.account_id;
      transfer_id = optional_audit_string input.transfer_id;
      journal_entry_id = optional_audit_string input.journal_entry_id;
      idempotency_key = optional_audit_string input.idempotency_key;
      reference = optional_audit_string input.reference;
      old_status = optional_audit_string input.old_status;
      new_status = optional_audit_string input.new_status;
      metadata = merge_audit_metadata (sanitized_audit_metadata input.metadata) context_metadata;
      created_at = if eqb input.created_at 0 then env.now else input.created_at;
    }

abbrev is_incomplete : AuditEvent → Bool
is_incomplete event =
    event.institution_id == ""
    || event.action == ""
    || event.entity_type == ""
    || event.entity_id == ""

-- `insertAuditEvent`
unfoldable pub insert_audit_event : AuditEventInput → Tx (Unit {0})
insert_audit_event input = do
  id ← new_id
  env ← gets (λ s. s.env)
  let event = new_audit_event env id input
  fail_if (is_incomplete event) Error.invalid_request
  rows ← gets (λ s. s.audit_events)
  fail_if (not (eqb (count (λ e. e.id == event.id) rows) 0)) Error.database
  modify (λ s. record s { audit_events = insert event s.audit_events })
