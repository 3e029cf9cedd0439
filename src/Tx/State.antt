-- ===== src/Tx/State.antt =====
-- The database, and what the program reads from outside it.
use lenz.Prelude.{ℕ, String, List, Option}
use lenz.Model.{
  Account, AccountBalance, Transfer, JournalEntry, Posting, AccountHold, ProviderEvent, AuditEvent,
}

-- The caller that package authn put into the context.
pub record Principal : Type 0 where
  pub institution_id : String
  pub actor_type : String
  pub actor_id : String
  pub roles : List String
  pub scopes : List String
  pub source_ip : String
  pub user_agent : String

-- The random identifiers still to come, the time, the digest of package sha256, and the request's
-- context: its id and its caller.
pub record Environment : Type 0 where
  pub uuid : ℕ → String
  pub drawn : ℕ
  pub now : ℕ
  pub sha256_hex : String → String
  pub request_id : String
  pub principal : Option Principal

pub record Store : Type 0 where
  pub accounts : List Account
  pub balances : List AccountBalance
  pub transfers : List Transfer
  pub journal_entries : List JournalEntry
  pub postings : List Posting
  pub holds : List AccountHold
  pub provider_events : List ProviderEvent
  pub audit_events : List AuditEvent
  pub env : Environment
