-- ===== src/Handler.antt =====
-- The edge of the HTTP handlers (corebanking/handler.go): the institution that a request is for, and
-- the answer to an error.
pub mod Scope
pub mod Bodies
pub mod Binding
pub mod Controls
pub mod Routes
pub mod Events
pub mod Denied
use lenz.Prelude.{
  ℕ, String, Bool, true, false, Option, none, some, not, ◌&&◌, ◌||◌, ◌==◌, if◌then◌else◌,
}
use lenz.Prelude.Text.{trim_space}
use lenz.Model.{Error}
use lenz.Tx.{Result, ok, err, Principal}

-- `PrincipalFromContext`
abbrev pub principal_of_context : Option Principal → Option Principal
principal_of_context none = none
principal_of_context (some p) = if p.institution_id == "" then none else some p

-- The institution of the caller that the context holds.
abbrev pub scope_of_caller : Option Principal → String → Result String
scope_of_caller none header = err Error.unauthorized
scope_of_caller (some p) header =
    let institution_id = trim_space p.institution_id in
    if institution_id == ""
    then err Error.unauthorized
    else if not (trim_space header == "") && not (trim_space header == institution_id)
    then err Error.forbidden
    else ok institution_id

-- `institutionScopeString`
unfoldable pub institution_scope_string : Option Principal → String → Result String
institution_scope_string caller header = scope_of_caller (principal_of_context caller) header

-- `institutionScope`
unfoldable pub institution_scope : Option Principal → Option String → Result String
unfolding institution_scope_string
institution_scope caller none = institution_scope_string caller ""
institution_scope caller (some header) = institution_scope_string caller header

-- The status and the message of `respond` for an error; `writeInternalError` answers the last ones.
unfoldable pub error_response : Error → ℕ × String
error_response Error.unauthorized = (401, "unauthorized")
error_response Error.forbidden = (403, "forbidden")
error_response Error.not_found = (404, "not_found")
error_response Error.unsupported_provider = (400, "unsupported_provider")
error_response Error.invalid_request = (400, "invalid_request")
error_response Error.insufficient = (422, "insufficient_funds")
error_response Error.conflict = (409, "conflict")
error_response _ = (500, "internal_server_error")
