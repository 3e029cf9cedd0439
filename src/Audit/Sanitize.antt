-- ===== src/Audit/Sanitize.antt =====
-- The metadata of an audit event: pairs of texts, as Go's map of strings, without the entries
-- whose key or value may name a secret.
use lenz.Prelude.{String, Bool, List, [], ◌∷◌, ◌||◌, ◌==◌, if◌then◌else◌}
use lenz.Prelude.Text.{trim_space, to_lower, contains}

abbrev pub Metadata : Type 0
Metadata = List (String × String)

-- `m[key] = value`
unfoldable pub put : String → String → Metadata → Metadata
put key value [] = (key, value) ∷ []
put key value ((k, v) ∷ m) = if k == key then (key, value) ∷ m else (k, v) ∷ put key value m

unfoldable pub unsafe_audit_metadata_key : String → Bool
unsafe_audit_metadata_key raw =
    let key = to_lower (trim_space raw) in
    contains key "authorization"
    || contains key "token"
    || contains key "secret"
    || contains key "password"
    || contains key "credential"
    || contains key "api_key"
    || contains key "apikey"
    || key == "bvn"
    || key == "nin"

unfoldable pub names_secret : String → Bool
names_secret lower =
    contains lower "authorization"
    || contains lower "bearer "
    || contains lower "token"
    || contains lower "secret"
    || contains lower "password"
    || contains lower "credential"
    || contains lower "api key"
    || contains lower "api_key"
    || contains lower "apikey"
    || contains lower "bvn"
    || contains lower "nin"

unfoldable pub sanitize_audit_metadata_value : String → String
unfolding names_secret
sanitize_audit_metadata_value raw =
    let value = trim_space raw in
    let lower = to_lower value in
    if lower == "" then "" else if names_secret lower then "[redacted]" else value

-- The loop of `sanitizedAuditMetadata` with the entries written so far. Go's order of a map's keys
-- is not fixed; here it is that of the list.
unfoldable pub sanitize_into : Metadata → Metadata → Metadata
sanitize_into out [] = out
sanitize_into out ((k, v) ∷ input) =
    let key = trim_space k in
    sanitize_into
      (if key == "" || unsafe_audit_metadata_key key
        then out
        else put key (sanitize_audit_metadata_value v) out)
      input

unfoldable pub sanitized_audit_metadata : Metadata → Metadata
unfolding sanitize_into
sanitized_audit_metadata input = sanitize_into [] input

unfoldable pub merge_into : Metadata → Metadata → Metadata
merge_into base [] = base
merge_into base ((k, v) ∷ extra) = merge_into (put k v base) extra

unfoldable pub merge_audit_metadata : Metadata → Metadata → Metadata
unfolding merge_into
merge_audit_metadata base extra = merge_into base (sanitized_audit_metadata extra)
