-- ===== src/Audit/Laws.antt =====
-- No secret reaches the audit log.
use lenz.Prelude.{◌≡◌, refl, String, false, ◌||◌, ◌==◌, [], ◌∷◌, arith, inl, inr, Bool-cases}
use lenz.Prelude.Text.{trim_space, to_lower, contains}
use lenz.Prelude.Table.{All}
use lenz.Tx.{Environment}
use lenz.Audit.{AuditEventInput, new_audit_event, audit_context}
use lenz.Audit.Sanitize.{
  Metadata, put, unsafe_audit_metadata_key, names_secret, sanitize_audit_metadata_value,
  sanitize_into, sanitized_audit_metadata, merge_into, merge_audit_metadata,
}

-- Neither the key nor the value names a secret.
abbrev pub IsSafe : String × String → Type 0
IsSafe (key, value) =
    (unsafe_audit_metadata_key key ≡ false) × (names_secret (to_lower value) ≡ false)

put-All :
    (P : String × String → Type 0) (key value : String) (m : Metadata)
    → P (key, value)
    → All P m
    → All P (put key value m)
unfolding put
put-All P key value [] p h = (p, tt)
put-All P key value ((k, v) ∷ m) p h = elim (Bool-cases (k == key)) [
  | inl same ↦ rw same (p, h.1)
  | inr other ↦ rw other (h.0, put-All P key value m p h.1)
]

redacted-IsSafe : names_secret (to_lower "[redacted]") ≡ false
unfolding names_secret to_lower contains
redacted-IsSafe = refl

empty-IsSafe : names_secret (to_lower "") ≡ false
unfolding names_secret to_lower contains
empty-IsSafe = refl

sanitize-IsSafe :
    (raw : String) → names_secret (to_lower (sanitize_audit_metadata_value raw)) ≡ false
unfolding sanitize_audit_metadata_value
sanitize-IsSafe raw = elim (Bool-cases (to_lower (trim_space raw) == "")) [
  | inl blank ↦ rw blank empty-IsSafe
  | inr other ↦ elim (Bool-cases (names_secret (to_lower (trim_space raw)))) [
    | inl secret ↦ rw (other, secret) redacted-IsSafe
    | inr clean ↦ rw (other, clean) clean
  ]
]

sanitize_into-All : (input out : Metadata) → All IsSafe out → All IsSafe (sanitize_into out input)
unfolding sanitize_into
sanitize_into-All [] out h = h
sanitize_into-All ((k, v) ∷ input) out h =
    elim (Bool-cases (trim_space k == "" || unsafe_audit_metadata_key (trim_space k))) [
      | inl skip ↦ rw skip (sanitize_into-All input out h)
      | inr safe ↦ rw safe (
          sanitize_into-All input _ (
            put-All IsSafe (trim_space k) (sanitize_audit_metadata_value v) out
              (ground arith, sanitize-IsSafe v) h))
    ]

merge_into-All :
    (extra base : Metadata)
    → All IsSafe base
    → All IsSafe extra
    → All IsSafe (merge_into base extra)
unfolding merge_into
merge_into-All [] base h k = h
merge_into-All ((key, value) ∷ extra) base h k =
    merge_into-All extra (put key value base) (put-All IsSafe key value base k.0 h) k.1

-- The metadata of an audit event, which merges what the operation states with what the request's
-- context tells, has no entry whose key is unsafe or whose value names a secret.
pub new_audit_event-IsSafe :
    (env : Environment) (id : String) (input : AuditEventInput)
    → All IsSafe (new_audit_event env id input).metadata
unfolding new_audit_event merge_audit_metadata sanitized_audit_metadata
new_audit_event-IsSafe env id input =
    let stated = sanitize_into-All input.metadata [] tt in
    let (_, _, _, context) = audit_context env in
    merge_into-All (sanitize_into [] context) (sanitize_into [] input.metadata) stated
      (sanitize_into-All context [] tt)
