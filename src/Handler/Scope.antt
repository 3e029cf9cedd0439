-- ===== src/Handler/Scope.antt =====
-- Which institution an authenticated request is for.
use lenz.Prelude.{
  ◌≡◌, refl, ap, subst, String, Bool, true, false, Option, none, some, List, not, ◌&&◌, ◌||◌, ◌==◌,
  if◌then◌else◌, arith,
}
use lenz.Prelude.Text.{trim_space}
use lenz.Tx.{Result, ok, err, Principal}
use lenz.Auth.{
  AuthScope, Request, Access, requires_auth, token_of_header, valid_development_token,
  development_principal, dev_institution_id, authentication, access_of, is_public_path,
}
use lenz.Handler.{scope_of_caller, institution_scope_string, institution_scope}

-- The header names the institution, or none.
abbrev pub is_for : Option String → String → Bool
is_for none i = true
is_for (some header) i = trim_space header == "" || trim_space header == i

-- The token is the configured one, the institution is the configured one, and the header agrees.
pub record IsEntitled (getenv : String → String) (r : Request) (header : Option String) (i : String)
    : Type 0 where
  pub on_token : valid_development_token getenv (token_of_header r.authorization) ≡ true
  pub on_institution : i ≡ trim_space (dev_institution_id getenv)
  pub on_header : is_for header i ≡ true

module _ (getenv : String → String) (r : Request) (header : Option String) where
  abbrev IsScoped : Result String → Type 0
  IsScoped (ok i) = IsEntitled getenv r header i
  IsScoped (err e) = Unit

  abbrev IsAccess : Access → Type 0
  IsAccess (Access.granted caller) = IsScoped (institution_scope caller header)
  IsAccess Access.denied = Unit

-- What holds of both ways holds of the choice.
choice :
    {A : Type 0} (P : A → Type 0) (b : Bool) (x y : A)
    → (b ≡ true → P x)
    → (b ≡ false → P y)
    → P (if b then x else y)
choice P true x y h k = h refl
choice P false x y h k = k refl

agrees : (given same : Bool) → (not given && not same) ≡ false → (given || same) ≡ true
agrees true same h = refl
agrees false same h = ground (arith, h)

module _ (getenv : String → String) (r : Request) (header : Option String)
    (valid : valid_development_token getenv (token_of_header r.authorization) ≡ true)
    (p : Principal) (configured : p.institution_id ≡ dev_institution_id getenv) where
  string-IsScoped :
      (text : String)
      → ((i : String)
          → (trim_space text == "" || trim_space text == i) ≡ true
          → is_for header i ≡ true)
      → IsScoped getenv r header (institution_scope_string (some p) text)
  unfolding institution_scope_string
  string-IsScoped text k =
      choice (λ o. IsScoped getenv r header (scope_of_caller o text)) (p.institution_id == "") _ _
        (λ _. tt)
        λ _.
          choice (IsScoped getenv r header) (trim_space p.institution_id == "") _ _ (λ _. tt)
            λ _.
              choice (IsScoped getenv r header)
                (not (trim_space text == "")
                  && not (trim_space text == trim_space p.institution_id))
                _ _ (λ _. tt)
                λ agreed. record {
                  on_token = valid;
                  on_institution = ap trim_space configured;
                  on_header = k (trim_space p.institution_id) (
                      agrees (trim_space text == "")
                        (trim_space text == trim_space p.institution_id) agreed);
                }

anonymous :
    (getenv : String → String) (r : Request) (header : Option String)
    → IsAccess getenv r header (Access.granted none)
unfolding institution_scope institution_scope_string
anonymous getenv r none = tt
anonymous getenv r (some text) = tt

scope-IsScoped :
    (getenv : String → String) (r : Request) (header : Option String)
    → valid_development_token getenv (token_of_header r.authorization) ≡ true
    → (p : Principal) → p.institution_id ≡ dev_institution_id getenv
    → IsScoped getenv r header (institution_scope (some p) header)
unfolding institution_scope
scope-IsScoped getenv r none valid p configured =
    string-IsScoped getenv r none valid p configured "" (λ i h. refl)
scope-IsScoped getenv r (some text) valid p configured =
    string-IsScoped getenv r (some text) valid p configured text (λ i h. h)

authentication-IsAccess :
    (scopes : List AuthScope) (getenv : String → String) (r : Request) (header : Option String)
    → IsAccess getenv r header (authentication scopes getenv r)
unfolding authentication development_principal
authentication-IsAccess scopes getenv r header =
    let token = token_of_header r.authorization in
    choice (IsAccess getenv r header) (is_public_path r.path) _ _ (λ _. anonymous getenv r header)
      λ _.
        choice (IsAccess getenv r header) (not (requires_auth scopes) && token == "") _ _
          (λ _. anonymous getenv r header)
          λ _.
            choice (λ o. IsAccess getenv r header (access_of o))
              (valid_development_token getenv token) _ _
              (λ valid. scope-IsScoped getenv r header valid _ refl) (λ _. tt)

-- If a request gets past the authentication and its handler finds an institution for it, then its
-- token is the configured one, the institution is the one configured for that token, and the
-- request's header names no other institution.
pub authentication-IsEntitled :
    (scopes : List AuthScope) (getenv : String → String) (r : Request) (header : Option String)
    (caller : Option Principal) (i : String)
    → authentication scopes getenv r ≡ Access.granted caller
    → institution_scope caller header ≡ ok i
    → IsEntitled getenv r header i
authentication-IsEntitled scopes getenv r header caller i granted scoped =
    subst (IsScoped getenv r header) scoped
      (subst (IsAccess getenv r header) granted (authentication-IsAccess scopes getenv r header))
