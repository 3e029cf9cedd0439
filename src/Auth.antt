-- ===== src/Auth.antt =====
-- The authentication of a request (apps/auth/authn): a development token, and the caller that it
-- stands for. The environment variables are a function; the address of the caller is what
-- `requestSourceIP` makes of the connection.
use lenz.Prelude.{
  String, Bool, true, false, Option, none, some, List, [], ◌∷◌, not, ◌&&◌, ◌||◌, ◌==◌,
  if◌then◌else◌,
}
use lenz.Prelude.Text.{trim_space, to_lower}
use text.Mathlib.Text.{starts_with}
use lenz.Tx.{Principal}

-- The constants `AuthRequiredScope` and `AuthOptionalScope`.
pub data AuthScope : Type 0 where
  required optional : AuthScope

-- `requiresAuth`
unfoldable pub requires_auth : List AuthScope → Bool
requires_auth [] = false
requires_auth (AuthScope.required ∷ scopes) = true
requires_auth (AuthScope.optional ∷ scopes) = requires_auth scopes

-- `productionEnv`
abbrev production_env : String → Bool
production_env value =
    to_lower (trim_space value) == "production" || to_lower (trim_space value) == "prod"

-- `ValidateDevelopmentAuthGuard`: whether the server may start.
unfoldable pub validate_development_auth_guard : (String → String) → List AuthScope → Bool
unfolding requires_auth
validate_development_auth_guard getenv scopes =
    not (requires_auth scopes)
    || not (production_env (getenv "APP_ENV") || production_env (getenv "ENV"))

-- What stands behind the first characters, as many as the first text has.
drop_prefix : String → String → String
drop_prefix String.[] s = s
drop_prefix (String.◌∷◌ c p) String.[] = ""
drop_prefix (String.◌∷◌ c p) (String.◌∷◌ d s) = drop_prefix p s

-- `getTokenFromHeader`
unfoldable pub token_of_header : String → String
unfolding drop_prefix
token_of_header header =
    let value = trim_space header in
    let token = trim_space (drop_prefix "bearer " value) in
    if starts_with (to_lower value) "bearer " then token else ""

-- `validDevelopmentToken`
unfoldable pub valid_development_token : (String → String) → String → Bool
valid_development_token getenv token =
    let expected = trim_space (getenv "LENZ_DEV_AUTH_TOKEN") in
    not (expected == "") && trim_space token == expected

-- `strings.Split` at a comma
split_commas : String → List String
split_commas String.[] = "" ∷ []
split_commas (String.◌∷◌ c s) =
    let rest = split_commas s in
    if String.◌∷◌ c "" == ","
    then "" ∷ rest
    else elim rest [ [] ↦ String.◌∷◌ c "" ∷ [] | t ∷ ts ↦ String.◌∷◌ c t ∷ ts ]

trimmed_items : List String → List String
trimmed_items [] = []
trimmed_items (item ∷ items) =
    let rest = trimmed_items items in if trim_space item == "" then rest else trim_space item ∷ rest

-- `envCSV`
unfoldable pub env_csv : (String → String) → String → List String → List String
unfolding split_commas trimmed_items
env_csv getenv name fallback = elim (trimmed_items (split_commas (getenv name))) [
  | [] ↦ fallback
  | item ∷ items ↦ item ∷ items
]

abbrev pub default_dev_institution_id : String
default_dev_institution_id = "11111111-1111-1111-1111-111111111111"

abbrev env_or : (String → String) → String → String → String
env_or getenv name default =
    if trim_space (getenv name) == "" then default else trim_space (getenv name)

-- The institution that the environment gives to the development token.
abbrev pub dev_institution_id : (String → String) → String
dev_institution_id getenv = env_or getenv "LENZ_DEV_INSTITUTION_ID" default_dev_institution_id

-- `developmentPrincipal`
unfoldable pub development_principal :
    (String → String) → String → String → String → Option Principal
unfolding valid_development_token env_csv
development_principal getenv token source_ip user_agent =
    if valid_development_token getenv token
    then some (record {
      institution_id = dev_institution_id getenv;
      actor_type = env_or getenv "LENZ_DEV_ACTOR_TYPE" "dev_user";
      actor_id = env_or getenv "LENZ_DEV_ACTOR_ID" "dev-user";
      roles = env_csv getenv "LENZ_DEV_AUTH_ROLES" ("developer" ∷ []);
      scopes =
          env_csv getenv "LENZ_DEV_AUTH_SCOPES" ("corebanking:read" ∷ "corebanking:write" ∷ []);
      source_ip = source_ip;
      user_agent = user_agent;
    })
    else none

-- What the middleware reads of a request.
pub record Request : Type 0 where
  pub path : String
  pub authorization : String
  pub source_ip : String
  pub user_agent : String

-- A request goes on, with a caller or without, or is answered with 401.
pub data Access : Type 0 where
  granted : Option Principal → Access
  denied : Access

-- `isPublicPath`
abbrev pub is_public_path : String → Bool
is_public_path path = path == "/api/v1/health" || path == "/api/v1/readyz"

abbrev pub access_of : Option Principal → Access
access_of none = Access.denied
access_of (some principal) = Access.granted (some principal)

-- `Authentication`
unfoldable pub authentication : List AuthScope → (String → String) → Request → Access
unfolding requires_auth token_of_header development_principal
authentication scopes getenv r =
    let token = token_of_header r.authorization in
    if is_public_path r.path
    then Access.granted none
    else if not (requires_auth scopes) && token == ""
    then Access.granted none
    else access_of (development_principal getenv token r.source_ip (trim_space r.user_agent))
