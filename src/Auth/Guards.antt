-- ===== src/Auth/Guards.antt =====
-- auth.guard.ts, organization.guard.ts and roles.guard.ts of backend/src/auth and
-- backend/src/feature-flags/feature-flag.guard.ts, in the order in which backend/src/app.module.ts
-- runs them. The check of a bearer token and the hash of a key are
-- parameters. Header values are lists of UTF-16 code units where they are cut up.
use capere_ai.Base.{
  ℕ, ◌+◌, Bool, true, false, not, ◌&&◌, ◌||◌, ◌==◌, Option, none, some, is_some, List, [], ◌∷◌,
  String, str_eq, codes, any, leb, if◌then◌else◌, map,
}
use capere_ai.Rag.Text.{starts_with}
use capere_ai.Auth.{
  Checked, passed, refused, unauthorized, forbidden, bad_request, Directory, Member, role_for,
  list_for,
}
use capere_ai.Auth.ApiKeys.{ApiKey, ResolvedApiKey, verify, is_empty}

pub record AuthenticatedUser : Type 0 where
  pub id : String
  pub email : Option String

-- A request with what the guards attach to it.
pub record Request : Type 0 where
  pub authorization : Option (List ℕ)
  pub x_api_key : Option (List ℕ)
  pub x_organization_id : Option String
  pub organization_param : Option String
  pub user : Option AuthenticatedUser
  pub organization_id : Option String
  pub organization_role : Option String
  pub organization_roles : List String
  pub api_key_id : Option ℕ

-- The decorators of a route.
pub record Route : Type 0 where
  pub is_public : Bool
  pub accepts_api_key : Bool
  pub skip_organization : Bool
  pub roles : List String
  pub feature : Option String

-- `header.split(' ')`, of which the first two pieces are read.
abbrev first_word : List ℕ → List ℕ
first_word [] = []
first_word (c ∷ s) = if c == 32 then [] else c ∷ first_word s

abbrev after_space : List ℕ → List ℕ
after_space [] = []
after_space (c ∷ s) = if c == 32 then s else after_space s

-- `toLowerCase`, as far as ASCII letters go: no other character becomes one of "bearer".
abbrev lower : List ℕ → List ℕ
lower = map (λ c. if leb 65 c && leb c 90 then c + 32 else c)

abbrev same_text : List ℕ → List ℕ → Bool
same_text [] [] = true
same_text (c ∷ s) (d ∷ t) = c == d && same_text s t
same_text s t = false

-- The value of a bearer header.
unfoldable pub bearer_value : Option (List ℕ) → Option (List ℕ)
bearer_value none = none
bearer_value (some header) =
    let value = first_word (after_space header) in
    if is_empty value || not (same_text (lower (first_word header)) (codes "bearer"))
    then none
    else some value

abbrev is_api_key : List ℕ → Bool
is_api_key = starts_with (codes "cap_")

abbrev keep_if : Bool → Option (List ℕ) → Option (List ℕ)
keep_if keys none = none
keep_if true (some value) = if is_api_key value then some value else none
keep_if false (some value) = if is_api_key value then none else some value

unfoldable pub extract_bearer_token : Request → Option (List ℕ)
unfolding bearer_value
extract_bearer_token r = keep_if false (bearer_value r.authorization)

unfoldable pub extract_api_key : Request → Option (List ℕ)
unfolding bearer_value
extract_api_key r = explicit r.x_api_key
  where
    explicit : Option (List ℕ) → Option (List ℕ)
    explicit (some (c ∷ s)) = some (c ∷ s)
    explicit key = keep_if true (bearer_value r.authorization)

abbrev pub first_role : List String → Option String
first_role [] = none
first_role (role ∷ roles) = some role

abbrev pub with_key : Request → ResolvedApiKey → Request
with_key r k = record r {
  api_key_id = some k.api_key_id;
  organization_id = some k.organization_id;
  organization_roles = k.roles;
  organization_role = first_role k.roles;
}

-- An empty header or parameter counts as none.
abbrev non_empty : Option String → Option String
non_empty none = none
non_empty (some s) = if str_eq s "" then none else some s

abbrev or_else : Option String → Option String → Option String
or_else none other = other
or_else (some s) other = some s

unfoldable pub requested_organization_id : Request → Option String
requested_organization_id r =
    or_else (non_empty r.x_organization_id) (non_empty r.organization_param)

-- The services and tables that the guards use.
pub record Services : Type 0 where
  pub verify_token : List ℕ → Checked AuthenticatedUser
  pub hash : List ℕ → ℕ
  pub directory : Directory
  pub keys : List ApiKey
  pub now : ℕ
  -- `isEnabled` of an organization and a flag.
  pub is_enabled : String → String → Bool

abbrev pub attach_key : Request → Checked ResolvedApiKey → Checked Request
attach_key r (refused e) = refused e
attach_key r (passed k) = passed (with_key r k)

abbrev pub attach_user : Request → Checked AuthenticatedUser → Checked Request
attach_user r (refused e) = refused e
attach_user r (passed u) = passed (record r { user = some u })

abbrev pub with_token : Services → Request → Option (List ℕ) → Checked Request
with_token s r none = refused (unauthorized "UNAUTHENTICATED")
with_token s r (some token) = attach_user r (s.verify_token token)

abbrev pub with_api_key : Services → Request → Option (List ℕ) → Checked Request
with_api_key s r (some raw) =
    attach_key r (verify s.hash s.directory.organizations s.now raw s.keys)
with_api_key s r none = with_token s r (extract_bearer_token r)

-- `AuthGuard`
unfoldable pub auth_guard : Services → Route → Request → Checked Request
auth_guard s route r =
    if route.is_public
    then passed r
    else if route.accepts_api_key
    then with_api_key s r (extract_api_key r)
    else with_token s r (extract_bearer_token r)

abbrev pub in_organization : Request → String → String → Request
in_organization r org role = record r { organization_id = some org; organization_role = some role }

abbrev pub enter : Request → String → Option String → Checked Request
enter r org none = refused (forbidden "NOT_ORGANIZATION_MEMBER")
enter r org (some role) = passed (in_organization r org role)

abbrev pub enter_only : Request → List Member → Checked Request
enter_only r [] = refused (forbidden "NOT_ORGANIZATION_MEMBER")
enter_only r (m ∷ []) = passed (in_organization r m.organization_id m.role)
enter_only r (m ∷ n ∷ ms) = refused (bad_request "ORGANIZATION_REQUIRED")

abbrev pub resolve_for : Directory → Request → AuthenticatedUser → Option String → Checked Request
resolve_for d r user (some org) = enter r org (role_for d user.id org)
resolve_for d r user none = enter_only r (list_for d user.id)

abbrev pub resolve_user : Directory → Request → Option AuthenticatedUser → Checked Request
resolve_user d r none = refused (unauthorized "UNAUTHENTICATED")
resolve_user d r (some user) = resolve_for d r user (requested_organization_id r)

-- `OrganizationGuard`
unfoldable pub organization_guard : Services → Route → Request → Checked Request
organization_guard s route r =
    if route.is_public
      || route.skip_organization
      || is_some r.api_key_id && is_some r.organization_id
    then passed r
    else resolve_user s.directory r r.user

abbrev pub one_role : Option String → List String
one_role none = []
one_role (some role) = role ∷ []

unfoldable pub granted_roles : Request → List String
granted_roles r =
    if is_empty r.organization_roles then one_role r.organization_role else r.organization_roles

-- Whether one of the roles is in the other list.
abbrev pub shares : List String → List String → Bool
shares required granted = any (λ role. any (str_eq role) granted) required

-- `RolesGuard`
unfoldable pub roles_guard : Route → Request → Checked Request
roles_guard route r =
    if route.is_public || is_empty route.roles
    then passed r
    else if is_empty (granted_roles r)
    then refused
        (forbidden (if is_some r.api_key_id then "INSUFFICIENT_ROLE" else "ORGANIZATION_REQUIRED"))
    else if not (shares route.roles (granted_roles r))
    then refused (forbidden "INSUFFICIENT_ROLE")
    else passed r

abbrev pub check_flag : Services → String → Request → Option String → Checked Request
check_flag s flag r none = refused (forbidden "ORGANIZATION_REQUIRED")
check_flag s flag r (some org) =
    if not (s.is_enabled org flag) then refused (forbidden "FEATURE_DISABLED") else passed r

abbrev pub check_feature : Services → Request → Option String → Checked Request
check_feature s r none = passed r
check_feature s r (some flag) = check_flag s flag r r.organization_id

-- `FeatureFlagGuard`
unfoldable pub feature_flag_guard : Services → Route → Request → Checked Request
feature_flag_guard s route r = check_feature s r route.feature

abbrev pub and_then : Checked Request → (Request → Checked Request) → Checked Request
and_then (refused e) next = refused e
and_then (passed r) next = next r

-- The guards one after the other, without the rate limit before them.
unfoldable pub admit : Services → Route → Request → Checked Request
admit s route r = and_then (auth_guard s route r) (λ r'.
    and_then (organization_guard s route r')
      (λ r''. and_then (roles_guard route r'') (feature_flag_guard s route)))
