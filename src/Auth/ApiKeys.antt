-- ===== src/Auth/ApiKeys.antt =====
-- backend/src/auth/api-key.service.ts. The hash of a key and the random digits of a new one are
-- parameters. A text of a key is a list of UTF-16 code units.
pub mod Issued
use capere_ai.Base.{
  ℕ, Bool, true, false, not, ◌&&◌, ◌||◌, ◌==◌, Option, none, some, is_none, is_some, some_and, List,
  [], ◌∷◌, ◌++◌, String, str_eq, codes, take, find, any, every, update, leb, ltb, if◌then◌else◌,
}
use capere_ai.Rag.Text.{trim}
use capere_ai.Auth.{
  Refusal, Checked, passed, refused, unauthorized, forbidden, bad_request, Organization, is_active,
}

-- A row of `capere.api_keys`.
pub record ApiKey : Type 0 where
  pub id : ℕ
  pub organization_id : Option String
  pub name : List ℕ
  pub key_prefix : List ℕ
  pub key_hash : ℕ
  pub roles : List String
  pub created_by : Option String
  pub expires_at : Option ℕ
  pub revoked_at : Option ℕ
  pub last_used_at : Option ℕ
  pub ghl_location_id : Option String
  pub purpose : String

pub record ResolvedApiKey : Type 0 where
  pub api_key_id : ℕ
  pub organization_id : String
  pub roles : List String
  pub ghl_location_id : Option String
  pub purpose : String

-- `ROLE_RANK`
unfoldable pub rank_of : String → Option ℕ
rank_of role =
    if str_eq role "seo_specialist" || str_eq role "marketing_manager"
    then some 1
    else if str_eq role "office_manager"
    then some 2
    else if str_eq role "owner"
    then some 3
    else if str_eq role "capere_admin"
    then some 4
    else none

abbrev pub resolve : ApiKey → String → ResolvedApiKey
resolve k org = record {
  api_key_id = k.id;
  organization_id = org;
  roles = k.roles;
  ghl_location_id = k.ghl_location_id;
  purpose = k.purpose;
}

abbrev pub check_organization : List Organization → ApiKey → Option String → Checked ResolvedApiKey
check_organization orgs k none = refused (forbidden "ORGANIZATION_REQUIRED")
check_organization orgs k (some org) =
    if not (is_active orgs org)
    then refused (forbidden "FORBIDDEN")
    else if every (λ role. false) k.roles
    then refused (forbidden "INSUFFICIENT_ROLE")
    else passed (resolve k org)

abbrev pub check_key : List Organization → ℕ → Option ApiKey → Checked ResolvedApiKey
check_key orgs now none = refused (unauthorized "INVALID_API_KEY")
check_key orgs now (some k) =
    if is_some k.revoked_at
    then refused (unauthorized "INVALID_API_KEY")
    else if some_and (λ t. leb t now) k.expires_at
    then refused (unauthorized "INVALID_API_KEY")
    else check_organization orgs k k.organization_id

-- `touch`, whose errors are dropped.
abbrev touch : ℕ → ℕ → List ApiKey → List ApiKey
touch now id = update (λ k. k.id == id) (λ k. record k { last_used_at = some now })

module _ (hash : List ℕ → ℕ) where
  -- `verify`. The key's use is noted by `after_verify`.
  unfoldable pub verify : List Organization → ℕ → List ℕ → List ApiKey → Checked ResolvedApiKey
  verify orgs now raw keys = check_key orgs now (find (λ k. k.key_hash == hash raw) keys)

  abbrev pub touch_if : ℕ → Checked ResolvedApiKey → List ApiKey → List ApiKey
  touch_if now (passed r) keys = touch now r.api_key_id keys
  touch_if now (refused r) keys = keys

  unfoldable pub after_verify : List Organization → ℕ → List ℕ → List ApiKey → List ApiKey
  unfolding verify
  after_verify orgs now raw keys = touch_if now (verify orgs now raw keys) keys

  abbrev pub for_purpose : String → Checked ResolvedApiKey → Checked ResolvedApiKey
  for_purpose purpose (refused r) = refused r
  for_purpose purpose (passed r) =
      if not (str_eq r.purpose purpose) || not (some_and_text r.ghl_location_id)
      then refused (unauthorized "INVALID_API_KEY")
      else passed r
    where
      -- Neither missing nor empty.
      some_and_text : Option String → Bool
      some_and_text none = false
      some_and_text (some location) = not (str_eq location "")

  unfoldable pub verify_for_purpose :
      List Organization → ℕ → List ℕ → String → List ApiKey → Checked ResolvedApiKey
  unfolding verify
  verify_for_purpose orgs now raw purpose keys = for_purpose purpose (verify orgs now raw keys)

pub record IssueParams : Type 0 where
  pub organization_id : String
  pub name : List ℕ
  pub roles : List String
  pub issuer_role : String
  pub created_by : Option String
  pub expires_at : Option ℕ
  pub ghl_location_id : Option String
  pub purpose : Option String

abbrev pub within_rank : Option ℕ → Option ℕ → Bool
within_rank (some issuer) (some role) = leb role issuer
within_rank issuer role = false

abbrev pub is_empty {ℓ} : {A : Type ℓ} → List A → Bool
is_empty [] = true
is_empty (x ∷ xs) = false

abbrev purpose_or_general : Option String → String
purpose_or_general none = "general"
purpose_or_general (some p) = p

-- `generateApiKey`, from forty random digits.
abbrev pub raw_key : List ℕ → List ℕ
raw_key digits = codes "cap_" ++ digits

abbrev pub issued_key : (List ℕ → ℕ) → ℕ → List ℕ → IssueParams → ApiKey
issued_key hash id digits p = record {
  id = id;
  organization_id = some p.organization_id;
  name = p.name;
  key_prefix = take 12 (raw_key digits);
  key_hash = hash (raw_key digits);
  roles = p.roles;
  created_by = p.created_by;
  expires_at = p.expires_at;
  revoked_at = none;
  last_used_at = none;
  ghl_location_id = p.ghl_location_id;
  purpose = purpose_or_general p.purpose;
}

-- The first tests of `issue`: the name, the roles, and whether all roles are known.
abbrev pub is_invalid : IssueParams → Bool
is_invalid p =
    is_empty (trim p.name)
    || is_empty p.roles
    || any (λ role. is_none (rank_of role)) p.roles
    || is_none (rank_of p.issuer_role)

abbrev pub is_known : List Organization → String → Bool
is_known orgs id = any (λ o. str_eq o.id id) orgs

abbrev pub overreaches : IssueParams → Bool
overreaches p = any (λ role. not (within_rank (rank_of p.issuer_role) (rank_of role))) p.roles

-- `issue`: the rows with the new key. The id is the database's. That the table refuses a hash which another
-- key has is left out: where it matters, it is a hypothesis that none has it.
unfoldable pub issue :
    (List ℕ → ℕ)
    → List Organization
    → ℕ
    → List ℕ
    → IssueParams
    → List ApiKey
    → Checked (List ApiKey)
unfolding rank_of
issue hash orgs id digits p keys =
    if is_invalid p
    then refused (bad_request "VALIDATION_FAILED")
    else if not (is_known orgs p.organization_id)
    then refused (record { code = "NOT_FOUND"; status = 404 })
    else if not (is_active orgs p.organization_id)
    then refused (forbidden "FORBIDDEN")
    else if overreaches p
    then refused (forbidden "INSUFFICIENT_ROLE")
    else passed (keys ++ issued_key hash id digits p ∷ [])

abbrev pub is_key_of : ℕ → String → ApiKey → Bool
is_key_of id org k = k.id == id && same_org k.organization_id
  where
    same_org : Option String → Bool
    same_org none = false
    same_org (some o) = str_eq o org

unfoldable pub revoke : ℕ → ℕ → String → List ApiKey → List ApiKey
revoke now id org = update (is_key_of id org) (λ k. record k { revoked_at = some now })
