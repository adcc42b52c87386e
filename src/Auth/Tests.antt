-- ===== src/Auth/Tests.antt =====
-- Requests and keys of one organization.
use capere_ai.Base.{
  ℕ, ◌≡◌, refl, true, false, Option, none, some, List, [], ◌∷◌, ◌++◌, String, str_eq, codes, length,
  All,
}
use capere_ai.Rag.Text.{trim, trim_start, trim_end, is_space}
use capere_ai.Auth.{
  passed, refused, forbidden, Organization, Directory, is_active, is_membership, role_for, list_for,
}
use capere_ai.Auth.ApiKeys.{
  ApiKey, IssueParams, rank_of, verify, issue, issued_key, raw_key, resolve, revoke,
}
use capere_ai.Auth.ApiKeys.Issued.{WithinIssuer, issue_capped, verify-issue}
use capere_ai.Auth.Guards.{
  Request, Route, Services, admit, auth_guard, organization_guard, roles_guard, feature_flag_guard,
  extract_bearer_token, extract_api_key, bearer_value, requested_organization_id, granted_roles,
}
use capere_ai.Auth.Isolation.Admitted.{BelongsTo, Permitted, Featured, admit-BelongsTo}

abbrev clinic : Organization
clinic = record { id = "clinic"; status = "active" }

abbrev directory : Directory
directory = record {
  organizations = clinic ∷ record { id = "closed"; status = "suspended" } ∷ [];
  members =
      record { user_id = "ann"; organization_id = "clinic"; role = "owner" }
      ∷ record { user_id = "ann"; organization_id = "closed"; role = "owner" }
      ∷ [];
}

-- A hash for the tests: the length.
abbrev services : Services
services = record {
  verify_token = λ token. passed (record { id = "ann"; email = none });
  hash = length;
  directory = directory;
  keys = [];
  now = 100;
  is_enabled = λ org flag. str_eq org "clinic";
}

abbrev request : Option String → Request
request org = record {
  authorization = some (codes "Bearer t");
  x_api_key = none;
  x_organization_id = org;
  organization_param = none;
  user = none;
  organization_id = none;
  organization_role = none;
  organization_roles = [];
  api_key_id = none;
}

abbrev owners : Route
owners = record {
  is_public = false;
  accepts_api_key = false;
  skip_organization = false;
  roles = "owner" ∷ [];
  feature = some "content";
}

abbrev admitted : Request
admitted = record (request none) {
  user = some (record { id = "ann"; email = none });
  organization_id = some "clinic";
  organization_role = some "owner";
}

auth : Unit {0}
unfolding feature_flag_guard is_active is_membership role_for list_for verify issue revoke rank_of
    trim trim_start trim_end is_space admit auth_guard organization_guard roles_guard
    extract_bearer_token extract_api_key bearer_value requested_organization_id granted_roles
auth = tt

admitted_test : admit services owners (request none) ≡ passed admitted
unfolding auth
admitted_test = refl

-- A membership of a suspended organization does not count.
suspended_test :
    admit services owners (request (some "closed")) ≡ refused (forbidden "NOT_ORGANIZATION_MEMBER")
unfolding auth
suspended_test = refl

admit-BelongsTo_example :
    BelongsTo services admitted × Permitted owners admitted × Featured services owners admitted
admit-BelongsTo_example =
    admit-BelongsTo services owners (request none) admitted
      (record { user = refl; organization = refl; roles = refl; key = refl }) refl refl
      admitted_test

abbrev params : List String → IssueParams
params roles = record {
  organization_id = "clinic";
  name = codes "chat";
  roles = roles;
  issuer_role = "office_manager";
  created_by = none;
  expires_at = none;
  ghl_location_id = none;
  purpose = none;
}

abbrev digits : List ℕ
digits = codes "0123"

abbrev new_key : ApiKey
new_key = issued_key length 7 digits (params ("seo_specialist" ∷ []))

issued_test :
    issue length (clinic ∷ []) 7 digits (params ("seo_specialist" ∷ [])) [] ≡ passed (new_key ∷ [])
unfolding auth
issued_test = refl

-- An office manager cannot issue an owner's key.
overreach_test :
    issue length (clinic ∷ []) 7 digits (params ("owner" ∷ [])) []
    ≡ refused (forbidden "INSUFFICIENT_ROLE")
unfolding auth
overreach_test = refl

issue_capped_example :
    All (WithinIssuer "office_manager") ("seo_specialist" ∷ [])
    × (is_active (clinic ∷ []) "clinic" ≡ true)
    × (new_key ∷ [] ≡ [] ++ new_key ∷ [])
issue_capped_example =
    issue_capped length (clinic ∷ []) 7 digits (params ("seo_specialist" ∷ [])) [] (new_key ∷ [])
      issued_test

verify-issue_example :
    verify length (clinic ∷ []) 100 (raw_key digits) (new_key ∷ [])
    ≡ passed (record {
      api_key_id = 7;
      organization_id = "clinic";
      roles = "seo_specialist" ∷ [];
      ghl_location_id = (params ("seo_specialist" ∷ [])).ghl_location_id;
      purpose = "general";
    })
verify-issue_example =
    verify-issue length (clinic ∷ []) 100 7 digits (params ("seo_specialist" ∷ [])) []
      (new_key ∷ []) issued_test tt refl

abbrev other_key : ApiKey
other_key = record (issued_key length 8 (codes "01234") (params ("seo_specialist" ∷ []))) { id = 8 }

other_test :
    verify length
      (clinic ∷ [])
      100
      (codes "cap_01234")
      (revoke 50 7 "clinic" (new_key ∷ other_key ∷ []))
    ≡ passed (resolve other_key "clinic")
unfolding auth
other_test = refl

revoked_test :
    verify length
      (clinic ∷ [])
      100
      (raw_key digits)
      (revoke 50 7 "clinic" (new_key ∷ other_key ∷ []))
    ≡ refused (record { code = "INVALID_API_KEY"; status = 401 })
unfolding auth
revoked_test = refl
