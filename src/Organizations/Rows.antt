-- ===== src/Organizations/Rows.antt =====
-- The rows of capere.users, organizations and organization_members, and the bodies of the requests
-- (organization.dto.ts).
use capere_ai.Base.{ℕ, Bool, true, false, ◌==◌, Option, none, List, [], ◌∷◌, String}
use capere_ai.Auth.{Refusal}

-- `OrgRole`
pub data OrgRole : Type 0 where
  owner : OrgRole
  office_manager : OrgRole
  marketing_manager : OrgRole
  seo_specialist : OrgRole
  capere_admin : OrgRole

-- `MANAGEABLE_ROLES`, which the body of a request may name.
pub data ManageableRole : Type 0 where
  owner : ManageableRole
  office_manager : ManageableRole
  marketing_manager : ManageableRole
  seo_specialist : ManageableRole

abbrev pub org_role : ManageableRole → OrgRole
org_role ManageableRole.owner = OrgRole.owner
org_role ManageableRole.office_manager = OrgRole.office_manager
org_role ManageableRole.marketing_manager = OrgRole.marketing_manager
org_role ManageableRole.seo_specialist = OrgRole.seo_specialist

abbrev pub is_owner : OrgRole → Bool
is_owner OrgRole.owner = true
is_owner _ = false

abbrev pub is_capere_admin : OrgRole → Bool
is_capere_admin OrgRole.capere_admin = true
is_capere_admin _ = false

pub record UserRow : Type 0 where
  pub id : ℕ
  pub email : List ℕ
  pub full_name : Option String
  pub avatar_url : Option String
  pub last_seen_at : ℕ

pub record OrganizationRow : Type 0 where
  pub id : ℕ
  pub name : List ℕ
  pub slug : String
  pub status : String

pub record MemberRow : Type 0 where
  pub id : ℕ
  pub organization_id : ℕ
  pub user_id : ℕ
  pub role : OrgRole
  pub invited_by : ℕ

pub record Tables : Type 0 where
  pub users : List UserRow
  pub organizations : List OrganizationRow
  pub members : List MemberRow

pub record CreateOrganization : Type 0 where
  pub name : List ℕ
  pub slug : String

pub record UpdateOrganization : Type 0 where
  pub name : Option (List ℕ)
  pub slug : Option String

pub record AddOrganizationMember : Type 0 where
  pub user_id : ℕ
  pub role : ManageableRole

abbrev pub not_found : Refusal
not_found = record { code = "NOT_FOUND"; status = 404 }

abbrev pub conflict : Refusal
conflict = record { code = "CONFLICT"; status = 409 }

abbrev pub internal : Refusal
internal = record { code = "INTERNAL_ERROR"; status = 500 }

abbrev pub no_text : List ℕ → Bool
no_text [] = true
no_text (c ∷ s) = false

abbrev pub is_user : ℕ → UserRow → Bool
is_user id u = u.id == id

abbrev pub is_organization : ℕ → OrganizationRow → Bool
is_organization id o = o.id == id

abbrev pub new_user : ℕ → List ℕ → ℕ → UserRow
new_user id email now = record {
  id = id;
  email = email;
  full_name = none;
  avatar_url = none;
  last_seen_at = now;
}
