-- ===== src/Auth.antt =====
-- backend/src/auth: who may call a route, and for which organization. Roles and ids are texts, as
-- they come from the client and the database; an id that is no UUID matches no row here, where the
-- database reports an error. Of a refusal the code and the HTTP status are kept.
pub mod ApiKeys
pub mod Guards
pub mod Isolation
mod Tests
use capere_ai.Base.{
  ℕ, not, Bool, true, false, ◌&&◌, Option, none, some, List, [], ◌∷◌, map, String, str_eq, find,
  any, select, ◌≡◌, refl, if◌then◌else◌,
}

pub record Refusal : Type 0 where
  pub code : String
  pub status : ℕ

pub data Checked {ℓ} (A : Type ℓ) : Type ℓ where
  passed : A → Checked A
  refused : Refusal → Checked A

abbrev pub unauthorized : String → Refusal
unauthorized code = record { code = code; status = 401 }

abbrev pub forbidden : String → Refusal
forbidden code = record { code = code; status = 403 }

abbrev pub bad_request : String → Refusal
bad_request code = record { code = code; status = 400 }

-- The columns of `capere.organizations` and `capere.organization_members` that are read.
pub record Organization : Type 0 where
  pub id : String
  pub status : String

pub record Member : Type 0 where
  pub user_id : String
  pub organization_id : String
  pub role : String

pub record Directory : Type 0 where
  pub organizations : List Organization
  pub members : List Member

-- The join with an organization whose status is `active`.
unfoldable pub is_active : List Organization → String → Bool
is_active orgs id = any (λ o. str_eq o.id id && str_eq o.status "active") orgs

unfoldable pub is_membership : String → String → Member → Bool
is_membership user org m = str_eq m.user_id user && str_eq m.organization_id org

abbrev pub role_of : Option Member → Option String
role_of none = none
role_of (some m) = some m.role

-- `roleFor`
unfoldable pub role_for : Directory → String → String → Option String
unfolding is_active is_membership
role_for d user org =
    role_of (
      find (λ m. is_membership user org m && is_active d.organizations m.organization_id) d.members)

-- `listFor`, less its order by name, on which its callers do not depend.
unfoldable pub list_for : Directory → String → List Member
unfolding is_active
list_for d user =
    select (λ m. str_eq m.user_id user && is_active d.organizations m.organization_id) d.members

-- A test that refuses was not met where the whole passes.
pub refused_if {ℓ} :
    {A : Type ℓ} (b : Bool) (r : Refusal) (rest : Checked A) (a : A)
    → (if b then refused r else rest) ≡ passed a
    → (b ≡ false) × (rest ≡ passed a)
refused_if true r rest a h = absurd cc
refused_if false r rest a h = (refl, h)

pub passed_same {ℓ} : {A : Type ℓ} (a b : A) → passed a ≡ passed b → a ≡ b
passed_same a b h = cc

-- A test that lets pass was met where the whole passes.
pub passed_if {ℓ} :
    {A : Type ℓ} (b : Bool) (r : Refusal) (rest : Checked A) (a : A)
    → (if b then rest else refused r) ≡ passed a
    → (b ≡ true) × (rest ≡ passed a)
passed_if true r rest a h = (refl, h)
passed_if false r rest a h = absurd cc

pub true_if : (b : Bool) → not b ≡ false → b ≡ true
true_if true h = refl
true_if false h = absurd cc
