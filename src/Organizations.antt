-- ===== src/Organizations.antt =====
-- backend/src/organizations/organization.service.ts, over the tables of its users, organizations and
-- members with their keys. A refused operation leaves the tables, as its transaction is undone; a
-- change that a constraint refuses for another reason than a unique key is reported as INTERNAL_ERROR.
-- The lower case of an e-mail address is a parameter, and the texts are lists of code units where they
-- are trimmed.
mod Rows
pub use Rows.*
pub mod Owners
pub mod Creation
mod Tests
use capere_ai.Base.{
  ℕ, Bool, true, false, not, ◌&&◌, ◌||◌, ◌==◌, Option, none, some, List, [], ◌∷◌, ◌++◌, String,
  str_eq, find, any, select, update, if◌then◌else◌, is_none, map,
}
use capere_ai.Auth.{Refusal, Checked, passed, refused, forbidden, bad_request}
use capere_ai.Rag.Text.{trim}
use capere_ai.Organizations.Rows.{
  OrgRole, ManageableRole, org_role, is_owner, is_capere_admin, UserRow, OrganizationRow, MemberRow,
  Tables, CreateOrganization, UpdateOrganization, AddOrganizationMember, not_found, conflict,
  internal, no_text, is_user, is_organization, new_user,
}

-- The insert with its `onConflict`.
unfoldable pub write_profile : ℕ → ℕ → List ℕ → List UserRow → List UserRow
write_profile now id email users =
    if any (is_user id) users
    then update (is_user id) (λ u. record u { email = email; last_seen_at = now }) users
    else users ++ new_user id email now ∷ []

abbrev pub profile_by : ℕ → ℕ → Tables → List ℕ → Checked Tables
profile_by now id t email =
    if no_text email
    then refused (bad_request "BAD_REQUEST")
    else passed (record t { users = write_profile now id email t.users })

abbrev pub normalized : (List ℕ → List ℕ) → Option (List ℕ) → List ℕ
normalized to_lower_case none = []
normalized to_lower_case (some email) = to_lower_case (trim email)

-- `ensureProfile`
unfoldable pub ensure_profile :
    (List ℕ → List ℕ) → ℕ → ℕ → Option (List ℕ) → Tables → Checked Tables
ensure_profile to_lower_case now id email t = profile_by now id t (normalized to_lower_case email)

-- A row with the member's id, or of its organization and user.
abbrev pub collides : MemberRow → MemberRow → Bool
collides new m =
    m.id == new.id || (m.organization_id == new.organization_id && m.user_id == new.user_id)

abbrev pub references : MemberRow → Tables → Bool
references new t =
    any (is_organization new.organization_id) t.organizations
    && any (is_user new.user_id) t.users
    && any (is_user new.invited_by) t.users

-- The insert into `capere.organization_members`, with the keys that it has to respect.
unfoldable pub insert_member : MemberRow → Tables → Checked Tables
insert_member new t =
    if any (collides new) t.members
    then refused conflict
    else if references new t
    then passed (record t { members = t.members ++ new ∷ [] })
    else refused internal

-- The insert into `capere.organizations`: the name is not empty, the id and the slug are new.
unfoldable pub insert_organization : OrganizationRow → Tables → Checked Tables
insert_organization new t =
    if no_text new.name
    then refused internal
    else if any (λ (o : OrganizationRow). o.id == new.id || str_eq o.slug new.slug) t.organizations
    then refused conflict
    else passed (record t { organizations = t.organizations ++ new ∷ [] })

abbrev pub and_then : Checked Tables → (Tables → Checked Tables) → Checked Tables
and_then (passed t) f = f t
and_then (refused r) f = refused r

abbrev pub new_owner : ℕ → ℕ → ℕ → MemberRow
new_owner member_id id user_id = record {
  id = member_id;
  organization_id = id;
  user_id = user_id;
  role = OrgRole.owner;
  invited_by = user_id;
}

-- The transaction of `create`.
unfoldable pub create_owned : ℕ → ℕ → ℕ → CreateOrganization → Tables → Checked Tables
create_owned id member_id user_id dto t =
    and_then
      (insert_organization
        (record { id = id; name = trim dto.name; slug = dto.slug; status = "active" }) t)
      (insert_member (new_owner member_id id user_id))

-- The tables after an operation, and what it refused.
abbrev pub answer : Tables → Checked Tables → Tables × Option Refusal
answer t (passed t') = (t', none)
answer t (refused r) = (t, some r)

abbrev pub create_with :
    ℕ → ℕ → ℕ → CreateOrganization → Tables → Checked Tables → Tables × Option Refusal
create_with id member_id user_id dto t (refused r) = (t, some r)
create_with id member_id user_id dto t (passed t') =
    answer t' (create_owned id member_id user_id dto t')

-- `create`, given the ids of the new rows. The profile stays where the rest is refused.
unfoldable pub create :
    (List ℕ → List ℕ)
    → ℕ
    → ℕ
    → ℕ
    → ℕ
    → Option (List ℕ)
    → CreateOrganization
    → Tables
    → Tables × Option Refusal
create to_lower_case now id member_id user_id email dto t =
    create_with id member_id user_id dto t (ensure_profile to_lower_case now user_id email t)

abbrev pub or_old {ℓ} : {A : Type ℓ} → A → Option A → A
or_old a none = a
or_old a (some b) = b

abbrev pub name_refused : Option (List ℕ) → Bool
name_refused none = false
name_refused (some name) = no_text (trim name)

abbrev pub trimmed : Option (List ℕ) → Option (List ℕ)
trimmed none = none
trimmed (some name) = some (trim name)

abbrev pub slug_taken : ℕ → Option String → List OrganizationRow → Bool
slug_taken id none rows = false
slug_taken id (some slug) rows =
    any (λ (o : OrganizationRow). str_eq o.slug slug && not (o.id == id)) rows

abbrev pub unless : Option Refusal → Tables → Checked Tables
unless none t = passed t
unless (some r) t = refused r

-- `update`, with what the database answers to an update that sets nothing.
unfoldable pub update_organization :
    Option Refusal → ℕ → UpdateOrganization → Tables → Checked Tables
update_organization empty_update id dto t =
    if is_none dto.name && is_none dto.slug
    then unless empty_update t
    else if not (any (is_organization id) t.organizations) || name_refused dto.name
    then refused internal
    else if slug_taken id dto.slug t.organizations
    then refused conflict
    else passed (record t {
      organizations =
          update (is_organization id)
            (λ o. record o {
              name = or_old o.name (trimmed dto.name);
              slug = or_old o.slug dto.slug;
            })
            t.organizations;
    })

abbrev pub get_by : Option OrganizationRow → Checked OrganizationRow
get_by none = refused not_found
get_by (some o) = passed o

-- `get`
unfoldable pub get : ℕ → Tables → Checked OrganizationRow
get id t = get_by (find (is_organization id) t.organizations)

-- `getProfile`; none where it throws.
unfoldable pub get_profile : ℕ → Tables → Option UserRow
get_profile id t = find (is_user id) t.users

abbrev pub join_one {ℓ κ} : {A : Type ℓ} {B : Type κ} → A → Option B → List (A × B) → List (A × B)
join_one a none rest = rest
join_one a (some b) rest = (a, b) ∷ rest

-- The inner joins of `listForUser` and `listMembers`, less their orders.
abbrev pub join {ℓ κ} : {A : Type ℓ} {B : Type κ} → (A → Option B) → List A → List (A × B)
join f [] = []
join f (a ∷ rest) = join_one a (f a) (join f rest)

unfoldable pub list_for_user : ℕ → Tables → List (MemberRow × OrganizationRow)
list_for_user user_id t =
    join (λ (m : MemberRow). find (is_organization m.organization_id) t.organizations)
      (select (λ (m : MemberRow). m.user_id == user_id) t.members)

unfoldable pub list_members : ℕ → Tables → List (MemberRow × UserRow)
list_members id t =
    join (λ (m : MemberRow). find (is_user m.user_id) t.users)
      (select (λ (m : MemberRow). m.organization_id == id) t.members)

-- `addMember`, given the id of the new row.
unfoldable pub add_member : ℕ → ℕ → ℕ → AddOrganizationMember → Tables → Checked Tables
add_member member_id id actor_id dto t =
    if any (is_user dto.user_id) t.users
    then insert_member
        (record {
          id = member_id;
          organization_id = id;
          user_id = dto.user_id;
          role = org_role dto.role;
          invited_by = actor_id;
        })
        t
    else refused not_found

-- `lockOrganization`
unfoldable pub lock_organization : ℕ → Tables → Checked Tables
lock_organization id t =
    if any (is_organization id) t.organizations then passed t else refused not_found

abbrev pub is_other_owner : ℕ → ℕ → MemberRow → Bool
is_other_owner id excluded m =
    (m.organization_id == id && is_owner m.role) && not (m.id == excluded)

-- `assertAnotherOwner`
unfoldable pub assert_another_owner : ℕ → ℕ → Tables → Checked Tables
assert_another_owner id excluded t =
    if any (is_other_owner id excluded) t.members then passed t else refused conflict

abbrev pub is_member_of : ℕ → ℕ → MemberRow → Bool
is_member_of id member_id m = m.id == member_id && m.organization_id == id

-- The checks of a member whose row is locked: `loses` says whether an owner would stop being one.
abbrev pub check_member : ℕ → ℕ → Bool → Option MemberRow → Tables → Checked Tables
check_member id member_id loses none t = refused not_found
check_member id member_id loses (some m) t =
    if is_capere_admin m.role
    then refused (forbidden "FORBIDDEN")
    else if is_owner m.role && loses
    then assert_another_owner id member_id t
    else passed t

abbrev pub with_member : ℕ → ℕ → Bool → Tables → Checked Tables
with_member id member_id loses t =
    check_member id member_id loses (find (is_member_of id member_id) t.members) t

abbrev pub set_role : ℕ → ManageableRole → Tables → Checked Tables
set_role member_id role t = passed (record t {
  members =
      update (λ (m : MemberRow). m.id == member_id) (λ m. record m { role = org_role role })
        t.members;
})

-- `updateMember`
unfoldable pub update_member : ℕ → ℕ → ManageableRole → Tables → Checked Tables
update_member id member_id role t =
    and_then
      (and_then (lock_organization id t)
        (with_member id member_id (not (is_owner (org_role role)))))
      (set_role member_id role)

abbrev pub delete_member : ℕ → Tables → Checked Tables
delete_member member_id t =
    passed (record t { members = select (λ (m : MemberRow). not (m.id == member_id)) t.members })

-- `removeMember`
unfoldable pub remove_member : ℕ → ℕ → Tables → Checked Tables
remove_member id member_id t =
    and_then (and_then (lock_organization id t) (with_member id member_id true))
      (delete_member member_id)
