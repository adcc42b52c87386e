-- ===== src/Organizations/Tests.antt =====
-- One organization, its members, and the last owner.
use capere_ai.Base.{◌≡◌, refl, none, some, List, [], ◌∷◌}
use capere_ai.Auth.{refused}
use capere_ai.Rag.Text.{is_space, trim_start, trim_end, trim}
use capere_ai.Organizations.{
  ManageableRole, Tables, CreateOrganization, new_user, write_profile, ensure_profile,
  insert_member, insert_organization, create_owned, create, update_organization, add_member,
  lock_organization, assert_another_owner, update_member, remove_member, conflict, list_for_user,
  list_members, get, get_profile,
}
use capere_ai.Organizations.Owners.{is_owner_of, OwnedBy, HasOwners}
use capere_ai.Organizations.Owners.Steps.{Operation, step, run, run-HasOwners}
use capere_ai.Organizations.Creation.{CreateOutcome}

unfolds : Unit {0}
unfolding is_space trim_start trim_end trim write_profile ensure_profile insert_member
    insert_organization create_owned create update_organization add_member lock_organization
    assert_another_owner update_member remove_member list_for_user list_members get get_profile
    is_owner_of OwnedBy HasOwners step run CreateOutcome
unfolds = tt

abbrev empty : Tables
empty = record { users = new_user 9 (98 ∷ []) 0 ∷ []; organizations = []; members = [] }

abbrev firm : CreateOrganization
firm = record { name = 32 ∷ 65 ∷ []; slug = "a" }

abbrev ops : List Operation
ops =
    Operation.creates 5 1 1 7 (some (97 ∷ [])) firm
    ∷ Operation.removes 1 1
    ∷ Operation.adds 2 1 7 (record { user_id = 9; role = ManageableRole.owner })
    ∷ Operation.sets_role 1 1 ManageableRole.seo_specialist
    ∷ Operation.removes 1 2
    ∷ []

abbrev made : Tables
made = (create (λ e. e) 5 1 1 7 (some (97 ∷ [])) firm empty).0

last_owner_stays : remove_member 1 1 made ≡ refused conflict
unfolding unfolds
last_owner_stays = refl

run-HasOwners_example : HasOwners (run (λ e. e) none ops empty)
unfolding unfolds
run-HasOwners_example = run-HasOwners (λ e. e) none ops empty (tt, tt)
