-- ===== src/Organizations/Creation.antt =====
-- `create` as a whole.
use capere_ai.Base.{ℕ, ◌≡◌, refl, sym, subst, ap, Option, none, some, List, [], ◌∷◌, ◌++◌}
use capere_ai.Auth.{Refusal, Checked, passed, refused, refused_if, passed_same}
use capere_ai.Rag.Text.{trim}
use capere_ai.Organizations.{
  OrganizationRow, MemberRow, Tables, CreateOrganization, ensure_profile, write_profile, normalized,
  insert_member, insert_organization, new_owner, create_owned, answer, create_with, create,
  conflict, internal, no_text,
}
use capere_ai.Organizations.Owners.Steps.{new_member, and_then_passed}

-- What comes of it: the organization with its owner, or no change of the two tables.
unfoldable pub CreateOutcome :
    ℕ
    → ℕ
    → ℕ
    → CreateOrganization
    → List OrganizationRow
    → List MemberRow
    → Tables × Option Refusal
    → Type 0
CreateOutcome id member user dto os ms (t', none) =
    (t'.organizations
      ≡ os ++ record { id = id; name = trim dto.name; slug = dto.slug; status = "active" } ∷ [])
    × (t'.members ≡ ms ++ new_owner member id user ∷ [])
CreateOutcome id member user dto os ms (t', some r) = (t'.organizations ≡ os) × (t'.members ≡ ms)

module _ (id member user : ℕ) (dto : CreateOrganization) where
  CreateOutcome-owned :
      (t : Tables) (c : Checked Tables)
      → create_owned id member user dto t ≡ c
      → CreateOutcome id member user dto t.organizations t.members (answer t c)
  unfolding create_owned insert_organization CreateOutcome
  CreateOutcome-owned t (refused r) h = (refl, refl)
  CreateOutcome-owned t (passed t') h =
      let new = new_owner member id user in
      let both = and_then_passed _ (insert_member new) t' h in
      let named = refused_if (no_text (trim dto.name)) internal _ both.0 both.1 in
      let org : OrganizationRow = record {
        id = id;
        name = trim dto.name;
        slug = dto.slug;
        status = "active";
      } in
      let t1 : Tables = record t { organizations = t.organizations ++ org ∷ [] } in
      let added : t1 ≡ both.0 =
        passed_same t1 both.0 ((refused_if _ conflict (passed t1) both.0 named.1).1) in
      let done =
        (new_member new t1 t'
          (subst (λ x. insert_member new x ≡ passed t') (sym added) both.2)).1 in
      (sym (ap (λ (x : Tables). x.organizations) done), sym (ap (λ (x : Tables). x.members) done))

  CreateOutcome-with :
      (to_lower_case : List ℕ → List ℕ) (now : ℕ) (email : Option (List ℕ)) (t : Tables)
      (c : Checked Tables)
      → ensure_profile to_lower_case now user email t ≡ c
      → CreateOutcome id member user dto t.organizations t.members
          (create_with id member user dto t c)
  unfolding CreateOutcome ensure_profile
  CreateOutcome-with to_lower_case now email t (refused r) h = (refl, refl)
  CreateOutcome-with to_lower_case now email t (passed t1) h =
      let done =
        passed_same _ t1 ((refused_if (no_text (normalized to_lower_case email)) _ _ t1 h).1) in
      subst
        (λ (x : Tables).
          CreateOutcome id member user dto t.organizations t.members
            (answer x (create_owned id member user dto x)))
        done
        (CreateOutcome-owned
          (record t { users = write_profile now user (normalized to_lower_case email) t.users }) _
          refl)

  -- An organization is created together with the caller as its owner, the name trimmed; a refused
  -- creation leaves organizations and members as they were.
  pub create-CreateOutcome :
      (to_lower_case : List ℕ → List ℕ) (now : ℕ) (email : Option (List ℕ)) (t : Tables)
      → CreateOutcome id member user dto t.organizations t.members
          (create to_lower_case now id member user email dto t)
  unfolding create
  create-CreateOutcome to_lower_case now email t =
      CreateOutcome-with to_lower_case now email t (ensure_profile to_lower_case now user email t)
        refl
