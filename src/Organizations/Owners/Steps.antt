-- ===== src/Organizations/Owners/Steps.antt =====
-- Sequences of the operations that write.
use capere_ai.Base.{
  ℕ, ◌≡◌, refl, sym, subst, ap, Bool, true, false, not, ◌&&◌, ◌||◌, Option, none, some, List, [],
  ◌∷◌, ◌++◌, map, arith, find, any, All, All-imp, All-append, All-update, Distinct, Distinct-concat,
  elem-of_ne, Bool-cases, inl, inr, any-append, All-not_any, ◌≢◌,
}
use capere_ai.Auth.{Refusal, Checked, passed, refused, refused_if, passed_if, passed_same}
use capere_ai.Organizations.{
  ManageableRole, org_role, is_owner, OrganizationRow, MemberRow, Tables, CreateOrganization,
  UpdateOrganization, AddOrganizationMember, ensure_profile, normalized, collides, references,
  insert_member, insert_organization, and_then, new_owner, create_owned, answer, create_with,
  create, unless, update_organization, add_member, conflict, internal, not_found, is_organization,
  is_user, no_text, lock_organization, is_member_of, with_member, set_role, update_member,
  delete_member, remove_member, or_old, trimmed, is_none, name_refused, slug_taken,
}
use capere_ai.Rag.Text.{trim}
use capere_ai.Organizations.Owners.{
  is_owner_of, member_id, OwnedBy, HasOwners, Spared, checked, HasOwners-update, HasOwners-select,
}

-- The operations with the ids of the rows that they add.
pub data Operation : Type 0 where
  creates : ℕ → ℕ → ℕ → ℕ → Option (List ℕ) → CreateOrganization → Operation
  updates : ℕ → UpdateOrganization → Operation
  adds : ℕ → ℕ → ℕ → AddOrganizationMember → Operation
  sets_role : ℕ → ℕ → ManageableRole → Operation
  removes : ℕ → ℕ → Operation
  visits : ℕ → ℕ → Option (List ℕ) → Operation

module _ (to_lower_case : List ℕ → List ℕ) (empty_update : Option Refusal) where
  unfoldable pub step : Operation → Tables → Tables × Option Refusal
  step (creates now id member user email dto) t =
      create to_lower_case now id member user email dto t
  step (updates id dto) t = answer t (update_organization empty_update id dto t)
  step (adds member id actor dto) t = answer t (add_member member id actor dto t)
  step (sets_role id member role) t = answer t (update_member id member role t)
  step (removes id member) t = answer t (remove_member id member t)
  step (visits now user email) t = answer t (ensure_profile to_lower_case now user email t)

  unfoldable pub run : List Operation → Tables → Tables
  run [] t = t
  run (o ∷ os) t = run os ((step o t).0)

-- What holds of the tables of an answer where it holds of those before and of those that pass.
HasOwners-answer :
    (t : Tables) (c : Checked Tables)
    → HasOwners t
    → ((t' : Tables) → c ≡ passed t' → HasOwners t')
    → HasOwners ((answer t c).0)
HasOwners-answer t (passed t') inv h = h t' refl
HasOwners-answer t (refused r) inv h = inv

pub and_then_passed :
    (c : Checked Tables) (f : Tables → Checked Tables) (t' : Tables)
    → and_then c f ≡ passed t'
    → (t : Tables) × (c ≡ passed t) × (f t ≡ passed t')
and_then_passed (passed t) f t' h = (t, refl, h)
and_then_passed (refused r) f t' h = absurd cc

-- The members and the organizations are all that matters.
HasOwners-same :
    (t t' : Tables)
    → t.members ≡ t'.members
    → t.organizations ≡ t'.organizations
    → HasOwners t
    → HasOwners t'
unfolding HasOwners
HasOwners-same t t' m o (d, owned) = (
  subst (λ ms. Distinct (map member_id ms)) m d,
  subst (λ ms. All (OwnedBy ms) t'.organizations) m
      (subst (λ os. All (OwnedBy t.members) os) o owned),
)

pub new_member :
    (new : MemberRow) (t t' : Tables)
    → insert_member new t ≡ passed t'
    → (any (collides new) t.members ≡ false) × (record t { members = t.members ++ new ∷ [] } ≡ t')
unfolding insert_member
new_member new t t' h =
    let fresh = refused_if (any (collides new) t.members) conflict _ t' h in
    (fresh.0, passed_same _ t' ((passed_if (references new t) internal _ t' fresh.1).1))

Distinct-new :
    (new : MemberRow) (ms : List MemberRow)
    → any (collides new) ms ≡ false
    → Distinct (map member_id ms)
    → Distinct (map member_id (ms ++ new ∷ []))
Distinct-new new ms fresh d =
    Distinct-concat member_id ms new
      (elem-of_ne member_id new.id ms (
        All-imp (λ m. collides new m ≡ false) (λ m. m.id ≢ new.id) (λ m h. ground arith) ms
          (All-not_any (collides new) ms fresh)))
      d

HasOwners-insert_member :
    (new : MemberRow) (t t' : Tables) → HasOwners t → insert_member new t ≡ passed t' → HasOwners t'
unfolding HasOwners OwnedBy
HasOwners-insert_member new t t' inv h =
    let done = new_member new t t' h in
    subst HasOwners done.1 (
      Distinct-new new t.members done.0 inv.0,
      All-imp (OwnedBy t.members) (OwnedBy (t.members ++ new ∷ []))
          (λ o owned. rw (any-append (is_owner_of o.id) t.members new) (ground (arith, owned)))
          t.organizations inv.1,
    )

HasOwners-create_owned :
    (id member user : ℕ) (dto : CreateOrganization) (t t' : Tables)
    → HasOwners t
    → create_owned id member user dto t ≡ passed t'
    → HasOwners t'
unfolding create_owned insert_organization HasOwners OwnedBy is_owner_of
HasOwners-create_owned id member user dto t t' inv h =
    let new = new_owner member id user in
    let both = and_then_passed _ (insert_member new) t' h in
    let named = refused_if (no_text (trim dto.name)) internal _ both.0 both.1 in
    let org : OrganizationRow = record {
      id = id;
      name = trim dto.name;
      slug = dto.slug;
      status = "active";
    } in
    let t1 : Tables = record t { organizations = t.organizations ++ org ∷ [] } in
    let added : t1 ≡ both.0 =
      passed_same t1 both.0 ((refused_if _ conflict (passed t1) both.0 named.1).1) in
    let done =
      new_member new t1 t' (subst (λ x. insert_member new x ≡ passed t') (sym added) both.2) in
    subst HasOwners done.1 (
      Distinct-new new t.members done.0 inv.0,
      All-append (OwnedBy (t.members ++ new ∷ [])) t.organizations (org ∷ [])
          (All-imp (OwnedBy t.members) (OwnedBy (t.members ++ new ∷ []))
            (λ o owned. rw (any-append (is_owner_of o.id) t.members new) (ground (arith, owned)))
            t.organizations inv.1)
          (rw (any-append (is_owner_of id) t.members new) ground arith, tt),
    )

HasOwners-ensure_profile :
    (to_lower_case : List ℕ → List ℕ) (now user : ℕ) (email : Option (List ℕ)) (t t' : Tables)
    → HasOwners t
    → ensure_profile to_lower_case now user email t ≡ passed t'
    → HasOwners t'
unfolding ensure_profile
HasOwners-ensure_profile to_lower_case now user email t t' inv h =
    let done =
      passed_same _ t' ((refused_if (no_text (normalized to_lower_case email)) _ _ t' h).1) in
    HasOwners-same t t' (ap (λ (x : Tables). x.members) done)
      (ap (λ (x : Tables). x.organizations) done) inv

HasOwners-create :
    (to_lower_case : List ℕ → List ℕ) (now id member user : ℕ) (email : Option (List ℕ))
    (dto : CreateOrganization)
    → (t : Tables) → HasOwners t
    → HasOwners ((create to_lower_case now id member user email dto t).0)
unfolding create
HasOwners-create to_lower_case now id member user email dto t inv =
    go (ensure_profile to_lower_case now user email t) refl
  where
    go :
        (c : Checked Tables)
        → ensure_profile to_lower_case now user email t ≡ c
        → HasOwners ((create_with id member user dto t c).0)
    go (refused r) e = inv
    go (passed t1) e =
        let inv1 = HasOwners-ensure_profile to_lower_case now user email t t1 inv e in
        HasOwners-answer t1 (create_owned id member user dto t1) inv1
          (λ t' h. HasOwners-create_owned id member user dto t1 t' inv1 h)

nothing_set :
    (r : Option Refusal) (t t' : Tables) → HasOwners t → unless r t ≡ passed t' → HasOwners t'
nothing_set none t t' inv h = subst HasOwners (passed_same t t' h) inv
nothing_set (some r) t t' inv h = absurd cc

HasOwners-update_organization :
    (empty_update : Option Refusal) (id : ℕ) (dto : UpdateOrganization) (t t' : Tables)
    → HasOwners t
    → update_organization empty_update id dto t ≡ passed t'
    → HasOwners t'
unfolding update_organization HasOwners OwnedBy
HasOwners-update_organization empty_update id dto t t' inv h =
    elim (Bool-cases (is_none dto.name && is_none dto.slug)) [
      | inl y ↦ nothing_set empty_update t t' inv (rw y at h)
      | inr n ↦
          let change = λ (o : OrganizationRow). record o {
            name = or_old o.name (trimmed dto.name);
            slug = or_old o.slug dto.slug;
          } in
          let fits =
            refused_if (not (any (is_organization id) t.organizations) || name_refused dto.name)
              internal _ t' (rw n at h) in
          let done =
            passed_same _ t'
              ((refused_if (slug_taken id dto.slug t.organizations) conflict _ t' fits.1).1) in
          subst HasOwners done (
            inv.0,
            All-update (OwnedBy t.members) (OwnedBy t.members) (is_organization id) change
                (λ o owned e. owned) (λ o owned e. owned) t.organizations inv.1,
          )
    ]

HasOwners-add_member :
    (member id actor : ℕ) (dto : AddOrganizationMember) (t t' : Tables)
    → HasOwners t
    → add_member member id actor dto t ≡ passed t'
    → HasOwners t'
unfolding add_member
HasOwners-add_member member id actor dto t t' inv h =
    HasOwners-insert_member _ t t' inv
      ((passed_if (any (is_user dto.user_id) t.users) not_found _ t' h).1)

spared :
    (id member : ℕ) (loses : Bool) (t t' : Tables)
    → and_then (lock_organization id t) (with_member id member loses) ≡ passed t'
    → (t ≡ t') × ((m : MemberRow) × Spared id member loses t.members m)
unfolding lock_organization
spared id member loses t t' h =
    let locked = and_then_passed _ (with_member id member loses) t' h in
    let same = passed_same t locked.0 (
      (passed_if (any (is_organization id) t.organizations) not_found (passed t) locked.0
        locked.1).1) in
    checked id member loses t t' (find (is_member_of id member) t.members) refl
      (subst (λ x. with_member id member loses x ≡ passed t') (sym same) locked.2)

HasOwners-update_member :
    (id member : ℕ) (role : ManageableRole) (t t' : Tables)
    → HasOwners t
    → update_member id member role t ≡ passed t'
    → HasOwners t'
unfolding update_member
HasOwners-update_member id member role t t' inv h =
    let loses = not (is_owner (org_role role)) in
    let both = and_then_passed _ (set_role member role) t' h in
    let ok = spared id member loses t both.0 both.1 in
    subst HasOwners
      (passed_same _ t' (subst (λ x. set_role member role x ≡ passed t') (sym (ok.0)) both.2))
      (HasOwners-update t id member (ok.1.0) inv loses (λ m. record m { role = org_role role })
        (λ x. refl) (λ x. refl) (λ x k. ground arith) (ok.1.1))

HasOwners-remove_member :
    (id member : ℕ) (t t' : Tables)
    → HasOwners t
    → remove_member id member t ≡ passed t'
    → HasOwners t'
unfolding remove_member
HasOwners-remove_member id member t t' inv h =
    let both = and_then_passed _ (delete_member member) t' h in
    let ok = spared id member true t both.0 both.1 in
    subst HasOwners
      (passed_same _ t' (subst (λ x. delete_member member x ≡ passed t') (sym (ok.0)) both.2))
      (HasOwners-select t id member (ok.1.0) inv (ok.1.1))

module _ (to_lower_case : List ℕ → List ℕ) (empty_update : Option Refusal) where
  HasOwners-step :
      (o : Operation) (t : Tables)
      → HasOwners t
      → HasOwners ((step to_lower_case empty_update o t).0)
  unfolding step
  HasOwners-step (Operation.creates now id member user email dto) t inv =
      HasOwners-create to_lower_case now id member user email dto t inv
  HasOwners-step (Operation.updates id dto) t inv =
      HasOwners-answer t _ inv
        (λ t' h. HasOwners-update_organization empty_update id dto t t' inv h)
  HasOwners-step (Operation.adds member id actor dto) t inv =
      HasOwners-answer t _ inv (λ t' h. HasOwners-add_member member id actor dto t t' inv h)
  HasOwners-step (Operation.sets_role id member role) t inv =
      HasOwners-answer t _ inv (λ t' h. HasOwners-update_member id member role t t' inv h)
  HasOwners-step (Operation.removes id member) t inv =
      HasOwners-answer t _ inv (λ t' h. HasOwners-remove_member id member t t' inv h)
  HasOwners-step (Operation.visits now user email) t inv =
      HasOwners-answer t _ inv
        (λ t' h. HasOwners-ensure_profile to_lower_case now user email t t' inv h)

  -- Where the members have distinct ids and each organization has an owner, the same holds after any
  -- sequence of operations, refused ones included.
  pub run-HasOwners :
      (os : List Operation) (t : Tables)
      → HasOwners t
      → HasOwners (run to_lower_case empty_update os t)
  unfolding run
  run-HasOwners [] t inv = inv
  run-HasOwners (o ∷ os) t inv =
      run-HasOwners os ((step to_lower_case empty_update o t).0) (HasOwners-step o t inv)
