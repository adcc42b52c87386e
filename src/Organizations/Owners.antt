-- ===== src/Organizations/Owners.antt =====
-- What the checks of a member's row are for: each organization keeps an owner.
pub mod Steps
use capere_ai.Base.{
  ℕ, ◌≡◌, refl, sym, subst, ap, ◌∙◌, Bool, true, false, not, ◌&&◌, ◌||◌, ◌==◌, Option, none, some,
  List, [], ◌∷◌, ◌++◌, map, arith, find, any, select, update, All, All-imp, All-update, Distinct,
  Distinct-select, Distinct-concat, map-update, elem, Bool-cases, Option-cases, inl, inr, ◌⊎◌,
  if◌then◌else◌, some_same, find-holds, any-append, All-not_any,
}
use capere_ai.Auth.{
  Refusal, Checked, passed, refused, forbidden, refused_if, passed_if, passed_same,
}
use capere_ai.Organizations.{
  OrgRole, ManageableRole, org_role, is_owner, is_capere_admin, OrganizationRow, MemberRow, Tables,
  CreateOrganization, UpdateOrganization, AddOrganizationMember, ensure_profile, collides,
  references, insert_member, insert_organization, and_then, new_owner, create_owned, answer,
  create_with, create, unless, update_organization, add_member, conflict, internal, not_found,
  is_organization, is_user, no_text, lock_organization, is_other_owner, assert_another_owner,
  is_member_of, check_member, with_member, set_role, update_member, delete_member, remove_member,
}

unfoldable pub is_owner_of : ℕ → MemberRow → Bool
is_owner_of org m = m.organization_id == org && is_owner m.role

abbrev pub member_id : MemberRow → ℕ
member_id m = m.id

unfoldable pub OwnedBy : List MemberRow → OrganizationRow → Type 0
OwnedBy members o = any (is_owner_of o.id) members ≡ true

-- The members have distinct ids, and each organization has an owner.
unfoldable pub HasOwners : Tables → Type 0
HasOwners t = Distinct (map member_id t.members) × All (OwnedBy t.members) t.organizations

module _ (p : MemberRow → Bool) (k : ℕ) where
  untouched :
      (xs : List MemberRow)
      → elem k (map member_id xs) ≡ false
      → select (λ (m : MemberRow). not (m.id == k)) xs ≡ xs
  untouched [] new = refl
  untouched (x ∷ xs) new = ground (arith, untouched xs)

  not_updated :
      (f : MemberRow → MemberRow) (xs : List MemberRow)
      → elem k (map member_id xs) ≡ false
      → update (λ (m : MemberRow). m.id == k) f xs ≡ xs
  not_updated f [] new = refl
  not_updated f (x ∷ xs) new = ground (arith, not_updated f xs)

  there :
      (q : MemberRow → Bool) (xs : List MemberRow) (m : MemberRow)
      → find q xs ≡ some m
      → elem m.id (map member_id xs) ≡ true
  there q [] m h = absurd cc
  there q (x ∷ xs) m h = elim (Bool-cases (q x)) [
    | inl y ↦ ground (arith, ap member_id (some_same x m (rw y at h)))
    | inr n ↦ ground (arith, there q xs m (rw n at h))
  ]

  -- Where one row has the id, a change of it leaves the others.
  any-split :
      (f : MemberRow → MemberRow) (org : ℕ) (m : MemberRow) (xs : List MemberRow)
      → Distinct (map member_id xs)
      → find (is_member_of org k) xs ≡ some m
      → (any p xs ≡ p m || any p (select (λ (m : MemberRow). not (m.id == k)) xs))
        × (any p (update (λ (m : MemberRow). m.id == k) f xs)
            ≡ p (f m) || any p (select (λ (m : MemberRow). not (m.id == k)) xs))
  any-split f org m [] d h = absurd cc
  any-split f org m (x ∷ xs) (new, d) h = elim (Bool-cases (is_member_of org k x)) [
    | inl y ↦
        let same : x ≡ m = some_same x m (rw y at h) in
        let here : (x.id == k) ≡ true = ground arith in
        let gone : elem k (map member_id xs) ≡ false = ground arith in
        rw (here, untouched xs gone, not_updated f xs gone)
          (ap (λ z. p z || any p xs) same, ap (λ z. p (f z) || any p xs) same)
    | inr n ↦
        let found : find (is_member_of org k) xs ≡ some m = rw n at h in
        let rest = any-split f org m xs d found in
        let other : (x.id == k) ≡ false = ground (
          arith,
          there (is_member_of org k) xs m found,
          find-holds (is_member_of org k) xs m found,
        ) in
        rw other (ground (arith, rest.0), ground (arith, rest.1))
  ]

-- What the checks of a member say where they pass.
unfoldable pub Spared : ℕ → ℕ → Bool → List MemberRow → MemberRow → Type 0
Spared org k loses xs m =
    (find (is_member_of org k) xs ≡ some m)
    × (is_owner m.role && loses ≡ true
        → any (is_owner_of org) (select (λ (m : MemberRow). not (m.id == k)) xs) ≡ true)

other_owner :
    (org k : ℕ) (xs : List MemberRow)
    → any (is_other_owner org k) xs
      ≡ any (is_owner_of org) (select (λ (m : MemberRow). not (m.id == k)) xs)
unfolding is_owner_of
other_owner org k [] = refl
other_owner org k (x ∷ xs) = ground (arith, other_owner org k xs)

module _ (org k : ℕ) (loses : Bool) (t t' : Tables) where
  pub checked :
      (o : Option MemberRow)
      → find (is_member_of org k) t.members ≡ o
      → check_member org k loses o t ≡ passed t'
      → (t ≡ t') × ((m : MemberRow) × Spared org k loses t.members m)
  unfolding Spared assert_another_owner
  checked none e h = absurd cc
  checked (some m) e h =
      let fine = refused_if (is_capere_admin m.role) (forbidden "FORBIDDEN") _ t' h in
      elim (Bool-cases (is_owner m.role && loses)) [
        | inl y ↦
            let met =
              passed_if (any (is_other_owner org k) t.members) conflict (passed t) t'
                (rw y at fine.1) in
            (passed_same t t' met.1, (m, (e, λ _. sym (other_owner org k t.members) ∙ met.0)))
        | inr n ↦ (passed_same t t' (rw n at fine.1), (m, (e, λ y. absurd cc)))
      ]

-- One member's row is changed, or is gone, and the organizations are as they were.
module _ (t : Tables) (org k : ℕ) (m : MemberRow) (inv : HasOwners t) where
  abbrev others : List MemberRow
  others = select (λ (x : MemberRow). not (x.id == k)) t.members

  -- An owner is among the other rows, or is this one and stays an owner.
  owner_left :
      (loses : Bool) (j : ℕ)
      → Spared org k loses t.members m
      → any (is_owner_of j) t.members ≡ true
      → (any (is_owner_of j) others ≡ true) ⊎ ((is_owner_of j m ≡ true) × (loses ≡ false))
  unfolding HasOwners Spared is_owner_of
  owner_left loses j (found, spared) owned =
      let split = any-split (is_owner_of j) k (λ x. x) org m t.members inv.0 found in
      let own = find-holds (is_member_of org k) t.members m found in
      elim (Bool-cases (any (is_owner_of j) others)) [
        | inl y ↦ inl y
        | inr n ↦
            let mine : is_owner_of j m ≡ true = ground (arith, split.0) in
            let same : org ≡ j = ground arith in
            elim (Bool-cases loses) [
              | inl l ↦ absurd (
                  ground (
                    arith,
                    subst (λ i. any (is_owner_of i) others ≡ true) same (spared (ground arith)),
                  ))
              | inr l ↦ inr (mine, l)
            ]
      ]

  pub HasOwners-update :
      (loses : Bool) (f : MemberRow → MemberRow)
      → ((x : MemberRow) → (f x).id ≡ x.id)
      → ((x : MemberRow) → (f x).organization_id ≡ x.organization_id)
      → ((x : MemberRow) → loses ≡ false → is_owner (f x).role ≡ true)
      → Spared org k loses t.members m
      → HasOwners (record t { members = update (λ (x : MemberRow). x.id == k) f t.members })
  unfolding HasOwners Spared OwnedBy is_owner_of
  HasOwners-update loses f same_id same_org keeps spared = (
    rw (map-update member_id (λ (x : MemberRow). x.id == k) f same_id t.members) inv.0,
    All-imp (OwnedBy t.members) (OwnedBy (update (λ (x : MemberRow). x.id == k) f t.members))
        (λ o owned.
          let split = any-split (is_owner_of o.id) k f org m t.members inv.0 spared.0 in
          elim (owner_left loses o.id spared owned) [
            | inl y ↦ ground (arith, split.1)
            | inr (mine, l) ↦ ground (arith, split.1, same_org m, keeps m l)
          ])
        t.organizations inv.1,
  )

  pub HasOwners-select :
      Spared org k true t.members m
      → HasOwners (record t { members = select (λ (x : MemberRow). not (x.id == k)) t.members })
  unfolding HasOwners OwnedBy
  HasOwners-select spared = (
    Distinct-select member_id (λ (x : MemberRow). not (x.id == k)) t.members inv.0,
    All-imp (OwnedBy t.members) (OwnedBy (select (λ (x : MemberRow). not (x.id == k)) t.members))
        (λ o owned. elim (owner_left true o.id spared owned) [
          | inl y ↦ y
          | inr (mine, l) ↦ absurd cc
        ])
        t.organizations inv.1,
  )
