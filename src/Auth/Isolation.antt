-- ===== src/Auth/Isolation.antt =====
-- What a request that passes the guards is allowed to do.
pub mod Admitted
use capere_ai.Base.{
  ℕ, ◌≡◌, ◌⊎◌, inl, inr, refl, sym, ap, subst, ◌∙◌, Bool, true, false, not, ◌&&◌, ◌||◌, Option,
  none, some, is_some, List, [], ◌∷◌, String, str_eq, arith, eq_iff, eq_refl, find, any, select,
  Bool-cases, Option-cases, if◌then◌else◌,
}
use capere_ai.Auth.{
  Refusal, Checked, passed, refused, Directory, Member, Organization, is_active, is_membership,
  role_of, role_for, list_for, refused_if, passed_same, true_if, forbidden,
}
use capere_ai.Auth.ApiKeys.{ApiKey, ResolvedApiKey, verify, is_empty}
use capere_ai.Auth.ApiKeys.Issued.{verify_found}
use capere_ai.Auth.Guards.{
  AuthenticatedUser, Request, Route, Services, with_key, attach_key, attach_user, with_token,
  with_api_key, auth_guard, extract_bearer_token, extract_api_key, requested_organization_id,
  in_organization, enter, enter_only, resolve_for, resolve_user, organization_guard, granted_roles,
  shares, roles_guard, and_then, admit,
}

module _ {ℓ} {A : Type ℓ} (p : A → Bool) where
  found_meets : (xs : List A) (a : A) → find p xs ≡ some a → p a ≡ true
  found_meets [] a h = absurd cc
  found_meets (x ∷ xs) a h = elim (Bool-cases (p x)) [
    | inl e ↦ let h' : some x ≡ some a = rw e at h in ap test (sym h') ∙ e
    | inr e ↦ let h' : find p xs ≡ some a = rw e at h in found_meets xs a h'
  ]
    where
      test : Option A → Bool
      test none = false
      test (some y) = p y

  kept_meets : (xs : List A) (a : A) → select p xs ≡ a ∷ [] → p a ≡ true
  kept_meets [] a h = absurd cc
  kept_meets (x ∷ xs) a h = elim (Bool-cases (p x)) [
    | inl e ↦ let h' : x ∷ select p xs ≡ a ∷ [] = rw e at h in ap test (sym h') ∙ e
    | inr e ↦ let h' : select p xs ≡ a ∷ [] = rw e at h in kept_meets xs a h'
  ]
    where
      test : List A → Bool
      test [] = false
      test (y ∷ ys) = p y

  -- The one row that a test keeps is found by a narrower test that it meets.
  select_one :
      (q : A → Bool)
      → ((x : A) → p x ≡ false → q x ≡ false)
      → (xs : List A) (a : A) → q a ≡ true
      → select p xs ≡ a ∷ []
      → find q xs ≡ some a
  select_one q narrow [] a own h = absurd cc
  select_one q narrow (x ∷ xs) a own h = elim (Bool-cases (p x)) [
    | inl e ↦
        let h' : x ∷ select p xs ≡ a ∷ [] = rw e at h in
        rw (ap meets (ap head h') ∙ own) (ap head h')
    | inr e ↦
        let h' : select p xs ≡ a ∷ [] = rw e at h in
        rw (narrow x e) (select_one q narrow xs a own h')
  ]
    where
      head : List A → Option A
      head [] = none
      head (y ∷ ys) = some y

      meets : Option A → Bool
      meets none = true
      meets (some y) = q y

pub role_for-is_active :
    (d : Directory) (user org role : String)
    → role_for d user org ≡ some role
    → is_active d.organizations org ≡ true
unfolding role_for is_membership
role_for-is_active d user org role h = elim (Option-cases (find found d.members)) [
  | inl e ↦ absurd (none_ne (sym (ap role_of e) ∙ h))
  | inr (m, e) ↦
      let own = found_meets found d.members m e in
      let same : m.organization_id ≡ org = (eq_iff m.organization_id org).0 (ground (arith, own)) in
      ap (is_active d.organizations) (sym same) ∙ ground (arith, own)
]
  where
    found : Member → Bool
    found m = is_membership user org m && is_active d.organizations m.organization_id

    none_ne : none ≡ some role → ⊥
    none_ne g = absurd cc

-- The sole membership of a user is one that `role_for` finds.
pub list_for-role_for :
    (d : Directory) (user : String) (m : Member)
    → list_for d user ≡ m ∷ []
    → role_for d user m.organization_id ≡ some m.role
unfolding role_for list_for is_membership
list_for-role_for d user m h = ap role_of (
    select_one (λ x. str_eq x.user_id user && is_active d.organizations x.organization_id)
      (λ x.
        (str_eq x.user_id user && str_eq x.organization_id m.organization_id)
        && is_active d.organizations x.organization_id)
      (λ x e. ground (arith, e)) d.members m own h)
  where
    own :
        (str_eq m.user_id user && str_eq m.organization_id m.organization_id)
          && is_active d.organizations m.organization_id
        ≡ true
    own = ground (
      arith,
      kept_meets (λ x. str_eq x.user_id user && is_active d.organizations x.organization_id)
          d.members m h,
      eq_refl m.organization_id,
    )

pub and_then-passed :
    (c : Checked Request) (next : Request → Checked Request) (r : Request)
    → and_then c next ≡ passed r
    → (between : Request) × ((c ≡ passed between) × (next between ≡ passed r))
and_then-passed (refused e) next r h = absurd (refused_ne h)
  where
    refused_ne : refused e ≡ passed r → ⊥
    refused_ne g = absurd cc
and_then-passed (passed b) next r h = (b, (refl, h))

-- A request to which no guard has attached anything.
pub record Fresh (r : Request) : Type 0 where
  pub user : r.user ≡ none
  pub organization : r.organization_id ≡ none
  pub roles : r.organization_roles ≡ []
  pub key : r.api_key_id ≡ none

-- How the caller came by an organization and its roles: by an active API key, or by a membership.
pub data Caller (s : Services) (r : Request) (org : String) : Type 0 where
  by_key :
      (raw : List ℕ) (k : ResolvedApiKey)
      → verify s.hash s.directory.organizations s.now raw s.keys ≡ passed k
      → k.organization_id ≡ org
      → granted_roles r ≡ k.roles
      → Caller s r org
  by_membership :
      (u : AuthenticatedUser) (role : String)
      → r.user ≡ some u
      → role_for s.directory u.id org ≡ some role
      → granted_roles r ≡ role ∷ []
      → Caller s r org

-- What `AuthGuard` can attach.
pub data Authenticated (s : Services) (r : Request) : Request → Type 0 where
  with_a_key :
      (raw : List ℕ) (k : ResolvedApiKey)
      → verify s.hash s.directory.organizations s.now raw s.keys ≡ passed k
      → Authenticated s r (with_key r k)
  as_user : (u : AuthenticatedUser) → Authenticated s r (record r { user = some u })

module _ (s : Services) (r : Request) where
  attach_key-Authenticated :
      (raw : List ℕ) (c : Checked ResolvedApiKey) (r' : Request)
      → verify s.hash s.directory.organizations s.now raw s.keys ≡ c
      → attach_key r c ≡ passed r'
      → Authenticated s r r'
  attach_key-Authenticated raw (refused e) r' v h = absurd cc
  attach_key-Authenticated raw (passed k) r' v h =
      subst (Authenticated s r) (passed_same (with_key r k) r' h) (with_a_key raw k v)

  with_token-Authenticated :
      (token : Option (List ℕ)) (r' : Request)
      → with_token s r token ≡ passed r'
      → Authenticated s r r'
  with_token-Authenticated none r' h = absurd cc
  with_token-Authenticated (some token) r' h = go (s.verify_token token) h
    where
      go : (c : Checked AuthenticatedUser) → attach_user r c ≡ passed r' → Authenticated s r r'
      go (refused e) g = absurd cc
      go (passed u) g =
          subst (Authenticated s r) (passed_same (record r { user = some u }) r' g) (as_user u)

  pub auth_guard-Authenticated :
      (route : Route) (r' : Request)
      → route.is_public ≡ false
      → auth_guard s route r ≡ passed r'
      → Authenticated s r r'
  unfolding auth_guard
  auth_guard-Authenticated route r' private h = elim (Bool-cases route.accepts_api_key) [
    | inl e ↦
        let h' : with_api_key s r (extract_api_key r) ≡ passed r' = rw (private, e) at h in
        go (extract_api_key r) h'
    | inr e ↦
        let h' : with_token s r (extract_bearer_token r) ≡ passed r' = rw (private, e) at h in
        with_token-Authenticated (extract_bearer_token r) r' h'
  ]
    where
      go : (key : Option (List ℕ)) → with_api_key s r key ≡ passed r' → Authenticated s r r'
      go (some raw) g =
          attach_key-Authenticated raw (verify s.hash s.directory.organizations s.now raw s.keys) r'
            refl g
      go none g = with_token-Authenticated (extract_bearer_token r) r' g
