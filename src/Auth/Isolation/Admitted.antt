-- ===== src/Auth/Isolation/Admitted.antt =====
-- Every request that passes belongs to an active organization of its caller, in a permitted role.
use capere_ai.Base.{
  ◌≡◌, ◌⊎◌, inl, inr, refl, ◌∙◌, ap, subst, true, false, not, Option, none, some, is_some, List, [],
  ◌∷◌, String, Bool-cases, if◌then◌else◌,
}
use capere_ai.Auth.{
  Checked, passed, refused, Member, is_active, role_for, list_for, refused_if, passed_same, true_if,
  forbidden,
}
use capere_ai.Auth.ApiKeys.{ResolvedApiKey, is_empty}
use capere_ai.Auth.ApiKeys.Issued.{verify_found}
use capere_ai.Auth.Guards.{
  AuthenticatedUser, Request, Route, Services, with_key, auth_guard, requested_organization_id,
  in_organization, enter, enter_only, resolve_for, resolve_user, organization_guard, granted_roles,
  one_role, first_role, shares, roles_guard, and_then, admit, check_flag, check_feature,
  feature_flag_guard,
}
use capere_ai.Auth.Isolation.{
  Fresh, Caller, by_key, by_membership, Authenticated, with_a_key, as_user, role_for-is_active,
  list_for-role_for, and_then-passed, auth_guard-Authenticated,
}

-- The request acts for an active organization of its caller.
pub BelongsTo : Services → Request → Type 0
BelongsTo s r =
    (org : String) × ((r.organization_id ≡ some org)
      × ((is_active s.directory.organizations org ≡ true) × Caller s r org))

granted_by_key : (r : Request) (k : ResolvedApiKey) → granted_roles (with_key r k) ≡ k.roles
unfolding granted_roles
granted_by_key r k = go k.roles
  where
    go :
        (roles : List String)
        → (if is_empty roles then one_role (first_role roles) else roles) ≡ roles
    go [] = refl
    go (role ∷ roles) = refl

granted_to_member :
    (r : Request) (org role : String)
    → r.organization_roles ≡ []
    → granted_roles (in_organization r org role) ≡ role ∷ []
unfolding granted_roles
granted_to_member r org role h = rw h refl

module _ (s : Services) (r : Request) (u : AuthenticatedUser) (fresh : r.organization_roles ≡ [])
    (known : r.user ≡ some u) where
  enter-BelongsTo :
      (org role : String)
      → role_for s.directory u.id org ≡ some role
      → BelongsTo s (in_organization r org role)
  unfolding BelongsTo
  enter-BelongsTo org role e = (
    org,
    (
      refl,
      (
        role_for-is_active s.directory u.id org role e,
        by_membership u role known e (granted_to_member r org role fresh),
      ),
    ),
  )

  resolve_for-BelongsTo :
      (requested : Option String) (r' : Request)
      → resolve_for s.directory r u requested ≡ passed r'
      → BelongsTo s r'
  resolve_for-BelongsTo (some org) r' h = go (role_for s.directory u.id org) refl h
    where
      go :
          (role : Option String)
          → role_for s.directory u.id org ≡ role
          → enter r org role ≡ passed r'
          → BelongsTo s r'
      go none e g = absurd cc
      go (some role) e g =
          subst (BelongsTo s) (passed_same (in_organization r org role) r' g)
            (enter-BelongsTo org role e)
  resolve_for-BelongsTo none r' h = go (list_for s.directory u.id) refl h
    where
      go :
          (ms : List Member)
          → list_for s.directory u.id ≡ ms
          → enter_only r ms ≡ passed r'
          → BelongsTo s r'
      go [] e g = absurd cc
      go (m ∷ []) e g =
          subst (BelongsTo s) (passed_same (in_organization r m.organization_id m.role) r' g)
            (enter-BelongsTo m.organization_id m.role (list_for-role_for s.directory u.id m e))
      go (m ∷ n ∷ ms) e g = absurd cc

organization_guard-BelongsTo :
    (s : Services) (route : Route) (r between r' : Request)
    → Fresh r
    → Authenticated s r between
    → route.is_public ≡ false
    → route.skip_organization ≡ false
    → organization_guard s route between ≡ passed r'
    → BelongsTo s r'
unfolding organization_guard BelongsTo
organization_guard-BelongsTo s route r _ r' fresh (with_a_key raw k v) private scoped h =
    let h' : passed (with_key r k) ≡ passed r' = rw (private, scoped) at h in
    let found = verify_found s.hash s.directory.organizations s.now raw s.keys k v in
    subst (BelongsTo s) (passed_same (with_key r k) r' h')
      (k.organization_id, (refl, (found.1.1.1.1.1.0, by_key raw k v refl (granted_by_key r k))))
organization_guard-BelongsTo s route r _ r' fresh (as_user u) private scoped h =
    let between : Request = record r { user = some u } in
    let no_key : is_some r.api_key_id ≡ false = ap is_some fresh.key in
    let h' : resolve_user s.directory between (some u) ≡ passed r' =
      rw (private, scoped, no_key) at h in
    resolve_for-BelongsTo s between u fresh.roles refl (requested_organization_id between) r' h'

-- The roles that a route asks for: any, or one of those that the caller has.
pub Permitted : Route → Request → Type 0
Permitted route r = (is_empty route.roles ≡ true) ⊎ (shares route.roles (granted_roles r) ≡ true)

roles_guard-Permitted :
    (route : Route) (r r' : Request)
    → route.is_public ≡ false
    → roles_guard route r ≡ passed r'
    → (r ≡ r') × Permitted route r
unfolding roles_guard Permitted
roles_guard-Permitted route r r' private h = elim (Bool-cases (is_empty route.roles)) [
  | inl e ↦ let h' : passed r ≡ passed r' = rw (private, e) at h in (passed_same r r' h', inl e)
  | inr e ↦
      let code = if is_some r.api_key_id then "INSUFFICIENT_ROLE" else "ORGANIZATION_REQUIRED" in
      let h' : (if is_empty (granted_roles r)
            then refused (forbidden code)
            else if not (shares route.roles (granted_roles r))
            then refused (forbidden "INSUFFICIENT_ROLE")
            else passed r)
          ≡ passed r' =
        rw (private, e) at h in
      let some_role = refused_if (is_empty (granted_roles r)) (forbidden code) _ r' h' in
      let shared =
        refused_if (not (shares route.roles (granted_roles r))) (forbidden "INSUFFICIENT_ROLE")
          (passed r) r' some_role.1 in
      (passed_same r r' shared.1, inr (true_if (shares route.roles (granted_roles r)) shared.0))
]

-- The flag that a route asks for, if any, is enabled for the request's organization.
pub Featured : Services → Route → Request → Type 0
Featured s route r =
    (route.feature ≡ none)
    ⊎ ((flag : String) × (org : String) × ((route.feature ≡ some flag)
          × ((r.organization_id ≡ some org) × (s.is_enabled org flag ≡ true))))

feature_flag_guard-Featured :
    (s : Services) (route : Route) (r r' : Request)
    → feature_flag_guard s route r ≡ passed r'
    → (r ≡ r') × Featured s route r
unfolding feature_flag_guard Featured
feature_flag_guard-Featured s route r r' h = go route.feature r.organization_id refl refl h
  where
    flagged :
        (flag : String) (o : Option String)
        → r.organization_id ≡ o
        → route.feature ≡ some flag
        → check_flag s flag r o ≡ passed r'
        → (r ≡ r') × Featured s route r
    flagged flag none eo ef g = absurd cc
    flagged flag (some org) eo ef g =
        let on =
          refused_if (not (s.is_enabled org flag)) (forbidden "FEATURE_DISABLED") (passed r) r' g in
        (passed_same r r' on.1, inr (flag, org, (ef, (eo, true_if (s.is_enabled org flag) on.0))))

    go :
        (f : Option String) (o : Option String)
        → route.feature ≡ f
        → r.organization_id ≡ o
        → check_feature s r f ≡ passed r'
        → (r ≡ r') × Featured s route r
    go none o ef eo g = (passed_same r r' g, inl ef)
    go (some flag) o ef eo g = flagged flag r.organization_id refl ef g

-- A request that comes with nothing attached and passes the guards of a route that is neither
-- public nor without an organization acts for an active organization: that of a valid API key, with
-- the key's roles, or one of which the user is a member, with the role there. If the route asks for
-- roles, the caller has one of them; if it asks for a flag, the organization has it.
pub admit-BelongsTo :
    (s : Services) (route : Route) (r r' : Request)
    → Fresh r
    → route.is_public ≡ false
    → route.skip_organization ≡ false
    → admit s route r ≡ passed r'
    → BelongsTo s r' × Permitted route r' × Featured s route r'
unfolding admit
admit-BelongsTo s route r r' fresh private scoped h =
    let last : Request → Checked Request =
      λ b. and_then (roles_guard route b) (feature_flag_guard s route) in
    let first =
      and_then-passed (auth_guard s route r) (λ b. and_then (organization_guard s route b) last) r'
        h in
    let second = and_then-passed (organization_guard s route first.0) last r' first.1.1 in
    let third =
      and_then-passed (roles_guard route second.0) (feature_flag_guard s route) r' second.1.1 in
    let permitted = roles_guard-Permitted route second.0 third.0 private third.1.0 in
    let featured = feature_flag_guard-Featured s route third.0 r' third.1.1 in
    let who = auth_guard-Authenticated s r route first.0 private first.1.0 in
    let same : second.0 ≡ r' = permitted.0 ∙ featured.0 in
    (
      subst (BelongsTo s) same (
          organization_guard-BelongsTo s route r first.0 second.0 fresh who private scoped
            second.1.0),
      subst (Permitted route) same permitted.1,
      subst (Featured s route) featured.0 featured.1,
    )
