-- ===== src/Auth/ApiKeys/Issued.antt =====
-- What an issued key grants, and a revoked one no longer.
use capere_ai.Base.{
  ℕ, ◌≤◌, ◌≡◌, refl, sym, ap, ◌∙◌, Bool, true, false, not, ◌&&◌, ◌||◌, ◌==◌, Option, none, some,
  is_some, some_and, List, [], ◌∷◌, ◌++◌, String, str_eq, arith, leb, find, any, every, All,
  Bool-cases, Option-cases, inl, inr,
}
use capere_ai.Rag.Text.{trim}
use capere_ai.Auth.{
  Refusal, passed, refused, Organization, is_active, refused_if, passed_same, true_if, forbidden,
  bad_request,
}
use capere_ai.Auth.ApiKeys.{
  ApiKey, ResolvedApiKey, IssueParams, rank_of, resolve, check_key, check_organization, verify,
  within_rank, raw_key, issued_key, issue, is_key_of, revoke, is_empty, is_invalid, is_known,
  overreaches,
}

-- The role has a rank, and not above that of the issuer.
pub WithinIssuer : String → String → Type 0
WithinIssuer issuer role =
    (rank : ℕ) × (limit : ℕ) × ((rank_of role ≡ some rank)
      × (rank_of issuer ≡ some limit)
      × (rank ≤ limit))

within_ranks :
    (issuer role : Option ℕ)
    → not (within_rank issuer role) ≡ false
    → (rank : ℕ) × (limit : ℕ) × ((role ≡ some rank) × (issuer ≡ some limit) × (rank ≤ limit))
within_ranks (some i) (some r) h = (r, i, (refl, refl, ground (arith, h)))
within_ranks (some i) none h = absurd cc
within_ranks none r h = absurd cc

none_over :
    (issuer : String) (roles : List String)
    → any (λ role. not (within_rank (rank_of issuer) (rank_of role))) roles ≡ false
    → All (WithinIssuer issuer) roles
unfolding WithinIssuer
none_over issuer [] h = tt
none_over issuer (role ∷ roles) h = (
  within_ranks (rank_of issuer) (rank_of role) (ground (arith, h)),
  none_over issuer roles (ground (arith, h)),
)

-- A key that is issued is the issuer's new key for an active organization, added to the others, and
-- grants no role above the issuer's.
pub issue_capped :
    (hash : List ℕ → ℕ) (orgs : List Organization) (id : ℕ) (digits : List ℕ) (p : IssueParams)
    (keys keys' : List ApiKey)
    → issue hash orgs id digits p keys ≡ passed keys'
    → All (WithinIssuer p.issuer_role) p.roles
      × (is_active orgs p.organization_id ≡ true)
      × (keys' ≡ keys ++ issued_key hash id digits p ∷ [])
unfolding issue
issue_capped hash orgs id digits p keys keys' h =
    let valid = refused_if (is_invalid p) (bad_request "VALIDATION_FAILED") _ keys' h in
    let known =
      refused_if (not (is_known orgs p.organization_id))
        (record { code = "NOT_FOUND"; status = 404 }) _ keys' valid.1 in
    let active =
      refused_if (not (is_active orgs p.organization_id)) (forbidden "FORBIDDEN") _ keys' known.1 in
    let capped = refused_if (overreaches p) (forbidden "INSUFFICIENT_ROLE") _ keys' active.1 in
    (
      none_over p.issuer_role p.roles capped.0,
      true_if (is_active orgs p.organization_id) active.0,
      passed_same keys' _ (sym capped.1),
    )

found_last :
    (p : ApiKey → Bool) (keys : List ApiKey) (k : ApiKey)
    → All (λ j. p j ≡ false) keys
    → p k ≡ true
    → find p (keys ++ k ∷ []) ≡ some k
found_last p [] k h e = rw e refl
found_last p (j ∷ js) k (h, hs) e = rw h (found_last p js k hs e)

some_roles :
    (a c d : Bool) (roles : List String)
    → (a || is_empty roles || c || d) ≡ false
    → every (λ role. false) roles ≡ false
some_roles a c d [] h = ground (arith, h)
some_roles a c d (role ∷ roles) h = refl

-- A key just issued, if no other key has its hash and its time is not over, is resolved to its id and to
-- the organization, the roles, the location and the purpose that it was issued for.
pub verify-issue :
    (hash : List ℕ → ℕ) (orgs : List Organization) (now id : ℕ) (digits : List ℕ) (p : IssueParams)
    (keys keys' : List ApiKey)
    → issue hash orgs id digits p keys ≡ passed keys'
    → All (λ k. k.key_hash == hash (raw_key digits) ≡ false) keys
    → some_and (λ t. leb t now) p.expires_at ≡ false
    → verify hash orgs now (raw_key digits) keys'
      ≡ passed (record {
        api_key_id = id;
        organization_id = p.organization_id;
        roles = p.roles;
        ghl_location_id = p.ghl_location_id;
        purpose = elim p.purpose [ none ↦ "general" | some purpose ↦ purpose ];
      })
unfolding verify issue
verify-issue hash orgs now id digits p keys keys' h fresh current =
    let issued = issue_capped hash orgs id digits p keys keys' h in
    let key = issued_key hash id digits p in
    let same : hash (raw_key digits) == hash (raw_key digits) ≡ true = ground arith in
    let found = found_last (λ k. k.key_hash == hash (raw_key digits)) keys key fresh same in
    let some_role =
      some_roles (is_empty (trim p.name)) _ _ p.roles
        (refused_if (is_invalid p) (bad_request "VALIDATION_FAILED") _ keys' h).0 in
    ap (λ ks. check_key orgs now (find (λ k. k.key_hash == hash (raw_key digits)) ks)) issued.2
    ∙ ap (check_key orgs now) found
    ∙ rw (current, issued.1, some_role) refl

-- The key that a search finds passes the tests of `verify`.
pub verify_found :
    (hash : List ℕ → ℕ) (orgs : List Organization) (now : ℕ) (raw : List ℕ) (keys : List ApiKey)
    (r : ResolvedApiKey)
    → verify hash orgs now raw keys ≡ passed r
    → (k : ApiKey) × ((find (λ k. k.key_hash == hash raw) keys ≡ some k)
        × ((k.revoked_at ≡ none)
            × ((k.organization_id ≡ some r.organization_id)
                × ((some_and (λ t. leb t now) k.expires_at ≡ false)
                    × ((is_active orgs r.organization_id ≡ true)
                        × (resolve k r.organization_id ≡ r))))))
unfolding verify
verify_found hash orgs now raw keys r h =
    elim (Option-cases (find (λ k. k.key_hash == hash raw) keys)) [
      | inl e ↦ absurd (refused_ne (sym (ap (check_key orgs now) e) ∙ h))
      | inr (k, e) ↦ (k, (e, checked k (sym (ap (check_key orgs now) e) ∙ h)))
    ]
  where
    refused_ne : {s : Refusal} → refused s ≡ passed r → ⊥
    refused_ne g = absurd cc

    organization :
        (k : ApiKey) (o : Option String)
        → check_organization orgs k o ≡ passed r
        → (o ≡ some r.organization_id)
          × ((is_active orgs r.organization_id ≡ true) × (resolve k r.organization_id ≡ r))
    organization k none g = absurd (refused_ne g)
    organization k (some org) g =
        let active = refused_if _ _ _ r g in
        let granted = refused_if _ _ _ r active.1 in
        let same : resolve k org ≡ r = passed_same _ r granted.1 in
        let org_same : org ≡ r.organization_id = ap (λ x. x.organization_id) same in
        (
          ap some org_same,
          (
            ap (is_active orgs) (sym org_same) ∙ true_if (is_active orgs org) active.0,
            ap (resolve k) (sym org_same) ∙ same,
          ),
        )

    none_of : (o : Option ℕ) → is_some o ≡ false → o ≡ none
    none_of none g = refl
    none_of (some n) g = absurd cc

    checked :
        (k : ApiKey)
        → check_key orgs now (some k) ≡ passed r
        → (k.revoked_at ≡ none)
          × ((k.organization_id ≡ some r.organization_id)
              × ((some_and (λ t. leb t now) k.expires_at ≡ false)
                  × ((is_active orgs r.organization_id ≡ true)
                      × (resolve k r.organization_id ≡ r))))
    checked k g =
        let kept = refused_if _ _ _ r g in
        let current = refused_if _ _ _ r kept.1 in
        let org = organization k k.organization_id current.1 in
        (none_of k.revoked_at kept.0, (org.0, (current.0, (org.1.0, org.1.1))))

found_unrevoked :
    (p : ApiKey → Bool) (at id : ℕ) (org : String) (keys : List ApiKey) (k : ApiKey)
    → find p (revoke at id org keys) ≡ some k
    → k.revoked_at ≡ none
    → is_key_of id org k ≡ false
unfolding revoke
found_unrevoked p at id org [] k h e = absurd cc
found_unrevoked p at id org (j ∷ js) k h e = elim (Bool-cases (is_key_of id org j)) [
  | inl q ↦ elim (Bool-cases (p (record j { revoked_at = some at }))) [
    | inl t ↦
        let h' : some (record j { revoked_at = some at }) ≡ some k = rw (q, t) at h in
        absurd (none_ne (ap revoked_of h' ∙ ap (λ o. some o) e))
    | inr t ↦
        let h' : find p (revoke at id org js) ≡ some k = rw (q, t) at h in
        found_unrevoked p at id org js k h' e
  ]
  | inr q ↦ elim (Bool-cases (p j)) [
    | inl t ↦ let h' : some j ≡ some k = rw (q, t) at h in ap (key_of id org) (sym h') ∙ q
    | inr t ↦
        let h' : find p (revoke at id org js) ≡ some k = rw (q, t) at h in
        found_unrevoked p at id org js k h' e
  ]
]
  where
    revoked_of : Option ApiKey → Option (Option ℕ)
    revoked_of none = none
    revoked_of (some x) = some x.revoked_at

    none_ne : {t : ℕ} → some (some t) ≡ some none → ⊥
    none_ne g = absurd cc

    key_of : ℕ → String → Option ApiKey → Bool
    key_of i o none = false
    key_of i o (some x) = is_key_of i o x

-- A revoked key is never resolved again, whatever its hash.
pub verify-revoke :
    (hash : List ℕ → ℕ) (orgs : List Organization) (at now id : ℕ) (org : String) (raw : List ℕ)
    (keys : List ApiKey) (r : ResolvedApiKey)
    → verify hash orgs now raw (revoke at id org keys) ≡ passed r
    → r.api_key_id == id && str_eq r.organization_id org ≡ false
unfolding revoke
verify-revoke hash orgs at now id org raw keys r h =
    let f = verify_found hash orgs now raw (revoke at id org keys) r h in
    let k = f.0 in
    let free = found_unrevoked (λ k. k.key_hash == hash raw) at id org keys k f.1.0 f.1.1.0 in
    let same = f.1.1.1.1.1.1 in
    ap (λ x. x.api_key_id == id && str_eq r.organization_id org) (sym same)
    ∙ sym (key_organization k f.1.1.1.0)
    ∙ free
  where
    key_organization :
        (k : ApiKey)
        → k.organization_id ≡ some r.organization_id
        → is_key_of id org k ≡ (k.id == id && str_eq r.organization_id org)
    key_organization k e = rw e refl
