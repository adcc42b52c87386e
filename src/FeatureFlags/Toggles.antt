-- ===== src/FeatureFlags/Toggles.antt =====
-- What a toggle of a flag means for the process that makes it, and for the others.
use capere_ai.Base.{
  some_same, find-holds, ℕ, ◌+◌, ◌≡◌, refl, sym, ap, ◌∙◌, subst, Bool, true, false, ◌&&◌, ◌==◌,
  Option, none, some, List, [], ◌∷◌, ◌++◌, String, str_eq, eq_iff, eq_refl, arith, ltb, find, any,
  update, All, if◌then◌else◌, Bool-cases, Option-cases, inl, inr,
}
use capere_ai.FeatureFlags.{
  FeatureFlagDefinition, FlagRow, OverrideRow, Tables, Cache, cache_ttl_ms, definition, definitions,
  is_override, enabled_or, load_effective_value, is_entry, forget, remember, is_enabled_by,
  is_enabled, id_or_new, with_flag, is_override_of, upsert_override, override_by, set_override,
}

-- All rows of the key have this id.
unfoldable pub HasId : String → ℕ → List FlagRow → Type 0
HasId key id flags = All (λ g. str_eq g.key key ≡ true → g.id ≡ id) flags

-- The unique key of `capere.feature_flags`.
unfoldable pub OneRow : String → List FlagRow → Type 0
OneRow key flags = All (λ f. str_eq f.key key ≡ true → HasId key f.id flags) flags

-- The row that `setOverride` finds has the only id of its key.
found_id :
    (key : String) (f : FlagRow) (whole flags : List FlagRow)
    → All (λ f. str_eq f.key key ≡ true → HasId key f.id whole) flags
    → find (λ (g : FlagRow). str_eq g.key key) flags ≡ some f
    → HasId key f.id whole × (any (λ g. g.id == f.id && str_eq g.key key) flags ≡ true)
unfolding HasId
found_id key f whole [] h e = absurd cc
found_id key f whole (g ∷ gs) (one, h) e = elim (Bool-cases (str_eq g.key key)) [
  | inl y ↦
      let same : g ≡ f = some_same g f (rw y at e) in
      (
        subst (λ (x : FlagRow). HasId key x.id whole) same (one y),
        ground (arith, ap (λ (x : FlagRow). x.id) same),
      )
  | inr n ↦ let rest = found_id key f whole gs h (rw n at e) in (rest.0, ground arith)
]

same_find :
    (p q : OverrideRow → Bool)
    → ((o : OverrideRow) → p o ≡ q o)
    → (rows : List OverrideRow) → find p rows ≡ find q rows
same_find p q same [] = refl
same_find p q same (o ∷ rows) = rw (same o, same_find p q same rows) refl

none_else :
    (key : String) (id k : ℕ) (flags : List FlagRow)
    → HasId key id flags
    → (k == id) ≡ false
    → any (λ f. f.id == k && str_eq f.key key) flags ≡ false
unfolding HasId
none_else key id k [] one ne = refl
none_else key id k (g ∷ gs) (one, h) ne = elim (Bool-cases (str_eq g.key key)) [
  | inl y ↦ ground (arith, one y, none_else key id k gs h ne)
  | inr n ↦ ground (arith, none_else key id k gs h ne)
]

-- Where all rows of a key have one id, an override of the key is one of the id.
is_override_lem :
    (flags : List FlagRow) (org key : String) (id : ℕ)
    → HasId key id flags
    → any (λ f. f.id == id && str_eq f.key key) flags ≡ true
    → (o : OverrideRow) → is_override flags org key o ≡ is_override_of org id o
unfolding is_override HasId
is_override_lem flags org key id one there o = elim (Bool-cases (o.flag_id == id)) [
  | inl y ↦ let e : o.flag_id ≡ id = ground arith in rw (e, there) ground arith
  | inr n ↦ rw (none_else key id o.flag_id flags one n, n) refl
]

module _ (org : String) (id : ℕ) (enabled : Bool) (by reason : Option String) (default : Bool) where
  updated :
      (rows : List OverrideRow)
      → any (is_override_of org id) rows ≡ true
      → enabled_or default (
          find (is_override_of org id) (
            update
              (is_override_of org id)
              (λ o. record o { enabled = enabled; changed_by = by; reason = reason })
              rows))
        ≡ enabled
  updated [] h = absurd cc
  updated (o ∷ rows) h = elim (Bool-cases (is_override_of org id o)) [
    | inl y ↦ rw (y, y) refl
    | inr n ↦ rw (n, n) (updated rows (rw n at h))
  ]

  appended :
      (rows : List OverrideRow) (o : OverrideRow)
      → any (is_override_of org id) rows ≡ false
      → is_override_of org id o ≡ true
      → find (is_override_of org id) (rows ++ o ∷ []) ≡ some o
  appended [] o h e = rw e refl
  appended (r ∷ rows) o h e = elim (Bool-cases (is_override_of org id r)) [
    | inl y ↦ absurd (ground arith)
    | inr n ↦ rw n (appended rows o (rw n at h) e)
  ]

  -- The row that the insert leaves for an organization and a flag.
  enabled_or-upsert_override :
      (rows : List OverrideRow)
      → enabled_or default
          (find (is_override_of org id) (upsert_override org id enabled by reason rows))
        ≡ enabled
  unfolding upsert_override
  enabled_or-upsert_override rows = elim (Bool-cases (any (is_override_of org id) rows)) [
    | inl y ↦ rw y (updated rows y)
    | inr n ↦
        rw
          (
            n,
            appended rows
                (record {
                  organization_id = org;
                  flag_id = id;
                  enabled = enabled;
                  changed_by = by;
                  reason = reason;
                })
                n (rw (eq_refl org) ground arith),
          )
          refl
  ]

definition-key : (key : String) (d : FeatureFlagDefinition) → definition key ≡ some d → d.key ≡ key
unfolding definition
definition-key key d h =
    (eq_iff d.key key).0
      (find-holds (λ (x : FeatureFlagDefinition). str_eq x.key key) definitions d h)

all_new :
    (key : String) (id : ℕ) (flags : List FlagRow) (f : FlagRow)
    → find (λ (g : FlagRow). str_eq g.key key) flags ≡ none
    → f.id ≡ id
    → str_eq f.key key ≡ true
    → HasId key id (flags ++ f ∷ [])
      × (any (λ g. g.id == id && str_eq g.key key) (flags ++ f ∷ []) ≡ true)
unfolding HasId
all_new key id [] f h e k = (((λ _. e), tt), ground arith)
all_new key id (g ∷ gs) f h e k = elim (Bool-cases (str_eq g.key key)) [
  | inl y ↦ absurd (ground arith)
  | inr n ↦
      let rest = all_new key id gs f (rw n at h) e k in
      (((λ (y : str_eq g.key key ≡ true). absurd cc), rest.0), ground (arith, rest.1))
]

module _ (id : ℕ) (org : String) (enabled : Bool) (by reason : Option String) (t : Tables)
    (d : FeatureFlagDefinition) where
  abbrev row_id : Option FlagRow → ℕ
  row_id = id_or_new id

  abbrev new_flags : Option FlagRow → List FlagRow
  new_flags = with_flag id d t.flags

  new_id :
      OneRow d.key t.flags
      → (row : Option FlagRow) → find (λ (f : FlagRow). str_eq f.key d.key) t.flags ≡ row
      → HasId d.key (row_id row) (new_flags row)
        × (any (λ f. f.id == row_id row && str_eq f.key d.key) (new_flags row) ≡ true)
  unfolding OneRow
  new_id one none e =
      all_new d.key id t.flags
        (record {
          id = id;
          key = d.key;
          description = d.description;
          default_enabled = d.default_enabled;
        })
        e refl (eq_refl d.key)
  new_id one (some f) e = found_id d.key f t.flags t.flags one e

  -- The tables after a toggle give the new value.
  load_effective_value-override_by :
      OneRow d.key t.flags
      → (t' : Tables) → override_by id org enabled by reason t (some d) ≡ some t'
      → load_effective_value org d t' ≡ enabled
  unfolding load_effective_value
  load_effective_value-override_by one t' h =
      let row = find (λ (f : FlagRow). str_eq f.key d.key) t.flags in
      let flags = new_flags row in
      let ids = new_id one row refl in
      let rows = upsert_override org (row_id row) enabled by reason t.overrides in
      subst
        (λ (x : Tables).
          enabled_or d.default_enabled (find (is_override x.flags org d.key) x.overrides) ≡ enabled)
        (some_same (record { flags = flags; overrides = rows }) t' h)
        (ap (enabled_or d.default_enabled) (
            same_find (is_override flags org d.key) (is_override_of org (row_id row))
              (is_override_lem flags org d.key (row_id row) ids.0 ids.1) rows)
          ∙ enabled_or-upsert_override org (row_id row) enabled by reason d.default_enabled
              t.overrides)

abbrev pub value_of : Option (Cache × Bool) → Option Bool
value_of none = none
value_of (some r) = some (r.1)

gone : (org key : String) (cache : Cache) → find (is_entry org key) (forget org key cache) ≡ none
gone org key [] = refl
gone org key (e ∷ cache) = elim (Bool-cases (is_entry org key e)) [
  | inl y ↦ rw y (gone org key cache)
  | inr n ↦ rw (n, n) (gone org key cache)
]

remembered :
    (now : ℕ) (org key : String) (value : Bool) (cache : Cache)
    → find (is_entry org key) (remember now org key value cache)
      ≡ some (record {
        organization_id = org;
        key = key;
        value = value;
        expires_at = now + cache_ttl_ms;
      })
remembered now org key value cache = rw (eq_refl org, eq_refl key) refl

read_again :
    (s now : ℕ) (org : String) (d : FeatureFlagDefinition) (v : Bool) (t' : Tables) (cache : Cache)
    → value_of (is_enabled_by now org t' (remember s org d.key v cache) (some d))
      ≡ some (if ltb now (s + cache_ttl_ms) then v else load_effective_value org d t')
read_again s now org d v t' cache =
    rw (remembered s org d.key v cache)
      (elim (Bool-cases (ltb now (s + cache_ttl_ms))) [ inl y ↦ rw y refl | inr n ↦ rw n refl ])

module _ (now id : ℕ) (org key : String) (enabled : Bool) (by reason : Option String)
    (t t' : Tables) (one : OneRow key t.flags)
    (toggle : set_override id org key enabled by reason t ≡ some t') where
  loaded :
      (d : FeatureFlagDefinition)
      → definition key ≡ some d
      → load_effective_value org d t' ≡ enabled
  unfolding set_override
  loaded d known =
      load_effective_value-override_by id org enabled by reason t d
        (subst (λ k. OneRow k t.flags) (sym (definition-key key d known)) one) t'
        (rw known at toggle)

  -- A process that toggles a known flag, of one row at most, and forgets its entry of the cache, reads
  -- the new value at once, whatever the cache held.
  pub is_enabled-set_override :
      (cache : Cache) → value_of (is_enabled now org key t' (forget org key cache)) ≡ some enabled
  unfolding is_enabled set_override
  is_enabled-set_override cache = elim (Option-cases (definition key)) [
    | inl none_known ↦ absurd (ground (arith, toggle))
    | inr (d, known) ↦ rw known (
        subst
          (λ k. value_of (is_enabled_by now org t' (forget org k cache) (some d)) ≡ some enabled)
          (definition-key key d known) (rw (gone org d.key cache) (ap some (loaded d known))))
  ]

  -- Where a known flag, of one row at most, is toggled, another process whose cache was filled at time
  -- s before that reads the old value before s + 60000 and the new one from then on.
  pub is_enabled-other_process :
      (s : ℕ) (cache : Cache) (r : Cache × Bool)
      → find (is_entry org key) cache ≡ none
      → is_enabled s org key t cache ≡ some r
      → value_of (is_enabled now org key t' (r.0))
        ≡ some (if ltb now (s + cache_ttl_ms) then r.1 else enabled)
  unfolding is_enabled
  is_enabled-other_process s cache r cold filled = elim (Option-cases (definition key)) [
    | inl none_known ↦ absurd (ground (arith, filled))
    | inr (d, known) ↦
        let cold' : find (is_entry org d.key) cache ≡ none =
          subst (λ k. find (is_entry org k) cache ≡ none) (sym (definition-key key d known)) cold in
        let v = load_effective_value org d t in
        let kept : (remember s org d.key v cache, v) ≡ r =
          some_same _ r (rw (known, cold') at filled) in
        subst
          (λ (x : Cache × Bool).
            value_of (is_enabled now org key t' (x.0))
            ≡ some (if ltb now (s + cache_ttl_ms) then x.1 else enabled))
          kept
          (rw known (
            read_again s now org d v t' cache
            ∙ ap (λ e. some (if ltb now (s + cache_ttl_ms) then v else e)) (loaded d known)))
  ]
