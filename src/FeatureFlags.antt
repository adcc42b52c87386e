-- ===== src/FeatureFlags.antt =====
-- backend/src/feature-flags: feature-flag.catalog.ts and feature-flag.service.ts. Each process has a
-- cache of its own over the shared tables. Organizations and keys are texts; the map of maps of the
-- cache is one list of entries. The clock is read once in a call.
pub mod Toggles
mod Tests
use capere_ai.Base.{
  ℕ, ◌+◌, Bool, true, false, not, ◌&&◌, ◌==◌, Option, none, some, List, [], ◌∷◌, ◌++◌, String,
  str_eq, ltb, find, any, select, update, if◌then◌else◌, map,
}

pub record FeatureFlagDefinition : Type 0 where
  pub key : String
  pub description : String
  pub default_enabled : Bool
  pub introduced_in : String
  pub retire_after : Option String

abbrev flag : String → String → Bool → String → FeatureFlagDefinition
flag key description default_enabled introduced_in = record {
  key = key;
  description = description;
  default_enabled = default_enabled;
  introduced_in = introduced_in;
  retire_after = none;
}

-- `FEATURE_FLAG_DEFINITIONS`
unfoldable pub definitions : List FeatureFlagDefinition
definitions =
    flag "intelligence.response_review" "Review generated responses before returning them." true
      "phase-3"
    ∷ flag "intelligence.bounded_tools" "Allow capped read-only model-selected tool execution." true
        "phase-3"
    ∷ flag "agent.seo" "SEO specialist capability." true "phase-4"
    ∷ flag "agent.analytics" "Analytics specialist capability." true "phase-4"
    ∷ flag "agent.cmo" "AI CMO capability." true "phase-4"
    ∷ flag "agent.content" "Content generation capability." true "phase-4"
    ∷ flag "hermes.reflection"
        "Hermes critiques its own output before returning it. Costs an extra model call." true
        "phase-1"
    ∷ flag "hermes.planner"
        "Legacy unused planner flag retained for compatibility; no runtime caller." true "phase-1"
    ∷ flag "memory.semantic" "RAG retrieval over the CPA playbook and SOPs." false "phase-1"
    ∷ flag "insights.engine"
        "Generate insights from domain events and inject them into Hermes context." true "phase-1"
    ∷ flag "ai.budget_enforcement"
        "Refuse model calls once an organization exceeds its hard budget limit." true "phase-1"
    ∷ flag "chat.streaming" "Server-sent-event streaming on /v1/chat/completions." true "phase-1"
    ∷ []

-- A row of `capere.feature_flags`.
pub record FlagRow : Type 0 where
  pub id : ℕ
  pub key : String
  pub description : String
  pub default_enabled : Bool

-- A row of `capere.organization_feature_flags`.
pub record OverrideRow : Type 0 where
  pub organization_id : String
  pub flag_id : ℕ
  pub enabled : Bool
  pub changed_by : Option String
  pub reason : Option String

pub record Tables : Type 0 where
  pub flags : List FlagRow
  pub overrides : List OverrideRow

pub record CacheEntry : Type 0 where
  pub organization_id : String
  pub key : String
  pub value : Bool
  pub expires_at : ℕ

abbrev pub Cache : Type 0
Cache = List CacheEntry

abbrev pub cache_ttl_ms : ℕ
cache_ttl_ms = 60000

-- `definition`; none where it throws.
unfoldable pub definition : String → Option FeatureFlagDefinition
unfolding definitions
definition key = find (λ d. str_eq d.key key) definitions

-- The join of an override with its flag.
unfoldable pub is_override : List FlagRow → String → String → OverrideRow → Bool
is_override flags org key o =
    str_eq o.organization_id org && any (λ f. f.id == o.flag_id && str_eq f.key key) flags

abbrev pub enabled_or : Bool → Option OverrideRow → Bool
enabled_or default none = default
enabled_or default (some o) = o.enabled

unfoldable pub load_effective_value : String → FeatureFlagDefinition → Tables → Bool
load_effective_value org d t =
    enabled_or d.default_enabled (find (is_override t.flags org d.key) t.overrides)

abbrev pub is_entry : String → String → CacheEntry → Bool
is_entry org key e = str_eq e.organization_id org && str_eq e.key key

-- `invalidate`, and the removal of an expired entry.
abbrev pub forget : String → String → Cache → Cache
forget org key = select (λ e. not (is_entry org key e))

abbrev pub remember : ℕ → String → String → Bool → Cache → Cache
remember now org key value cache =
    record { organization_id = org; key = key; value = value; expires_at = now + cache_ttl_ms }
    ∷ forget org key cache

abbrev pub reload : ℕ → String → FeatureFlagDefinition → Tables → Cache → Cache × Bool
reload now org d t cache =
    let value = load_effective_value org d t in (remember now org d.key value cache, value)

abbrev pub look_up :
    ℕ → String → FeatureFlagDefinition → Tables → Cache → Option CacheEntry → Cache × Bool
look_up now org d t cache none = reload now org d t cache
look_up now org d t cache (some e) =
    if ltb now e.expires_at then (cache, e.value) else reload now org d t (forget org d.key cache)

abbrev pub is_enabled_by :
    ℕ → String → Tables → Cache → Option FeatureFlagDefinition → Option (Cache × Bool)
is_enabled_by now org t cache none = none
is_enabled_by now org t cache (some d) =
    some (look_up now org d t cache (find (is_entry org d.key) cache))

-- `isEnabled`; none where the key is unknown and it throws.
unfoldable pub is_enabled : ℕ → String → String → Tables → Cache → Option (Cache × Bool)
is_enabled now org key t cache = is_enabled_by now org t cache (definition key)

abbrev pub id_or_new : ℕ → Option FlagRow → ℕ
id_or_new id none = id
id_or_new id (some f) = f.id

abbrev pub with_flag : ℕ → FeatureFlagDefinition → List FlagRow → Option FlagRow → List FlagRow
with_flag id d flags (some f) = flags
with_flag id d flags none =
    flags
    ++ record {
      id = id;
      key = d.key;
      description = d.description;
      default_enabled = d.default_enabled;
    }
      ∷ []

abbrev pub is_override_of : String → ℕ → OverrideRow → Bool
is_override_of org flag_id o = str_eq o.organization_id org && o.flag_id == flag_id

-- The insert with its `onConflict`.
unfoldable pub upsert_override :
    String → ℕ → Bool → Option String → Option String → List OverrideRow → List OverrideRow
upsert_override org flag_id enabled by reason rows =
    if any (is_override_of org flag_id) rows
    then update (is_override_of org flag_id)
        (λ o. record o { enabled = enabled; changed_by = by; reason = reason }) rows
    else rows
      ++ record {
        organization_id = org;
        flag_id = flag_id;
        enabled = enabled;
        changed_by = by;
        reason = reason;
      }
        ∷ []

abbrev pub override_by :
    ℕ
    → String
    → Bool
    → Option String
    → Option String
    → Tables
    → Option FeatureFlagDefinition
    → Option Tables
override_by id org enabled by reason t none = none
override_by id org enabled by reason t (some d) =
    let row = find (λ (f : FlagRow). str_eq f.key d.key) t.flags in
    some (record {
      flags = with_flag id d t.flags row;
      overrides = upsert_override org (id_or_new id row) enabled by reason t.overrides;
    })

-- `setOverride`: the tables after it. The process that makes the change then forgets its entry.
unfoldable pub set_override :
    ℕ → String → String → Bool → Option String → Option String → Tables → Option Tables
set_override id org key enabled by reason t =
    override_by id org enabled by reason t (definition key)

-- `allFor`: the flags in turn, each through the cache.
unfoldable pub all_for :
    ℕ
    → String
    → Tables
    → List FeatureFlagDefinition
    → Cache
    → Cache × List (FeatureFlagDefinition × Bool)
all_for now org t [] cache = (cache, [])
all_for now org t (d ∷ ds) cache =
    let one = look_up now org d t cache (find (is_entry org d.key) cache) in
    let rest = all_for now org t ds one.0 in (rest.0, (d, one.1) ∷ rest.1)
