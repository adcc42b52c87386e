-- ===== src/FeatureFlags/Tests.antt =====
-- One flag, toggled for one organization.
use capere_ai.Base.{◌≡◌, refl, true, false, none, some, [], ◌∷◌}
use capere_ai.FeatureFlags.{
  Tables, Cache, definitions, definition, is_override, load_effective_value, is_enabled,
  upsert_override, set_override, all_for,
}
use capere_ai.FeatureFlags.Toggles.{HasId, OneRow, value_of, is_enabled-other_process}

unfolds : Unit {0}
unfolding definitions definition is_override HasId load_effective_value is_enabled upsert_override
    set_override OneRow all_for
unfolds = tt

abbrev old : Tables
old = record { flags = []; overrides = [] }

abbrev new : Tables
new = record {
  flags =
      record {
        id = 7;
        key = "memory.semantic";
        description = "RAG retrieval over the CPA playbook and SOPs.";
        default_enabled = false;
      }
      ∷ [];
  overrides =
      record {
        organization_id = "acme";
        flag_id = 7;
        enabled = true;
        changed_by = some "ann";
        reason = none;
      }
      ∷ [];
}

abbrev warm : Cache
warm =
    record { organization_id = "acme"; key = "memory.semantic"; value = false; expires_at = 61000 }
    ∷ []

filled : is_enabled 1000 "acme" "memory.semantic" old [] ≡ some (warm, false)
unfolding unfolds
filled = refl

toggle : set_override 7 "acme" "memory.semantic" true (some "ann") none old ≡ some new
unfolding unfolds
toggle = refl

unknown : is_enabled 1000 "acme" "memory" old [] ≡ none
unfolding unfolds
unknown = refl

is_enabled-other_process_example :
    value_of (is_enabled 60999 "acme" "memory.semantic" new warm) ≡ some false
unfolding unfolds
is_enabled-other_process_example =
    is_enabled-other_process 60999 7 "acme" "memory.semantic" true (some "ann") none old new tt
      toggle 1000 [] (warm, false) refl filled
