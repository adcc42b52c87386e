-- ===== src/Tools/Tests.antt =====
-- A registry of two tools.
use capere_ai.Base.{◌≡◌, refl, Bool, true, false, none, some, List, [], ◌∷◌, String, ℕ}
use capere_ai.Tools.{Tool, Settled, Parsed, get, has, register, names, descriptors_for}
use capere_ai.Tools.Schema.{
  ZodType, ZodShape, JsonSchema, Properties, required_keys, zod_to_json_schema,
}
use capere_ai.Tools.Offers.{Registry, Usable}

unfolds : Unit {0}
unfolding get has register names descriptors_for Registry Usable required_keys zod_to_json_schema
unfolds = tt

abbrev tool : String → Bool → Tool String ℕ
tool name mutates = record {
  name = name;
  description = "A tool.";
  schema = ZodType.object (
      ZodShape.field "days" (ZodType.optional (ZodType.number none))
        (ZodShape.field "id" (ZodType.string none) ZodShape.no_field));
  safe_parse = λ v. Parsed.valid v;
  permissions = "owner" ∷ [];
  agents = some ("seo" ∷ []);
  timeout_ms = 1000;
  mutates = mutates;
  execute = λ v ctx s. (s, Settled.returned v);
}

abbrev is_optional : ZodType → Bool
is_optional (ZodType.optional t) = true
is_optional _ = false

abbrev two : List (Tool String ℕ)
two = tool "write" true ∷ tool "read" false ∷ []

registered : register (tool "read" false) (tool "write" true ∷ []) ≡ some two
unfolding unfolds
registered = refl

taken : register (tool "read" true) two ≡ none
unfolding unfolds
taken = refl

sorted_names : names two ≡ "read" ∷ "write" ∷ []
unfolding unfolds
sorted_names = refl

required :
    zod_to_json_schema is_optional ((tool "read" true).schema)
    ≡ JsonSchema.object_schema
        (Properties.property "days"
          (JsonSchema.number_schema none)
          (Properties.property "id" (JsonSchema.string_schema none) Properties.no_property))
        ("id" ∷ [])
unfolding unfolds
required = refl
