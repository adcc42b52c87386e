-- ===== src/Tools/Schema.antt =====
-- `zodToJsonSchema` of backend/src/intelligence/tools/tool-registry.ts. A schema of the Zod library is
-- seen by its kind and its parts; whether a field may be left out (`isOptional`) is a parameter.
use capere_ai.Base.{Bool, Option, List, [], ◌∷◌, String, if◌then◌else◌}

mutual
  pub data ZodType : Type 0 where
    object : ZodShape → ZodType
    string : Option String → ZodType
    number : Option String → ZodType
    boolean : Option String → ZodType
    enumeration : List String → Option String → ZodType
    array : ZodType → Option String → ZodType
    optional : ZodType → ZodType
    nullable : ZodType → ZodType
    with_default : ZodType → ZodType
    literal : String → ZodType
    other : ZodType

  pub data ZodShape : Type 0 where
    no_field : ZodShape
    field : String → ZodType → ZodShape → ZodShape

mutual
  pub data JsonSchema : Type 0 where
    -- `properties` and `required`, with no other property.
    object_schema : Properties → List String → JsonSchema
    string_schema : Option String → JsonSchema
    number_schema : Option String → JsonSchema
    boolean_schema : Option String → JsonSchema
    enum_schema : List String → Option String → JsonSchema
    array_schema : JsonSchema → Option String → JsonSchema
    const_schema : String → JsonSchema
    any_object : JsonSchema

  pub data Properties : Type 0 where
    no_property : Properties
    property : String → JsonSchema → Properties → Properties

module _ (is_optional : ZodType → Bool) where
  unfoldable pub required_keys : ZodShape → List String
  required_keys ZodShape.no_field = []
  required_keys (ZodShape.field key t rest) =
      if is_optional t then required_keys rest else key ∷ required_keys rest

  unfoldable mutual
    unfolding required_keys

    pub zod_to_json_schema : ZodType → JsonSchema
    zod_to_json_schema (ZodType.object shape) =
        JsonSchema.object_schema (properties_of shape) (required_keys shape)
    zod_to_json_schema (ZodType.string d) = JsonSchema.string_schema d
    zod_to_json_schema (ZodType.number d) = JsonSchema.number_schema d
    zod_to_json_schema (ZodType.boolean d) = JsonSchema.boolean_schema d
    zod_to_json_schema (ZodType.enumeration values d) = JsonSchema.enum_schema values d
    zod_to_json_schema (ZodType.array t d) = JsonSchema.array_schema (zod_to_json_schema t) d
    zod_to_json_schema (ZodType.optional t) = zod_to_json_schema t
    zod_to_json_schema (ZodType.nullable t) = zod_to_json_schema t
    zod_to_json_schema (ZodType.with_default t) = zod_to_json_schema t
    zod_to_json_schema (ZodType.literal value) = JsonSchema.const_schema value
    zod_to_json_schema ZodType.other = JsonSchema.any_object

    pub properties_of : ZodShape → Properties
    properties_of ZodShape.no_field = Properties.no_property
    properties_of (ZodShape.field key t rest) =
        Properties.property key (zod_to_json_schema t) (properties_of rest)
