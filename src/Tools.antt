-- ===== src/Tools.antt =====
-- backend/src/intelligence/tools: tool.interface.ts and tool-registry.ts. Values of JSON are of a type V
-- and the world that the bodies of tools read and change is of a type S; both are parameters, with the
-- parser of JSON and the clock. A tool's body is its `execute`; a message is the list of its parts.
pub mod Schema
pub mod Invocation
pub mod Offers
mod Tests
use Prim.Native.String.{compare}
use Prim.Native.Nat.{Ordering}
use capere_ai.Base.{
  ℕ, ◌+◌, ◌-◌, Bool, true, false, not, ◌&&◌, ◌||◌, Option, none, some, List, [], ◌∷◌, ◌++◌, String,
  str_eq, ltb, leb, ◌==◌, find, any, every, select, map, take, is_some, if◌then◌else◌, some_and,
  codes, length,
}
use capere_ai.Rag.Text.{trim}
use capere_ai.Tools.Schema.{ZodType, JsonSchema, zod_to_json_schema}

pub record ToolContext : Type 0 where
  pub organization_id : String
  pub user_id : Option String
  pub role : String
  pub session_id : Option ℕ
  pub agent : String
  -- When the signal of the caller aborts.
  pub aborted_at : Option ℕ

pub data ToolErrorCode : Type 0 where
  not_found invalid_input permission_denied timeout execution_failed : ToolErrorCode

-- An issue of the schema library: the path and the message.
pub record Issue : Type 0 where
  pub path : List String
  pub message : String

pub data Details : Type 0 where
  no_details : Details
  received : List ℕ → Details
  issues : List Issue → Details

pub record ToolError : Type 0 where
  pub code : ToolErrorCode
  pub message : List String
  pub details : Details

-- How a body ends: the world after it has the time.
pub data Settled (V : Type 0) : Type 0 where
  returned : V → Settled V
  threw : Settled V
  pending : Settled V

pub data Parsed (V : Type 0) : Type 0 where
  valid : V → Parsed V
  invalid : List Issue → Parsed V

pub record Tool (V : Type 0) (S : Type 0) : Type 0 where
  pub name : String
  pub description : String
  pub schema : ZodType
  pub safe_parse : V → Parsed V
  pub permissions : List String
  pub agents : Option (List String)
  pub timeout_ms : ℕ
  pub mutates : Bool
  pub execute : V → ToolContext → S → S × Settled V

pub record ToolResult (V : Type 0) : Type 0 where
  pub tool_name : String
  pub ok : Bool
  pub output : Option V
  pub error : Option ToolError
  pub duration_ms : ℕ

pub record ToolDescriptor : Type 0 where
  pub name : String
  pub description : String
  pub parameters : JsonSchema

abbrev pub includes : String → List String → Bool
includes a = any (str_eq a)

abbrev pub is_lower : ℕ → Bool
is_lower c = leb 97 c && leb c 122

abbrev pub is_name_char : ℕ → Bool
is_name_char c = is_lower c || (leb 48 c && leb c 57) || c == 95

-- `/^[a-z][a-z0-9_]{0,63}$/`
abbrev pub is_tool_name : List ℕ → Bool
is_tool_name [] = false
is_tool_name (c ∷ s) = is_lower c && every is_name_char s && leb (length s) 63

-- What the registry uses of its platform.
pub record Platform (V : Type 0) (S : Type 0) : Type 0 where
  pub parse_json : String → Option V
  pub empty_object : V
  pub clock : S → ℕ
  pub is_optional : ZodType → Bool

abbrev pub permits_agent : String → Option (List String) → Bool
permits_agent agent none = true
permits_agent agent (some agents) = includes agent agents

-- Without an agent in the options every tool passes.
abbrev pub offers_agent : Option String → Option (List String) → Bool
offers_agent none agents = true
offers_agent (some agent) agents = permits_agent agent agents

abbrev before : Ordering → Bool
before Ordering.gt = false
before _ = true

abbrev pub insert_name : String → List String → List String
insert_name a [] = a ∷ []
insert_name a (b ∷ bs) = if before (compare a b) then a ∷ b ∷ bs else b ∷ insert_name a bs

abbrev pub sorted : List String → List String
sorted [] = []
sorted (a ∷ as_) = insert_name a (sorted as_)

abbrev pub or_none : List String → List String
or_none [] = "none" ∷ []
or_none (a ∷ []) = a ∷ []
or_none (a ∷ b ∷ rest) = a ∷ ", " ∷ or_none (b ∷ rest)

module _ {V : Type 0} where
  -- `failure`
  abbrev pub failure : String → ToolErrorCode → List String → Details → ℕ → ToolResult V
  failure name code message details ms = record {
    tool_name = name;
    ok = false;
    output = none;
    error = some (record { code = code; message = message; details = details });
    duration_ms = ms;
  }

  abbrev pub success : String → V → ℕ → ToolResult V
  success name output ms = record {
    tool_name = name;
    ok = true;
    output = some output;
    error = none;
    duration_ms = ms;
  }

module _ {V : Type 0} {S : Type 0} where
  abbrev pub is_named : String → Tool V S → Bool
  is_named name t = str_eq t.name name

  -- `get` and `has`
  unfoldable pub get : List (Tool V S) → String → Option (Tool V S)
  get tools name = find (is_named name) tools

  unfoldable pub has : List (Tool V S) → String → Bool
  has tools name = any (is_named name) tools

  -- `register`; none where it throws.
  unfoldable pub register : Tool V S → List (Tool V S) → Option (List (Tool V S))
  unfolding has
  register tool tools =
      if has tools tool.name
      then none
      else if is_tool_name (codes tool.name)
      then some (tools ++ tool ∷ [])
      else none

  abbrev pub descriptor : (ZodType → Bool) → Tool V S → ToolDescriptor
  descriptor is_optional t = record {
    name = t.name;
    description = t.description;
    parameters = zod_to_json_schema is_optional t.schema;
  }

  -- `descriptorsFor`
  unfoldable pub descriptors_for :
      (ZodType → Bool) → List (Tool V S) → String → Bool → Option String → List ToolDescriptor
  descriptors_for is_optional tools role include_mutating agent = map (descriptor is_optional) (
      select (λ t. include_mutating || not t.mutates)
        (select (λ t. offers_agent agent t.agents)
          (select (λ t. includes role t.permissions) tools)))

  -- `names`
  unfoldable pub names : List (Tool V S) → List String
  names tools = sorted (map (λ t. t.name) tools)

  abbrev pub parse_text : Platform V S → String → List ℕ → Option V
  parse_text w raw [] = some w.empty_object
  parse_text w raw (c ∷ s) = w.parse_json raw

  -- An empty text is a call without arguments.
  abbrev pub parse_arguments : Platform V S → String → Option V
  parse_arguments w raw = parse_text w raw (trim (codes raw))
