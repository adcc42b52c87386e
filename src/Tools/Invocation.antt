-- ===== src/Tools/Invocation.antt =====
-- `execute` of backend/src/intelligence/tools/tool-registry.ts: the checks of a call in their order, and
-- the end of the tool's body. None stands for a promise that never settles.
pub mod Permission
use capere_ai.Base.{
  ℕ, ◌+◌, ◌-◌, min, Bool, true, false, not, ◌&&◌, Option, none, some, List, [], ◌∷◌, ◌++◌, String,
  ltb, leb, take, if◌then◌else◌, some_and, codes,
}
use capere_ai.Tools.{
  ToolContext, ToolErrorCode, Details, Settled, Parsed, Tool, ToolResult, includes, Platform, get,
  permits_agent, names, or_none, failure, success, parse_arguments,
}

-- The abort of the controller: at the deadline, or with the caller's signal where that comes first. A
-- signal that had aborted before sends no event.
abbrev pub aborts_at : ℕ → ℕ → Option ℕ → ℕ
aborts_at started timeout none = started + timeout
aborts_at started timeout (some a) =
    if ltb started a then min (started + timeout) a else started + timeout

module _ {V : Type 0} {S : Type 0} (w : Platform V S) where
  abbrev pub on_throw : Tool V S → ToolContext → ℕ → ℕ → ToolResult V
  on_throw tool ctx started now =
      if leb (aborts_at started tool.timeout_ms ctx.aborted_at) now
      then failure tool.name ToolErrorCode.timeout
          (if some_and (λ a. leb a now) ctx.aborted_at
            then "Tool \"" ∷ tool.name ∷ "\" was cancelled." ∷ []
            else "Tool \"" ∷ tool.name ∷ "\" exceeded its deadline." ∷ [])
          Details.no_details (now - started)
      else failure tool.name ToolErrorCode.execution_failed
          ("\"" ∷ tool.name ∷ "\" failed to complete. The underlying error has been logged." ∷ [])
          Details.no_details (now - started)

  -- The `try` around the body.
  abbrev pub end_of : Tool V S → ToolContext → ℕ → S × Settled V → S × Option (ToolResult V)
  end_of tool ctx started (s, Settled.returned v) =
      (s, some (success tool.name v (w.clock s - started)))
  end_of tool ctx started (s, Settled.threw) = (s, some (on_throw tool ctx started (w.clock s)))
  end_of tool ctx started (s, Settled.pending) = (s, none)

  abbrev pub own_context : Tool V S → ToolContext → ℕ → ToolContext
  own_context tool ctx started = record ctx {
    aborted_at = some (aborts_at started tool.timeout_ms ctx.aborted_at);
  }

  abbrev pub start : Tool V S → V → ToolContext → S → S × Option (ToolResult V)
  start tool input ctx s =
      end_of tool ctx (w.clock s) (tool.execute input (own_context tool ctx (w.clock s)) s)

  abbrev pub check_schema : Tool V S → ToolContext → S → Parsed V → S × Option (ToolResult V)
  check_schema tool ctx s (Parsed.valid input) = start tool input ctx s
  check_schema tool ctx s (Parsed.invalid found) = (
    s,
    some (
        failure tool.name ToolErrorCode.invalid_input
          ("Arguments did not match the schema for \"" ∷ tool.name ∷ "\"." ∷ [])
          (Details.issues found) 0),
  )

  abbrev pub check_json : Tool V S → String → ToolContext → S → Option V → S × Option (ToolResult V)
  check_json tool raw ctx s none = (
    s,
    some (
        failure tool.name ToolErrorCode.invalid_input ("Arguments were not valid JSON." ∷ [])
          (Details.received (take 200 (codes raw))) 0),
  )
  check_json tool raw ctx s (some v) = check_schema tool ctx s (tool.safe_parse v)

  abbrev pub denied : Tool V S → List String → S → S × Option (ToolResult V)
  denied tool message s =
      (s, some (failure tool.name ToolErrorCode.permission_denied message Details.no_details 0))

  abbrev pub check_tool :
      List (Tool V S)
      → String
      → String
      → ToolContext
      → S
      → Option (Tool V S)
      → S × Option (ToolResult V)
  check_tool tools name raw ctx s none = (
    s,
    some (
        failure name ToolErrorCode.not_found
          ("No tool named \"" ∷ name ∷ "\". Available tools: " ∷ or_none (names tools) ++ "." ∷ [])
          Details.no_details 0),
  )
  check_tool tools name raw ctx s (some tool) =
      if not (includes ctx.role tool.permissions)
      then denied tool
          ("Your role (" ∷ ctx.role ∷ ") is not permitted to use \"" ∷ tool.name ∷ "\"." ∷ []) s
      else if not (permits_agent ctx.agent tool.agents)
      then denied tool
          ("The " ∷ ctx.agent ∷ " capability is not permitted to use \"" ∷ tool.name ∷ "\"." ∷ []) s
      else check_json tool raw ctx s (parse_arguments w raw)

  -- `execute`
  unfoldable pub execute :
      List (Tool V S) → String → String → ToolContext → S → S × Option (ToolResult V)
  execute tools name raw ctx s = check_tool tools name raw ctx s (get tools name)
