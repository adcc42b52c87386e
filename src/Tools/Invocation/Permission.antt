-- ===== src/Tools/Invocation/Permission.antt =====
-- What a call of a tool has passed where its body has run, and what is offered.
use capere_ai.Base.{
  ◌≡◌, refl, true, false, Option, none, some, List, String, Bool-cases, inl, inr, ◌⊎◌,
}
use capere_ai.Tools.{
  ToolContext, Parsed, Tool, ToolResult, includes, Platform, get, permits_agent, parse_arguments,
}
use capere_ai.Tools.Invocation.{start, check_schema, check_json, check_tool, execute}

module _ {V : Type 0} {S : Type 0} (w : Platform V S) where
  -- A tool that the caller's role and agent may use, with an input that its schema accepts.
  unfoldable pub Permitted : List (Tool V S) → String → ToolContext → Tool V S → V → Type 0
  Permitted tools name ctx tool input =
      (get tools name ≡ some tool)
      × (includes ctx.role tool.permissions ≡ true)
      × (permits_agent ctx.agent tool.agents ≡ true)
      × ((v : V) × (tool.safe_parse v ≡ Parsed.valid input))

  -- Nothing happened, or a permitted body ran.
  unfoldable pub Guarded :
      List (Tool V S) → String → ToolContext → S → S × Option (ToolResult V) → Type 0
  Guarded tools name ctx s r =
      ((r.0 ≡ s) × ((t : ToolResult V) × (r.1 ≡ some t) × (t.ok ≡ false)))
      ⊎ ((tool : Tool V S) × (input : V) × Permitted tools name ctx tool input
          × (r ≡ start w tool input ctx s))

  module _ (tools : List (Tool V S)) (name raw : String) (ctx : ToolContext) (s : S) where
    refused_call : (t : ToolResult V) → t.ok ≡ false → Guarded tools name ctx s (s, some t)
    unfolding Guarded
    refused_call t e = inl (refl, (t, refl, e))

    module _ (tool : Tool V S) (known : get tools name ≡ some tool)
        (role : includes ctx.role tool.permissions ≡ true)
        (agent : permits_agent ctx.agent tool.agents ≡ true) where
      Guarded-check_schema :
          (v : V) (p : Parsed V)
          → tool.safe_parse v ≡ p
          → Guarded tools name ctx s (check_schema w tool ctx s p)
      unfolding Guarded Permitted
      Guarded-check_schema v (Parsed.valid input) e =
          inr (tool, input, (known, role, agent, (v, e)), refl)
      Guarded-check_schema v (Parsed.invalid found) e = refused_call _ refl

      Guarded-check_json : (o : Option V) → Guarded tools name ctx s (check_json w tool raw ctx s o)
      Guarded-check_json none = refused_call _ refl
      Guarded-check_json (some v) = Guarded-check_schema v (tool.safe_parse v) refl

    Guarded-check_tool :
        (o : Option (Tool V S))
        → get tools name ≡ o
        → Guarded tools name ctx s (check_tool w tools name raw ctx s o)
    Guarded-check_tool none known = refused_call _ refl
    Guarded-check_tool (some tool) known = elim (Bool-cases (includes ctx.role tool.permissions)) [
      | inr n ↦ rw n (refused_call _ refl)
      | inl r ↦ elim (Bool-cases (permits_agent ctx.agent tool.agents)) [
        | inr n ↦ rw (r, n) (refused_call _ refl)
        | inl a ↦ rw (r, a) (Guarded-check_json tool known r a (parse_arguments w raw))
      ]
    ]

    -- A call either leaves the world and returns a failure, or runs the body of the tool of that name,
    -- which the caller's role and agent may use, with an input that the tool's schema accepts.
    pub execute-Guarded : Guarded tools name ctx s (execute w tools name raw ctx s)
    unfolding execute
    execute-Guarded = Guarded-check_tool (get tools name) refl
