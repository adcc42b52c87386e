-- ===== src/Reasoning/Completion.antt =====
-- A run returns.
use capere_ai.Base.{
  ℕ, zero, suc, ◌≡◌, refl, subst, ap, ap₂, ◌∙◌, Bool, true, false, Option, none, some, List, [],
  ◌∷◌, String, All, Bool-cases, inl, inr, some_same,
}
use capere_ai.Llm.Router.{LlmToolCall, LlmCompletion, Result, ok, err}
use capere_ai.Tools.{Tool, ToolContext, Settled, ToolResult, ToolDescriptor, get, is_named}
use capere_ai.Tools.Invocation.{execute, end_of, own_context}
use capere_ai.Tools.Invocation.Permission.{Permitted, Guarded, execute-Guarded}
use capere_ai.Reasoning.{
  LlmMessage, ReasoningRequest, ReasoningResult, RunEnd, both, run_calls, Service, after_calls,
  by_calls, after_answer, forced, loop, run, request_context, max_of, offered_tools,
}

abbrev pub is_settled : {V : Type 0} → Settled V → Bool
is_settled (Settled.returned v) = true
is_settled Settled.threw = true
is_settled Settled.pending = false

module _ {V : Type 0} {S : Type 0} where
  -- Every call of the tool's body settles.
  unfoldable pub Settles : Tool V S → Type 0
  Settles t = (v : V) (ctx : ToolContext) (s : S) → is_settled ((t.execute v ctx s).1) ≡ true

  unfoldable pub Finished : S × RunEnd V → Type 0
  Finished e = (r : ReasoningResult V) × (e.1 ≡ RunEnd.finished r)

  All-get :
      (P : Tool V S → Type 0) (name : String) (ts : List (Tool V S)) (t : Tool V S)
      → All P ts
      → get ts name ≡ some t
      → P t
  unfolding get
  All-get P name [] t h e = absurd cc
  All-get P name (u ∷ us) t (p, h) e = elim (Bool-cases (is_named name u)) [
    | inl y ↦ subst P (some_same u t (rw y at e)) p
    | inr n ↦ All-get P name us t h (rw n at e)
  ]

module _ {V : Type 0} {S : Type 0} (w : Service V S) (q : ReasoningRequest)
    (settles : All Settles w.tools)
    (answers : (messages : List LlmMessage) (offered : List ToolDescriptor) (number : ℕ)
        (forced : Bool) (s : S)
      → (c : LlmCompletion) × ((w.ask messages offered number forced s).1 ≡ ok c)) where
  end_of-some :
      (tool : Tool V S) (ctx : ToolContext) (started : ℕ) (o : S × Settled V)
      → is_settled (o.1) ≡ true
      → (r : ToolResult V) × ((end_of w.platform tool ctx started o).1 ≡ some r)
  end_of-some tool ctx started (s, Settled.returned v) h = (_, refl)
  end_of-some tool ctx started (s, Settled.threw) h = (_, refl)
  end_of-some tool ctx started (s, Settled.pending) h = absurd cc

  execute-some :
      (name raw : String) (s : S)
      → (r : ToolResult V) × ((execute w.platform w.tools name raw (request_context q) s).1
          ≡ some r)
  unfolding Guarded Permitted Settles
  execute-some name raw s =
      elim (execute-Guarded w.platform w.tools name raw (request_context q) s) [
        | inl (kept, (r, e, bad)) ↦ (r, e)
        | inr (tool, input, allowed, e) ↦
            let ran = end_of-some tool (request_context q) (w.platform.clock s) _ (
              All-get Settles name w.tools tool settles allowed.0 input
                (own_context w.platform tool (request_context q) (w.platform.clock s)) s) in
            (ran.0, ap (λ x. x.1) e ∙ ran.1)
      ]

  run_calls-some :
      (calls : List LlmToolCall) (s : S)
      → (rs : List (ToolResult V)) × ((run_calls w.platform w.tools (request_context q) calls s).1
          ≡ some rs)
  unfolding run_calls
  run_calls-some [] s = ([], refl)
  run_calls-some (call ∷ calls) s =
      let one = execute-some call.name call.arguments s in
      let rest =
        run_calls-some calls
          ((execute w.platform w.tools call.name call.arguments (request_context q) s).0) in
      (one.0 ∷ rest.0, ap₂ both one.1 rest.1)

  module _ (messages : List LlmMessage) (results : List (ToolResult V)) (made : ℕ)
      (next : List LlmMessage → List (ToolResult V) → S → S × RunEnd V)
      (go_on : (ms : List LlmMessage) (rs : List (ToolResult V)) (s : S)
        → Finished (next ms rs s)) where
    Finished-calls :
        (c : LlmCompletion) (o : S × Option (List (ToolResult V)))
        → ((rs : List (ToolResult V)) × (o.1 ≡ some rs))
        → Finished (after_calls w q c messages results o next)
    Finished-calls c (s, none) (rs, h) = absurd cc
    Finished-calls c (s, some rs) h = go_on _ _ s

    Finished-answer :
        (o : S × Result)
        → ((c : LlmCompletion) × (o.1 ≡ ok c))
        → Finished (after_answer w q messages results made o next)
    unfolding Finished
    Finished-answer (s, err e) (c, h) = absurd cc
    Finished-answer (s, ok c) h = go c.tool_calls
      where
        go :
            (calls : List LlmToolCall)
            → Finished (by_calls w q c calls messages results made s next)
        go [] = (_, refl)
        go (call ∷ calls) =
            Finished-calls c (run_calls w.platform w.tools (request_context q) (call ∷ calls) s)
              (run_calls-some (call ∷ calls) s)

  Finished-forced :
      (made : ℕ) (messages : List LlmMessage) (results : List (ToolResult V)) (o : S × Result)
      → ((c : LlmCompletion) × (o.1 ≡ ok c))
      → Finished (forced w q messages results made o)
  unfolding Finished
  Finished-forced made messages results (s, err e) (c, h) = absurd cc
  Finished-forced made messages results (s, ok c) h = (_, refl)

  loop-Finished :
      (offered : List ToolDescriptor) (left made : ℕ) (messages : List LlmMessage)
      (results : List (ToolResult V)) (s : S)
      → Finished (loop w q offered left made messages results s)
  unfolding loop
  loop-Finished offered zero made messages results s =
      Finished-forced (suc made) messages results _ (answers _ _ _ _ s)
  loop-Finished offered (suc left) made messages results s =
      Finished-answer messages results (suc made) _
        (λ ms rs s'. loop-Finished offered left (suc made) ms rs s') _ (answers _ _ _ _ s)

  -- Where the router answers every call and the bodies of the registry's tools settle, a run returns a
  -- result, whatever calls the model asks for.
  pub run-Finished : (s : S) → Finished (run w q s)
  unfolding run
  run-Finished s = loop-Finished (offered_tools w q) (max_of q) 0 _ [] s
