-- ===== src/Reasoning/Reach.antt =====
-- What a run does to the world: it calls the model and runs bodies of tools that the caller may use.
use capere_ai.Base.{
  ℕ, zero, suc, ◌+◌, ◌≤◌, sym, subst, Bool, Option, none, some, List, [], ◌∷◌, String, arith, inl,
  inr,
}
use capere_ai.Tools.Invocation.{execute, start}
use capere_ai.Tools.Invocation.Permission.{Permitted, Guarded, execute-Guarded}
use capere_ai.Llm.Router.{LlmToolCall, LlmCompletion, Result, ok, err}
use capere_ai.Tools.{ToolResult, ToolDescriptor, Tool}
use capere_ai.Reasoning.{
  LlmMessage, ReasoningRequest, RunEnd, run_calls, Service, after_calls, by_calls, after_answer,
  forced, loop, run, request_context, max_of, offered_tools,
}

module _ {V : Type 0} {S : Type 0} (w : Service V S) (q : ReasoningRequest) where
  -- The world after so many calls of the model, and any number of bodies that the caller may run.
  pub data Reached (s : S) : ℕ → S → Type 0 where
    same : Reached s 0 s
    asked :
        (n : ℕ) (s' : S) (messages : List LlmMessage) (offered : List ToolDescriptor) (number : ℕ)
        (forced : Bool)
        → Reached s n s'
        → Reached s (suc n) ((w.ask messages offered number forced s').0)
    used :
        (n : ℕ) (s' : S) (name : String) (tool : Tool V S) (input : V)
        → Permitted w.platform w.tools name (request_context q) tool input
        → Reached s n s'
        → Reached s n ((start w.platform tool input (request_context q) s').0)

  module _ (s : S) where
    Reached-execute :
        (n : ℕ) (s' : S) (name raw : String)
        → Reached s n s'
        → Reached s n ((execute w.platform w.tools name raw (request_context q) s').0)
    unfolding Guarded
    Reached-execute n s' name raw h =
        elim (execute-Guarded w.platform w.tools name raw (request_context q) s') [
          | inl (kept, t) ↦ subst (Reached s n) (sym kept) h
          | inr (tool, input, allowed, e) ↦
              subst (λ (r : S × Option (ToolResult V)). Reached s n (r.0)) (sym e)
                (used n s' name tool input allowed h)
        ]

    Reached-run_calls :
        (n : ℕ) (calls : List LlmToolCall) (s' : S)
        → Reached s n s'
        → Reached s n ((run_calls w.platform w.tools (request_context q) calls s').0)
    unfolding run_calls
    Reached-run_calls n [] s' h = h
    Reached-run_calls n (call ∷ calls) s' h =
        Reached-run_calls n calls _ (Reached-execute n s' call.name call.arguments h)

    -- In at most so many calls of the model from here.
    unfoldable pub Within : ℕ → ℕ → S → Type 0
    Within n left s' = (k : ℕ) × (k ≤ n + left) × Reached s k s'

    Within-same : (n left : ℕ) (s' : S) → Reached s (suc n) s' → Within n (suc left) s'
    unfolding Within
    Within-same n left s' h = (suc n, omega arith, h)

    Within-suc : (n left : ℕ) (s' : S) → Within (suc n) left s' → Within n (suc left) s'
    unfolding Within
    Within-suc n left s' (k, le, h) = (k, omega (arith, le), h)

    module _ (n left : ℕ) (messages : List LlmMessage) (results : List (ToolResult V))
        (next : List LlmMessage → List (ToolResult V) → S → S × RunEnd V)
        (go_on : (ms : List LlmMessage) (rs : List (ToolResult V)) (s' : S)
          → Reached s (suc n) s'
          → Within (suc n) (suc left) ((next ms rs s').0)) where
      Within-calls :
          (c : LlmCompletion) (o : S × Option (List (ToolResult V)))
          → Reached s (suc n) o.0
          → Within n (suc (suc left)) ((after_calls w q c messages results o next).0)
      Within-calls c (s', none) h = Within-same n (suc left) s' h
      Within-calls c (s', some rs) h = Within-suc n (suc left) _ (go_on _ _ s' h)

      Within-answer :
          (made : ℕ) (o : S × Result)
          → Reached s (suc n) o.0
          → Within n (suc (suc left)) ((after_answer w q messages results made o next).0)
      Within-answer made (s', err e) h = Within-same n (suc left) s' h
      Within-answer made (s', ok c) h = go c.tool_calls
        where
          go :
              (calls : List LlmToolCall)
              → Within n (suc (suc left)) ((by_calls w q c calls messages results made s' next).0)
          go [] = Within-same n (suc left) s' h
          go (call ∷ calls) = Within-calls c _ (Reached-run_calls (suc n) (call ∷ calls) s' h)

    Within-forced :
        (n made : ℕ) (messages : List LlmMessage) (results : List (ToolResult V)) (o : S × Result)
        → Reached s (suc n) o.0
        → Within n 1 ((forced w q messages results made o).0)
    Within-forced n made messages results (s', err e) h = Within-same n 0 s' h
    Within-forced n made messages results (s', ok c) h = Within-same n 0 s' h

    Within-loop :
        (offered : List ToolDescriptor) (left made n : ℕ) (messages : List LlmMessage)
        (results : List (ToolResult V)) (s' : S)
        → Reached s n s'
        → Within n (suc left) ((loop w q offered left made messages results s').0)
    unfolding loop
    Within-loop offered zero made n messages results s' h =
        Within-forced n (suc made) messages results _ (asked n s' _ _ _ _ h)
    Within-loop offered (suc left) made n messages results s' h =
        Within-answer n left messages results
          (λ ms rs s1. loop w q offered left (suc made) ms rs s1)
          (λ ms rs s1 h1. Within-loop offered left (suc made) (suc n) ms rs s1 h1) (suc made) _
          (asked n s' _ _ _ _ h)

    -- Whatever the model answers, a run calls it at most once more than the request allows rounds, and
    -- otherwise only runs bodies of tools of the registry that the caller's role and agent may use, with
    -- inputs that the tools' schemas accept.
    pub run-Within : Within 0 (suc (max_of q)) ((run w q s).0)
    unfolding run
    run-Within = Within-loop (offered_tools w q) (max_of q) 0 0 _ [] s same
