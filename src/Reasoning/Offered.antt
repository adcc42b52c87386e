-- ===== src/Reasoning/Offered.antt =====
-- What is offered to the model does not limit what it can use.
use capere_ai.Base.{
  ℕ, zero, suc, ◌≡◌, refl, ap, ◌∙◌, Bool, false, Option, none, some, List, [], ◌∷◌,
}
use capere_ai.Llm.Router.{LlmToolCall, LlmCompletion, Result, ok, err}
use capere_ai.Tools.{ToolResult, ToolDescriptor}
use capere_ai.Reasoning.{
  LlmMessage, ReasoningRequest, RunEnd, run_calls, Service, after_calls, by_calls, after_answer,
  loop, run, request_context, max_of, offered_tools,
}

-- The request with other settings of `allowMutatingTools` and `toolsEnabled`.
abbrev pub with_settings : ReasoningRequest → Option Bool → Option Bool → ReasoningRequest
with_settings q mutating enabled = record q {
  allow_mutating_tools = mutating;
  tools_enabled = enabled;
}

module _ {V : Type 0} {S : Type 0} (w : Service V S) (q : ReasoningRequest)
    (mutating enabled : Option Bool) where
  module _ (messages : List LlmMessage) (results : List (ToolResult V)) (made : ℕ)
      (f g : List LlmMessage → List (ToolResult V) → S → S × RunEnd V)
      (h : (ms : List LlmMessage) (rs : List (ToolResult V)) (s : S) → f ms rs s ≡ g ms rs s) where
    same_calls :
        (c : LlmCompletion) (o : S × Option (List (ToolResult V)))
        → after_calls w q c messages results o f
          ≡ after_calls w (with_settings q mutating enabled) c messages results o g
    same_calls c (s, none) = refl
    same_calls c (s, some rs) = h _ _ s

    same_answer :
        (o : S × Result)
        → after_answer w q messages results made o f
          ≡ after_answer w (with_settings q mutating enabled) messages results made o g
    same_answer (s, err e) = refl
    same_answer (s, ok c) = go c.tool_calls
      where
        go :
            (calls : List LlmToolCall)
            → by_calls w q c calls messages results made s f
              ≡ by_calls w (with_settings q mutating enabled) c calls messages results made s g
        go [] = refl
        go (call ∷ calls) =
            same_calls c (run_calls w.platform w.tools (request_context q) (call ∷ calls) s)

  module _
      (blind : (messages : List LlmMessage) (d d' : List ToolDescriptor) (number : ℕ)
          (forced : Bool) (s : S)
        → w.ask messages d number forced s ≡ w.ask messages d' number forced s) where
    same_loop :
        (d d' : List ToolDescriptor) (left made : ℕ) (messages : List LlmMessage)
        (results : List (ToolResult V)) (s : S)
        → loop w q d left made messages results s
          ≡ loop w (with_settings q mutating enabled) d' left made messages results s
    unfolding loop
    same_loop d d' zero made messages results s = refl
    same_loop d d' (suc left) made messages results s =
        same_answer messages results (suc made) _
          (λ ms rs s'. loop w (with_settings q mutating enabled) d' left (suc made) ms rs s')
          (λ ms rs s'. same_loop d d' left (suc made) ms rs s')
          (w.ask messages d (suc made) false s)
        ∙ ap
            (λ o.
              after_answer w (with_settings q mutating enabled) messages results (suc made) o
                (λ ms rs s'. loop w (with_settings q mutating enabled) d' left (suc made) ms rs s'))
            (blind messages d d' (suc made) false s)

    -- For a model whose answers do not depend on the tools that it is offered, the settings
    -- `allowMutatingTools` and `toolsEnabled` change nothing: the same bodies run, with the same end.
    pub run-with_settings : (s : S) → run w q s ≡ run w (with_settings q mutating enabled) s
    unfolding run
    run-with_settings s =
        same_loop (offered_tools w q) (offered_tools w (with_settings q mutating enabled))
          (max_of q) 0 _ [] s
