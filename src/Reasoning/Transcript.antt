-- ===== src/Reasoning/Transcript.antt =====
-- The messages and results that a run returns.
use capere_ai.Base.{
  ℕ, zero, suc, ◌+◌, ◌≤◌, ◌≡◌, refl, sym, subst, ap, ◌∙◌, Bool, true, false, Option, none, some,
  List, [], ◌∷◌, ◌++◌, String, arith, length, ◌==◌, some_same,
}
use mathlib.Core.List.{append-nil, append_assoc}
use capere_ai.Tools.Invocation.{execute}
use capere_ai.Llm.Router.{LlmToolCall, LlmCompletion, Result, ok, err}
use capere_ai.Tools.{ToolResult, ToolDescriptor}
use capere_ai.Reasoning.{
  LlmRole, LlmMessage, plain, ReasoningRequest, RunEnd, Rendering, tool_messages, assistant_calls,
  both, run_calls, Service, after_calls, by_calls, after_answer, forced, loop, run, request_context,
  max_of, offered_tools,
}

-- A round: the completion that asks for calls, with a result for each call.
pub record Round (V : Type 0) : Type 0 where
  pub completion : LlmCompletion
  pub results : List (ToolResult V)

module _ {V : Type 0} where
  -- Each round asks for at least one call and has one result for each.
  unfoldable pub AreRounds : List (Round V) → Type 0
  AreRounds [] = Unit
  AreRounds (r ∷ rs) =
      (1 ≤ length r.results) × (length r.results ≡ length (r.completion).tool_calls) × AreRounds rs

  -- The messages of rounds: each request for calls, then its results in the order of the calls.
  unfoldable pub written : Rendering V → List (Round V) → List LlmMessage
  written show [] = []
  written show (r ∷ rs) =
      assistant_calls r.completion ∷ tool_messages show (r.completion).tool_calls r.results
      ++ written show rs

  unfoldable pub gathered : List (Round V) → List (ToolResult V)
  gathered [] = []
  gathered (r ∷ rs) = r.results ++ gathered rs

  -- What a run returns where `left` rounds are left of it: at most so many rounds, and the answer; it
  -- is exhausted where there were exactly so many.
  unfoldable pub Returned :
      Rendering V → ℕ → ℕ → List LlmMessage → List (ToolResult V) → RunEnd V → Type 0
  Returned show left made messages results (RunEnd.finished r) =
      (rounds : List (Round V)) × AreRounds rounds
      × (r.messages
          ≡ messages ++ written show rounds ++ plain LlmRole.assistant (r.content ∷ []) ∷ [])
      × (r.tool_results ≡ results ++ gathered rounds)
      × (r.iterations ≡ suc (made + length rounds))
      × (length rounds ≤ left)
      × (r.exhausted ≡ length rounds == left)
  Returned show left made messages results (RunEnd.rejected e) = Unit
  Returned show left made messages results RunEnd.stuck = Unit

module _ {V : Type 0} where
  length-both :
      (a : Option V) (rest : Option (List V)) (vs : List V) (n : ℕ)
      → ((ts : List V) → rest ≡ some ts → length ts ≡ n)
      → both a rest ≡ some vs
      → length vs ≡ suc n
  length-both none rest vs n h e = absurd cc
  length-both (some a) none vs n h e = absurd cc
  length-both (some a) (some ts) vs n h e =
      subst (λ l. length l ≡ suc n) (some_same (a ∷ ts) vs e) (ap suc (h ts refl))

  -- A round before the others.
  Returned-round :
      (show : Rendering V) (left made : ℕ) (messages : List LlmMessage)
      (results : List (ToolResult V)) (c : LlmCompletion) (rs : List (ToolResult V)) (e : RunEnd V)
      → 1 ≤ length rs
      → length rs ≡ length c.tool_calls
      → Returned show left
          (suc made)
          (messages ++ assistant_calls c ∷ tool_messages show c.tool_calls rs)
          (results ++ rs)
          e
      → Returned show (suc left) made messages results e
  unfolding Returned AreRounds written gathered
  Returned-round show left made messages results c rs (RunEnd.finished r) one same
        (rounds, are, ms, ts, it, le, ex) =
      let last = plain LlmRole.assistant (r.content ∷ []) ∷ [] in
      (
        record { completion = c; results = rs } ∷ rounds,
        (one, same, are),
        ms
            ∙ ap (λ z. z ++ last)
                (append_assoc messages (assistant_calls c ∷ tool_messages show c.tool_calls rs)
                  (written show rounds)),
        ts ∙ append_assoc results rs (gathered rounds),
        omega (arith, it),
        omega (arith, le),
        ground (arith, ex),
      )
  Returned-round show left made messages results c rs (RunEnd.rejected e) one same h = tt
  Returned-round show left made messages results c rs RunEnd.stuck one same h = tt

  Returned-last :
      (show : Rendering V) (left made : ℕ) (messages : List LlmMessage)
      (results : List (ToolResult V)) (content : String) (exhausted : Bool)
      → exhausted ≡ 0 == left
      → Returned show left made messages results (
          RunEnd.finished (record {
            content = content;
            messages = messages ++ plain LlmRole.assistant (content ∷ []) ∷ [];
            tool_results = results;
            iterations = suc made;
            exhausted = exhausted;
          }))
  unfolding Returned AreRounds written gathered
  Returned-last show left made messages results content exhausted e = (
    [],
    tt,
    ap (λ z. z ++ plain LlmRole.assistant (content ∷ []) ∷ []) (sym (append-nil messages)),
    sym (append-nil results),
    omega arith,
    omega arith,
    e,
  )

module _ {V : Type 0} {S : Type 0} (w : Service V S) (q : ReasoningRequest) where
  length-run_calls :
      (calls : List LlmToolCall) (s : S) (rs : List (ToolResult V))
      → (run_calls w.platform w.tools (request_context q) calls s).1 ≡ some rs
      → length rs ≡ length calls
  unfolding run_calls
  length-run_calls [] s rs h = subst (λ l. length l ≡ 0) (some_same [] rs h) refl
  length-run_calls (call ∷ calls) s rs h =
      let one = execute w.platform w.tools call.name call.arguments (request_context q) s in
      length-both one.1 _ rs (length calls) (length-run_calls calls one.0) h

  abbrev Next : Type 0
  Next = List LlmMessage → List (ToolResult V) → S → S × RunEnd V

  module _ (left made : ℕ) (messages : List LlmMessage) (results : List (ToolResult V))
      (next : Next) where
    unfoldable IsNext : Type 0
    IsNext =
        (ms : List LlmMessage) (rs : List (ToolResult V)) (s : S)
        → Returned w.rendering left (suc made) ms rs ((next ms rs s).1)

    Returned-calls :
        (c : LlmCompletion) (o : S × Option (List (ToolResult V)))
        → IsNext
        → ((rs : List (ToolResult V))
            → o.1 ≡ some rs
            → (1 ≤ length rs) × (length rs ≡ length c.tool_calls))
        → Returned w.rendering
            (suc left)
            made
            messages
            results
            ((after_calls w q c messages results o next).1)
    unfolding IsNext Returned
    Returned-calls c (s, none) h k = tt
    Returned-calls c (s, some rs) h k =
        let n = k rs refl in
        Returned-round w.rendering left made messages results c rs _ n.0 n.1 (h _ _ s)

    Returned-answer :
        (o : S × Result)
        → IsNext
        → Returned w.rendering
            (suc left)
            made
            messages
            results
            ((after_answer w q messages results (suc made) o next).1)
    unfolding Returned
    Returned-answer (s, err e) h = tt
    Returned-answer (s, ok c) h = go c.tool_calls refl
      where
        go :
            (calls : List LlmToolCall)
            → c.tool_calls ≡ calls
            → Returned w.rendering
                (suc left)
                made
                messages
                results
                ((by_calls w q c calls messages results (suc made) s next).1)
        go [] e =
            Returned-last w.rendering (suc left) made messages results c.content false
              (ground arith)
        go (call ∷ calls) e =
            Returned-calls c (run_calls w.platform w.tools (request_context q) (call ∷ calls) s) h
              (λ rs r.
                let n = length-run_calls (call ∷ calls) s rs r in
                (omega (arith, n), n ∙ ap length (sym e)))

  forced-Returned :
      (made : ℕ) (messages : List LlmMessage) (results : List (ToolResult V)) (o : S × Result)
      → Returned w.rendering 0 made messages results ((forced w q messages results (suc made) o).1)
  unfolding Returned
  forced-Returned made messages results (s, err e) = tt
  forced-Returned made messages results (s, ok c) =
      Returned-last w.rendering 0 made messages results c.content true refl

  loop-Returned :
      (offered : List ToolDescriptor) (left made : ℕ) (messages : List LlmMessage)
      (results : List (ToolResult V)) (s : S)
      → Returned w.rendering left made messages results
          ((loop w q offered left made messages results s).1)
  unfolding loop IsNext
  loop-Returned offered zero made messages results s = forced-Returned made messages results _
  loop-Returned offered (suc left) made messages results s =
      Returned-answer left made messages results
        (λ ms rs s'. loop w q offered left (suc made) ms rs s') _
        (λ ms rs s'. loop-Returned offered left (suc made) ms rs s')

  -- A result of a run has the system prompt and the messages of the request, then at most as many
  -- rounds as the request allows, each with the request for calls and one result for each in their
  -- order, then the answer. The results are those of the rounds, the count of model calls that is
  -- reported is one more than the rounds, and the run is exhausted where there are as many as allowed.
  pub run-Returned :
      (s : S)
      → Returned w.rendering
          (max_of q)
          0
          (plain LlmRole.system q.system_prompt ∷ q.messages)
          []
          ((run w q s).1)
  unfolding run
  run-Returned s = loop-Returned (offered_tools w q) (max_of q) 0 _ [] s
