-- ===== src/Chat/Transcript.antt =====
-- The turns that are kept of a run are those of its rounds.
use capere_ai.Base.{
  ℕ, ◌≡◌, refl, sym, ap, ap₂, subst, ◌∙◌, Option, List, [], ◌∷◌, ◌++◌, map, String, arith, length,
  length-append,
}
use mathlib.Core.List.{append_assoc}
use capere_ai.Rag.Text.{drop}
use capere_ai.Llm.Router.{LlmToolCall}
use capere_ai.Memory.{NewTurn, MemorySnapshot}
use capere_ai.Tools.{ToolResult}
use capere_ai.Reasoning.{
  LlmRole, LlmMessage, plain, ReasoningResult, RunEnd, Rendering, tool_message, tool_messages, run,
  max_of,
}
use capere_ai.Reasoning.Transcript.{Round, AreRounds, written, gathered, Returned, run-Returned}
use capere_ai.Chat.Policy.{CapabilityPolicy}
use capere_ai.Chat.Turns.{history_of, call_turn, tool_turn, turns_of_message, transcript_turns}
use capere_ai.Chat.{Command, Intelligence, prior_of, prompt_messages, request_of}
use capere_ai.Chat.Response.{input_count}

drop-length : {A : Type 0} (xs ys : List A) → drop (length xs) (xs ++ ys) ≡ ys
drop-length [] ys = refl
drop-length (x ∷ xs) ys = drop-length xs ys

module _ {V : Type 0} (show : Rendering V) (arguments_text : String → Option String) (session : ℕ)
    (org : String) where
  -- One turn for each call of the round, with the text that came with it, then one for each result.
  unfoldable pub turns_of_rounds : List (Round V) → List NewTurn
  turns_of_rounds [] = []
  turns_of_rounds (r ∷ rs) =
      map (call_turn arguments_text session org ((r.completion).content ∷ []))
        (r.completion).tool_calls
      ++ (map (tool_turn arguments_text session org)
            (tool_messages show (r.completion).tool_calls r.results)
          ++ turns_of_rounds rs)

  transcript_turns-append :
      (ms ns : List LlmMessage)
      → transcript_turns arguments_text session org (ms ++ ns)
        ≡ transcript_turns arguments_text session org ms
          ++ transcript_turns arguments_text session org ns
  unfolding transcript_turns
  transcript_turns-append [] ns = refl
  transcript_turns-append (m ∷ ms) ns =
      ap (λ z. turns_of_message arguments_text session org m m.role ++ z)
        (transcript_turns-append ms ns)
      ∙ sym (
          append_assoc _ (transcript_turns arguments_text session org ms)
            (transcript_turns arguments_text session org ns))

  transcript_turns-tool_messages :
      (calls : List LlmToolCall) (rs : List (ToolResult V))
      → transcript_turns arguments_text session org (tool_messages show calls rs)
        ≡ map (tool_turn arguments_text session org) (tool_messages show calls rs)
  unfolding transcript_turns
  transcript_turns-tool_messages [] rs = refl
  transcript_turns-tool_messages (call ∷ calls) [] = refl
  transcript_turns-tool_messages (call ∷ calls) (r ∷ rs) =
      ap (λ z. tool_turn arguments_text session org (tool_message show call r) ∷ z)
        (transcript_turns-tool_messages calls rs)

  transcript_turns-written :
      (rounds : List (Round V)) (content : String)
      → transcript_turns arguments_text session org
          (written show rounds ++ plain LlmRole.assistant (content ∷ []) ∷ [])
        ≡ turns_of_rounds rounds
  unfolding transcript_turns written turns_of_rounds
  transcript_turns-written [] content = refl
  transcript_turns-written (r ∷ rs) content =
      let tools = tool_messages show (r.completion).tool_calls r.results in
      let last = plain LlmRole.assistant (content ∷ []) ∷ [] in
      ap
        (λ z.
          map (call_turn arguments_text session org ((r.completion).content ∷ []))
            (r.completion).tool_calls
          ++ z)
        (ap (transcript_turns arguments_text session org)
            (append_assoc tools (written show rs) last)
          ∙ transcript_turns-append tools (written show rs ++ last)
          ∙ ap₂ (λ x y. x ++ y) (transcript_turns-tool_messages (r.completion).tool_calls r.results)
              (transcript_turns-written rs content))

module _ {V : Type 0} {S : Type 0} {Hit : Type 0} (w : Intelligence V S Hit) (c : Command)
    (p : CapabilityPolicy) where
  length-request_of :
      (session : Option ℕ) (prompt : String) (memory : MemorySnapshot Hit)
      (live : Option (String × ToolResult V))
      → input_count w c live (history_of memory.conversation)
        ≡ length (
            plain LlmRole.system (request_of w c p session prompt memory live).system_prompt
            ∷ (request_of w c p session prompt memory live).messages)
  length-request_of session prompt memory live =
      let history = prompt_messages w live (history_of memory.conversation) in
      omega (
        arith,
        length-append (prior_of w c live ++ history) (plain LlmRole.user (c.message ∷ []) ∷ []),
        length-append (prior_of w c live) history,
      )

  -- What is kept of the messages of a result, after those that the request had, are turns for the calls
  -- and the results of its rounds, in their order; the results are those of the rounds.
  pub transcript_turns-run :
      (id : ℕ) (session : Option ℕ) (prompt : String) (memory : MemorySnapshot Hit)
      (live : Option (String × ToolResult V)) (s : S) (r : ReasoningResult V)
      → (run w.service (request_of w c p session prompt memory live) s).1 ≡ RunEnd.finished r
      → (rounds : List (Round V)) × AreRounds rounds
        × (r.tool_results ≡ gathered rounds)
        × (transcript_turns
              (w.wording).arguments_text
              id
              c.organization_id
              (drop (input_count w c live (history_of memory.conversation)) r.messages)
            ≡ turns_of_rounds
                (w.service).rendering
                (w.wording).arguments_text
                id
                c.organization_id
                rounds)
  unfolding Returned
  transcript_turns-run id session prompt memory live s r e =
      let q = request_of w c p session prompt memory live in
      let sent = plain LlmRole.system q.system_prompt ∷ q.messages in
      let last = plain LlmRole.assistant (r.content ∷ []) ∷ [] in
      let known =
        subst (Returned (w.service).rendering (max_of q) 0 sent []) e
          (run-Returned w.service q s) in
      let rounds = known.0 in
      (
        rounds,
        known.1,
        known.3,
        ap (transcript_turns (w.wording).arguments_text id c.organization_id) (
              ap (λ n. drop n r.messages) (length-request_of session prompt memory live)
              ∙ ap (drop (length sent))
                  (known.2 ∙ append_assoc sent (written (w.service).rendering rounds) last)
              ∙ drop-length sent (written (w.service).rendering rounds ++ last))
            ∙ transcript_turns-written (w.service).rendering (w.wording).arguments_text id
                c.organization_id rounds r.content,
      )
