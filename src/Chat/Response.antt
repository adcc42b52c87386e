-- ===== src/Chat/Response.antt =====
-- `execute` of backend/src/intelligence/generate-chat-response.use-case.ts: its steps in their order. The
-- first turn is kept before the model is called, the others at the end.
use capere_ai.Base.{
  ℕ, ◌+◌, Bool, false, Option, none, some, List, [], ◌∷◌, String, length, if◌then◌else◌,
}
use capere_ai.Rag.Text.{drop}
use capere_ai.Memory.{NewTurn, Tables, MemorySnapshot, snapshot}
use capere_ai.Tools.{ToolResult}
use capere_ai.Reasoning.{LlmRole, LlmMessage, ReasoningResult, or_else, run}
use capere_ai.Chat.Review.{ReflectionVerdict, review}
use capere_ai.Chat.Policy.{CapabilityPolicy, resolve_policy}
use capere_ai.Chat.Turns.{history_of, turn, transcript_turns}
use capere_ai.Chat.{
  Command, ChatResponse, Intelligence, Flow, and_next, of_checked, check_flag, open_session,
  check_session, keep_turn, keep_turns, preflight_tool, preflight, prompt_messages, prior_of,
  request_of, ended, results_of, formatted, by_verdict, overriding,
}

module _ {V : Type 0} {S : Type 0} {Hit : Type 0} (w : Intelligence V S Hit) where
  -- The first prompt's variable, the name of the organization, is part of its resolution.
  abbrev pub with_prompt : Command → String → Tables → S → Flow S String
  with_prompt c name t s = of_checked t s (w.resolve_prompt name c.organization_id)

  abbrev pub answered_verdict :
      String → Tables → S × ReflectionVerdict → Flow S (String × Bool × Bool)
  answered_verdict draft t (s, v) = Flow.next t s (by_verdict w draft v.approved v.revised_response)

  abbrev pub reviewed_answer :
      Command → String → List (ToolResult V) → Tables → S → Flow S (String × Bool × Bool)
  reviewed_answer c draft results t s =
      if w.is_enabled "intelligence.response_review"
      then and_next (with_prompt c "intelligence.response_review" t s) (λ t1 s1 prompt.
        answered_verdict draft t1 (review w.reviewer c.message draft results prompt s1))
      else Flow.next t s (draft, false, false)

  abbrev pub final_answer :
      Command
      → Option (String × ToolResult V)
      → ReasoningResult V
      → Tables
      → S
      → Flow S (String × Bool × Bool)
  final_answer c live r t s =
      and_next
        (reviewed_answer c (or_else (formatted w c live) r.content)
          (results_of w live r.tool_results) t s)
        (λ t1 s1 a. Flow.next t1 s1 (overriding w (formatted w c live) a))

  abbrev pub input_count : Command → Option (String × ToolResult V) → List LlmMessage → ℕ
  input_count c live history =
      2 + length (prior_of w c live) + length (prompt_messages w live history)

  abbrev pub last_turn :
      Command → List (ToolResult V) → ReasoningResult V → String × Bool × Bool → ℕ → NewTurn
  last_turn c results r (content, reviewed, revised) session =
      record (turn session c.organization_id LlmRole.assistant (content ∷ [])) {
        metadata =
            some ((w.wording).metadata_text r.iterations r.exhausted reviewed revised results);
      }

  -- `persistTranscript` where the call is kept.
  abbrev pub keep_transcript : Command → Option ℕ → List LlmMessage → Tables → S → Flow S (Unit {0})
  keep_transcript c none messages t s = Flow.next t s tt
  keep_transcript c (some session) messages t s =
      if c.ephemeral
      then Flow.next t s tt
      else keep_turns w
          (transcript_turns (w.wording).arguments_text session c.organization_id messages) t s

  abbrev pub response :
      Option ℕ → List (ToolResult V) → ReasoningResult V → String × Bool × Bool → ChatResponse V
  response session results r (content, reviewed, revised) = record {
    content = content;
    session_id = session;
    tool_results = results;
    model_calls = r.iterations;
    reviewed = reviewed;
    revised = revised;
  }

  -- After the run: the answer, and the turns that are kept.
  abbrev pub conclude :
      Command
      → Option ℕ
      → List LlmMessage
      → Option (String × ToolResult V)
      → ReasoningResult V
      → Tables
      → S
      → Flow S (ChatResponse V)
  conclude c session history live r t s = and_next (final_answer c live r t s) (λ t1 s1 a.
      and_next (keep_transcript c session (drop (input_count c live history) r.messages) t1 s1)
        (λ t2 s2 u.
          and_next
            (keep_turn w c session (last_turn c (results_of w live r.tool_results) r a) t2 s2)
            (λ t3 s3 u'.
              Flow.next t3 s3 (response session (results_of w live r.tool_results) r a))))

  abbrev pub converse :
      Command
      → CapabilityPolicy
      → Option ℕ
      → MemorySnapshot Hit
      → String
      → Tables
      → S
      → Flow S (ChatResponse V)
  converse c p session memory prompt t s =
      and_next
        (keep_turn w c session (λ id. turn id c.organization_id LlmRole.user (c.message ∷ [])) t s)
        (λ t1 s1 u. and_next (preflight w c p session (preflight_tool w c p) t1 s1) (λ t2 s2 live.
          and_next (ended w t2 (run w.service (request_of w c p session prompt memory live) s2))
            (λ t3 s3 r. conclude c session (history_of memory.conversation) live r t3 s3)))

  -- `execute`, given the id that a new session would have.
  unfoldable pub respond : ℕ → Command → Tables → S → Flow S (ChatResponse V)
  respond new_id c t s =
      let p = resolve_policy c.capability in
      and_next (check_flag w p.enabled_flag t s) (λ t1 s1 u.
        and_next (open_session w new_id c p c.session_id t1 s1) (λ t2 s2 session.
          and_next (check_session w c c.session_id t2 s2) (λ t3 s3 u'.
            and_next (with_prompt c p.system_prompt t3 s3) (λ t4 s4 prompt.
              converse c p session
                (snapshot (((w.service).platform).clock s3) w.semantic c.organization_id session
                  (some c.message) 40 5 t3)
                prompt t4 s4))))
