-- ===== src/Chat.antt =====
-- backend/src/intelligence/generate-chat-response.use-case.ts: a chat response, over the tables of the
-- conversations, the tools and the router. The flags are those of the organization during the call; the
-- context of the organization, the prompts, and the wording (the tests of the message, the formatted
-- answers and the text of the live check) are parameters.
pub mod Review
pub mod Policy
pub mod Turns
pub mod Response
pub mod Scope
pub mod Transcript
pub mod Approval
mod Tests
use capere_ai.Base.{
  ℕ, ◌+◌, Bool, true, false, not, ◌&&◌, ◌||◌, Option, none, some, List, [], ◌∷◌, ◌++◌, String,
  str_eq, length, if◌then◌else◌,
}
use capere_ai.Auth.{Refusal, Checked, passed, refused, forbidden}
use capere_ai.Llm.Router.{AppException}
use capere_ai.Memory.{
  MessageRow, NewTurn, Tables, SemanticMemory, MemorySnapshot, snapshot, append, create_session,
  assert_session_access,
}
use capere_ai.Tools.{ToolContext, ToolResult, has}
use capere_ai.Tools.Invocation.{execute}
use capere_ai.Reasoning.{
  LlmRole, LlmMessage, plain, ReasoningRequest, ReasoningResult, RunEnd, Service, or_else, run,
}
use capere_ai.Rag.Text.{drop}
use capere_ai.Chat.Review.{Reviewer, ReflectionVerdict, review}
use capere_ai.Chat.Policy.{IntelligenceCapability, CapabilityPolicy, resolve_policy}
use capere_ai.Chat.Turns.{history_of, last_user_messages, turn, transcript_turns}

pub record Command : Type 0 where
  pub organization_id : String
  pub user_id : Option String
  pub role : String
  pub capability : IntelligenceCapability
  pub message : String
  pub session_id : Option ℕ
  pub session_owner_id : Option String
  pub machine_access : Option Bool
  pub prior_messages : Option (List LlmMessage)
  pub max_iterations : Option ℕ
  pub aborted_at : Option ℕ
  pub ephemeral : Bool

pub record ChatResponse (V : Type 0) : Type 0 where
  pub content : String
  pub session_id : Option ℕ
  pub tool_results : List (ToolResult V)
  pub model_calls : ℕ
  pub reviewed : Bool
  pub revised : Bool

pub record Wording (V : Type 0) (Hit : Type 0) : Type 0 where
  pub first_80 : String → String
  pub requires_gbp_grounding : String → Bool
  pub requires_cmo_business_grounding : String → Bool
  pub is_business_profile_question : String → Bool
  pub format_business_profile_answer : Option V → String
  pub format_cmo_priority_answer : Option V → String
  -- `JSON.stringify({ days })` for the tool of the live check.
  pub days_text : String → String
  -- The context block of the system prompt, and the live check's.
  pub context_text : String → MemorySnapshot Hit → List String
  pub live_check : String → ToolResult V → List String
  pub arguments_text : String → Option String
  -- The metadata of the answer: the calls of the model, whether they were exhausted, whether it was
  -- reviewed and revised, and the results.
  pub metadata_text : ℕ → Bool → Bool → Bool → List (ToolResult V) → String

pub record Intelligence (V : Type 0) (S : Type 0) (Hit : Type 0) : Type 0 where
  pub service : Service V S
  pub reviewer : Reviewer V S
  pub semantic : SemanticMemory Hit
  pub wording : Wording V Hit
  pub is_enabled : String → Bool
  -- `prompts.resolve` for an organization.
  pub resolve_prompt : String → String → Checked String

pub data ChatEnd : Type 0 where
  refusal : Refusal → ChatEnd
  exception : AppException → ChatEnd
  never : ChatEnd

-- A step of the call: it goes on with the tables, the world and a result, or the call ends there.
pub data Flow (S : Type 0) (A : Type 0) : Type 0 where
  next : Tables → S → A → Flow S A
  stop : Tables → S → ChatEnd → Flow S A

abbrev pub and_next : {S A B : Type 0} → Flow S A → (Tables → S → A → Flow S B) → Flow S B
and_next (Flow.next t s a) k = k t s a
and_next (Flow.stop t s e) k = Flow.stop t s e

abbrev pub of_checked : {S A : Type 0} → Tables → S → Checked A → Flow S A
of_checked t s (passed a) = Flow.next t s a
of_checked t s (refused r) = Flow.stop t s (ChatEnd.refusal r)

-- A change of the tables that may be refused.
abbrev pub of_change : {S : Type 0} → Tables → S → Checked Tables → Flow S (Unit {0})
of_change t s (passed t') = Flow.next t' s tt
of_change t s (refused r) = Flow.stop t s (ChatEnd.refusal r)

module _ {V : Type 0} {S : Type 0} {Hit : Type 0} (w : Intelligence V S Hit) where
  abbrev pub now : S → ℕ
  now s = ((w.service).platform).clock s

  abbrev pub check_flag : Option String → Tables → S → Flow S (Unit {0})
  check_flag none t s = Flow.next t s tt
  check_flag (some flag) t s =
      if w.is_enabled flag
      then Flow.next t s tt
      else Flow.stop t s (ChatEnd.refusal (forbidden "FORBIDDEN"))

  -- The session of the call, given the id that a new one would have.
  abbrev pub open_session :
      ℕ → Command → CapabilityPolicy → Option ℕ → Tables → S → Flow S (Option ℕ)
  open_session new_id c p (some id) t s = Flow.next t s (some id)
  open_session new_id c p none t s =
      if c.ephemeral
      then Flow.next t s none
      else Flow.next
          (create_session new_id c.organization_id c.user_id p.agent
            (some ((w.wording).first_80 c.message)) t)
          s (some new_id)

  abbrev pub either_user : Option String → Option String → Option String
  either_user (some owner) user = some owner
  either_user none user = user

  abbrev pub check_session : Command → Option ℕ → Tables → S → Flow S (Unit {0})
  check_session c none t s = Flow.next t s tt
  check_session c (some id) t s = of_change t s (
      assert_session_access c.organization_id id (either_user c.session_owner_id c.user_id)
        (or_else c.machine_access false) t)

  -- A turn is kept where the call has a session and is not ephemeral.
  abbrev pub keep_turn : Command → Option ℕ → (ℕ → NewTurn) → Tables → S → Flow S (Unit {0})
  keep_turn c none make t s = Flow.next t s tt
  keep_turn c (some id) make t s =
      if c.ephemeral then Flow.next t s tt else of_change t s (append (now s) (make id) t)

  unfoldable pub keep_turns : List NewTurn → Tables → S → Flow S (Unit {0})
  keep_turns [] t s = Flow.next t s tt
  keep_turns (p ∷ ps) t s =
      and_next (of_change t s (append (now s) p t)) (λ t' s' u. keep_turns ps t' s')

  abbrev pub context_of : Command → CapabilityPolicy → Option ℕ → ToolContext
  context_of c p session = record {
    organization_id = c.organization_id;
    user_id = c.user_id;
    role = c.role;
    session_id = session;
    agent = p.agent;
    aborted_at = c.aborted_at;
  }

  abbrev pub preflight_tool : Command → CapabilityPolicy → Option String
  preflight_tool c p =
      if (w.wording).requires_gbp_grounding c.message
      then some "get_gbp_summary"
      else if str_eq p.agent "cmo" && (w.wording).requires_cmo_business_grounding c.message
      then some "get_cmo_business_summary"
      else none

  abbrev pub checked_live :
      Tables → String → S × Option (ToolResult V) → Flow S (Option (String × ToolResult V))
  checked_live t name (s, none) = Flow.stop t s ChatEnd.never
  checked_live t name (s, some r) = Flow.next t s (some (name, r))

  -- The live check before the model is called: the tool and its result.
  abbrev pub preflight :
      Command
      → CapabilityPolicy
      → Option ℕ
      → Option String
      → Tables
      → S
      → Flow S (Option (String × ToolResult V))
  preflight c p session none t s = Flow.next t s none
  preflight c p session (some name) t s =
      if w.is_enabled "intelligence.bounded_tools" && has (w.service).tools name
      then checked_live t name (
          execute (w.service).platform (w.service).tools name ((w.wording).days_text name)
            (context_of c p session) s)
      else Flow.next t s none

  abbrev pub prompt_messages : Option (String × ToolResult V) → List LlmMessage → List LlmMessage
  prompt_messages none ms = ms
  prompt_messages (some live) ms = last_user_messages ms

  abbrev pub live_text : Option (String × ToolResult V) → List String
  live_text none = []
  live_text (some (name, r)) = (w.wording).live_check name r

  abbrev pub no_messages : Option (List LlmMessage) → List LlmMessage
  no_messages none = []
  no_messages (some ms) = ms

  abbrev pub prior_of : Command → Option (String × ToolResult V) → List LlmMessage
  prior_of c live = prompt_messages live (no_messages c.prior_messages)

  abbrev pub request_of :
      Command
      → CapabilityPolicy
      → Option ℕ
      → String
      → MemorySnapshot Hit
      → Option (String × ToolResult V)
      → ReasoningRequest
  request_of c p session prompt memory live = record {
    organization_id = c.organization_id;
    user_id = c.user_id;
    role = c.role;
    session_id = session;
    agent = p.agent;
    system_prompt =
        prompt ∷ "\n\n" ∷ (w.wording).context_text c.organization_id memory ++ live_text live;
    messages =
        (prior_of c live ++ prompt_messages live (history_of memory.conversation))
        ++ plain LlmRole.user (c.message ∷ []) ∷ [];
    max_iterations = c.max_iterations;
    allow_mutating_tools = some false;
    tools_enabled = some (w.is_enabled "intelligence.bounded_tools");
    aborted_at = c.aborted_at;
  }

  abbrev pub ended : Tables → S × RunEnd V → Flow S (ReasoningResult V)
  ended t (s, RunEnd.finished r) = Flow.next t s r
  ended t (s, RunEnd.rejected e) = Flow.stop t s (ChatEnd.exception e)
  ended t (s, RunEnd.stuck) = Flow.stop t s ChatEnd.never

  abbrev pub results_of : Option (String × ToolResult V) → List (ToolResult V) → List (ToolResult V)
  results_of none rs = rs
  results_of (some (name, r)) rs = r ∷ rs

  -- The answer that a successful live check gives in place of the model's.
  abbrev pub formatted : Command → Option (String × ToolResult V) → Option String
  formatted c none = none
  formatted c (some (name, r)) =
      if r.ok
        && (str_eq name "get_cmo_business_summary"
            && (w.wording).requires_cmo_business_grounding c.message)
      then some ((w.wording).format_cmo_priority_answer r.output)
      else if r.ok && (w.wording).is_business_profile_question c.message
      then some ((w.wording).format_business_profile_answer r.output)
      else none

  -- The content with whether it was reviewed and revised.
  abbrev pub Answer : Type 0
  Answer = String × Bool × Bool

  abbrev pub by_verdict : String → Bool → Option String → Answer
  by_verdict draft true revised = (draft, true, false)
  by_verdict draft false none = (draft, true, false)
  by_verdict draft false (some text) =
      if str_eq text "" then (draft, true, false) else (text, true, true)

  abbrev pub overriding : Option String → Answer → Answer
  overriding none a = a
  overriding (some text) (content, reviewed, revised) = (text, reviewed, false)
