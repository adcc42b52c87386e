-- ===== src/Reasoning.antt =====
-- backend/src/intelligence/execution/tool-execution.service.ts: the loop of model and tool calls. The
-- world S, the values V and the platform are those of the tools; `ask` is the router's `complete` with
-- the messages, the tools offered, the number of the call and whether it is the forced one, and the
-- options of a request that go to the router unchanged are part of it. The calls of one round run one
-- after the other; a text of several parts is the list of them.
pub mod Transcript
pub mod Reach
pub mod Offered
pub mod Completion
pub mod Tests
use capere_ai.Base.{
  ℕ, zero, suc, Bool, true, false, not, Option, none, some, List, [], ◌∷◌, ◌++◌, String,
  if◌then◌else◌,
}
use capere_ai.Llm.Router.{LlmToolCall, LlmCompletion, AppException, Result, ok, err}
use capere_ai.Tools.{
  ToolContext, ToolErrorCode, ToolError, Details, Tool, ToolResult, ToolDescriptor, Platform,
  descriptors_for,
}
use capere_ai.Tools.Invocation.{execute}

pub data LlmRole : Type 0 where
  system user assistant tool : LlmRole

pub record LlmMessage : Type 0 where
  pub role : LlmRole
  pub content : List String
  pub tool_calls : List LlmToolCall
  pub tool_call_id : Option String
  pub name : Option String

abbrev pub plain : LlmRole → List String → LlmMessage
plain role content = record {
  role = role;
  content = content;
  tool_calls = [];
  tool_call_id = none;
  name = none;
}

pub record ReasoningRequest : Type 0 where
  pub organization_id : String
  pub user_id : Option String
  pub role : String
  pub session_id : Option ℕ
  pub agent : String
  pub system_prompt : List String
  pub messages : List LlmMessage
  pub max_iterations : Option ℕ
  pub allow_mutating_tools : Option Bool
  pub tools_enabled : Option Bool
  pub aborted_at : Option ℕ

pub record ReasoningResult (V : Type 0) : Type 0 where
  pub content : String
  pub messages : List LlmMessage
  pub tool_results : List (ToolResult V)
  pub iterations : ℕ
  pub exhausted : Bool

-- How a run ends: with a result, with the error of the router, or never, as a tool's body does not.
pub data RunEnd (V : Type 0) : Type 0 where
  finished : ReasoningResult V → RunEnd V
  rejected : AppException → RunEnd V
  stuck : RunEnd V

abbrev pub default_max_iterations : ℕ
default_max_iterations = 8

abbrev pub or_else {ℓ} : {A : Type ℓ} → Option A → A → A
or_else none a = a
or_else (some b) a = b

abbrev pub code_name : ToolErrorCode → String
code_name ToolErrorCode.not_found = "not_found"
code_name ToolErrorCode.invalid_input = "invalid_input"
code_name ToolErrorCode.permission_denied = "permission_denied"
code_name ToolErrorCode.timeout = "timeout"
code_name ToolErrorCode.execution_failed = "execution_failed"

abbrev pub request_context : ReasoningRequest → ToolContext
request_context q = record {
  organization_id = q.organization_id;
  user_id = q.user_id;
  role = q.role;
  session_id = q.session_id;
  agent = q.agent;
  aborted_at = q.aborted_at;
}

abbrev pub max_of : ReasoningRequest → ℕ
max_of q = or_else q.max_iterations default_max_iterations

-- The request for a final answer in text.
abbrev pub last_call : LlmMessage
last_call = plain LlmRole.user (
    "You have reached the maximum number of tool calls for this request. Answer now using only the information you have already gathered. State plainly anything you were unable to determine."
    ∷ [])

-- How results become texts: `JSON.stringify` and the test for a string.
pub record Rendering (V : Type 0) : Type 0 where
  pub output_text : Option V → String
  pub details_text : Details → String

module _ {V : Type 0} (show : Rendering V) where
  abbrev pub render_details : Details → List String
  render_details Details.no_details = []
  render_details details = " Details: " ∷ show.details_text details ∷ []

  abbrev pub render_error : Option ToolError → List String
  render_error none = "ERROR (undefined): undefined" ∷ []
  render_error (some e) =
      "ERROR (" ∷ code_name e.code ∷ "): " ∷ e.message ++ render_details e.details

  -- `renderToolResult`
  unfoldable pub render_tool_result : ToolResult V → List String
  render_tool_result r = if r.ok then show.output_text r.output ∷ [] else render_error r.error

  abbrev pub tool_message : LlmToolCall → ToolResult V → LlmMessage
  tool_message call r = record {
    role = LlmRole.tool;
    content = render_tool_result r;
    tool_calls = [];
    tool_call_id = some call.id;
    name = some call.name;
  }

  abbrev pub tool_messages : List LlmToolCall → List (ToolResult V) → List LlmMessage
  tool_messages (call ∷ calls) (r ∷ rs) = tool_message call r ∷ tool_messages calls rs
  tool_messages _ _ = []

abbrev pub assistant_calls : LlmCompletion → LlmMessage
assistant_calls c = record {
  role = LlmRole.assistant;
  content = c.content ∷ [];
  tool_calls = c.tool_calls;
  tool_call_id = none;
  name = none;
}

abbrev pub both {ℓ} : {A : Type ℓ} → Option A → Option (List A) → Option (List A)
both none rest = none
both (some a) none = none
both (some a) (some rest) = some (a ∷ rest)

module _ {V : Type 0} {S : Type 0} where
  abbrev pub finish : S → List LlmMessage → List (ToolResult V) → ℕ → Bool → Result → S × RunEnd V
  finish s messages results iterations exhausted (err e) = (s, RunEnd.rejected e)
  finish s messages results iterations exhausted (ok c) = (
    s,
    RunEnd.finished (record {
      content = c.content;
      messages = messages ++ plain LlmRole.assistant (c.content ∷ []) ∷ [];
      tool_results = results;
      iterations = iterations;
      exhausted = exhausted;
    }),
  )

  -- `Promise.all` over the calls of a round.
  unfoldable pub run_calls :
      Platform V S
      → List (Tool V S)
      → ToolContext
      → List LlmToolCall
      → S
      → S × Option (List (ToolResult V))
  run_calls w tools ctx [] s = (s, some [])
  run_calls w tools ctx (call ∷ calls) s =
      let one = execute w tools call.name call.arguments ctx s in
      let rest = run_calls w tools ctx calls one.0 in (rest.0, both one.1 rest.1)

-- The service: its tools and the router.
pub record Service (V : Type 0) (S : Type 0) : Type 0 where
  pub platform : Platform V S
  pub rendering : Rendering V
  pub tools : List (Tool V S)
  pub ask : List LlmMessage → List ToolDescriptor → ℕ → Bool → S → S × Result

module _ {V : Type 0} {S : Type 0} (w : Service V S) (q : ReasoningRequest) where
  abbrev pub offered_tools : List ToolDescriptor
  offered_tools =
      if or_else q.tools_enabled true
      then descriptors_for (w.platform).is_optional w.tools q.role
          (or_else q.allow_mutating_tools true) (some q.agent)
      else []

  -- The messages and results of a round are added, and the loop goes on.
  abbrev pub after_calls :
      LlmCompletion
      → List LlmMessage
      → List (ToolResult V)
      → S × Option (List (ToolResult V))
      → (List LlmMessage → List (ToolResult V) → S → S × RunEnd V)
      → S × RunEnd V
  after_calls c messages results (s, none) next = (s, RunEnd.stuck)
  after_calls c messages results (s, some rs) next =
      next (messages ++ assistant_calls c ∷ tool_messages w.rendering c.tool_calls rs)
        (results ++ rs) s

  abbrev pub by_calls :
      LlmCompletion
      → List LlmToolCall
      → List LlmMessage
      → List (ToolResult V)
      → ℕ
      → S
      → (List LlmMessage → List (ToolResult V) → S → S × RunEnd V)
      → S × RunEnd V
  by_calls c [] messages results iterations s next =
      finish s messages results iterations false (ok c)
  by_calls c (call ∷ calls) messages results iterations s next =
      after_calls c messages results
        (run_calls w.platform w.tools (request_context q) (call ∷ calls) s) next

  abbrev pub after_answer :
      List LlmMessage
      → List (ToolResult V)
      → ℕ
      → S × Result
      → (List LlmMessage → List (ToolResult V) → S → S × RunEnd V)
      → S × RunEnd V
  after_answer messages results iterations (s, err e) next = (s, RunEnd.rejected e)
  after_answer messages results iterations (s, ok c) next =
      by_calls c c.tool_calls messages results iterations s next

  abbrev pub forced : List LlmMessage → List (ToolResult V) → ℕ → S × Result → S × RunEnd V
  forced messages results iterations (s, answer) = finish s messages results iterations true answer

  -- The loop with the rounds that are left, after the rounds that were made.
  unfoldable pub loop :
      List ToolDescriptor → ℕ → ℕ → List LlmMessage → List (ToolResult V) → S → S × RunEnd V
  loop offered zero made messages results s =
      forced messages results (suc made) (w.ask (messages ++ last_call ∷ []) [] (suc made) true s)
  loop offered (suc left) made messages results s =
      after_answer messages results (suc made) (w.ask messages offered (suc made) false s)
        (λ messages' results' s'. loop offered left (suc made) messages' results' s')

  -- `run`
  unfoldable pub run : S → S × RunEnd V
  run s = loop offered_tools (max_of q) 0 (plain LlmRole.system q.system_prompt ∷ q.messages) [] s
