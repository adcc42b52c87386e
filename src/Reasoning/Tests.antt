-- ===== src/Reasoning/Tests.antt =====
-- A tool that counts, and a model that asks for it once.
use capere_ai.Base.{ℕ, zero, suc, ◌≡◌, refl, true, false, none, some, List, [], ◌∷◌, String}
use capere_ai.Llm.Router.{LlmToolCall, FinishReason, LlmCompletion, ok}
use capere_ai.Tools.{Tool, Settled, Parsed, get, descriptors_for}
use capere_ai.Tools.Schema.{ZodType, ZodShape}
use capere_ai.Tools.Invocation.{execute}
use capere_ai.Tools.Invocation.Permission.{Permitted}
use capere_ai.Rag.Text.{is_space, trim_start, trim_end, trim}
use capere_ai.Reasoning.{
  LlmRole, plain, ReasoningRequest, Service, render_tool_result, run_calls, loop, run,
}
use capere_ai.Reasoning.Transcript.{AreRounds, written, gathered, Returned, run-Returned}
use capere_ai.Reasoning.Reach.{Within, run-Within}
use capere_ai.Reasoning.Completion.{Settles, Finished, run-Finished}
use capere_ai.Reasoning.Offered.{with_settings, run-with_settings}

unfolds : Unit {0}
unfolding get descriptors_for execute Permitted is_space trim_start trim_end trim render_tool_result
    run_calls loop run AreRounds written gathered Returned Within Settles Finished
unfolds = tt

-- It adds one to the world, which is also the clock.
abbrev pub counter : Tool String ℕ
counter = record {
  name = "count_up";
  description = "Adds one.";
  schema = ZodType.object ZodShape.no_field;
  safe_parse = λ v. Parsed.valid v;
  permissions = "owner" ∷ [];
  agents = none;
  timeout_ms = 1000;
  mutates = true;
  execute = λ v ctx s. (suc s, Settled.returned "done");
}

abbrev pub completion : String → List LlmToolCall → LlmCompletion
completion content calls = record {
  served_model = "m";
  content = content;
  tool_calls = calls;
  usage = record { prompt_tokens = 1; completion_tokens = 1; total_tokens = 2; cost_micro_usd = 3 };
  finish_reason = FinishReason.stop;
}

-- The first call asks for the tool, the others answer.
abbrev pub answer_to : ℕ → LlmCompletion
answer_to (suc zero) = completion "" (record { id = "c1"; name = "count_up"; arguments = "" } ∷ [])
answer_to _ = completion "One." []

abbrev pub service : Service String ℕ
service = record {
  platform = record {
    parse_json = λ raw. none;
    empty_object = "{}";
    clock = λ s. s;
    is_optional = λ t. false;
  };
  rendering = record { output_text = λ o. "done"; details_text = λ d. "" };
  tools = counter ∷ [];
  ask = λ messages offered number forced s. (s, ok (answer_to number));
}

abbrev pub request : ReasoningRequest
request = record {
  organization_id = "acme";
  user_id = none;
  role = "owner";
  session_id = none;
  agent = "cmo";
  system_prompt = "Help." ∷ [];
  messages = plain LlmRole.user ("Count." ∷ []) ∷ [];
  max_iterations = some 2;
  allow_mutating_tools = some false;
  tools_enabled = some true;
  aborted_at = none;
}

-- The body of the tool ran although the request leaves out tools that change state.
counted : (run service request 0).0 ≡ 1
unfolding unfolds
counted = refl

run-Returned_example :
    Returned service.rendering 2 0
      (plain LlmRole.system ("Help." ∷ []) ∷ request.messages)
      []
      ((run service request 0).1)
run-Returned_example = run-Returned service request 0

run-Within_example : Within service request 0 0 3 ((run service request 0).0)
run-Within_example = run-Within service request 0

run-Finished_example : Finished (run service request 0)
unfolding unfolds
run-Finished_example =
    run-Finished service request ((λ v ctx s. refl), tt)
      (λ messages offered number forced s. (answer_to number, refl)) 0

run-with_settings_example :
    run service request 0 ≡ run service (with_settings request (some true) (some false)) 0
run-with_settings_example =
    run-with_settings service request (some true) (some false)
      (λ messages d d' number forced s. refl) 0
