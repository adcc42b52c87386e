-- ===== src/Chat/Tests.antt =====
-- One question in a new session, with a tool that the model asks for once, and a reviewer.
use capere_ai.Base.{
  ℕ, ◌≡◌, refl, Bool, true, false, Option, none, some, List, [], String, str_eq, length,
  if◌then◌else◌,
}
use capere_ai.Auth.{passed}
use capere_ai.Llm.Router.{TaskType, ok}
use capere_ai.Rag.Text.{is_space, trim_start, trim_end, trim}
use capere_ai.Memory.{
  Tables, MemorySnapshot, append, recent, create_session, assert_session_access, snapshot,
  all_facts,
}
use capere_ai.Memory.Sequence.{Numbered, HasSequence}
use capere_ai.Tools.{get, has, descriptors_for}
use capere_ai.Tools.Invocation.{execute}
use capere_ai.Reasoning.{ReasoningResult, RunEnd, render_tool_result, run_calls, loop, run}
use capere_ai.Reasoning.Tests.{completion, service}
use capere_ai.Reasoning.Transcript.{Round, AreRounds, written, gathered, Returned}
use capere_ai.Chat.Policy.{IntelligenceCapability, CapabilityPolicy, resolve_policy}
use capere_ai.Chat.Review.{review, safe_reflection_failure}
use capere_ai.Chat.Turns.{transcript_turns}
use capere_ai.Chat.{Command, ChatResponse, Wording, Intelligence, Flow, keep_turns, request_of}
use capere_ai.Chat.Response.{final_answer, input_count, respond}
use capere_ai.Chat.Scope.{Holds}
use capere_ai.Chat.Scope.Effects.{tables_of, Adds, respond-Adds, respond-HasSequence}
use capere_ai.Chat.Approval.{Concludes, Answers, final_answer-Answers}
use capere_ai.Chat.Transcript.{turns_of_rounds, transcript_turns-run}
use capere_ai.Rag.Text.{drop}

unfolds : Unit {0}
unfolding is_space trim_start trim_end trim append recent create_session assert_session_access
    snapshot all_facts Numbered HasSequence get has descriptors_for execute render_tool_result
    run_calls loop run AreRounds written gathered Returned resolve_policy review transcript_turns
    keep_turns respond Holds Adds Answers turns_of_rounds
unfolds = tt

abbrev wording : Wording String String
wording = record {
  first_80 = λ m. m;
  requires_gbp_grounding = λ m. false;
  requires_cmo_business_grounding = λ m. false;
  is_business_profile_question = λ m. false;
  format_business_profile_answer = λ o. "";
  format_cmo_priority_answer = λ o. "";
  days_text = λ name. "";
  context_text = λ org m. [];
  live_check = λ name r. [];
  arguments_text = λ raw. none;
  metadata_text = λ calls exhausted reviewed revised results. "{}";
}

-- A reviewer whose answers are no verdicts.
abbrev intelligence : Intelligence String ℕ String
intelligence = record {
  service = service;
  reviewer = record {
    is_blank = λ t. str_eq t "";
    output_text = λ o. "";
    first_500 = λ t. t;
    ask_review = λ prompt text s. (s, ok (completion "?" []));
    read_verdict = λ text. none;
  };
  semantic = record { available = false; search = λ org query limit. none };
  wording = wording;
  is_enabled = λ flag. true;
  resolve_prompt = λ name org. passed name;
}

abbrev command : Bool → Command
command ephemeral = record {
  organization_id = "acme";
  user_id = some "ann";
  role = "owner";
  capability = IntelligenceCapability.seo;
  message = "Count.";
  session_id = none;
  session_owner_id = none;
  machine_access = none;
  prior_messages = none;
  max_iterations = some 2;
  aborted_at = none;
  ephemeral = ephemeral;
}

abbrev empty : Tables
empty = record { sessions = []; messages = []; facts = [] }

abbrev content_of : Flow ℕ (ChatResponse String) → Option String
content_of (Flow.next t s r) = some r.content
content_of (Flow.stop t s e) = none

-- The unreviewed draft is withheld, and four turns are kept.
withheld :
    content_of (respond intelligence 1 (command false) empty 0) ≡ some safe_reflection_failure
unfolding unfolds
withheld = refl

four_turns : length (tables_of (respond intelligence 1 (command false) empty 0)).messages ≡ 4
unfolding unfolds
four_turns = refl

respond-Adds_example :
    Adds "acme" 1 [] (tables_of (respond intelligence 1 (command false) empty 0)).messages
respond-Adds_example = respond-Adds intelligence (command false) 1 empty 0

respond-HasSequence_example :
    HasSequence (tables_of (respond intelligence 1 (command false) empty 0)).messages
unfolding unfolds
respond-HasSequence_example = respond-HasSequence intelligence (command false) 1 empty 0 (λ id. tt)

abbrev result : ReasoningResult String
result = record {
  content = "One.";
  messages = [];
  tool_results = [];
  iterations = 1;
  exhausted = false;
}

-- The same with a reviewer that reads "yes" as an approval, which the model answers.
abbrev approving : Intelligence String ℕ String
approving = record intelligence {
  reviewer = record intelligence.reviewer {
    ask_review = λ prompt text s. (s, ok (completion "yes" []));
    read_verdict = λ text.
        if str_eq text "yes"
        then some (record { approved = true; issues = []; revised_response = none })
        else none;
  };
}

approved_test : content_of (respond approving 1 (command false) empty 0) ≡ some result.content
unfolding unfolds
approved_test = refl

final_answer-Answers_example :
    Concludes approving
      (command false)
      empty
      (Answers approving (command false) [] none "One." 0)
      (final_answer approving (command false) none result empty 0)
final_answer-Answers_example =
    final_answer-Answers approving (command false) none result empty 0 refl

abbrev result_or : RunEnd String → ReasoningResult String
result_or (RunEnd.finished r) = r
result_or _ = result

abbrev seo : CapabilityPolicy
seo = record {
  capability = IntelligenceCapability.seo;
  agent = "seo";
  task_type = TaskType.analytics;
  system_prompt = "intelligence.seo.system";
  enabled_flag = some "agent.seo";
  allow_mutating_tools = false;
}

abbrev memory : MemorySnapshot String
memory = record { conversation = []; business = []; semantic = []; semantic_available = false }

abbrev run_end : RunEnd String
run_end = (run service (request_of intelligence (command false) seo (some 1) "" memory none) 0).1

one_call : run_end ≡ RunEnd.finished (result_or run_end)
unfolding unfolds
one_call = refl

transcript_turns-run_example :
    (rounds : List (Round String)) × AreRounds rounds
    × ((result_or run_end).tool_results ≡ gathered rounds)
    × (transcript_turns wording.arguments_text 1 "acme"
          (drop (input_count intelligence (command false) none []) (result_or run_end).messages)
        ≡ turns_of_rounds service.rendering wording.arguments_text 1 "acme" rounds)
transcript_turns-run_example =
    transcript_turns-run intelligence (command false) seo 1 (some 1) "" memory none 0
      (result_or run_end) one_call
