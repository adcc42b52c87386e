-- ===== src/Llm/Tests/Routing.antt =====
-- Calls of the router with two models.
use capere_ai.Base.{
  ℕ, ◌≡◌, refl, true, false, Option, none, some, [], zero, suc, ◌∷◌, ◌++◌, String, str_eq, arith,
  if◌then◌else◌, All, length,
}
use capere_ai.Llm.Usage.{LlmUsage, usage_row, record_usage}
use capere_ai.Llm.Budget.{assert_within_budget, evaluate_after_usage}
use capere_ai.Llm.Budget.Gate.{WithinLimit}
use capere_ai.Llm.Router.{
  World, RoutedCallOptions, LlmCompletion, LlmProviderError, CallError, Reply, Result, chain_for,
  complete, should_try_next, ProviderErrorCode, FinishReason, with_usage, success_params,
  failure_params,
}
use capere_ai.Llm.Router.Fallback.{AllRetried, failure_rows, success_row, complete_fallback}
use capere_ai.Llm.Router.Faults.{complete_loses_answer}
use capere_ai.Llm.Router.Stream.{
  LlmStreamChunk, ProviderStream, stream, stream_models, forward, record_chunk, FromOneModel,
  stream_unspliced,
}
use capere_ai.Llm.Tests.{spent, store, json, new_id, llm}

abbrev busy : LlmProviderError
busy = record {
  message = "busy";
  code = ProviderErrorCode.rate_limited;
  retryable = true;
  status = some 429;
}

abbrev rejected : LlmProviderError
rejected = record {
  message = "bad key";
  code = ProviderErrorCode.auth_failed;
  retryable = false;
  status = some 401;
}

abbrev answer : LlmCompletion
answer = record {
  served_model = "b";
  content = "hello";
  tool_calls = [];
  finish_reason = FinishReason.stop;
  usage = record {
    prompt_tokens = 1;
    completion_tokens = 1;
    total_tokens = 2;
    cost_micro_usd = 10;
  };
}

abbrev world : (ℕ → String → Reply) → (ℕ → Option String) → World
world reply fault = record {
  models = record { general = "a" ∷ "b" ∷ []; analytics = "b" ∷ []; cheap = "a" ∷ [] };
  provider_name = "fake";
  reply = reply;
  started_at = 2000;
  time = λ i. 2001;
  latency = λ i. 1;
  refused = λ r. false;
  refusal = "down";
  evaluation_error = fault;
  json = json;
  new_id = λ i b. new_id b;
}

abbrev second : ℕ → String → Reply
second i m =
    if str_eq m "b" then Reply.served answer else Reply.failed (CallError.provider_error busy)

abbrev fallback : World
fallback = world second (λ i. none)

abbrev all_busy : World
all_busy = world (λ i m. Reply.failed (CallError.provider_error busy)) (λ i. none)

abbrev bad_key : World
bad_key = world (λ i m. Reply.failed (CallError.provider_error rejected)) (λ i. none)

abbrev broken : World
broken = world (λ i m. Reply.served answer) (λ i. some "no database")

abbrev options : RoutedCallOptions
options = record {
  organization_id = 1;
  task_type = none;
  model = none;
  session_id = none;
  user_id = none;
  agent = none;
  prompt_name = none;
  prompt_version = none;
  prompt_checksum = none;
  metadata = none;
}

room : assert_within_budget 2000 1 (store 20) ≡ none
unfolding llm
room = refl

full : ¬ All (WithinLimit 2000 1 (store 100).usage) (store 100).budgets
unfolding llm
full (h, t) = absurd (omega (arith, h refl refl))

general_chain : chain_for fallback.models options ≡ "a" ∷ "b" ∷ []
unfolding chain_for
general_chain = refl

a_busy : AllRetried fallback options 0 ("a" ∷ []) (busy ∷ [])
unfolding AllRetried
a_busy = (refl, (refl, tt))

both_busy : AllRetried all_busy options 0 (chain_for all_busy.models options) (busy ∷ busy ∷ [])
unfolding AllRetried chain_for
both_busy = (refl, (refl, (refl, (refl, tt))))

nothing_before : AllRetried bad_key options 0 [] []
unfolding AllRetried
nothing_before = tt

rejected_final : should_try_next (CallError.provider_error rejected) ≡ false
unfolding should_try_next
rejected_final = refl

complete_fallback_example : complete fallback options (store 20) ≡ (
  evaluate_after_usage json new_id 2001 1 (
      with_usage (store 20) (
        (spent 20 ∷ [])
        ++ failure_rows fallback options 0 ("a" ∷ []) (busy ∷ [])
        ++ success_row fallback options 1 "b" answer ∷ [])),
  Result.ok answer,
)
unfolding failure_rows
complete_fallback_example =
    complete_fallback fallback options (record { accepts = λ r. refl; evaluates = λ i. refl })
      (store 20) ("a" ∷ []) (busy ∷ []) "b" [] answer room general_chain a_busy refl

complete_loses_answer_example : complete broken options (store 20) ≡ (
  with_usage (store 20) (
      (spent 20 ∷ usage_row 2001 (success_params broken options 0 "a" "b" answer.usage) ∷ [])
      ++ usage_row 2001 (failure_params broken options 0 "a" (CallError.other "no database")) ∷ []),
  Result.err (record {
    code = "INTERNAL_ERROR";
    message = "Model call failed: " ∷ "no database" ∷ [];
    status = 500;
  }),
)
complete_loses_answer_example =
    complete_loses_answer broken options (store 20) "a" ("b" ∷ []) answer "no database" (λ r. refl)
      room general_chain refl refl

abbrev chunk : String → Option LlmUsage → LlmStreamChunk
chunk text usage = record {
  delta = text;
  tool_calls = none;
  usage = usage;
  finish_reason = none;
  served_model = none;
}

-- The first model fails at once, the second sends two chunks.
abbrev streams : ℕ → String → ProviderStream
streams zero m = record { chunks = []; ending = some (CallError.provider_error busy) }
streams (suc i) m = record {
  chunks = chunk "he" none ∷ chunk "llo" (some answer.usage) ∷ [];
  ending = none;
}

stream_unspliced_example :
    FromOneModel fallback streams
      (λ i n. none)
      options
      (stream fallback streams (λ i n. none) options (store 20))
stream_unspliced_example = stream_unspliced fallback streams (λ i n. none) options (store 20)

stream_test : length (stream fallback streams (λ i n. none) options (store 20)).chunks ≡ 2
unfolding llm stream stream_models forward record_chunk should_try_next record_usage
stream_test = refl
