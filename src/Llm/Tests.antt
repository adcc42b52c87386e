-- ===== src/Llm/Tests.antt =====
-- Runs of the budgets and the router on small inputs.
mod Routing
use capere_ai.Base.{
  ℕ, ◌+◌, ◌≤◌, ◌<◌, ◌≡◌, refl, true, false, Option, none, some, [], zero, suc, ◌↔◌, is_none, ◌∷◌,
  ◌++◌, String, str_eq, arith, if◌then◌else◌, All, length,
}
use capere_ai.Llm.Period.{
  daily, weekly, monthly, start_day, day_of_week, day_into_month, start_day_kind, start_of_period,
  start_of_period_constant,
}
use capere_ai.Llm.Usage.{
  LlmUsage, UsageEvent, usage_row, record_usage, summarize, sum_of, summarize_adds_up, in_window,
}
use capere_ai.Llm.Budget.{
  Budget, Store, ThresholdPayload, statuses, assert_within_budget, set_budget, evaluate_after_usage,
  evaluate_all, evaluate_one, raise_alert, record_alert, status_of, spend_since, utilization_of,
}
use capere_ai.Llm.Budget.Gate.{WithinLimit, SetOutcome, assert_within_budget_iff, set_budget_lem}
use capere_ai.Llm.Budget.Alerts.{
  UniqueAlerts, Settled, evaluate_after_usage_one_alert, evaluate_after_usage_settles,
}
use capere_ai.Llm.Router.{
  World, RoutedCallOptions, LlmCompletion, LlmProviderError, CallError, Reply, Result, chain_for,
  complete, should_try_next, ProviderErrorCode, FinishReason, translate, with_usage,
  budget_exceeded, success_params, failure_params,
}
use capere_ai.Llm.Router.Fallback.{
  AllRetried, failure_rows, failure_row, success_row, last_error, complete_fallback,
  complete_stopped, complete_exhausted, complete_over_budget,
}
use capere_ai.Llm.Router.Faults.{complete_loses_answer}
use capere_ai.Llm.Router.Stream.{
  LlmStreamChunk, ProviderStream, stream, stream_models, forward, record_chunk, FromOneModel,
  stream_unspliced,
}

abbrev pub spent : ℕ → UsageEvent
spent cost = usage_row 1000 (record {
  organization_id = 1;
  session_id = none;
  user_id = none;
  agent = none;
  requested_model = "a";
  served_model = "a";
  provider = "fake";
  task_type = none;
  prompt_name = none;
  prompt_version = none;
  prompt_checksum = none;
  usage = record {
    prompt_tokens = 3;
    completion_tokens = 4;
    total_tokens = 7;
    cost_micro_usd = cost;
  };
  latency_ms = none;
  fallback_index = none;
  succeeded = none;
  error_code = none;
  metadata = none;
})

abbrev pub budget : Budget
budget = record {
  id = 5;
  organization_id = 1;
  period = daily;
  limit_micro_usd = 100;
  soft_threshold = 80;
  enforce_hard_limit = true;
}

abbrev pub store : ℕ → Store
store cost = record { budgets = budget ∷ []; usage = spent cost ∷ []; alerts = []; events = [] }

pub llm : Unit {0}
unfolding start_of_period usage_row in_window spend_since status_of utilization_of statuses
    assert_within_budget chain_for WithinLimit
llm = tt

-- Day 20000 was Friday, October 4th, 2024.
period_test : (start_day weekly 20000 ≡ 19996) × (start_day monthly 20000 ≡ 19997)
unfolding llm
period_test = (refl, refl)

-- The limit of 100 is reached, so that a call is refused.
gate_test :
    (is_none (assert_within_budget 2000 1 (store 99)) ≡ true)
    × (is_none (assert_within_budget 2000 1 (store 100)) ≡ false)
unfolding llm
gate_test = (refl, refl)

assert_within_budget_iff_example :
    (assert_within_budget 2000 1 (store 99) ≡ none)
    ↔ All (WithinLimit 2000 1 (store 99).usage) (store 99).budgets
assert_within_budget_iff_example = assert_within_budget_iff 2000 1 (store 99)

abbrev new_limit : ℕ
new_limit = 500

abbrev threshold : ℕ
threshold = 80

no_alerts : UniqueAlerts []
unfolding UniqueAlerts
no_alerts = tt

abbrev pub json : ThresholdPayload → String
json p = "{}"

abbrev pub new_id : ℕ → ℕ
new_id b = 100 + b

-- Spending 90 of 100 raises one alert.
alert_test : length (evaluate_after_usage json new_id 2000 1 (store 90)).alerts ≡ 1
unfolding llm evaluate_after_usage evaluate_all evaluate_one raise_alert record_alert
alert_test = refl

evaluate_after_usage_one_alert_example :
    let s' = evaluate_after_usage json new_id 2000 1 (store 90) in
    UniqueAlerts s'.alerts
    × (length s'.events + 0 ≡ 0 + length s'.alerts)
    × (s'.budgets ≡ (store 90).budgets)
    × (s'.usage ≡ (store 90).usage)
evaluate_after_usage_one_alert_example =
    evaluate_after_usage_one_alert json new_id 2000 1 (store 90) no_alerts
