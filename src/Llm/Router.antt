-- ===== src/Llm/Router.antt =====
-- backend/src/llm/router/model-router.service.ts: a call goes to the models of a chain in order, and
-- every attempt is written to the ledger. The provider, the clock and the faults of the database are
-- those of a `World`; an attempt is known by its position in the chain. A message is the list of
-- its parts.
pub mod Fallback
pub mod Faults
pub mod Stream
use capere_ai.Base.{
  ℕ, zero, suc, Bool, true, false, not, ◌&&◌, ◌||◌, Option, none, some, map, List, [], ◌∷◌, ◌++◌,
  String, str_eq, if◌then◌else◌,
}
pub use capere_ai.Llm.Errors.{
  LlmToolCall, FinishReason, LlmCompletion, ProviderErrorCode, LlmProviderError, AppException,
  CallError, app_exception, provider_error, other, error_code_of,
}
unfoldable pub use capere_ai.Llm.Errors.{should_try_next, translate}
use capere_ai.Llm.Usage.{LlmUsage, RecordUsageParams, UsageEvent, record_usage, or_default}
use capere_ai.Llm.Budget.{
  BudgetStatus, Store, ThresholdPayload, assert_within_budget, evaluate_after_usage,
}

pub data TaskType : Type 0 where
  general analytics cheap : TaskType

abbrev pub task_name : TaskType → String
task_name general = "general"
task_name analytics = "analytics"
task_name cheap = "cheap"

pub record RoutedCallOptions : Type 0 where
  pub organization_id : ℕ
  pub task_type : Option TaskType
  pub model : Option String
  pub session_id : Option ℕ
  pub user_id : Option ℕ
  pub agent : Option String
  pub prompt_name : Option String
  pub prompt_version : Option ℕ
  pub prompt_checksum : Option String
  pub metadata : Option String

pub data Reply : Type 0 where
  served : LlmCompletion → Reply
  failed : CallError → Reply

-- The lists of `config.openRouter.models`.
pub record ModelChains : Type 0 where
  pub general : List String
  pub analytics : List String
  pub cheap : List String

pub record World : Type 0 where
  pub models : ModelChains
  pub provider_name : String
  -- `provider.complete` at a position of the chain, with a model.
  pub reply : ℕ → String → Reply
  pub started_at : ℕ
  -- When the row of an attempt is written, and its latency.
  pub time : ℕ → ℕ
  pub latency : ℕ → ℕ
  -- The rows that the database refuses, and the text of its error.
  pub refused : UsageEvent → Bool
  pub refusal : String
  -- The error of `evaluateAfterUsage` after an attempt, where the database fails.
  pub evaluation_error : ℕ → Option String
  pub json : ThresholdPayload → String
  pub new_id : ℕ → ℕ → ℕ

-- An empty name of a model counts as none.
unfoldable pub chain_for : ModelChains → RoutedCallOptions → List String
chain_for models o = elim o.model [
  | none ↦ by_task
  | some m ↦ if str_eq m "" then by_task else m ∷ []
]
  where
    by_task : List String
    by_task = elim (or_default o.task_type general) [
      | general ↦ models.general
      | analytics ↦ models.analytics
      | cheap ↦ models.cheap
    ]

abbrev params :
    World
    → RoutedCallOptions
    → ℕ
    → String
    → String
    → LlmUsage
    → Bool
    → Option String
    → RecordUsageParams
params w o index model served_model usage succeeded error_code = record {
  organization_id = o.organization_id;
  session_id = o.session_id;
  user_id = o.user_id;
  agent = o.agent;
  requested_model = model;
  served_model = served_model;
  provider = w.provider_name;
  task_type = some (task_name (or_default o.task_type general));
  prompt_name = o.prompt_name;
  prompt_version = o.prompt_version;
  prompt_checksum = o.prompt_checksum;
  usage = usage;
  latency_ms = some (w.latency index);
  fallback_index = some index;
  succeeded = some succeeded;
  error_code = error_code;
  metadata = o.metadata;
}

abbrev pub success_params :
    World → RoutedCallOptions → ℕ → String → String → LlmUsage → RecordUsageParams
success_params w o index model served_model usage =
    params w o index model served_model usage true none

abbrev pub failure_params : World → RoutedCallOptions → ℕ → String → CallError → RecordUsageParams
failure_params w o index model e =
    params w o index model model
      (record { prompt_tokens = 0; completion_tokens = 0; total_tokens = 0; cost_micro_usd = 0 })
      false (some (error_code_of e))

abbrev pub with_usage : Store → List UsageEvent → Store
with_usage s usage = record s { usage = usage }

abbrev pub or_unchanged : Store → Option (List UsageEvent) → Store
or_unchanged s none = s
or_unchanged s (some usage) = with_usage s usage

-- `recordFailure`: an error of the ledger is logged and dropped.
unfoldable pub record_failure : World → RoutedCallOptions → ℕ → String → CallError → Store → Store
record_failure w o index model e s =
    or_unchanged s
      (record_usage w.refused (w.time index) (failure_params w o index model e) s.usage)

-- The `try` of an attempt: what follows the evaluation of the budgets, the row of the ledger and the
-- provider's answer. What an evaluation commits before it throws is left out.
abbrev pub after_evaluation :
    World → RoutedCallOptions → ℕ → LlmCompletion → Store → Option String → Store × Reply
after_evaluation w o index c s (some message) = (s, failed (other message))
after_evaluation w o index c s none =
    (evaluate_after_usage w.json (w.new_id index) (w.time index) o.organization_id s, served c)

abbrev pub after_record :
    World → RoutedCallOptions → ℕ → LlmCompletion → Store → Option (List UsageEvent) → Store × Reply
after_record w o index c s none = (s, failed (other w.refusal))
after_record w o index c s (some usage) =
    after_evaluation w o index c (with_usage s usage) (w.evaluation_error index)

abbrev pub after_reply : World → RoutedCallOptions → ℕ → String → Store → Reply → Store × Reply
after_reply w o index model s (failed e) = (s, failed e)
after_reply w o index model s (served c) = after_record w o index c s (
    record_usage w.refused (w.time index) (success_params w o index model c.served_model c.usage)
      s.usage)

unfoldable pub call_model : World → RoutedCallOptions → ℕ → String → Store → Store × Reply
call_model w o index model s = after_reply w o index model s (w.reply index model)

pub data Result : Type 0 where
  ok : LlmCompletion → Result
  err : AppException → Result

abbrev pub go_on : Bool → Store × Result → Store × Result → Store × Result
go_on true next stopped = next
go_on false next stopped = stopped

-- The end of an attempt: the completion is returned, or the failure recorded and the next model tried.
abbrev pub settle :
    World
    → RoutedCallOptions
    → List String
    → ℕ
    → String
    → Store × Reply
    → (CallError → Store → Store × Result)
    → Store × Result
settle w o chain index model (s, served c) next = (s, ok c)
settle w o chain index model (s, failed e) next =
    let after = record_failure w o index model e s in
    go_on (should_try_next e) (next e after) (after, err (translate e chain))

-- The loop over the rest of the chain; `last` is the `lastError`.
unfoldable pub try_models :
    World → RoutedCallOptions → List String → ℕ → CallError → List String → Store → Store × Result
try_models w o chain index last [] s = (s, err (translate last chain))
try_models w o chain index last (model ∷ models) s =
    settle w o chain index model (call_model w o index model s)
      (λ e after. try_models w o chain (suc index) e models after)

abbrev pub budget_exceeded : AppException
budget_exceeded = record {
  code = "AI_BUDGET_EXCEEDED";
  message = "This organization has reached its AI spending limit for the current period." ∷ [];
  status = 429;
}

abbrev pub if_within : Store → Option BudgetStatus → Store × Result → Store × Result
if_within s (some t) called = (s, err budget_exceeded)
if_within s none called = called

unfoldable pub complete : World → RoutedCallOptions → Store → Store × Result
complete w o s =
    let chain = chain_for w.models o in
    if_within s (assert_within_budget w.started_at o.organization_id s)
      (try_models w o chain 0 (other "undefined") chain s)
