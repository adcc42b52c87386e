-- ===== src/Llm/Router/Faults.antt =====
-- A database error after the answer of the model.
use capere_ai.Base.{◌≡◌, refl, false, none, some, List, ◌∷◌, [], ◌++◌, String}
use capere_ai.Llm.Usage.{UsageEvent, record_usage, usage_row}
use capere_ai.Llm.Budget.{Store, assert_within_budget}
use capere_ai.Llm.Router.{
  World, RoutedCallOptions, LlmCompletion, other, served, err, chain_for, failure_params,
  success_params, should_try_next, with_usage, record_failure, translate, call_model, try_models,
  complete,
}

module _ (w : World) (o : RoutedCallOptions) where
  -- Within the budget and with a ledger that takes every row, if the evaluation of the budgets fails
  -- after the first model has answered, the answer is lost: the call ends with an internal error, no
  -- other model is called, and the ledger has two rows for the one call, the success with its cost
  -- and a failure.
  pub complete_loses_answer :
      (s : Store) (m : String) (rest : List String) (c : LlmCompletion) (message : String)
      → ((r : UsageEvent) → w.refused r ≡ false)
      → assert_within_budget w.started_at o.organization_id s ≡ none
      → chain_for w.models o ≡ m ∷ rest
      → w.reply 0 m ≡ served c
      → w.evaluation_error 0 ≡ some message
      → complete w o s ≡ (
        with_usage s (
            (s.usage ++ usage_row (w.time 0) (success_params w o 0 m c.served_model c.usage) ∷ [])
            ++ usage_row (w.time 0) (failure_params w o 0 m (other message)) ∷ []),
        err (record {
          code = "INTERNAL_ERROR";
          message = "Model call failed: " ∷ message ∷ [];
          status = 500;
        }),
      )
  unfolding complete try_models call_model record_failure record_usage should_try_next translate
  complete_loses_answer s m rest c message accepts room chain reply fault =
      rw
        (
          room,
          chain,
          reply,
          accepts (usage_row (w.time 0) (success_params w o 0 m c.served_model c.usage)),
          fault,
          accepts (usage_row (w.time 0) (failure_params w o 0 m (other message))),
        )
        refl
