-- ===== src/Llm/Router/Fallback.antt =====
-- The order of the attempts and what they leave in the ledger.
use capere_ai.Base.{
  ℕ, suc, ◌+◌, ◌≡◌, refl, sym, ap, ap₂, ◌∙◌, true, false, none, some, List, [], ◌∷◌, ◌++◌, String,
  arith, length, All, Option-cases, inl, inr,
}
use capere_ai.Llm.Usage.{UsageEvent, RecordUsageParams, record_usage, usage_row}
use capere_ai.Llm.Budget.{Store, assert_within_budget, evaluate_after_usage}
use capere_ai.Llm.Budget.Gate.{WithinLimit, assert_within_budget_iff}
use capere_ai.Llm.Router.{
  World, RoutedCallOptions, LlmCompletion, LlmProviderError, CallError, provider_error, other,
  served, failed, ok, err, chain_for, should_try_next, failure_params, success_params, with_usage,
  record_failure, translate, call_model, settle, try_models, complete, budget_exceeded,
}

-- The database takes every row and answers every query.
pub record Healthy (w : World) : Type 0 where
  pub accepts : (r : UsageEvent) → w.refused r ≡ false
  pub evaluates : (index : ℕ) → w.evaluation_error index ≡ none

module _ (w : World) (o : RoutedCallOptions) where
  -- From a position on, the models fail with the errors given, all of which may be retried.
  unfoldable pub AllRetried : ℕ → List String → List LlmProviderError → Type 0
  AllRetried index [] [] = Unit
  AllRetried index (m ∷ ms) (e ∷ es) =
      (w.reply index m ≡ failed (provider_error e))
      × ((e.retryable ≡ true) × AllRetried (suc index) ms es)
  AllRetried index ms es = ⊥

  abbrev pub failure_row : ℕ → String → CallError → UsageEvent
  failure_row index m e = usage_row (w.time index) (failure_params w o index m e)

  abbrev pub success_row : ℕ → String → LlmCompletion → UsageEvent
  success_row index m c =
      usage_row (w.time index) (success_params w o index m c.served_model c.usage)

  -- One row for each failed attempt, in order.
  unfoldable pub failure_rows : ℕ → List String → List LlmProviderError → List UsageEvent
  failure_rows index (m ∷ ms) (e ∷ es) =
      failure_row index m (provider_error e) ∷ failure_rows (suc index) ms es
  failure_rows index ms es = []

  unfoldable pub last_error : CallError → List LlmProviderError → CallError
  last_error last [] = last
  last_error last (e ∷ es) = last_error (provider_error e) es

  module _ (healthy : Healthy w) where
    record_usage-accepted :
        (now : ℕ) (p : RecordUsageParams) (rows : List UsageEvent)
        → record_usage w.refused now p rows ≡ some (rows ++ usage_row now p ∷ [])
    unfolding record_usage
    record_usage-accepted now p rows = rw (healthy.accepts (usage_row now p)) refl

    record_failure-accepted :
        (index : ℕ) (m : String) (e : CallError) (s : Store)
        → record_failure w o index m e s ≡ with_usage s (s.usage ++ failure_row index m e ∷ [])
    unfolding record_failure
    record_failure-accepted index m e s =
        rw (record_usage-accepted (w.time index) (failure_params w o index m e) s.usage) refl

    call_model-served :
        (index : ℕ) (m : String) (c : LlmCompletion) (s : Store)
        → w.reply index m ≡ served c
        → call_model w o index m s ≡ (
          evaluate_after_usage w.json
              (w.new_id index)
              (w.time index)
              o.organization_id
              (with_usage s (s.usage ++ success_row index m c ∷ [])),
          served c,
        )
    unfolding call_model
    call_model-served index m c s h =
        rw
          (
            h,
            record_usage-accepted (w.time index) (success_params w o index m c.served_model c.usage)
                s.usage,
            healthy.evaluates index,
          )
          refl

    call_model-failed :
        (index : ℕ) (m : String) (e : CallError) (s : Store)
        → w.reply index m ≡ failed e
        → call_model w o index m s ≡ (s, failed e)
    unfolding call_model
    call_model-failed index m e s h = rw h refl

    -- One attempt that fails.
    try_models-failed :
        (chain : List String) (index : ℕ) (last : CallError) (m : String) (ms : List String)
        (e : CallError) (s : Store)
        → w.reply index m ≡ failed e
        → let after = with_usage s (s.usage ++ failure_row index m e ∷ []) in
          (should_try_next e ≡ true
            → try_models w o chain index last (m ∷ ms) s
              ≡ try_models w o chain (suc index) e ms after)
          × (should_try_next e ≡ false
              → try_models w o chain index last (m ∷ ms) s ≡ (after, err (translate e chain)))
    unfolding try_models
    try_models-failed chain index last m ms e s h =
        let called = call_model-failed index m e s h in
        let recorded = record_failure-accepted index m e s in
        ((λ t. rw (called, t, recorded) refl), (λ t. rw (called, t, recorded) refl))

    append_one :
        (xs : List UsageEvent) (x : UsageEvent) (ys : List UsageEvent)
        → (xs ++ x ∷ []) ++ ys ≡ xs ++ x ∷ ys
    append_one [] x ys = refl
    append_one (y ∷ xs) x ys = ap (λ zs. y ∷ zs) (append_one xs x ys)

    append_nil : {A : Type 0} (xs : List A) → xs ++ [] ≡ xs
    append_nil [] = refl
    append_nil (x ∷ xs) = ap (λ zs. x ∷ zs) (append_nil xs)

    -- Failures that may be retried lead to the rest of the chain.
    try_models-retried :
        (chain : List String) (index : ℕ) (last : CallError) (ms : List String)
        (es : List LlmProviderError) (rest : List String) (s : Store)
        → AllRetried index ms es
        → try_models w o chain index last (ms ++ rest) s
          ≡ try_models w o chain
              (index + length ms)
              (last_error last es)
              rest
              (with_usage s (s.usage ++ failure_rows index ms es))
    unfolding AllRetried failure_rows last_error should_try_next
    try_models-retried chain index last [] [] rest s h =
        rw (append_nil s.usage) (ap (λ i. try_models w o chain i last rest s) (omega arith))
    try_models-retried chain index last [] (e ∷ es) rest s h = absurd h
    try_models-retried chain index last (m ∷ ms) [] rest s h = absurd h
    try_models-retried chain index last (m ∷ ms) (e ∷ es) rest s (reply, (retry, h)) =
        let row = failure_row index m (provider_error e) in
        let after = with_usage s (s.usage ++ row ∷ []) in
        (try_models-failed chain index last m (ms ++ rest) (provider_error e) s reply).0 retry
        ∙ try_models-retried chain (suc index) (provider_error e) ms es rest after h
        ∙ ap₂
            (λ i usage.
              try_models w o chain i (last_error (provider_error e) es) rest (with_usage s usage))
            (omega arith) (append_one s.usage row (failure_rows (suc index) ms es))

    length-failure_rows :
        (index : ℕ) (ms : List String) (es : List LlmProviderError)
        → AllRetried index ms es
        → length (failure_rows index ms es) ≡ length ms
    unfolding AllRetried failure_rows
    length-failure_rows index [] [] h = refl
    length-failure_rows index [] (e ∷ es) h = absurd h
    length-failure_rows index (m ∷ ms) [] h = absurd h
    length-failure_rows index (m ∷ ms) (e ∷ es) (reply, (retry, h)) =
        ap suc (length-failure_rows (suc index) ms es h)

    within :
        (s : Store)
        → assert_within_budget w.started_at o.organization_id s ≡ none
        → complete w o s
          ≡ try_models w o (chain_for w.models o) 0 (other "undefined") (chain_for w.models o) s
    unfolding complete
    within s h = rw h refl

    -- Within its budget, and with a database that takes every row and answers every query, a call
    -- whose first models fail with errors that may be retried, and whose next model answers, returns
    -- that answer: the ledger has one row for each failure and one for the answer, in that order, and
    -- the budgets are evaluated on it. The models after it are not called.
    pub complete_fallback :
        (s : Store) (ms : List String) (es : List LlmProviderError) (m : String)
        (rest : List String) (c : LlmCompletion)
        → assert_within_budget w.started_at o.organization_id s ≡ none
        → chain_for w.models o ≡ ms ++ m ∷ rest
        → AllRetried 0 ms es
        → w.reply (length ms) m ≡ served c
        → complete w o s ≡ (
          evaluate_after_usage w.json
              (w.new_id (length ms))
              (w.time (length ms))
              o.organization_id
              (with_usage s
                ((s.usage ++ failure_rows 0 ms es) ++ success_row (length ms) m c ∷ [])),
          ok c,
        )
    unfolding try_models
    complete_fallback s ms es m rest c room chain retried reply =
        let before = with_usage s (s.usage ++ failure_rows 0 ms es) in
        within s room
        ∙ ap (λ ms'. try_models w o (chain_for w.models o) 0 (other "undefined") ms' s) chain
        ∙ try_models-retried (chain_for w.models o) 0 (other "undefined") ms es (m ∷ rest) s retried
        ∙ ap
            (λ i.
              try_models w o (chain_for w.models o) i (last_error (other "undefined") es) (m ∷ rest)
                before)
            (omega arith)
        ∙ ap
            (λ p.
              settle w o (chain_for w.models o) (length ms) m p
                (λ e after. try_models w o (chain_for w.models o) (suc (length ms)) e rest after))
            (call_model-served (length ms) m c before reply)

    -- Within the budget, with such a database and after failures that may be retried, an error that
    -- may not be retried ends the call with that error, translated, after a row for each failure; no
    -- later model is called.
    pub complete_stopped :
        (s : Store) (ms : List String) (es : List LlmProviderError) (m : String)
        (rest : List String) (e : CallError)
        → assert_within_budget w.started_at o.organization_id s ≡ none
        → chain_for w.models o ≡ ms ++ m ∷ rest
        → AllRetried 0 ms es
        → w.reply (length ms) m ≡ failed e
        → should_try_next e ≡ false
        → complete w o s ≡ (
          with_usage s ((s.usage ++ failure_rows 0 ms es) ++ failure_row (length ms) m e ∷ []),
          err (translate e (chain_for w.models o)),
        )
    complete_stopped s ms es m rest e room chain retried reply final =
        let before = with_usage s (s.usage ++ failure_rows 0 ms es) in
        within s room
        ∙ ap (λ ms'. try_models w o (chain_for w.models o) 0 (other "undefined") ms' s) chain
        ∙ try_models-retried (chain_for w.models o) 0 (other "undefined") ms es (m ∷ rest) s retried
        ∙ ap
            (λ i.
              try_models w o (chain_for w.models o) i (last_error (other "undefined") es) (m ∷ rest)
                before)
            (omega arith)
        ∙ (try_models-failed (chain_for w.models o) (length ms) (last_error (other "undefined") es)
              m rest e before reply).1
            final

    -- Within the budget and with such a database, if every model of the chain fails with an error
    -- that may be retried, the call ends with the last of these errors, translated, and the ledger
    -- has one row for each model.
    pub complete_exhausted :
        (s : Store) (es : List LlmProviderError)
        → assert_within_budget w.started_at o.organization_id s ≡ none
        → AllRetried 0 (chain_for w.models o) es
        → (complete w o s ≡ (
          with_usage s (s.usage ++ failure_rows 0 (chain_for w.models o) es),
          err (translate (last_error (other "undefined") es) (chain_for w.models o)),
        ))
          × (length (failure_rows 0 (chain_for w.models o) es) ≡ length (chain_for w.models o))
    unfolding try_models
    complete_exhausted s es room retried =
        let chain = chain_for w.models o in
        (
          within s room
              ∙ ap (λ ms'. try_models w o (chain_for w.models o) 0 (other "undefined") ms' s)
                  (sym (append_nil chain))
              ∙ try_models-retried chain 0 (other "undefined") chain es [] s retried,
          length-failure_rows 0 chain es retried,
        )

  -- With an enforced budget of the organization that has no room, no model is called and nothing is
  -- written: the call ends with AI_BUDGET_EXCEEDED.
  pub complete_over_budget :
      (s : Store)
      → ¬ All (WithinLimit w.started_at o.organization_id s.usage) s.budgets
      → complete w o s ≡ (s, err budget_exceeded)
  unfolding complete
  complete_over_budget s over =
      elim (Option-cases (assert_within_budget w.started_at o.organization_id s)) [
        | inl e ↦ absurd (over ((assert_within_budget_iff w.started_at o.organization_id s).0 e))
        | inr (t, e) ↦ rw e refl
      ]
