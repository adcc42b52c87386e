-- ===== src/Llm/Budget.antt =====
-- backend/src/llm/budgets/budget.service.ts: budgets of an organization, checked before a model
-- call and evaluated after it. The utilization is the exact quotient (JavaScript rounds it), the
-- soft threshold is in hundredths, as the column `numeric(3, 2)` keeps it, and a day is written as
-- its first millisecond. One call of a function reads one time.
mod Tables
pub mod Gate
pub mod Alerts
pub use Tables.*
use capere_ai.Base.{
  ℕ, ◌+◌, ◌*◌, ◌≤◌, ◌<◌, ◌≡◌, refl, sym, ap, ◌∙◌, Bool, true, false, not, ◌&&◌, ◌||◌, Option, none,
  some, map, List, [], ◌∷◌, ◌++◌, String, arith, ltb, leb, ◌==◌, if◌then◌else◌, Bool-cases, inl,
  inr, select, find, any, update,
}
use capere_ai.Outbox.{EventToPublish, publish_in_transaction}
use capere_ai.Outbox.{Table as EventTable}
use capere_ai.Llm.Period.{BudgetPeriod, daily, weekly, monthly, start_of_period}
use capere_ai.Llm.Usage.{UsageEvent, in_window, sum_of, or_default}

unfoldable pub spend_since : ℕ → ℕ → List UsageEvent → ℕ
unfolding in_window
spend_since org since rows = sum_of (λ r. r.cost_micro_usd) (in_window org since rows)

unfoldable pub utilization_of : ℕ → ℕ → Ratio
utilization_of spend limit =
    if ltb 0 limit
    then record { numerator = spend; denominator = limit }
    else record { numerator = 0; denominator = 1 }

-- The body of the loop of `statuses`.
unfoldable pub status_of : ℕ → ℕ → List UsageEvent → Budget → BudgetStatus
unfolding utilization_of
status_of now org usage b =
    let start = start_of_period b.period now in
    let spend = spend_since org start usage in
    let u = utilization_of spend b.limit_micro_usd in
    record {
      has_budget = true;
      period = b.period;
      period_start = start;
      spend_micro_usd = spend;
      limit_micro_usd = b.limit_micro_usd;
      utilization = u;
      soft_threshold_crossed = leb (b.soft_threshold * u.denominator) (100 * u.numerator);
      hard_limit_reached = leb b.limit_micro_usd spend;
      enforced = b.enforce_hard_limit;
    }

abbrev pub budgets_of : ℕ → List Budget → List Budget
budgets_of org = select (λ b. b.organization_id == org)

unfoldable pub statuses : ℕ → ℕ → Store → List BudgetStatus
unfolding status_of
statuses now org s = map (status_of now org s.usage) (budgets_of org s.budgets)

-- `assertWithinBudget`: the status whose limit stops the call, which the code reports in its error.
unfoldable pub assert_within_budget : ℕ → ℕ → Store → Option BudgetStatus
unfolding statuses
assert_within_budget now org s = find (λ t. t.hard_limit_reached && t.enforced) (statuses now org s)

unlimited_status : ℕ → BudgetStatus
unlimited_status now = record {
  has_budget = false;
  period = monthly;
  period_start = start_of_period monthly now;
  spend_micro_usd = 0;
  limit_micro_usd = 0;
  utilization = record { numerator = 0; denominator = 1 };
  soft_threshold_crossed = false;
  hard_limit_reached = false;
  enforced = false;
}

-- The first of the list that `sort` gives: the first of those with the greatest utilization.
pub most_used : BudgetStatus → List BudgetStatus → BudgetStatus
most_used best [] = best
most_used best (t ∷ ts) =
    most_used
      (if ltb (best.utilization.numerator * t.utilization.denominator)
          (t.utilization.numerator * best.utilization.denominator)
        then t
        else best)
      ts

-- `status`
pub budget_status : ℕ → ℕ → Store → BudgetStatus
unfolding statuses most_used unlimited_status
budget_status now org s = elim (statuses now org s) [
  | [] ↦ unlimited_status now
  | t ∷ ts ↦ most_used t ts
]

-- `setBudget`: an insert, or an update where the organization has a budget for the period, and the
-- checks of the table. The id is the database's.
abbrev pub is_row : ℕ → BudgetPeriod → Budget → Bool
is_row org period b = b.organization_id == org && same_period b.period period

abbrev pub new_terms : ℕ → ℕ → Bool → Budget → Budget
new_terms limit threshold enforce b = record b {
  limit_micro_usd = limit;
  soft_threshold = threshold;
  enforce_hard_limit = enforce;
}

unfoldable pub upsert : ℕ → ℕ → BudgetPeriod → ℕ → ℕ → Bool → List Budget → List Budget
upsert id org period limit threshold enforce rows =
    if any (is_row org period) rows
    then update (is_row org period) (new_terms limit threshold enforce) rows
    else rows
      ++ record {
        id = id;
        organization_id = org;
        period = period;
        limit_micro_usd = limit;
        soft_threshold = threshold;
        enforce_hard_limit = enforce;
      }
        ∷ []

unfoldable pub set_budget :
    ℕ → ℕ → BudgetPeriod → ℕ → Option ℕ → Option Bool → List Budget → Option (List Budget)
unfolding upsert
set_budget id org period limit soft enforce rows =
    let threshold = or_default soft 80 in
    if ltb 0 limit && ltb 0 threshold && leb threshold 100
    then some (upsert id org period limit threshold (or_default enforce true) rows)
    else none

abbrev pub same_alert : BudgetAlert → BudgetAlert → Bool
same_alert a b =
    a.budget_id == b.budget_id && same_kind a.kind b.kind && a.period_start == b.period_start

-- `recordAlert`: none where the alert is there already.
unfoldable pub record_alert : BudgetAlert → List BudgetAlert → Option (List BudgetAlert)
record_alert a alerts = if any (same_alert a) alerts then none else some (alerts ++ a ∷ [])

abbrev pub kind_of : BudgetStatus → Option AlertKind
kind_of t =
    if t.hard_limit_reached
    then some hard_limit
    else if t.soft_threshold_crossed
    then some soft_threshold
    else none

abbrev pub alert_of : ℕ → Budget → AlertKind → BudgetStatus → BudgetAlert
alert_of org b kind t = record {
  organization_id = org;
  budget_id = b.id;
  kind = kind;
  period_start = t.period_start;
  spend_micro_usd = t.spend_micro_usd;
  limit_micro_usd = t.limit_micro_usd;
}

-- The text of the payload is that of its JSON.
abbrev pub event_of :
    (ThresholdPayload → String) → ℕ → Budget → AlertKind → BudgetStatus → EventToPublish
event_of json org b kind t = record {
  event_type = "ai_budget.threshold_reached";
  organization_id = org;
  aggregate_type = some "ai_budget";
  aggregate_id = some b.id;
  payload_version = none;
  payload = json (record {
    budget_id = b.id;
    kind = kind;
    period = t.period;
    spend_micro_usd = t.spend_micro_usd;
    limit_micro_usd = t.limit_micro_usd;
    utilization = t.utilization;
  });
}

-- What the transaction does after `recordAlert`: nothing where the alert was there, else the event.
abbrev pub publish_if :
    (ThresholdPayload → String)
    → (ℕ → ℕ)
    → ℕ
    → ℕ
    → Budget
    → AlertKind
    → BudgetStatus
    → Store
    → Option (List BudgetAlert)
    → Store
publish_if json new_id now org b kind t s none = s
publish_if json new_id now org b kind t s (some alerts) = record s {
  alerts = alerts;
  events = publish_in_transaction (new_id b.id) now (event_of json org b kind t) s.events;
}

-- The transaction of `evaluateAfterUsage`. `new_id` gives the event's id for a budget.
unfoldable pub raise_alert :
    (ThresholdPayload → String)
    → (ℕ → ℕ)
    → ℕ
    → ℕ
    → Budget
    → AlertKind
    → BudgetStatus
    → Store
    → Store
raise_alert json new_id now org b kind t s =
    publish_if json new_id now org b kind t s (record_alert (alert_of org b kind t) s.alerts)

-- The rest of the loop's body, once the kind and the budget are looked up; a missing one skips it.
abbrev pub alert_if :
    (ThresholdPayload → String)
    → (ℕ → ℕ)
    → ℕ
    → ℕ
    → Option AlertKind
    → Option Budget
    → BudgetStatus
    → Store
    → Store
alert_if json new_id now org none b t s = s
alert_if json new_id now org (some kind) none t s = s
alert_if json new_id now org (some kind) (some b) t s = raise_alert json new_id now org b kind t s

unfoldable pub evaluate_one :
    (ThresholdPayload → String) → (ℕ → ℕ) → ℕ → ℕ → BudgetStatus → Store → Store
evaluate_one json new_id now org t s =
    alert_if json new_id now org (kind_of t) (find (is_row org t.period) s.budgets) t s

unfoldable pub evaluate_all :
    (ThresholdPayload → String) → (ℕ → ℕ) → ℕ → ℕ → List BudgetStatus → Store → Store
unfolding evaluate_one
evaluate_all json new_id now org [] s = s
evaluate_all json new_id now org (t ∷ ts) s =
    evaluate_all json new_id now org ts (evaluate_one json new_id now org t s)

unfoldable pub evaluate_after_usage : (ThresholdPayload → String) → (ℕ → ℕ) → ℕ → ℕ → Store → Store
unfolding evaluate_all
evaluate_after_usage json new_id now org s = evaluate_all json new_id now org (statuses now org s) s
