-- ===== src/Llm/Budget/Tables.antt =====
-- The rows of budget.service.ts, the status of a budget and the payload of its event.
use capere_ai.Base.{ℕ, Bool, true, false, List}
use capere_ai.Outbox.{Table as EventTable}
use capere_ai.Llm.Period.{BudgetPeriod, daily, weekly, monthly}
use capere_ai.Llm.Usage.{UsageEvent}

abbrev pub same_period : BudgetPeriod → BudgetPeriod → Bool
same_period daily daily = true
same_period weekly weekly = true
same_period monthly monthly = true
same_period p q = false

-- A row of `capere.ai_budgets`.
pub record Budget : Type 0 where
  pub id : ℕ
  pub organization_id : ℕ
  pub period : BudgetPeriod
  pub limit_micro_usd : ℕ
  pub soft_threshold : ℕ
  pub enforce_hard_limit : Bool

pub data AlertKind : Type 0 where
  soft_threshold hard_limit : AlertKind

abbrev pub same_kind : AlertKind → AlertKind → Bool
same_kind soft_threshold soft_threshold = true
same_kind hard_limit hard_limit = true
same_kind k l = false

-- A row of `capere.ai_budget_alerts`; its id, which nothing reads, is left out.
pub record BudgetAlert : Type 0 where
  pub organization_id : ℕ
  pub budget_id : ℕ
  pub kind : AlertKind
  pub period_start : ℕ
  pub spend_micro_usd : ℕ
  pub limit_micro_usd : ℕ

pub record Ratio : Type 0 where
  pub numerator : ℕ
  pub denominator : ℕ

pub record BudgetStatus : Type 0 where
  pub has_budget : Bool
  pub period : BudgetPeriod
  pub period_start : ℕ
  pub spend_micro_usd : ℕ
  pub limit_micro_usd : ℕ
  pub utilization : Ratio
  pub soft_threshold_crossed : Bool
  pub hard_limit_reached : Bool
  pub enforced : Bool

pub record ThresholdPayload : Type 0 where
  pub budget_id : ℕ
  pub kind : AlertKind
  pub period : BudgetPeriod
  pub spend_micro_usd : ℕ
  pub limit_micro_usd : ℕ
  pub utilization : Ratio

-- The tables that the service uses.
pub record Store : Type 0 where
  pub budgets : List Budget
  pub usage : List UsageEvent
  pub alerts : List BudgetAlert
  pub events : EventTable
