-- ===== src/Llm/Usage.antt =====
-- backend/src/llm/usage/usage.service.ts: the ledger `capere.ai_usage_events`. The columns' ids
-- and JSON are numbers and text; costs are whole micro-USD.
use capere_ai.Base.{
  ℕ, ◌+◌, ◌≤◌, ◌≡◌, refl, ap, ◌∙◌, Bool, true, not, ◌&&◌, Option, none, some, List, [], ◌∷◌, ◌++◌,
  String, str_eq, arith, leb, ◌==◌, if◌then◌else◌, Bool-cases, inl, inr, select, length,
  insert_desc, order_by_desc,
}

pub record LlmUsage : Type 0 where
  pub prompt_tokens : ℕ
  pub completion_tokens : ℕ
  pub total_tokens : ℕ
  pub cost_micro_usd : ℕ

pub record RecordUsageParams : Type 0 where
  pub organization_id : ℕ
  pub session_id : Option ℕ
  pub user_id : Option ℕ
  pub agent : Option String
  pub requested_model : String
  pub served_model : String
  pub provider : String
  pub task_type : Option String
  pub prompt_name : Option String
  pub prompt_version : Option ℕ
  pub prompt_checksum : Option String
  pub usage : LlmUsage
  pub latency_ms : Option ℕ
  pub fallback_index : Option ℕ
  pub succeeded : Option Bool
  pub error_code : Option String
  pub metadata : Option String

-- A row of `capere.ai_usage_events`; its id, which nothing reads, is left out.
pub record UsageEvent : Type 0 where
  pub organization_id : ℕ
  pub session_id : Option ℕ
  pub user_id : Option ℕ
  pub agent : String
  pub requested_model : String
  pub served_model : String
  pub provider : String
  pub task_type : String
  pub prompt_name : Option String
  pub prompt_version : Option ℕ
  pub prompt_checksum : Option String
  pub prompt_tokens : ℕ
  pub completion_tokens : ℕ
  pub total_tokens : ℕ
  pub cost_micro_usd : ℕ
  pub latency_ms : Option ℕ
  pub fallback_index : ℕ
  pub succeeded : Bool
  pub error_code : Option String
  pub metadata : String
  pub created_at : ℕ

abbrev pub or_default {ℓ} : {A : Type ℓ} → Option A → A → A
or_default none d = d
or_default (some a) d = a

-- `insert`: the row that a call adds.
unfoldable pub usage_row : ℕ → RecordUsageParams → UsageEvent
usage_row now p = record {
  organization_id = p.organization_id;
  session_id = p.session_id;
  user_id = p.user_id;
  agent = or_default p.agent "general";
  requested_model = p.requested_model;
  served_model = p.served_model;
  provider = p.provider;
  task_type = or_default p.task_type "general";
  prompt_name = p.prompt_name;
  prompt_version = p.prompt_version;
  prompt_checksum = p.prompt_checksum;
  prompt_tokens = p.usage.prompt_tokens;
  completion_tokens = p.usage.completion_tokens;
  total_tokens = p.usage.total_tokens;
  cost_micro_usd = p.usage.cost_micro_usd;
  latency_ms = p.latency_ms;
  fallback_index = or_default p.fallback_index 0;
  succeeded = or_default p.succeeded true;
  error_code = p.error_code;
  metadata = or_default p.metadata "{}";
  created_at = now;
}

-- `record`. `refused` are the rows that the database rejects; the error is logged and thrown again.
unfoldable pub record_usage :
    (UsageEvent → Bool) → ℕ → RecordUsageParams → List UsageEvent → Option (List UsageEvent)
unfolding usage_row
record_usage refused now p rows =
    let row = usage_row now p in if refused row then none else some (rows ++ row ∷ [])

abbrev pub sum_of {ℓ} : {A : Type ℓ} → (A → ℕ) → List A → ℕ
sum_of f [] = 0
sum_of f (x ∷ xs) = f x + sum_of f xs

pub record ModelTotals : Type 0 where
  pub model : String
  pub cost_micro_usd : ℕ
  pub tokens : ℕ
  pub calls : ℕ

pub record Summary : Type 0 where
  pub total_cost_micro_usd : ℕ
  pub total_tokens : ℕ
  pub call_count : ℕ
  pub failure_count : ℕ
  pub by_model : List ModelTotals

-- The `where` of the three queries.
unfoldable pub in_window : ℕ → ℕ → List UsageEvent → List UsageEvent
in_window org since = select (λ r. r.organization_id == org && leb since r.created_at)

abbrev add_call : UsageEvent → ModelTotals → ModelTotals
add_call r g = record g {
  cost_micro_usd = r.cost_micro_usd + g.cost_micro_usd;
  tokens = r.total_tokens + g.tokens;
  calls = 1 + g.calls;
}

abbrev first_call : UsageEvent → ModelTotals
first_call r = record {
  model = r.served_model;
  cost_micro_usd = r.cost_micro_usd;
  tokens = r.total_tokens;
  calls = 1;
}

-- One row under `group by served_model`.
pub add_to_group : UsageEvent → List ModelTotals → List ModelTotals
add_to_group r [] = first_call r ∷ []
add_to_group r (g ∷ gs) =
    let rest = add_to_group r gs in
    if str_eq r.served_model g.model then add_call r g ∷ gs else g ∷ rest

pub group_by_model : List UsageEvent → List ModelTotals
unfolding add_to_group
group_by_model [] = []
group_by_model (r ∷ rs) = add_to_group r (group_by_model rs)

unfoldable pub summarize : ℕ → ℕ → List UsageEvent → Summary
unfolding in_window group_by_model
summarize org since rows =
    let window = in_window org since rows in
    record {
      total_cost_micro_usd = sum_of (λ r. r.cost_micro_usd) window;
      total_tokens = sum_of (λ r. r.total_tokens) window;
      call_count = length window;
      failure_count = length (select (λ r. not r.succeeded) window);
      by_model = order_by_desc (λ g. g.cost_micro_usd) (group_by_model window);
    }

sum_of-add_to_group :
    (f : ModelTotals → ℕ) (amount : UsageEvent → ℕ)
    → ((r : UsageEvent) → f (first_call r) ≡ amount r)
    → ((r : UsageEvent) (g : ModelTotals) → f (add_call r g) ≡ amount r + f g)
    → (r : UsageEvent) (gs : List ModelTotals)
    → sum_of f (add_to_group r gs) ≡ amount r + sum_of f gs
unfolding add_to_group
sum_of-add_to_group f amount first more r [] = ground (arith, first r)
sum_of-add_to_group f amount first more r (g ∷ gs) =
    elim (Bool-cases (str_eq r.served_model g.model)) [
      | inl e ↦ rw e (ground (arith, more r g))
      | inr e ↦ rw e (ground (arith, sum_of-add_to_group f amount first more r gs))
    ]

sum_of-insert_desc {ℓ} :
    {A : Type ℓ} (f key : A → ℕ) (x : A) (ys : List A)
    → sum_of f (insert_desc key x ys) ≡ f x + sum_of f ys
sum_of-insert_desc f key x [] = refl
sum_of-insert_desc f key x (y ∷ ys) = elim (Bool-cases (leb (key y) (key x))) [
  | inl e ↦ rw e refl
  | inr e ↦ rw e (ground (arith, sum_of-insert_desc f key x ys))
]

sum_of-order_by_desc {ℓ} :
    {A : Type ℓ} (f key : A → ℕ) (xs : List A) → sum_of f (order_by_desc key xs) ≡ sum_of f xs
sum_of-order_by_desc f key [] = refl
sum_of-order_by_desc f key (x ∷ xs) =
    sum_of-insert_desc f key x (order_by_desc key xs)
    ∙ ap (λ n. f x + n) (sum_of-order_by_desc f key xs)

sum_of-group_by_model :
    (f : ModelTotals → ℕ) (amount : UsageEvent → ℕ)
    → ((r : UsageEvent) → f (first_call r) ≡ amount r)
    → ((r : UsageEvent) (g : ModelTotals) → f (add_call r g) ≡ amount r + f g)
    → (rs : List UsageEvent) → sum_of f (group_by_model rs) ≡ sum_of amount rs
unfolding group_by_model
sum_of-group_by_model f amount first more [] = refl
sum_of-group_by_model f amount first more (r ∷ rs) =
    sum_of-add_to_group f amount first more r (group_by_model rs)
    ∙ ap (λ n. amount r + n) (sum_of-group_by_model f amount first more rs)

sum_of-one {ℓ} : {A : Type ℓ} (xs : List A) → sum_of (λ x. 1) xs ≡ length xs
sum_of-one [] = refl
sum_of-one (x ∷ xs) = ground (arith, sum_of-one xs)

select-le {ℓ} : {A : Type ℓ} (p : A → Bool) (xs : List A) → length (select p xs) ≤ length xs
select-le p [] = omega arith
select-le p (x ∷ xs) = elim (Bool-cases (p x)) [
  | inl e ↦ rw e (ground (arith, select-le p xs))
  | inr e ↦ rw e (ground (arith, select-le p xs))
]

-- In every summary the models' costs, tokens and calls add up to the totals, and no more calls
-- have failed than were made.
pub summarize_adds_up :
    (org since : ℕ) (rows : List UsageEvent)
    → let s = summarize org since rows in
      (sum_of (λ g. g.cost_micro_usd) s.by_model ≡ s.total_cost_micro_usd)
      × (sum_of (λ g. g.tokens) s.by_model ≡ s.total_tokens)
      × (sum_of (λ g. g.calls) s.by_model ≡ s.call_count)
      × (s.failure_count ≤ s.call_count)
unfolding summarize
summarize_adds_up org since rows =
    let window = in_window org since rows in
    let by_cost : ModelTotals → ℕ = λ g. g.cost_micro_usd in
    (
      sum_of-order_by_desc (λ g. g.cost_micro_usd) by_cost (group_by_model window)
          ∙ sum_of-group_by_model (λ g. g.cost_micro_usd) (λ r. r.cost_micro_usd) (λ r. refl)
              (λ r g. refl) window,
      sum_of-order_by_desc (λ g. g.tokens) by_cost (group_by_model window)
          ∙ sum_of-group_by_model (λ g. g.tokens) (λ r. r.total_tokens) (λ r. refl) (λ r g. refl)
              window,
      sum_of-order_by_desc (λ g. g.calls) by_cost (group_by_model window)
          ∙ sum_of-group_by_model (λ g. g.calls) (λ r. 1) (λ r. refl) (λ r g. refl) window
          ∙ sum_of-one window,
      select-le (λ r. not r.succeeded) window,
    )
