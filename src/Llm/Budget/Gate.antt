-- ===== src/Llm/Budget/Gate.antt =====
-- `assertWithinBudget` and `setBudget`.
use capere_ai.Base.{
  ℕ, ◌≤◌, ◌<◌, ◌≡◌, refl, ◌↔◌, ◌⊎◌, Bool, true, false, not, ◌&&◌, Option, none, some, map, List, [],
  ◌∷◌, ◌++◌, arith, ltb, leb, ◌==◌, Bool-cases, inl, inr, select, find, any, update, All, length,
}
use capere_ai.Llm.Period.{BudgetPeriod, start_of_period}
use capere_ai.Llm.Usage.{UsageEvent, or_default}
use capere_ai.Llm.Budget.{
  Budget, BudgetStatus, Store, status_of, spend_since, same_period, assert_within_budget,
  set_budget, budgets_of, upsert, is_row, new_terms,
}

-- The budget leaves room for a call of the organization.
unfoldable pub WithinLimit : ℕ → ℕ → List UsageEvent → Budget → Type 0
WithinLimit now org usage b =
    b.organization_id == org ≡ true
    → b.enforce_hard_limit ≡ true
    → spend_since org (start_of_period b.period now) usage < b.limit_micro_usd

abbrev stops : BudgetStatus → Bool
stops t = t.hard_limit_reached && t.enforced

within_from :
    (now org : ℕ) (usage : List UsageEvent) (bs : List Budget)
    → find stops (map (status_of now org usage) (budgets_of org bs)) ≡ none
    → All (WithinLimit now org usage) bs
unfolding WithinLimit status_of
within_from now org usage [] h = tt
within_from now org usage (b ∷ bs) h = ground (arith, h, within_from now org usage bs)

within_to :
    (now org : ℕ) (usage : List UsageEvent) (bs : List Budget)
    → All (WithinLimit now org usage) bs
    → find stops (map (status_of now org usage) (budgets_of org bs)) ≡ none
unfolding WithinLimit status_of
within_to now org usage [] h = refl
within_to now org usage (b ∷ bs) (h, hs) = ground (arith, h, within_to now org usage bs hs)

-- A call passes the gate exactly when every enforced budget of the organization has, since its
-- period began, a spend below its limit.
pub assert_within_budget_iff :
    (now org : ℕ) (s : Store)
    → (assert_within_budget now org s ≡ none) ↔ All (WithinLimit now org s.usage) s.budgets
unfolding assert_within_budget
assert_within_budget_iff now org s =
    (within_from now org s.usage s.budgets, within_to now org s.usage s.budgets)

same_period_refl : (p : BudgetPeriod) → same_period p p ≡ true
same_period_refl BudgetPeriod.daily = refl
same_period_refl BudgetPeriod.weekly = refl
same_period_refl BudgetPeriod.monthly = refl

-- What the row of a stored budget says.
unfoldable pub HasTerms : ℕ → BudgetPeriod → ℕ → ℕ → Bool → Budget → Type 0
HasTerms org period limit threshold enforce b =
    is_row org period b ≡ true
    → (b.limit_micro_usd ≡ limit)
      × (b.soft_threshold ≡ threshold)
      × (b.enforce_hard_limit ≡ enforce)

abbrev others : ℕ → BudgetPeriod → List Budget → List Budget
others org period = select (λ b. not (is_row org period b))

update-HasTerms :
    (org : ℕ) (period : BudgetPeriod) (limit threshold : ℕ) (enforce : Bool) (rows : List Budget)
    → All
        (HasTerms org period limit threshold enforce)
        (update (is_row org period) (new_terms limit threshold enforce) rows)
unfolding HasTerms
update-HasTerms org period limit threshold enforce [] = tt
update-HasTerms org period limit threshold enforce (b ∷ bs) =
    let rest = update-HasTerms org period limit threshold enforce bs in
    elim (Bool-cases (is_row org period b)) [
      | inl e ↦ rw e ((λ f. (refl, refl, refl)), rest)
      | inr e ↦ rw e ((λ f. absurd (cc)), rest)
    ]

module _ {ℓ} {A : Type ℓ} (p : A → Bool) where
  length-select-update :
      (f : A → A)
      → ((a : A) → p (f a) ≡ p a)
      → (xs : List A) → length (select p (update p f xs)) ≡ length (select p xs)
  length-select-update f same [] = refl
  length-select-update f same (x ∷ xs) = ground (arith, same x, length-select-update f same xs)

  select_others-update :
      (f : A → A)
      → ((a : A) → p (f a) ≡ p a)
      → (xs : List A) → select (λ a. not (p a)) (update p f xs) ≡ select (λ a. not (p a)) xs
  select_others-update f same [] = refl
  select_others-update f same (x ∷ xs) = ground (arith, same x, select_others-update f same xs)

  length-select-any : (xs : List A) → any p xs ≡ true → 1 ≤ length (select p xs)
  length-select-any [] h = absurd cc
  length-select-any (x ∷ xs) h = ground (arith, h, length-select-any xs)

  length-select-concat :
      (xs : List A) (y : A) → any p xs ≡ false → p y ≡ true → length (select p (xs ++ y ∷ [])) ≡ 1
  length-select-concat [] y h e = rw e refl
  length-select-concat (x ∷ xs) y h e = ground (arith, h, length-select-concat xs y)

  select_others-concat :
      (xs : List A) (y : A)
      → p y ≡ true
      → select (λ a. not (p a)) (xs ++ y ∷ []) ≡ select (λ a. not (p a)) xs
  select_others-concat [] y e = rw e refl
  select_others-concat (x ∷ xs) y e = ground (arith, select_others-concat xs y e)

HasTerms-concat :
    (org : ℕ) (period : BudgetPeriod) (limit threshold : ℕ) (enforce : Bool) (rows : List Budget)
    (b : Budget)
    → any (is_row org period) rows ≡ false
    → HasTerms org period limit threshold enforce b
    → All (HasTerms org period limit threshold enforce) (rows ++ b ∷ [])
unfolding HasTerms
HasTerms-concat org period limit threshold enforce [] b h terms = (terms, tt)
HasTerms-concat org period limit threshold enforce (c ∷ cs) b h terms =
    elim (Bool-cases (is_row org period c)) [
      | inl e ↦ absurd (ground (arith, h, e))
      | inr e ↦ (
        (λ f. absurd cc),
        HasTerms-concat org period limit threshold enforce cs b (ground (arith, h, e)) terms,
      )
    ]

==_refl : (n : ℕ) → (n == n) ≡ true
==_refl n = ground arith

upsert_one_row :
    (id org : ℕ) (period : BudgetPeriod) (limit threshold : ℕ) (enforce : Bool) (rows : List Budget)
    → length (select (is_row org period) rows) ≤ 1
    → let rows' = upsert id org period limit threshold enforce rows in
      (length (select (is_row org period) rows') ≡ 1)
      × (select (λ b. not (is_row org period b)) rows'
          ≡ select (λ b. not (is_row org period b)) rows)
      × All (HasTerms org period limit threshold enforce) rows'
unfolding upsert HasTerms
upsert_one_row id org period limit threshold enforce rows one =
    let p = is_row org period in
    let change = new_terms limit threshold enforce in
    let added : Budget = record {
      id = id;
      organization_id = org;
      period = period;
      limit_micro_usd = limit;
      soft_threshold = threshold;
      enforce_hard_limit = enforce;
    } in
    let own : p added ≡ true = rw (==_refl org, same_period_refl period) refl in
    elim (Bool-cases (any p rows)) [
      | inl e ↦ rw e (
        (let kept = length-select-update p change (λ b. refl) rows in
            let some_row = length-select-any p rows e in omega arith),
        select_others-update p change (λ b. refl) rows,
        update-HasTerms org period limit threshold enforce rows,
      )
      | inr e ↦ rw e (
        length-select-concat p rows added e own,
        select_others-concat p rows added own,
        HasTerms-concat org period limit threshold enforce rows added e (λ f. (refl, refl, refl)),
      )
    ]

out_of_range :
    (limit threshold : ℕ)
    → (ltb 0 limit && ltb 0 threshold && leb threshold 100) ≡ false
    → (limit ≡ 0) ⊎ ((threshold ≡ 0) ⊎ (100 < threshold))
out_of_range limit threshold e = ground (arith, e)

-- What a change of a budget comes to: refused terms, or the rows after it.
pub SetOutcome : ℕ → BudgetPeriod → ℕ → ℕ → Bool → List Budget → Option (List Budget) → Type 0
SetOutcome org period limit threshold enforce rows none =
    (limit ≡ 0) ⊎ ((threshold ≡ 0) ⊎ (100 < threshold))
SetOutcome org period limit threshold enforce rows (some rows') =
    (length (select (is_row org period) rows') ≡ 1)
    × (select (λ b. not (is_row org period b)) rows' ≡ select (λ b. not (is_row org period b)) rows)
    × All (HasTerms org period limit threshold enforce) rows'

-- An accepted change leaves the organization one budget for the period, with the terms asked for,
-- and every other budget as it was, given that it had at most one; a change is refused only for a
-- limit of 0 or a threshold outside of 1 to 100 percent.
pub set_budget_lem :
    (id org : ℕ) (period : BudgetPeriod) (limit : ℕ) (soft : Option ℕ) (enforce : Option Bool)
    (rows : List Budget)
    → length (select (is_row org period) rows) ≤ 1
    → SetOutcome org period limit
        (or_default soft 80)
        (or_default enforce true)
        rows
        (set_budget id org period limit soft enforce rows)
unfolding set_budget SetOutcome
set_budget_lem id org period limit soft enforce rows one =
    elim (Bool-cases (ltb 0 limit && ltb 0 (or_default soft 80) && leb (or_default soft 80) 100)) [
      | inl e ↦ rw e (
          upsert_one_row id org period limit (or_default soft 80) (or_default enforce true) rows
            one)
      | inr e ↦ rw e (out_of_range limit (or_default soft 80) e)
    ]
