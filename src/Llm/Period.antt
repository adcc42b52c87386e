-- ===== src/Llm/Period.antt =====
-- `startOfPeriod` of backend/src/llm/budgets/budget.service.ts. A date is the number of
-- milliseconds since 1970 in UTC; the calendar is that of JavaScript's `Date`. Weeks that began
-- before 1970 are left out.
use capere_ai.Base.{
  ℕ, zero, suc, ◌+◌, ◌-◌, ◌*◌, ◌/◌, ◌%◌, ◌≤◌, ◌<◌, ◌≡◌, refl, Bool, ◌&&◌, ◌||◌, not, lt_cases, inl,
  inr, ap, sym, subst, ◌∙◌, arith, ltb, ◌==◌, if◌then◌else◌,
}

pub data BudgetPeriod : Type 0 where
  daily weekly monthly : BudgetPeriod

abbrev day_ms : ℕ
day_ms = 86400000

-- Day 0 was a Thursday; Sunday is 0.
abbrev pub day_of_week : ℕ → ℕ
day_of_week day = (day + 4) % 7

abbrev is_leap : ℕ → Bool
is_leap year = year % 4 == 0 && (not (year % 100 == 0) || year % 400 == 0)

-- The days of a month, January being 0.
unfoldable pub days_in_month : ℕ → ℕ → ℕ
days_in_month year month =
    if month == 1
    then (if is_leap year then 29 else 28)
    else if month == 3 || month == 5 || month == 8 || month == 10
    then 30
    else 31

-- The days of the n-th month from January 1970 on.
unfoldable pub month_length : ℕ → ℕ
unfolding days_in_month
month_length n = days_in_month (1970 + n / 12) (n % 12)

-- How far the day, counted from the start of the n-th month, lies into its own month: one less than
-- `getUTCDate()`. The fuel is the number of months that may be passed.
unfoldable pub day_into_month : ℕ → ℕ → ℕ → ℕ
unfolding month_length
day_into_month zero n day = day
day_into_month (suc fuel) n day =
    let rest = day_into_month fuel (suc n) (day - month_length n) in
    if ltb day (month_length n) then day else rest

unfoldable pub start_day : BudgetPeriod → ℕ → ℕ
unfolding day_into_month
start_day daily day = day
start_day weekly day = day - (day_of_week day + 6) % 7
start_day monthly day = day - day_into_month (suc day) 0 day

unfoldable pub start_of_period : BudgetPeriod → ℕ → ℕ
unfolding start_day
start_of_period period now = start_day period (now / day_ms) * day_ms

month_length-le : (n : ℕ) → (28 ≤ month_length n) × (month_length n ≤ 31)
unfolding month_length
month_length-le n = ground arith

-- The fuel suffices: the loop ends within a month.
day_into_month-le : (fuel n day : ℕ) → day < fuel → day_into_month fuel n day ≤ day
unfolding day_into_month
day_into_month-le zero n day h = absurd (omega arith)
day_into_month-le (suc fuel) n day h =
    ground (arith, month_length-le n, day_into_month-le fuel (suc n) (day - month_length n))

day_into_month-lt : (fuel n day : ℕ) → day < fuel → day_into_month fuel n day < 31
unfolding day_into_month
day_into_month-lt zero n day h = absurd (omega arith)
day_into_month-lt (suc fuel) n day h =
    ground (arith, month_length-le n, day_into_month-lt fuel (suc n) (day - month_length n))

into_month_zero : (fuel n : ℕ) → day_into_month fuel n 0 ≡ 0
unfolding day_into_month
into_month_zero zero n = refl
into_month_zero (suc fuel) n = ground (arith, month_length-le n)

into_month_here : (fuel n day : ℕ) → day < month_length n → day_into_month (suc fuel) n day ≡ day
unfolding day_into_month
into_month_here fuel n day h = ground arith

into_month_past :
    (fuel n day : ℕ)
    → month_length n ≤ day
    → day_into_month (suc fuel) n day ≡ day_into_month fuel (suc n) (day - month_length n)
unfolding day_into_month
into_month_past fuel n day h = ground arith

-- Earlier days of the same month.
into_month_earlier :
    (fuel n day back : ℕ)
    → day < fuel
    → back ≤ day_into_month fuel n day
    → (other : ℕ) → day - back < other
    → day_into_month other n (day - back) ≡ day_into_month fuel n day - back
into_month_earlier zero n day back h le other k = absurd (omega arith)
into_month_earlier (suc fuel) n day back h le zero k = absurd (omega arith)
into_month_earlier (suc fuel) n day back h le (suc other) k = elim (lt_cases day (month_length n)) [
  | inr long ↦
      let long_le = month_length-le n in
      let past = into_month_past fuel n day long in
      let le' : back ≤ day_into_month fuel (suc n) (day - month_length n) =
        subst (λ d. back ≤ d) past le in
      let bound = day_into_month-le fuel (suc n) (day - month_length n) (omega arith) in
      let moved : day - back - month_length n ≡ day - month_length n - back = omega arith in
      into_month_past other n (day - back) (omega arith)
      ∙ ap (day_into_month other (suc n)) moved
      ∙ into_month_earlier fuel (suc n) (day - month_length n) back (omega arith) le' other
          (omega arith)
      ∙ ap (λ d. d - back) (sym past)
  | inl short ↦
      into_month_here other n (day - back) (omega arith)
      ∙ ap (λ d. d - back) (sym (into_month_here fuel n day short))
]

start_day-le : (period : BudgetPeriod) (day : ℕ) → start_day period day ≤ day
unfolding start_day
start_day-le daily day = omega arith
start_day-le weekly day = omega arith
start_day-le monthly day = omega arith

start_day_constant :
    (period : BudgetPeriod) (day back : ℕ)
    → back ≤ day - start_day period day
    → start_day period (day - back) ≡ start_day period day
unfolding start_day
start_day_constant daily day back h = omega arith
start_day_constant weekly day back h = omega arith
start_day_constant monthly day back h =
    let bound = day_into_month-le (suc day) 0 day (omega arith) in
    let earlier =
      into_month_earlier (suc day) 0 day back (omega arith) (omega arith) (suc (day - back))
        (omega arith) in
    omega arith

-- A period starts at or before the time it is asked for, and every time from that start on, up to
-- the time asked for, has the same start: the dates fall into periods without gap or overlap.
pub start_of_period_constant :
    (period : BudgetPeriod) (now : ℕ)
    → (start_of_period period now ≤ now)
      × ((time : ℕ)
          → start_of_period period now ≤ time
          → time ≤ now
          → start_of_period period time ≡ start_of_period period now)
unfolding start_of_period
start_of_period_constant period now =
    let le = start_day-le period (now / 86400000) in
    (
      omega arith,
      λ time from until.
          let day = now / 86400000 in
          let back = day - time / 86400000 in
          let here : day - back ≡ time / 86400000 = omega arith in
          ap (λ d. d * 86400000)
            (subst (λ d. start_day period d ≡ start_day period day) here
              (start_day_constant period day back (omega arith))),
    )

-- From January 5th, 1970 on, a weekly period starts on a Monday less than 7 days before, and a
-- monthly one on the first day of a month less than 31 days before.
pub start_day_kind :
    (day : ℕ)
    → 4 ≤ day
    → (day_of_week (start_day weekly day) ≡ 1)
      × (day_into_month (suc (start_day monthly day)) 0 (start_day monthly day) ≡ 0)
      × (day < start_day weekly day + 7)
      × (day < start_day monthly day + 31)
unfolding start_day
start_day_kind day h =
    let bound = day_into_month-le (suc day) 0 day (omega arith) in
    let short = day_into_month-lt (suc day) 0 day (omega arith) in
    let back = day_into_month (suc day) 0 day in
    let first =
      into_month_earlier (suc day) 0 day back (omega arith) (omega arith) (suc (day - back))
        (omega arith) in
    (omega arith, first ∙ omega arith, omega arith, omega arith)
