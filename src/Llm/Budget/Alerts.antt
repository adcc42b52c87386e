-- ===== src/Llm/Budget/Alerts.antt =====
-- `evaluateAfterUsage`: alerts and their events.
use capere_ai.Base.{
  ℕ, suc, ◌+◌, ◌≡◌, refl, sym, ap, ap₂, ◌∙◌, Bool, true, false, ◌&&◌, Option, none, some, map, List,
  [], ◌∷◌, ◌++◌, arith, ◌==◌, Bool-cases, inl, inr, find, any, All, length, length-append, String,
}
use capere_ai.Outbox.{EventRow}
use capere_ai.Outbox.Batch.{length-publish_in_transaction}
use capere_ai.Llm.Budget.{
  AlertKind, Budget, BudgetAlert, BudgetStatus, Store, ThresholdPayload, status_of, statuses,
  budgets_of, is_row, same_kind, same_alert, record_alert, kind_of, alert_of, raise_alert, alert_if,
  evaluate_one, evaluate_all, evaluate_after_usage,
}

-- No two alerts have budget, kind and start of the period in common.
unfoldable pub UniqueAlerts : List BudgetAlert → Type 0
UniqueAlerts [] = Unit
UniqueAlerts (a ∷ xs) = All (λ b. same_alert b a ≡ false) xs × UniqueAlerts xs

UniqueAlerts-concat :
    (xs : List BudgetAlert) (b : BudgetAlert)
    → any (same_alert b) xs ≡ false
    → UniqueAlerts xs
    → UniqueAlerts (xs ++ b ∷ [])
unfolding UniqueAlerts
UniqueAlerts-concat [] b h u = (tt, tt)
UniqueAlerts-concat (a ∷ xs) b h (fresh, u) = elim (Bool-cases (same_alert b a)) [
  | inl e ↦ absurd (ground (arith, h, e))
  | inr e ↦ (All-concat xs fresh e, UniqueAlerts-concat xs b (ground (arith, h, e)) u)
]
  where
    All-concat :
        (cs : List BudgetAlert)
        → All (λ c. same_alert c a ≡ false) cs
        → same_alert b a ≡ false
        → All (λ c. same_alert c a ≡ false) (cs ++ b ∷ [])
    All-concat [] t e = (e, tt)
    All-concat (c ∷ cs) (t, ts) e = (t, All-concat cs ts e)

module _ (json : ThresholdPayload → String) (new_id : ℕ → ℕ) (now org : ℕ) where
  -- What a step of the loop may do: nothing, or add one new alert and one event.
  data Effect (s : Store) : Store → Type 0 where
    unchanged : Effect s s
    alerted :
        (a : BudgetAlert) (events : List EventRow)
        → any (same_alert a) s.alerts ≡ false
        → length events ≡ suc (length s.events)
        → Effect s (record s { alerts = s.alerts ++ a ∷ []; events = events })

  raise_alert-Effect :
      (b : Budget) (kind : AlertKind) (t : BudgetStatus) (s : Store)
      → Effect s (raise_alert json new_id now org b kind t s)
  unfolding raise_alert record_alert
  raise_alert-Effect b kind t s =
      elim (Bool-cases (any (same_alert (alert_of org b kind t)) s.alerts)) [
        | inl e ↦ rw e unchanged
        | inr e ↦
            rw e
              (alerted (alert_of org b kind t) _ e (length-publish_in_transaction _ _ _ s.events))
      ]

  evaluate_one-Effect :
      (t : BudgetStatus) (s : Store) → Effect s (evaluate_one json new_id now org t s)
  unfolding evaluate_one
  evaluate_one-Effect t s = go (kind_of t) (find (is_row org t.period) s.budgets)
    where
      go :
          (k : Option AlertKind) (o : Option Budget)
          → Effect s (alert_if json new_id now org k o t s)
      go none o = unchanged
      go (some kind) none = unchanged
      go (some kind) (some b) = raise_alert-Effect b kind t s

  -- What one step and several keep.
  record Kept (s t : Store) : Type 0 where
    budgets : t.budgets ≡ s.budgets
    usage : t.usage ≡ s.usage
    unique : UniqueAlerts s.alerts → UniqueAlerts t.alerts
    balance : length t.events + length s.alerts ≡ length s.events + length t.alerts
    grows : (q : BudgetAlert → Bool) → any q s.alerts ≡ true → any q t.alerts ≡ true

  any-concat :
      (q : BudgetAlert → Bool) (xs : List BudgetAlert) (a : BudgetAlert)
      → any q xs ≡ true
      → any q (xs ++ a ∷ []) ≡ true
  any-concat q [] a h = absurd cc
  any-concat q (x ∷ xs) a h = ground (arith, h, any-concat q xs a)

  Effect-Kept : (s t : Store) → Effect s t → Kept s t
  Effect-Kept s _ unchanged = record {
    budgets = refl;
    usage = refl;
    unique = λ u. u;
    balance = refl;
    grows = λ q h. h;
  }
  Effect-Kept s _ (alerted a events fresh more) = record {
    budgets = refl;
    usage = refl;
    unique = λ u. UniqueAlerts-concat s.alerts a fresh u;
    balance = omega (arith, length-append s.alerts (a ∷ []));
    grows = λ q h. any-concat q s.alerts a h;
  }

  evaluate_one-Kept : (t : BudgetStatus) (s : Store) → Kept s (evaluate_one json new_id now org t s)
  evaluate_one-Kept t s = Effect-Kept s _ (evaluate_one-Effect t s)

  evaluate_all-Kept :
      (ts : List BudgetStatus) (s : Store) → Kept s (evaluate_all json new_id now org ts s)
  unfolding evaluate_all
  evaluate_all-Kept [] s = Effect-Kept s s unchanged
  evaluate_all-Kept (t ∷ ts) s =
      let k = evaluate_one-Kept t s in
      let ks = evaluate_all-Kept ts (evaluate_one json new_id now org t s) in
      record {
        budgets = ks.budgets ∙ k.budgets;
        usage = ks.usage ∙ k.usage;
        unique = λ h. ks.unique (k.unique h);
        balance = omega (arith, k.balance, ks.balance);
        grows = λ q h. ks.grows q (k.grows q h);
      }

  -- If no two alerts of one kind are there for a budget and a period before an evaluation, there are
  -- none after it; it adds as many events as alerts, and changes neither budgets nor ledger.
  pub evaluate_after_usage_one_alert :
      (s : Store)
      → UniqueAlerts s.alerts
      → let s' = evaluate_after_usage json new_id now org s in
        UniqueAlerts s'.alerts
        × (length s'.events + length s.alerts ≡ length s.events + length s'.alerts)
        × (s'.budgets ≡ s.budgets)
        × (s'.usage ≡ s.usage)
  unfolding evaluate_after_usage
  evaluate_after_usage_one_alert s u =
      let k = evaluate_all-Kept (statuses now org s) s in
      (k.unique u, k.balance, k.budgets, k.usage)

  -- A status needs no alert, or has it.
  pub Settled : BudgetStatus → Store → Type 0
  Settled t s =
      (kind : AlertKind)
      → kind_of t ≡ some kind
      → (b : Budget) → find (is_row org t.period) s.budgets ≡ some b
      → any (same_alert (alert_of org b kind t)) s.alerts ≡ true

  same_alert_refl : (a : BudgetAlert) → same_alert a a ≡ true
  same_alert_refl a = go a.kind
    where
      go :
          (k : AlertKind)
          → (a.budget_id == a.budget_id && same_kind k k && a.period_start == a.period_start) ≡ true
      go AlertKind.soft_threshold = ground arith
      go AlertKind.hard_limit = ground arith

  any-last : (xs : List BudgetAlert) (a : BudgetAlert) → any (same_alert a) (xs ++ a ∷ []) ≡ true
  any-last [] a = ground (arith, same_alert_refl a)
  any-last (x ∷ xs) a = ground (arith, any-last xs a)

  raise_alert-there :
      (b : Budget) (kind : AlertKind) (t : BudgetStatus) (s : Store)
      → any (same_alert (alert_of org b kind t)) (raise_alert json new_id now org b kind t s).alerts
        ≡ true
  unfolding raise_alert record_alert
  raise_alert-there b kind t s =
      elim (Bool-cases (any (same_alert (alert_of org b kind t)) s.alerts)) [
        | inl e ↦ rw e e
        | inr e ↦ rw e (any-last s.alerts (alert_of org b kind t))
      ]

  evaluate_one-raise_alert :
      (t : BudgetStatus) (s : Store) (kind : AlertKind) (b : Budget)
      → kind_of t ≡ some kind
      → find (is_row org t.period) s.budgets ≡ some b
      → evaluate_one json new_id now org t s ≡ raise_alert json new_id now org b kind t s
  unfolding evaluate_one
  evaluate_one-raise_alert t s kind b k f = ap₂ (λ x y. alert_if json new_id now org x y t s) k f

  evaluate_one-Settled :
      (t : BudgetStatus) (s : Store) → Settled t (evaluate_one json new_id now org t s)
  unfolding Settled
  evaluate_one-Settled t s kind k b f =
      let found = ap (find (is_row org t.period)) (sym (evaluate_one-Kept t s).budgets) ∙ f in
      ap (λ u. any (same_alert (alert_of org b kind t)) u.alerts)
        (evaluate_one-raise_alert t s kind b k found)
      ∙ raise_alert-there b kind t s

  Settled-Kept : (t : BudgetStatus) (s u : Store) → Kept s u → Settled t s → Settled t u
  unfolding Settled
  Settled-Kept t s u kept h kind k b f =
      kept.grows (same_alert (alert_of org b kind t))
        (h kind k b (ap (find (is_row org t.period)) (sym kept.budgets) ∙ f))

  evaluate_all-Settled :
      (ts : List BudgetStatus) (s : Store)
      → All (λ t. Settled t (evaluate_all json new_id now org ts s)) ts
  unfolding evaluate_all
  evaluate_all-Settled [] s = tt
  evaluate_all-Settled (t ∷ ts) s = (
    Settled-Kept t (evaluate_one json new_id now org t s) _ (evaluate_all-Kept ts _)
        (evaluate_one-Settled t s),
    evaluate_all-Settled ts _,
  )

  raise_alert_again :
      (b : Budget) (kind : AlertKind) (t : BudgetStatus) (s : Store)
      → any (same_alert (alert_of org b kind t)) s.alerts ≡ true
      → raise_alert json new_id now org b kind t s ≡ s
  unfolding raise_alert record_alert
  raise_alert_again b kind t s h = rw h refl

  evaluate_one_again :
      (t : BudgetStatus) (s : Store) → Settled t s → evaluate_one json new_id now org t s ≡ s
  unfolding evaluate_one Settled
  evaluate_one_again t s h = go (kind_of t) (find (is_row org t.period) s.budgets) h
    where
      go :
          (k : Option AlertKind) (o : Option Budget)
          → ((kind : AlertKind)
              → k ≡ some kind
              → (b : Budget) → o ≡ some b
              → any (same_alert (alert_of org b kind t)) s.alerts ≡ true)
          → alert_if json new_id now org k o t s ≡ s
      go none o g = refl
      go (some kind) none g = refl
      go (some kind) (some b) g = raise_alert_again b kind t s (g kind refl b refl)

  evaluate_all_again :
      (ts : List BudgetStatus) (s : Store)
      → All (λ t. Settled t s) ts
      → evaluate_all json new_id now org ts s ≡ s
  unfolding evaluate_all
  evaluate_all_again [] s h = refl
  evaluate_all_again (t ∷ ts) s (h, hs) =
      ap (evaluate_all json new_id now org ts) (evaluate_one_again t s h)
      ∙ evaluate_all_again ts s hs

  statuses-Kept : (s u : Store) → Kept s u → statuses now org u ≡ statuses now org s
  unfolding statuses
  statuses-Kept s u k =
      ap₂ (λ usage bs. map (status_of now org usage) (budgets_of org bs)) k.usage k.budgets

  -- After an evaluation every budget of the organization over one of its thresholds has its alert,
  -- and a second evaluation at that time changes nothing.
  pub evaluate_after_usage_settles :
      (s : Store)
      → let s' = evaluate_after_usage json new_id now org s in
        All (λ t. Settled t s') (statuses now org s)
        × (evaluate_after_usage json new_id now org s' ≡ s')
  unfolding evaluate_after_usage
  evaluate_after_usage_settles s =
      let ts = statuses now org s in
      let s' = evaluate_all json new_id now org ts s in
      let settled = evaluate_all-Settled ts s in
      (
        settled,
        ap (λ us. evaluate_all json new_id now org us s')
              (statuses-Kept s s' (evaluate_all-Kept ts s))
            ∙ evaluate_all_again ts s' settled,
      )
