-- ===== src/Recommendations/Transitions.antt =====
-- What a transition changes, and what the dismissal of stale recommendations overwrites.
use capere_ai.Base.{
  ℕ, ◌≡◌, refl, Bool, true, false, not, Option, none, some, List, [], ◌∷◌, ◌++◌, String, arith,
  find, select, update, All, All-update, Bool-cases, inl, inr,
}
use capere_ai.Recommendations.{
  RecommendationStatus, dismissed, Recommendation, Store, Outcome, changed, not_found, invalid,
  may_become, is_own, move_to, change, transition, dismiss_rows,
}

-- Every row of the organization with this id has this status.
unfoldable pub HasStatus : ℕ → ℕ → RecommendationStatus → Recommendation → Type 0
HasStatus org id s r = is_own org id r ≡ true → r.status ≡ s

-- What may come of a transition.
pub TransitionOutcome :
    (String → String)
    → ℕ
    → ℕ
    → RecommendationStatus
    → Option ℕ
    → Option String
    → Store
    → Outcome
    → Type 0
TransitionOutcome snapshot org id s by reason st (changed st') =
    (r : Recommendation) × (find (is_own org id) st.recommendations ≡ some r)
    × (may_become r.status s ≡ true)
    × All (HasStatus org id s) st'.recommendations
    × (select (λ x. not (is_own org id x)) st'.recommendations
        ≡ select (λ x. not (is_own org id x)) st.recommendations)
    × (st'.history
        ≡ st.history
          ++ record {
            organization_id = org;
            recommendation_id = id;
            from_status = some r.status;
            to_status = s;
            reason = reason;
            changed_by = by;
            snapshot = snapshot r.title;
          }
            ∷ [])
TransitionOutcome snapshot org id s by reason st not_found =
    find (is_own org id) st.recommendations ≡ none
TransitionOutcome snapshot org id s by reason st (invalid from to) =
    (r : Recommendation) × (find (is_own org id) st.recommendations ≡ some r)
    × (from ≡ r.status)
    × (to ≡ s)
    × (may_become r.status s ≡ false)

move_to-keeps :
    (s : RecommendationStatus) (by : Option ℕ) (now : ℕ) (r : Recommendation)
    → ((move_to s by now r).status ≡ s)
      × ((move_to s by now r).id ≡ r.id)
      × ((move_to s by now r).organization_id ≡ r.organization_id)
unfolding move_to
move_to-keeps s by now r = go s
  where
    go :
        (t : RecommendationStatus)
        → ((move_to t by now r).status ≡ t)
          × ((move_to t by now r).id ≡ r.id)
          × ((move_to t by now r).organization_id ≡ r.organization_id)
    go RecommendationStatus.proposed = (refl, refl, refl)
    go RecommendationStatus.approved = (refl, refl, refl)
    go RecommendationStatus.in_progress = (refl, refl, refl)
    go RecommendationStatus.completed = (refl, refl, refl)
    go RecommendationStatus.dismissed = (refl, refl, refl)
    go RecommendationStatus.expired = (refl, refl, refl)

others_kept :
    (p : Recommendation → Bool) (f : Recommendation → Recommendation)
    → ((x : Recommendation) → p (f x) ≡ p x)
    → (xs : List Recommendation)
    → select (λ x. not (p x)) (update p f xs) ≡ select (λ x. not (p x)) xs
others_kept p f same [] = refl
others_kept p f same (x ∷ xs) = ground (arith, same x, others_kept p f same xs)

own_moved :
    (org id : ℕ) (s : RecommendationStatus) (by : Option ℕ) (now : ℕ) (xs : List Recommendation)
    → All (HasStatus org id s) (update (is_own org id) (move_to s by now) xs)
unfolding HasStatus
own_moved org id s by now [] = tt
own_moved org id s by now (x ∷ xs) = elim (Bool-cases (is_own org id x)) [
  | inl e ↦ rw e ((λ own. (move_to-keeps s by now x).0), own_moved org id s by now xs)
  | inr e ↦ rw e ((λ own. absurd cc), own_moved org id s by now xs)
]

-- A transition that is carried out was from the status of the found row to one that the table
-- allows: the rows with that id get the new status, the others stay, and the history has one more
-- row, with both statuses. Otherwise there is no such row, or the table does not allow it.
pub transition_lem :
    (snapshot : String → String) (org id : ℕ) (s : RecommendationStatus) (by : Option ℕ)
    (reason : Option String) (now : ℕ) (st : Store)
    → TransitionOutcome snapshot org id s by reason st
        (transition snapshot org id s by reason now st)
unfolding transition TransitionOutcome
transition_lem snapshot org id s by reason now st =
    go (find (is_own org id) st.recommendations) refl
  where
    kept : (x : Recommendation) → is_own org id (move_to s by now x) ≡ is_own org id x
    kept x = let k = move_to-keeps s by now x in rw (k.1, k.2) refl

    go :
        (o : Option Recommendation)
        → find (is_own org id) st.recommendations ≡ o
        → TransitionOutcome snapshot org id s by reason st
            (change snapshot org id s by reason now st o)
    go none e = e
    go (some r) e = elim (Bool-cases (may_become r.status s)) [
      | inl t ↦ rw t (
        r,
        e,
        t,
        own_moved org id s by now st.recommendations,
        others_kept (is_own org id) (move_to s by now) kept st.recommendations,
        refl,
      )
      | inr t ↦ rw t (r, e, refl, refl, t)
    ]

module _ (snapshot : String → String) (now org : ℕ) where
  dismiss_rows-keeps :
      (id : ℕ) (rs : List Recommendation) (st : Store)
      → All (HasStatus org id dismissed) st.recommendations
      → All (HasStatus org id dismissed) (dismiss_rows snapshot now org rs st).recommendations
  unfolding dismiss_rows HasStatus
  dismiss_rows-keeps id [] st h = h
  dismiss_rows-keeps id (r ∷ rs) st h = dismiss_rows-keeps id rs _ (
      All-update (HasStatus org id dismissed) (HasStatus org id dismissed) (is_own org r.id)
        (λ x. record x { status = dismissed; updated_at = now }) (λ x q t own. refl) (λ x q t. q)
        st.recommendations h)

  own_dismissed :
      (id : ℕ) (xs : List Recommendation)
      → All
          (HasStatus org id dismissed)
          (update (is_own org id) (λ x. record x { status = dismissed; updated_at = now }) xs)
  unfolding HasStatus
  own_dismissed id [] = tt
  own_dismissed id (x ∷ xs) = elim (Bool-cases (is_own org id x)) [
    | inl e ↦ rw e ((λ own. refl), own_dismissed id xs)
    | inr e ↦ rw e ((λ own. absurd cc), own_dismissed id xs)
  ]

  -- Whatever has become of the selected rows by the time of the second transaction, all of them are
  -- dismissed, also one that is completed by then.
  pub dismiss_rows_overwrites :
      (rs : List Recommendation) (st : Store)
      → All
          (λ r.
            All
              (HasStatus org r.id dismissed)
              (dismiss_rows snapshot now org rs st).recommendations)
          rs
  unfolding dismiss_rows
  dismiss_rows_overwrites [] st = tt
  dismiss_rows_overwrites (r ∷ rs) st = (
    dismiss_rows-keeps r.id rs _ (own_dismissed r.id st.recommendations),
    dismiss_rows_overwrites rs _,
  )
