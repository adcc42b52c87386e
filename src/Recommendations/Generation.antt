-- ===== src/Recommendations/Generation.antt =====
-- An insight leads to one recommendation, however often the generation runs.
use capere_ai.Base.{
  ℕ, ◌≡◌, refl, ap, ◌∙◌, Bool, true, List, [], ◌∷◌, ◌++◌, arith, any, any-update, All, Bool-cases,
  inl, inr,
}
use capere_ai.Recommendations.{
  dismissed, Insight, Recommendation, Store, Source, draft, has_key, is_own, create, create_all,
  dismiss_rows, stale_rows, active_insights, generate_from_insights,
}

-- A recommendation of the organization has the key of the insight.
Keyed : ℕ → Store → Insight → Type 0
Keyed org st i = any (has_key org i) st.recommendations ≡ true

any_append :
    (q : Recommendation → Bool) (xs ys : List Recommendation)
    → any q xs ≡ true
    → any q (xs ++ ys) ≡ true
any_append q [] ys h = absurd cc
any_append q (x ∷ xs) ys h = ground (arith, h, any_append q xs ys)

any_last :
    (q : Recommendation → Bool) (xs : List Recommendation) (y : Recommendation)
    → q y ≡ true
    → any q (xs ++ y ∷ []) ≡ true
any_last q [] y h = rw h refl
any_last q (x ∷ xs) y h = ground (arith, any_last q xs y h)

module _ (src : Source) (now org : ℕ) where
  create-Keyed : (i : Insight) (st : Store) → Keyed org (create src now org i st).0 i
  unfolding Keyed create draft
  create-Keyed i st = elim (Bool-cases (any (has_key org i) st.recommendations)) [
    | inl e ↦ rw e e
    | inr e ↦ rw e (
        any_last (has_key org i) st.recommendations (draft (src.row_id i.id) now org i)
          (ground arith))
  ]

  create-keeps :
      (i j : Insight) (st : Store) → Keyed org st j → Keyed org (create src now org i st).0 j
  unfolding Keyed create
  create-keeps i j st h = elim (Bool-cases (any (has_key org i) st.recommendations)) [
    | inl e ↦ rw e h
    | inr e ↦ rw e (any_append (has_key org j) st.recommendations _ h)
  ]

  create_all-keeps :
      (is : List Insight) (j : Insight) (st : Store)
      → Keyed org st j
      → Keyed org (create_all src now org is st).0 j
  unfolding create_all
  create_all-keeps [] j st h = h
  create_all-keeps (i ∷ is) j st h =
      create_all-keeps is j (create src now org i st).0 (create-keeps i j st h)

  create_all-Keyed :
      (is : List Insight) (st : Store) → All (Keyed org (create_all src now org is st).0) is
  unfolding create_all
  create_all-Keyed [] st = tt
  create_all-Keyed (i ∷ is) st = (
    create_all-keeps is i (create src now org i st).0 (create-Keyed i st),
    create_all-Keyed is (create src now org i st).0,
  )

  create_again : (i : Insight) (st : Store) → Keyed org st i → create src now org i st ≡ (st, 0)
  unfolding Keyed create
  create_again i st h = rw h refl

  create_all_again :
      (is : List Insight) (st : Store)
      → All (Keyed org st) is
      → create_all src now org is st ≡ (st, 0)
  unfolding create_all
  create_all_again [] st h = refl
  create_all_again (i ∷ is) st (h, hs) = rw (create_again i st h, create_all_again is st hs) refl

  create_insights : (i : Insight) (st : Store) → (create src now org i st).0.insights ≡ st.insights
  unfolding create
  create_insights i st = elim (Bool-cases (any (has_key org i) st.recommendations)) [
    | inl e ↦ rw e refl
    | inr e ↦ rw e refl
  ]

  create_all_insights :
      (is : List Insight) (st : Store) → (create_all src now org is st).0.insights ≡ st.insights
  unfolding create_all
  create_all_insights [] st = refl
  create_all_insights (i ∷ is) st =
      create_all_insights is (create src now org i st).0 ∙ create_insights i st

  dismiss_rows_insights :
      (rs : List Recommendation) (st : Store)
      → (dismiss_rows src.snapshot now org rs st).insights ≡ st.insights
  unfolding dismiss_rows
  dismiss_rows_insights [] st = refl
  dismiss_rows_insights (r ∷ rs) st = dismiss_rows_insights rs _

  dismiss_rows-Keyed :
      (i : Insight) (rs : List Recommendation) (st : Store)
      → Keyed org st i
      → Keyed org (dismiss_rows src.snapshot now org rs st) i
  unfolding dismiss_rows Keyed
  dismiss_rows-Keyed i [] st h = h
  dismiss_rows-Keyed i (r ∷ rs) st h = dismiss_rows-Keyed i rs _ (
      any-update (has_key org i) (is_own org r.id)
        (λ x. record x { status = dismissed; updated_at = now }) (λ x. refl) st.recommendations
      ∙ h)

  dismiss_rows_all-Keyed :
      (is : List Insight) (rs : List Recommendation) (st : Store)
      → All (Keyed org st) is
      → All (Keyed org (dismiss_rows src.snapshot now org rs st)) is
  dismiss_rows_all-Keyed [] rs st h = tt
  dismiss_rows_all-Keyed (i ∷ is) rs st (h, hs) =
      (dismiss_rows-Keyed i rs st h, dismiss_rows_all-Keyed is rs st hs)

  same_insights :
      (a b : Store)
      → a.insights ≡ b.insights
      → active_insights now org a ≡ active_insights now org b
  unfolding active_insights
  same_insights a b h = rw h refl

-- A second generation at that time creates nothing.
pub generate_again :
    (src src' : Source) (now org : ℕ) (st : Store)
    → (generate_from_insights src' now org (generate_from_insights src now org st).0).1 ≡ 0
unfolding generate_from_insights
generate_again src src' now org st =
    let first = dismiss_rows src.snapshot now org (stale_rows now org st) st in
    let is = active_insights now org first in
    let made = (create_all src now org is first).0 in
    let stale = stale_rows now org made in
    let second = dismiss_rows src'.snapshot now org stale made in
    let keyed =
      dismiss_rows_all-Keyed src' now org is stale made (create_all-Keyed src now org is first) in
    let same : active_insights now org second ≡ is =
      same_insights src now org second first (
        dismiss_rows_insights src' now org stale made ∙ create_all_insights src now org is first) in
    ap (λ js. (create_all src' now org js second).1) same
    ∙ ap (λ p. p.1) (create_all_again src' now org is second keyed)
