-- ===== src/Insights/Growth.antt =====
-- The rows and events that a run adds.
use capere_ai.Base.{
  ℕ, ◌+◌, ◌≡◌, refl, sym, ap, ap₂, subst, ◌∙◌, ◌==◌, str_eq, Bool, true, false, Option, none, some,
  List, [], ◌∷◌, ◌++◌, String, arith, map, map-append, map-update, find, length, length-append, All,
  All-append, Bool-cases, inl, inr,
}
use mathlib.Core.List.{append-nil, append_assoc}
use capere_ai.Outbox.{EventRow, DomainEvent}
use capere_ai.Outbox.{Table as EventTable}
use capere_ai.Outbox.Batch.{published}
use capere_ai.Insights.{
  InsightRow, InsightDraft, InsightGenerator, Store, Source, has_key, refresh, new_row, generated,
  write, persist, persist_all, dismiss_resolved_integration_insights, is_resolved, dismissed_at,
  drafts_of, event_id_of, resolve, count, run_batches, run,
}

abbrev pub ids : Store → List ℕ
ids st = map (λ r. r.id) st.insights

abbrev pub IsGenerated : ℕ → EventRow → Type 0
IsGenerated org e = (e.event_type ≡ "insight.generated") × (e.organization_id ≡ org)

-- The insights are the former ones and new ones, as many as counted; the events are the former ones
-- and one for each new insight, in their order.
unfoldable pub Grows : ℕ → Store → Store × ℕ → Type 0
Grows org before (after, n) =
    (new : List ℕ) × (events : EventTable) × (ids after ≡ ids before ++ new)
    × (after.events ≡ before.events ++ events)
    × (map (λ e. e.aggregate_id) events ≡ map some new)
    × All (IsGenerated org) events
    × (length new ≡ n)

module _ (org : ℕ) where
  same-Grows :
      (before after : Store)
      → ids after ≡ ids before
      → after.events ≡ before.events
      → Grows org before (after, 0)
  unfolding Grows
  same-Grows before after i e = (
    [],
    [],
    i ∙ sym (append-nil (ids before)),
    e ∙ sym (append-nil before.events),
    refl,
    tt,
    refl,
  )

  Grows-trans :
      (a b c : Store) (m n : ℕ) → Grows org a (b, m) → Grows org b (c, n) → Grows org a (c, m + n)
  unfolding Grows
  Grows-trans a b c m n (new, events, i, e, same, all, l) (new', events', i', e', same', all', l') =
      (
        new ++ new',
        events ++ events',
        i' ∙ ap (λ z. z ++ new') i ∙ append_assoc (ids a) new new',
        e' ∙ ap (λ z. z ++ events') e ∙ append_assoc a.events events events',
        map-append (λ e. e.aggregate_id) events events'
            ∙ ap₂ (λ x y. x ++ y) same same'
            ∙ sym (map-append some new new'),
        All-append (IsGenerated org) events events' all all',
        length-append new new' ∙ ap₂ (λ x y. x + y) l l',
      )

  resolve-Grows :
      (now : ℕ) (g : InsightGenerator) (ds : List InsightDraft) (st : Store)
      → Grows org st (resolve now org g ds st, 0)
  unfolding dismiss_resolved_integration_insights
  resolve-Grows now g ds st = elim (Bool-cases (str_eq g.name "integration_health")) [
    | inl y ↦ rw y (
        same-Grows st _
          (map-update (λ r. r.id) (is_resolved org ds) (dismissed_at now) (λ r. refl) st.insights)
          refl)
    | inr n ↦ rw n (same-Grows st st refl refl)
  ]

  module _ (src : Source) (now : ℕ) (name : String) (event : Option ℕ) where
    write-Grows :
        (d : InsightDraft) (st : Store) (o : Option InsightRow)
        → let r = write src now org name d event st o in Grows org st (r.0, count r.1)
    unfolding Grows refresh new_row generated
    write-Grows d st (some r) =
        same-Grows st _
          (map-update (λ x. x.id) (λ x. x.id == r.id) (refresh now d) (λ x. refl) st.insights) refl
    write-Grows d st none =
        let id = src.row_id st.insights in
        let p =
          published (src.event_id st.events) now (generated src (new_row id now org name event d))
            st.events in
        (
          id ∷ [],
          p.0 ∷ [],
          map-append (λ r. r.id) st.insights (new_row id now org name event d ∷ []),
          p.1,
          ap (λ x. x ∷ []) p.4,
          ((p.2, p.3), tt),
          refl,
        )

    persist_all-Grows :
        (ds : List InsightDraft) (st : Store)
        → Grows org st (persist_all src now org name event ds st)
    unfolding persist_all persist
    persist_all-Grows [] st = same-Grows st st refl refl
    persist_all-Grows (d ∷ ds) st =
        let one = persist src now org name d event st in
        let rest = persist_all src now org name event ds one.0 in
        Grows-trans st one.0 rest.0 (count one.1) rest.1
          (write-Grows d st (find (has_key org d.dedupe_key) st.insights))
          (persist_all-Grows ds one.0)

  run_batches-Grows :
      (src : Source) (now : ℕ) (event : Option DomainEvent) (gs : List InsightGenerator)
      (st : Store)
      → Grows org st (run_batches src now org event gs st)
  unfolding run_batches
  run_batches-Grows src now event [] st = same-Grows st st refl refl
  run_batches-Grows src now event (g ∷ gs) st =
      let ds = drafts_of org event g in
      let before = resolve now org g ds st in
      let one = persist_all src now org g.name (event_id_of event) ds before in
      let rest = run_batches src now org event gs one.0 in
      let persisted =
        Grows-trans st before one.0 0 one.1 (resolve-Grows now g ds st)
          (persist_all-Grows src now g.name (event_id_of event) ds before) in
      let zero_first : 0 + one.1 ≡ one.1 = omega arith in
      Grows-trans st one.0 rest.0 one.1 rest.1
        (subst (λ n. Grows org st (one.0, n)) zero_first persisted)
        (run_batches-Grows src now event gs one.0)

-- Where the engine is disabled, nothing changes and nothing is counted.
unfoldable pub GrowsIf : Bool → ℕ → Store → Store × ℕ → Type 0
unfolding Grows
GrowsIf true org before after = Grows org before after
GrowsIf false org before after = after ≡ (before, 0)

-- A run keeps the insights and events that were there and adds as many insights as it returns, with
-- one event of its organization for each, which names it; where the engine is disabled, it returns 0
-- and leaves everything as it was.
pub run-Grows :
    (src : Source) (now : ℕ) (enabled : Bool) (org : ℕ) (gs : List InsightGenerator)
    (event : Option DomainEvent) (st : Store)
    → GrowsIf enabled org st (run src now enabled org gs event st)
unfolding run GrowsIf
run-Grows src now false org gs event st = refl
run-Grows src now true org gs event st = run_batches-Grows org src now event gs st
