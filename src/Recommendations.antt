-- ===== src/Recommendations.antt =====
-- backend/src/recommendations/recommendation.service.ts: recommendations made from insights, their
-- statuses and their history. JSON is text; a key `insight:<id>` is the id of its insight.
mod Tables
pub mod Transitions
pub mod Generation
mod Tests
pub use Tables.*
use capere_ai.Base.{
  ℕ, ◌+◌, Bool, true, false, not, ◌&&◌, ◌||◌, ◌==◌, Option, none, some, is_none, some_and, List, [],
  ◌∷◌, ◌++◌, String, str_eq, ltb, leb, min, take, find, any, select, update, order_by_desc,
  if◌then◌else◌, map,
}
use capere_ai.Outbox.{EventToPublish, publish_in_transaction}
use capere_ai.Outbox.{Table as EventTable}

-- `transitions`
unfoldable pub next_statuses : RecommendationStatus → List RecommendationStatus
next_statuses proposed = approved ∷ dismissed ∷ expired ∷ []
next_statuses approved = in_progress ∷ dismissed ∷ expired ∷ []
next_statuses in_progress = completed ∷ dismissed ∷ []
next_statuses completed = []
next_statuses dismissed = []
next_statuses expired = []

abbrev code : RecommendationStatus → ℕ
code proposed = 0
code approved = 1
code in_progress = 2
code completed = 3
code dismissed = 4
code expired = 5

abbrev pub same_status : RecommendationStatus → RecommendationStatus → Bool
same_status s t = code s == code t

unfoldable pub may_become : RecommendationStatus → RecommendationStatus → Bool
unfolding next_statuses
may_become s t = any (same_status t) (next_statuses s)

abbrev pub is_own : ℕ → ℕ → Recommendation → Bool
is_own org id r = r.organization_id == org && r.id == id

abbrev when_approved : RecommendationStatus → Option ℕ → ℕ → Recommendation → Recommendation
when_approved approved by now r = record r { approved_by = by; approved_at = some now }
when_approved s by now r = r

abbrev when_completed : RecommendationStatus → ℕ → Recommendation → Recommendation
when_completed completed now r = record r { completed_at = some now }
when_completed s now r = r

unfoldable pub move_to : RecommendationStatus → Option ℕ → ℕ → Recommendation → Recommendation
move_to s by now r =
    when_completed s now (when_approved s by now (record r { status = s; updated_at = now }))

pub data Outcome : Type 0 where
  changed : Store → Outcome
  not_found : Outcome
  invalid : RecommendationStatus → RecommendationStatus → Outcome

-- The rest of `transition` once the row is locked; `snapshot` is the JSON of its title.
abbrev pub change :
    (String → String)
    → ℕ
    → ℕ
    → RecommendationStatus
    → Option ℕ
    → Option String
    → ℕ
    → Store
    → Option Recommendation
    → Outcome
change snapshot org id s by reason now st none = not_found
change snapshot org id s by reason now st (some r) =
    if may_become r.status s
    then changed (record st {
      recommendations = update (is_own org id) (move_to s by now) st.recommendations;
      history =
          st.history
          ++ record {
            organization_id = org;
            recommendation_id = id;
            from_status = some r.status;
            to_status = s;
            reason = reason;
            changed_by = by;
            snapshot = snapshot r.title;
          }
            ∷ [];
    })
    else invalid r.status s

unfoldable pub transition :
    (String → String)
    → ℕ
    → ℕ
    → RecommendationStatus
    → Option ℕ
    → Option String
    → ℕ
    → Store
    → Outcome
transition snapshot org id s by reason now st =
    change snapshot org id s by reason now st (find (is_own org id) st.recommendations)

abbrev is_open : RecommendationStatus → Bool
is_open proposed = true
is_open approved = true
is_open s = false

abbrev is_over : ℕ → Insight → Bool
is_over now i = not i.is_active || some_and (λ t. leb t now) i.expires_at

-- The first query of `dismissRecommendationsFromInactiveInsights`; the join has a row for each
-- insight of the organization with the source's id, of which there is one at most.
unfoldable pub stale_rows : ℕ → ℕ → Store → List Recommendation
stale_rows now org st =
    select
      (λ r.
        r.organization_id == org
        && is_open r.status
        && any
            (λ i.
              i.organization_id == org
              && some_and (λ s. s == i.id) r.source_insight_id
              && is_over now i)
            st.insights)
      st.recommendations

abbrev pub dismissal : (String → String) → ℕ → Recommendation → HistoryRow
dismissal snapshot org r = record {
  organization_id = org;
  recommendation_id = r.id;
  from_status = some r.status;
  to_status = dismissed;
  reason = some "Source insight is no longer active";
  changed_by = none;
  snapshot = snapshot r.title;
}

-- Its transaction, which runs later, on whatever the rows are by then. A trigger of the table sets
-- `updated_at`.
unfoldable pub dismiss_rows : (String → String) → ℕ → ℕ → List Recommendation → Store → Store
dismiss_rows snapshot now org [] st = st
dismiss_rows snapshot now org (r ∷ rs) st = dismiss_rows snapshot now org rs (record st {
  recommendations =
      update (is_own org r.id) (λ x. record x { status = dismissed; updated_at = now })
        st.recommendations;
  history = st.history ++ dismissal snapshot org r ∷ [];
})

unfoldable pub priority_of : String → String
priority_of severity =
    if str_eq severity "critical" || str_eq severity "high"
    then severity
    else if str_eq severity "medium"
    then "medium"
    else "low"

unfoldable pub owner_for : InsightCategory → String
owner_for seo = "seo_specialist"
owner_for marketing = "marketing_manager"
owner_for _ = "owner"

unfoldable pub action_for : InsightCategory → String
action_for analytics =
    "Review the affected KPI, confirm the reporting window, and assign an owner to investigate the change."
action_for seo =
    "Review the affected rankings or technical findings and schedule the highest-impact remediation."
action_for gbp =
    "Review the Business Profile finding and complete the recommended profile, review, or post action."
action_for revenue =
    "Review the linked pipeline evidence in GoHighLevel and assign a measurable revenue follow-up."
action_for operations =
    "Confirm the operational issue and assign a corrective task with a due date."
action_for marketing =
    "Convert the finding into a campaign action and define the KPI that will determine success."

-- The insights that `generateFromInsights` reads.
unfoldable pub active_insights : ℕ → ℕ → Store → List Insight
active_insights now org st = take 100 (
    order_by_desc (λ i. i.created_at)
      (select
        (λ i.
          i.organization_id == org
          && i.is_active
          && (is_none i.expires_at || some_and (λ t. ltb now t) i.expires_at))
        st.insights))

abbrev or_empty : Option String → String
or_empty none = "{}"
or_empty (some s) = s

unfoldable pub draft : ℕ → ℕ → ℕ → Insight → Recommendation
unfolding priority_of owner_for action_for
draft id now org i = record {
  id = id;
  organization_id = org;
  source_insight_id = some i.id;
  category = i.category;
  priority = priority_of i.severity;
  status = proposed;
  dedupe_insight = some i.id;
  title = i.title;
  rationale = i.body;
  action = action_for i.category;
  expected_impact =
      some
        "Address the observed signal and measure the associated KPI in the next reporting period.";
  owner_role = owner_for i.category;
  evidence = or_empty i.payload;
  confidence = i.confidence;
  expires_at = i.expires_at;
  approved_by = none;
  approved_at = none;
  completed_at = none;
  created_at = now;
  updated_at = now;
}

abbrev pub has_key : ℕ → Insight → Recommendation → Bool
has_key org i r = r.organization_id == org && some_and (λ k. k == i.id) r.dedupe_insight

-- What the database and the serialisation supply: ids for an insight's row and event, and JSON.
pub record Source : Type 0 where
  pub row_id : ℕ → ℕ
  pub event_id : ℕ → ℕ
  pub snapshot : String → String
  pub payload : Recommendation → String

-- The transaction for one insight.
unfoldable pub create : Source → ℕ → ℕ → Insight → Store → Store × ℕ
create src now org i st =
    let r = draft (src.row_id i.id) now org i in
    if any (has_key org i) st.recommendations then (st, 0) else (
      record st {
        recommendations = st.recommendations ++ r ∷ [];
        history =
            st.history
            ++ record {
              organization_id = org;
              recommendation_id = r.id;
              from_status = none;
              to_status = proposed;
              reason = some "Generated from an active insight";
              changed_by = none;
              snapshot = src.snapshot i.title;
            }
              ∷ [];
        events =
            publish_in_transaction (src.event_id i.id) now
              (record {
                event_type = "recommendation.generated";
                organization_id = org;
                aggregate_type = some "recommendation";
                aggregate_id = some r.id;
                payload_version = none;
                payload = src.payload r;
              })
              st.events;
      },
      1,
    )

unfoldable pub create_all : Source → ℕ → ℕ → List Insight → Store → Store × ℕ
create_all src now org [] st = (st, 0)
create_all src now org (i ∷ is) st =
    let one = create src now org i st in
    let rest = create_all src now org is one.0 in (rest.0, one.1 + rest.1)

unfoldable pub generate_from_insights : Source → ℕ → ℕ → Store → Store × ℕ
generate_from_insights src now org st =
    let st' = dismiss_rows src.snapshot now org (stale_rows now org st) st in
    create_all src now org (active_insights now org st') st'

-- `list`
pub list : ℕ → Option RecommendationStatus → ℕ → Store → List Recommendation
list org status limit st = take (min limit 100) (
    order_by_desc (λ r. r.created_at)
      (select (λ r. r.organization_id == org && matches status r.status) st.recommendations))
  where
    matches : Option RecommendationStatus → RecommendationStatus → Bool
    matches none t = true
    matches (some s) t = same_status s t
