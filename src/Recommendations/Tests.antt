-- ===== src/Recommendations/Tests.antt =====
-- Runs on one insight and its recommendation.
use capere_ai.Base.{◌≡◌, refl, true, none, [], ◌∷◌}
use capere_ai.Recommendations.{
  Insight, InsightCategory, Recommendation, RecommendationStatus, Store, Source, Outcome,
  transition, next_statuses, may_become, move_to, draft, priority_of, owner_for, action_for,
  stale_rows, dismiss_rows, active_insights, create, create_all, generate_from_insights,
}
use capere_ai.Recommendations.Transitions.{HasStatus}
use capere_ai.Recommendations.Generation.{generate_again}

abbrev insight : Insight
insight = record {
  id = 3;
  organization_id = 1;
  category = InsightCategory.seo;
  severity = "high";
  title = "Rank";
  body = "It fell.";
  payload = none;
  confidence = none;
  expires_at = none;
  is_active = true;
  created_at = 10;
}

abbrev source : Source
source = record { row_id = λ i. 50; event_id = λ i. 60; snapshot = λ t. t; payload = λ r. "{}" }

abbrev start : Store
start = record { insights = insight ∷ []; recommendations = []; history = []; events = [] }

abbrev row : RecommendationStatus → Recommendation
row s = record (draft 50 20 1 insight) { status = s }

abbrev store : RecommendationStatus → Store
store s = record {
  insights = insight ∷ [];
  recommendations = row s ∷ [];
  history = [];
  events = [];
}

recommendations : Unit {0}
unfolding transition next_statuses may_become move_to draft priority_of owner_for action_for
    stale_rows dismiss_rows active_insights create create_all generate_from_insights HasStatus
recommendations = tt

generate_test : (generate_from_insights source 20 1 start).1 ≡ 1
unfolding recommendations
generate_test = refl

generate_again_example :
    (generate_from_insights source 20 1 (generate_from_insights source 20 1 start).0).1 ≡ 0
generate_again_example = generate_again source source 20 1 start

approve_test :
    (transition
        (λ t. t)
        1
        50
        RecommendationStatus.completed
        none
        none
        30
        (store RecommendationStatus.proposed)
      ≡ Outcome.invalid RecommendationStatus.proposed RecommendationStatus.completed)
unfolding recommendations
approve_test = refl
