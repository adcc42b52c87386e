-- ===== src/Insights/Tests.antt =====
-- Runs of a generator of integration health.
use capere_ai.Base.{◌≡◌, refl, true, none, some, [], ◌∷◌, List, String, map}
use capere_ai.Outbox.{DomainEvent}
use capere_ai.Recommendations.{InsightCategory}
use capere_ai.Insights.{
  InsightDraft, InsightGenerator, InsightSeverity, Store, Source, refresh, new_row, generated,
  persist, persist_all, dismiss_resolved_integration_insights, run_batches, run, run_all,
  run_for_event, active_insights, dismiss, trigger_types,
}
use capere_ai.Insights.Again.{IsQuiet, run_again}
use capere_ai.Insights.Growth.{GrowsIf, run-Grows}

abbrev source : Source
source = record { row_id = λ rows. 50; event_id = λ events. 60; payload = λ r. "{}" }

abbrev broken : String → InsightDraft
broken key = record {
  category = InsightCategory.operations;
  severity = InsightSeverity.high;
  title = "GitHub is reporting an error";
  body = "";
  dedupe_key = key;
  payload = none;
  confidence = none;
  expires_at = none;
}

abbrev health : List InsightDraft → InsightGenerator
health ds = record {
  name = "integration_health";
  description = "";
  triggers = "integration.errored" ∷ "integration.disconnected" ∷ "integration.errored" ∷ [];
  generate = λ org event. some ds;
}

abbrev failing : InsightGenerator
failing = record { name = "seo"; description = ""; triggers = []; generate = λ org event. none }

abbrev generators : List InsightGenerator
generators = failing ∷ health (broken "integration_error:github" ∷ []) ∷ []

abbrev recovered : List InsightGenerator
recovered = health [] ∷ []

abbrev empty : Store
empty = record { insights = []; events = [] }

unfolds : Unit {0}
unfolding refresh new_row generated persist persist_all dismiss_resolved_integration_insights
    run_batches run run_all run_for_event active_insights dismiss trigger_types IsQuiet GrowsIf
unfolds = tt

-- One generator throws, the other adds its insight.
run_all_test : (run_all source 5 true 1 generators empty).1 ≡ 1
unfolding unfolds
run_all_test = refl

abbrev errored : DomainEvent
errored = record {
  id = 9;
  event_type = "integration.errored";
  organization_id = 1;
  payload = "{}";
  payload_version = 1;
  aggregate_type = none;
  aggregate_id = none;
  occurred_at = 4;
}

run_for_event_test :
    map (λ r. r.source_event_id) (run_for_event source 5 true generators errored empty).0.insights
    ≡ some 9 ∷ []
unfolding unfolds
run_for_event_test = refl

-- A recovered connection is no longer shown.
recovered_test :
    active_insights 8 1 20
      (run_all source 7 true 1 recovered (run_all source 5 true 1 generators empty).0).0
    ≡ []
unfolding unfolds
recovered_test = refl

-- A dismissed insight is shown again once its condition is detected again.
dismissed_test :
    map
      (λ r. r.id)
      (active_insights 8 1 20
        (run_all source 7 true 1 generators
          (dismiss 6 1 50 (run_all source 5 true 1 generators empty).0)).0)
    ≡ 50 ∷ []
unfolding unfolds
dismissed_test = refl

triggers_test : trigger_types generators ≡ "integration.errored" ∷ "integration.disconnected" ∷ []
unfolding unfolds
triggers_test = refl

run_again_example : IsQuiet (dismiss 6 1 50 (run source 5 true 1 generators none empty).0) (
    run source 7 true 1 generators none
      (dismiss 6 1 50 (run source 5 true 1 generators none empty).0))
run_again_example = run_again source source 5 6 7 true 1 50 generators none empty

run-Grows_example : GrowsIf true 1 empty (run source 5 true 1 generators (some errored) empty)
run-Grows_example = run-Grows source 5 true 1 generators (some errored) empty
