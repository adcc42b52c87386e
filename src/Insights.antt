-- ===== src/Insights.antt =====
-- backend/src/insights/insights.engine.ts: the insights of the organizations, made by generators from
-- their data or an event. JSON and decimals are text.
pub mod Rows
pub mod Again
pub mod Growth
mod Tests
pub use Rows.*
use capere_ai.Base.{
  ℕ, suc, ◌+◌, Bool, true, false, not, ◌&&◌, ◌||◌, ◌==◌, Option, none, some, is_none, some_and,
  List, [], ◌∷◌, ◌++◌, String, str_eq, ltb, take, find, any, select, update, order_by_desc,
  if◌then◌else◌, map,
}
use capere_ai.Outbox.{Table as EventTable}
use capere_ai.Outbox.{DomainEvent, EventToPublish, publish_in_transaction}
use capere_ai.Recommendations.{InsightCategory}

abbrev pub has_key : ℕ → String → InsightRow → Bool
has_key org key r = r.organization_id == org && some_and (λ k. str_eq k key) r.dedupe_key

abbrev or_empty : Option String → String
or_empty none = "{}"
or_empty (some s) = s

-- The update of an insight that is detected again.
unfoldable pub refresh : ℕ → InsightDraft → InsightRow → InsightRow
refresh now d r = record r {
  severity = d.severity;
  title = d.title;
  body = d.body;
  payload = or_empty d.payload;
  confidence = d.confidence;
  expires_at = d.expires_at;
  status = active;
  updated_at = now;
}

unfoldable pub new_row : ℕ → ℕ → ℕ → String → Option ℕ → InsightDraft → InsightRow
new_row id now org generator event d = record {
  id = id;
  organization_id = org;
  category = d.category;
  severity = d.severity;
  status = active;
  source_generator = generator;
  source_event_id = event;
  dedupe_key = some d.dedupe_key;
  title = d.title;
  body = d.body;
  payload = or_empty d.payload;
  confidence = d.confidence;
  expires_at = d.expires_at;
  created_at = now;
  updated_at = now;
}

-- What the database and the serialisation supply: the id of a row or an event added to a table, and
-- the JSON of an event's payload.
pub record Source : Type 0 where
  pub row_id : List InsightRow → ℕ
  pub event_id : EventTable → ℕ
  pub payload : InsightRow → String

unfoldable pub generated : Source → InsightRow → EventToPublish
generated src r = record {
  event_type = "insight.generated";
  organization_id = r.organization_id;
  aggregate_type = some "insight";
  aggregate_id = some r.id;
  payload_version = none;
  payload = src.payload r;
}

abbrev add : Source → ℕ → InsightRow → Store → Store
add src now r st = record st {
  insights = st.insights ++ r ∷ [];
  events = publish_in_transaction (src.event_id st.events) now (generated src r) st.events;
}

-- The rest of `persist` once the row of the key is looked up.
abbrev pub write :
    Source → ℕ → ℕ → String → InsightDraft → Option ℕ → Store → Option InsightRow → Store × Bool
write src now org generator d event st (some r) =
    (record st { insights = update (λ x. x.id == r.id) (refresh now d) st.insights }, false)
write src now org generator d event st none =
    (add src now (new_row (src.row_id st.insights) now org generator event d) st, true)

unfoldable pub persist : Source → ℕ → ℕ → String → InsightDraft → Option ℕ → Store → Store × Bool
persist src now org generator d event st =
    write src now org generator d event st (find (has_key org d.dedupe_key) st.insights)

abbrev is_active_health : ℕ → InsightRow → Bool
is_active_health org r =
    r.organization_id == org
    && str_eq r.source_generator "integration_health"
    && same_status r.status active

abbrev pub dismissed_at : ℕ → InsightRow → InsightRow
dismissed_at now r = record r { status = dismissed; updated_at = now }

-- `not in` of SQL, which a null is neither in nor not in.
abbrev not_among : List String → Option String → Bool
not_among keys none = false
not_among keys (some k) = not (any (λ x. str_eq k x) keys)

abbrev pub is_resolved : ℕ → List InsightDraft → InsightRow → Bool
is_resolved org [] r = is_active_health org r
is_resolved org (d ∷ ds) r =
    is_active_health org r && not_among (map (λ x. x.dedupe_key) (d ∷ ds)) r.dedupe_key

unfoldable pub dismiss_resolved_integration_insights : ℕ → ℕ → List InsightDraft → Store → Store
dismiss_resolved_integration_insights now org drafts st = record st {
  insights = update (is_resolved org drafts) (dismissed_at now) st.insights;
}

abbrev pub count : Bool → ℕ
count true = 1
count false = 0

unfoldable pub persist_all :
    Source → ℕ → ℕ → String → Option ℕ → List InsightDraft → Store → Store × ℕ
persist_all src now org generator event [] st = (st, 0)
persist_all src now org generator event (d ∷ ds) st =
    let one = persist src now org generator d event st in
    let rest = persist_all src now org generator event ds one.0 in (rest.0, count one.1 + rest.1)

-- An insight generator; none where it throws. A generator reads and does not write.
pub record InsightGenerator : Type 0 where
  pub name : String
  pub description : String
  pub triggers : List String
  pub generate : ℕ → Option DomainEvent → Option (List InsightDraft)

abbrev or_none : Option (List InsightDraft) → List InsightDraft
or_none none = []
or_none (some ds) = ds

abbrev pub drafts_of : ℕ → Option DomainEvent → InsightGenerator → List InsightDraft
drafts_of org event g = or_none (g.generate org event)

abbrev pub event_id_of : Option DomainEvent → Option ℕ
event_id_of none = none
event_id_of (some e) = some e.id

abbrev pub resolve : ℕ → ℕ → InsightGenerator → List InsightDraft → Store → Store
resolve now org g drafts st =
    if str_eq g.name "integration_health"
    then dismiss_resolved_integration_insights now org drafts st
    else st

unfoldable pub run_batches :
    Source → ℕ → ℕ → Option DomainEvent → List InsightGenerator → Store → Store × ℕ
run_batches src now org event [] st = (st, 0)
run_batches src now org event (g ∷ gs) st =
    let drafts = drafts_of org event g in
    let one =
      persist_all src now org g.name (event_id_of event) drafts (resolve now org g drafts st) in
    let rest = run_batches src now org event gs one.0 in (rest.0, one.1 + rest.1)

-- `run`, with the answer of the feature flag of the engine.
unfoldable pub run :
    Source → ℕ → Bool → ℕ → List InsightGenerator → Option DomainEvent → Store → Store × ℕ
run src now enabled org gs event st =
    if enabled then run_batches src now org event gs st else (st, 0)

unfoldable pub run_all : Source → ℕ → Bool → ℕ → List InsightGenerator → Store → Store × ℕ
run_all src now enabled org gs st = run src now enabled org gs none st

abbrev is_triggered : DomainEvent → InsightGenerator → Bool
is_triggered e g = any (λ t. str_eq t e.event_type) g.triggers

abbrev run_triggered : Source → ℕ → Bool → DomainEvent → List InsightGenerator → Store → Store × ℕ
run_triggered src now enabled e [] st = (st, 0)
run_triggered src now enabled e (g ∷ gs) st =
    run src now enabled e.organization_id (g ∷ gs) (some e) st

unfoldable pub run_for_event :
    Source → ℕ → Bool → List InsightGenerator → DomainEvent → Store → Store × ℕ
run_for_event src now enabled gs e st =
    run_triggered src now enabled e (select (is_triggered e) gs) st

-- `active`
unfoldable pub active_insights : ℕ → ℕ → ℕ → Store → List InsightRow
active_insights now org limit st = take limit (
    order_by_desc (λ r. r.created_at)
      (select
        (λ r.
          r.organization_id == org
          && same_status r.status active
          && (is_none r.expires_at || some_and (λ t. ltb now t) r.expires_at))
        st.insights))

unfoldable pub dismiss : ℕ → ℕ → ℕ → Store → Store
dismiss now org id st = record st {
  insights = update (λ r. r.organization_id == org && r.id == id) (dismissed_at now) st.insights;
}

abbrev pub registered : List InsightGenerator → List String
registered = map (λ g. g.name)

abbrev unique : List String → List String
unique [] = []
unique (x ∷ xs) = x ∷ select (λ y. not (str_eq x y)) (unique xs)

abbrev all_triggers : List InsightGenerator → List String
all_triggers [] = []
all_triggers (g ∷ gs) = g.triggers ++ all_triggers gs

unfoldable pub trigger_types : List InsightGenerator → List String
trigger_types gs = unique (all_triggers gs)
