-- ===== src/Insights/Rows.antt =====
-- The rows of insights.engine.ts, and the drafts of insight.interface.ts.
use capere_ai.Base.{ℕ, Bool, ◌==◌, Option, List, String}
use capere_ai.Outbox.{Table as EventTable}
use capere_ai.Recommendations.{InsightCategory}

pub data InsightSeverity : Type 0 where
  info low medium high critical : InsightSeverity

pub data InsightStatus : Type 0 where
  active expired dismissed applied : InsightStatus

abbrev code : InsightStatus → ℕ
code active = 0
code expired = 1
code dismissed = 2
code applied = 3

abbrev pub same_status : InsightStatus → InsightStatus → Bool
same_status s t = code s == code t

pub record InsightRow : Type 0 where
  pub id : ℕ
  pub organization_id : ℕ
  pub category : InsightCategory
  pub severity : InsightSeverity
  pub status : InsightStatus
  pub source_generator : String
  pub source_event_id : Option ℕ
  pub dedupe_key : Option String
  pub title : String
  pub body : String
  pub payload : String
  pub confidence : Option String
  pub expires_at : Option ℕ
  pub created_at : ℕ
  pub updated_at : ℕ

pub record InsightDraft : Type 0 where
  pub category : InsightCategory
  pub severity : InsightSeverity
  pub title : String
  pub body : String
  pub dedupe_key : String
  pub payload : Option String
  pub confidence : Option String
  pub expires_at : Option ℕ

pub record Store : Type 0 where
  pub insights : List InsightRow
  pub events : EventTable
