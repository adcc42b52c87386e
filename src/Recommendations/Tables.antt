-- ===== src/Recommendations/Tables.antt =====
-- The rows of recommendation.service.ts and its tables.
use capere_ai.Base.{ℕ, Bool, Option, List, String}
use capere_ai.Outbox.{Table as EventTable}

pub data RecommendationStatus : Type 0 where
  proposed approved in_progress completed dismissed expired : RecommendationStatus

pub data InsightCategory : Type 0 where
  analytics seo gbp revenue operations marketing : InsightCategory

pub record Insight : Type 0 where
  pub id : ℕ
  pub organization_id : ℕ
  pub category : InsightCategory
  pub severity : String
  pub title : String
  pub body : String
  pub payload : Option String
  pub confidence : Option ℕ
  pub expires_at : Option ℕ
  pub is_active : Bool
  pub created_at : ℕ

pub record Recommendation : Type 0 where
  pub id : ℕ
  pub organization_id : ℕ
  pub source_insight_id : Option ℕ
  pub category : InsightCategory
  pub priority : String
  pub status : RecommendationStatus
  pub dedupe_insight : Option ℕ
  pub title : String
  pub rationale : String
  pub action : String
  pub expected_impact : Option String
  pub owner_role : String
  pub evidence : String
  pub confidence : Option ℕ
  pub expires_at : Option ℕ
  pub approved_by : Option ℕ
  pub approved_at : Option ℕ
  pub completed_at : Option ℕ
  pub created_at : ℕ
  pub updated_at : ℕ

pub record HistoryRow : Type 0 where
  pub organization_id : ℕ
  pub recommendation_id : ℕ
  pub from_status : Option RecommendationStatus
  pub to_status : RecommendationStatus
  pub reason : Option String
  pub changed_by : Option ℕ
  pub snapshot : String

pub record Store : Type 0 where
  pub insights : List Insight
  pub recommendations : List Recommendation
  pub history : List HistoryRow
  pub events : EventTable
