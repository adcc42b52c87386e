-- ===== src/Chat/Policy.antt =====
-- backend/src/intelligence/capability-router.service.ts
use capere_ai.Base.{Bool, false, Option, none, some, String}
use capere_ai.Llm.Router.{TaskType}

pub data IntelligenceCapability : Type 0 where
  general seo analytics cmo content : IntelligenceCapability

pub record CapabilityPolicy : Type 0 where
  pub capability : IntelligenceCapability
  pub agent : String
  pub task_type : TaskType
  pub system_prompt : String
  pub enabled_flag : Option String
  pub allow_mutating_tools : Bool

abbrev pub policy :
    IntelligenceCapability → String → TaskType → String → Option String → CapabilityPolicy
policy capability agent task prompt flag = record {
  capability = capability;
  agent = agent;
  task_type = task;
  system_prompt = prompt;
  enabled_flag = flag;
  allow_mutating_tools = false;
}

-- `resolve`
unfoldable pub resolve_policy : IntelligenceCapability → CapabilityPolicy
resolve_policy IntelligenceCapability.general =
    policy IntelligenceCapability.general "general" TaskType.general "intelligence.general.system"
      none
resolve_policy IntelligenceCapability.seo =
    policy IntelligenceCapability.seo "seo" TaskType.analytics "intelligence.seo.system"
      (some "agent.seo")
resolve_policy IntelligenceCapability.analytics =
    policy IntelligenceCapability.analytics "analytics" TaskType.analytics
      "intelligence.analytics.system" (some "agent.analytics")
resolve_policy IntelligenceCapability.cmo =
    policy IntelligenceCapability.cmo "cmo" TaskType.general "intelligence.cmo.system"
      (some "agent.cmo")
resolve_policy IntelligenceCapability.content =
    policy IntelligenceCapability.content "content" TaskType.cheap "intelligence.content.system"
      (some "agent.content")
