-- ===== src/Chat/Review.antt =====
-- backend/src/intelligence/review/response-review.service.ts: the review of a draft. The router is a
-- parameter, and so is the reading of an answer as a verdict: the clean-up of its text, the parser of
-- JSON and the types of the schema.
pub mod Closed
use capere_ai.Base.{
  ℕ, Bool, true, false, not, ◌&&◌, ◌||◌, Option, none, some, List, [], ◌∷◌, ◌++◌, String, str_eq,
  if◌then◌else◌,
}
use capere_ai.Llm.Router.{LlmCompletion, Result, ok, err}
use capere_ai.Tools.{ToolResult, ToolError}
use capere_ai.Reasoning.{code_name}

pub record VerdictIssue : Type 0 where
  pub kind : String
  pub detail : String

pub record ReflectionVerdict : Type 0 where
  pub approved : Bool
  pub issues : List VerdictIssue
  pub revised_response : Option String

-- `SAFE_REFLECTION_FAILURE`
abbrev pub safe_reflection_failure : String
safe_reflection_failure =
    "I could not safely verify this response, so I am not presenting the unreviewed result. Please try again."

pub record Reviewer (V : Type 0) (S : Type 0) : Type 0 where
  pub is_blank : String → Bool
  -- The text of an output, and its first 500 characters.
  pub output_text : Option V → String
  pub first_500 : String → String
  -- `modelRouter.complete` with the two messages of a review.
  pub ask_review : String → List String → S → S × Result
  pub read_verdict : String → Option ReflectionVerdict

abbrev pub has_text : Option String → Bool
has_text none = false
has_text (some text) = not (str_eq text "")

abbrev pub refined : ReflectionVerdict → Option ReflectionVerdict
refined v = if v.approved || has_text v.revised_response then some v else none

abbrev pub refine : Option ReflectionVerdict → Option ReflectionVerdict
refine none = none
refine (some v) = refined v

abbrev pub failed_closed : ReflectionVerdict
failed_closed = record {
  approved = false;
  issues =
      record { kind = "reflection_unavailable"; detail = "The response could not be verified." }
      ∷ [];
  revised_response = some safe_reflection_failure;
}

abbrev pub or_failed : Option ReflectionVerdict → ReflectionVerdict
or_failed none = failed_closed
or_failed (some v) = v

abbrev pub error_code : Option ToolError → String
error_code none = "undefined"
error_code (some e) = code_name e.code

module _ {V : Type 0} where
  abbrev pub evidence_line : (Option V → String) → (String → String) → ToolResult V → List String
  evidence_line text first r =
      if r.ok
      then "- " ∷ r.tool_name ∷ ": " ∷ first (text r.output) ∷ []
      else "- "
        ∷ r.tool_name
        ∷ ": FAILED ("
        ∷ error_code r.error
        ∷ "). No data from this source."
        ∷ []

  abbrev pub evidence_lines :
      (Option V → String) → (String → String) → List (ToolResult V) → List String
  evidence_lines text first [] = []
  evidence_lines text first (r ∷ []) = evidence_line text first r
  evidence_lines text first (r ∷ s ∷ rs) =
      evidence_line text first r ++ "\n" ∷ evidence_lines text first (s ∷ rs)

  -- `describeEvidence`
  abbrev pub describe_evidence :
      (Option V → String) → (String → String) → List (ToolResult V) → List String
  describe_evidence text first [] =
      "No tools were called. Any specific metric, ranking, or figure in the draft is unsupported."
      ∷ []
  describe_evidence text first (r ∷ rs) = evidence_lines text first (r ∷ rs)

module _ {V : Type 0} {S : Type 0} (w : Reviewer V S) where
  -- `parse`, and the answer where it or the router throws.
  abbrev pub verdict_of : Result → ReflectionVerdict
  verdict_of (err e) = failed_closed
  verdict_of (ok c) = or_failed (refine (w.read_verdict c.content))

  abbrev pub with_answer : S × Result → S × ReflectionVerdict
  with_answer (s, answer) = (s, verdict_of answer)

  abbrev pub review_text : String → String → List (ToolResult V) → List String
  review_text user_request draft results =
      "USER REQUEST:\n"
        ∷ user_request
        ∷ "\n\nEVIDENCE AVAILABLE TO THE ASSISTANT:\n"
        ∷ describe_evidence w.output_text w.first_500 results
      ++ "\n\nDRAFT RESPONSE:\n" ∷ draft ∷ []

  -- `review`
  unfoldable pub review : String → String → List (ToolResult V) → String → S → S × ReflectionVerdict
  review user_request draft results prompt s =
      if w.is_blank draft
      then (s, record { approved = true; issues = []; revised_response = none })
      else with_answer (w.ask_review prompt (review_text user_request draft results) s)
