-- ===== src/Llm/Errors.antt =====
-- backend/src/llm/llm-provider.port.ts and backend/src/shared/http/app-exception.ts, and how the router
-- (`shouldTryNext` and `translate` of backend/src/llm/router/model-router.service.ts) reads the errors.
use capere_ai.Base.{ℕ, Bool, false, Option, List, [], ◌∷◌, ◌++◌, String}
use capere_ai.Llm.Usage.{LlmUsage}

pub record LlmToolCall : Type 0 where
  pub id : String
  pub name : String
  pub arguments : String

pub data FinishReason : Type 0 where
  stop length tool_calls content_filter error : FinishReason

pub record LlmCompletion : Type 0 where
  pub served_model : String
  pub content : String
  pub tool_calls : List LlmToolCall
  pub usage : LlmUsage
  pub finish_reason : FinishReason

pub data ProviderErrorCode : Type 0 where
  rate_limited timeout model_unavailable invalid_request auth_failed server_error aborted :
      ProviderErrorCode

abbrev pub code_name : ProviderErrorCode → String
code_name rate_limited = "rate_limited"
code_name timeout = "timeout"
code_name model_unavailable = "model_unavailable"
code_name invalid_request = "invalid_request"
code_name auth_failed = "auth_failed"
code_name server_error = "server_error"
code_name aborted = "aborted"

pub record LlmProviderError : Type 0 where
  pub message : String
  pub code : ProviderErrorCode
  pub retryable : Bool
  pub status : Option ℕ

-- Its `details` are left out.
pub record AppException : Type 0 where
  pub code : String
  pub message : List String
  pub status : ℕ

-- What a `catch` gets: an `AppException`, an `LlmProviderError`, or anything else by its text.
pub data CallError : Type 0 where
  app_exception : AppException → CallError
  provider_error : LlmProviderError → CallError
  other : String → CallError

unfoldable pub should_try_next : CallError → Bool
should_try_next (app_exception e) = false
should_try_next (provider_error e) = e.retryable
should_try_next (other message) = false

abbrev pub error_code_of : CallError → String
error_code_of (app_exception e) = "unknown"
error_code_of (provider_error e) = code_name e.code
error_code_of (other message) = "unknown"

abbrev join : List String → List String
join [] = []
join (x ∷ []) = x ∷ []
join (x ∷ y ∷ ys) = x ∷ ", " ∷ join (y ∷ ys)

abbrev unavailable : List String → AppException
unavailable chain = record {
  code = "MODEL_UNAVAILABLE";
  message =
      "No model in the fallback chain could serve this request (tried: " ∷ join chain ++ ")." ∷ [];
  status = 503;
}

abbrev translate_provider : LlmProviderError → ProviderErrorCode → List String → AppException
translate_provider e auth_failed chain = record {
  code = "SERVICE_UNAVAILABLE";
  message =
      "The AI provider rejected our credentials. This is a server configuration problem." ∷ [];
  status = 503;
}
translate_provider e rate_limited chain = record {
  code = "RATE_LIMITED";
  message = "The AI provider is rate limiting requests. Please retry shortly." ∷ [];
  status = 429;
}
translate_provider e invalid_request chain = record {
  code = "BAD_REQUEST";
  message = "Invalid model request: " ∷ e.message ∷ [];
  status = 400;
}
translate_provider e timeout chain = unavailable chain
translate_provider e model_unavailable chain = unavailable chain
translate_provider e server_error chain = unavailable chain
translate_provider e aborted chain = unavailable chain

unfoldable pub translate : CallError → List String → AppException
translate (app_exception e) chain = e
translate (provider_error e) chain = translate_provider e e.code chain
translate (other message) chain = record {
  code = "INTERNAL_ERROR";
  message = "Model call failed: " ∷ message ∷ [];
  status = 500;
}
