-- ===== src/Llm/Router/Stream.antt =====
-- `stream` of the router, for a consumer that takes every chunk.
use capere_ai.Base.{
  ℕ, suc, ◌≡◌, refl, ap, ◌∙◌, Bool, true, false, not, ◌||◌, Option, none, some, List, [], ◌∷◌, ◌++◌,
  String, inl, inr, Bool-cases, Option-cases,
}
use capere_ai.Llm.Usage.{LlmUsage, UsageEvent, record_usage, or_default}
use capere_ai.Llm.Budget.{BudgetStatus, Store, assert_within_budget, evaluate_after_usage}
use capere_ai.Llm.Router.{
  World, RoutedCallOptions, LlmToolCall, FinishReason, AppException, CallError, other, chain_for,
  should_try_next, success_params, with_usage, record_failure, translate, budget_exceeded,
}

pub record LlmStreamChunk : Type 0 where
  pub delta : String
  pub tool_calls : Option (List LlmToolCall)
  pub usage : Option LlmUsage
  pub finish_reason : Option FinishReason
  pub served_model : Option String

-- What a provider sends: its chunks, and the error that ends them.
pub record ProviderStream : Type 0 where
  pub chunks : List LlmStreamChunk
  pub ending : Option CallError

-- What the client gets.
pub record Sent : Type 0 where
  pub store : Store
  pub chunks : List LlmStreamChunk
  pub error : Option AppException

pub record Forwarded : Type 0 where
  pub store : Store
  pub chunks : List LlmStreamChunk
  pub error : Option CallError

-- The provider's streams, and the errors of `evaluateAfterUsage` at a chunk, the chunks counted from
-- the last one.
module _ (w : World) (provider : ℕ → String → ProviderStream)
    (evaluation_error : ℕ → ℕ → Option String) (o : RoutedCallOptions) where
  abbrev count : List LlmStreamChunk → ℕ
  count [] = 0
  count (c ∷ cs) = suc (count cs)

  abbrev after_chunk_evaluation : ℕ → Store → Option String → Store × Option CallError
  after_chunk_evaluation index s (some message) = (s, some (other message))
  after_chunk_evaluation index s none =
      (evaluate_after_usage w.json (w.new_id index) (w.time index) o.organization_id s, none)

  abbrev after_chunk_record : ℕ → ℕ → Store → Option (List UsageEvent) → Store × Option CallError
  after_chunk_record index left s none = (s, some (other w.refusal))
  after_chunk_record index left s (some usage) =
      after_chunk_evaluation index (with_usage s usage) (evaluation_error index left)

  -- The body of the inner loop before its `yield`.
  unfoldable pub record_chunk :
      ℕ → ℕ → String → LlmStreamChunk → Option LlmUsage → Store → Store × Option CallError
  record_chunk index left model c none s = (s, none)
  record_chunk index left model c (some usage) s = after_chunk_record index left s (
      record_usage w.refused (w.time index)
        (success_params w o index model (or_default c.served_model model) usage) s.usage)

  abbrev pass_on : LlmStreamChunk → Store × Option CallError → (Store → Forwarded) → Forwarded
  pass_on c (s, some e) next = record { store = s; chunks = []; error = some e }
  pass_on c (s, none) next =
      let rest = next s in
      record { store = rest.store; chunks = c ∷ rest.chunks; error = rest.error }

  -- The inner loop.
  unfoldable pub forward : ℕ → String → Option CallError → List LlmStreamChunk → Store → Forwarded
  unfolding record_chunk
  forward index model ending [] s = record { store = s; chunks = []; error = ending }
  forward index model ending (c ∷ cs) s =
      pass_on c (record_chunk index (count cs) model c c.usage s)
        (λ s'. forward index model ending cs s')

  abbrev has_started : List LlmStreamChunk → Bool
  has_started [] = false
  has_started (c ∷ cs) = true

  abbrev fall_back : Bool → Sent → (Store → Sent) → Sent
  fall_back true stopped next = stopped
  fall_back false stopped next =
      let rest = next stopped.store in
      record { store = rest.store; chunks = stopped.chunks ++ rest.chunks; error = rest.error }

  abbrev settle_stream :
      List String
      → ℕ
      → String
      → Bool
      → Forwarded
      → Option CallError
      → (CallError → Store → Sent)
      → Sent
  settle_stream chain index model started f none next = record {
    store = f.store;
    chunks = f.chunks;
    error = none;
  }
  settle_stream chain index model started f (some e) next =
      fall_back (started || not (should_try_next e))
        (record {
          store = record_failure w o index model e f.store;
          chunks = f.chunks;
          error = some (translate e chain);
        })
        (next e)

  -- The loop over the chain.
  unfoldable pub stream_models : List String → ℕ → CallError → List String → Store → Sent
  unfolding forward
  stream_models chain index last [] s = record {
    store = s;
    chunks = [];
    error = some (translate last chain);
  }
  stream_models chain index last (model ∷ models) s =
      let sent = provider index model in
      let f = forward index model sent.ending sent.chunks s in
      settle_stream chain index model (has_started sent.chunks) f f.error
        (λ e after. stream_models chain (suc index) e models after)

  abbrev stream_if_within : Store → Option BudgetStatus → Sent → Sent
  stream_if_within s (some t) sent = record { store = s; chunks = []; error = some budget_exceeded }
  stream_if_within s none sent = sent

  unfoldable pub stream : Store → Sent
  unfolding stream_models
  stream s =
      let chain = chain_for w.models o in
      stream_if_within s (assert_within_budget w.started_at o.organization_id s)
        (stream_models chain 0 (other "undefined") chain s)

  -- The client got the first chunks of one model, and all of them if there was no error.
  pub FromOneModel : Sent → Type 0
  FromOneModel sent =
      (index : ℕ) × (model : String) × (rest : List LlmStreamChunk) × ((sent.chunks ++ rest
          ≡ (provider index model).chunks)
        × (sent.error ≡ none → rest ≡ []))

  FirstOf : List LlmStreamChunk → Forwarded → Type 0
  FirstOf cs f =
      (rest : List LlmStreamChunk) × ((f.chunks ++ rest ≡ cs) × (f.error ≡ none → rest ≡ []))

  pass_on-FirstOf :
      (c : LlmStreamChunk) (cs : List LlmStreamChunk) (next : Store → Forwarded)
      → ((s : Store) → FirstOf cs (next s))
      → (r : Store × Option CallError) → FirstOf (c ∷ cs) (pass_on c r next)
  unfolding FirstOf
  pass_on-FirstOf c cs next h (s, some e) = (c ∷ cs, (refl, λ f. absurd cc))
  pass_on-FirstOf c cs next h (s, none) = let p = h s in (p.0, (ap (λ xs. c ∷ xs) p.1.0, p.1.1))

  forward-FirstOf :
      (index : ℕ) (model : String) (ending : Option CallError) (cs : List LlmStreamChunk)
      (s : Store)
      → FirstOf cs (forward index model ending cs s)
  unfolding forward FirstOf
  forward-FirstOf index model ending [] s = ([], (refl, λ f. refl))
  forward-FirstOf index model ending (c ∷ cs) s =
      pass_on-FirstOf c cs (λ s'. forward index model ending cs s')
        (forward-FirstOf index model ending cs) (record_chunk index (count cs) model c c.usage s)

  nothing_sent : (xs ys : List LlmStreamChunk) → xs ++ ys ≡ [] → xs ≡ []
  nothing_sent [] ys h = refl
  nothing_sent (x ∷ xs) ys h = absurd cc

  fall_back-FromOneModel :
      (stopped : Sent) (next : Store → Sent)
      → stopped.chunks ≡ []
      → ((s : Store) → FromOneModel (next s))
      → FromOneModel (fall_back false stopped next)
  unfolding FromOneModel
  fall_back-FromOneModel stopped next none_sent h =
      let n = h stopped.store in
      (
        n.0,
        n.1,
        n.2,
        (ap (λ xs. (xs ++ (next stopped.store).chunks) ++ n.2) none_sent ∙ n.3.0, n.3.1),
      )

  settle_stream-FromOneModel :
      (chain : List String) (index : ℕ) (model : String) (cs : List LlmStreamChunk) (f : Forwarded)
      (error : Option CallError) (next : CallError → Store → Sent)
      → cs ≡ (provider index model).chunks
      → f.error ≡ error
      → FirstOf cs f
      → ((e : CallError) (s : Store) → FromOneModel (next e s))
      → FromOneModel (settle_stream chain index model (has_started cs) f error next)
  unfolding FromOneModel FirstOf
  settle_stream-FromOneModel chain index model cs f none next own e first h =
      (index, model, first.0, (first.1.0 ∙ own, λ g. first.1.1 e))
  settle_stream-FromOneModel chain index model (c ∷ cs) f (some e) next own eq first h =
      (index, model, first.0, (first.1.0 ∙ own, λ g. absurd cc))
  settle_stream-FromOneModel chain index model [] f (some e) next own eq first h =
      elim (Bool-cases (should_try_next e)) [
        | inl t ↦ rw t (
            fall_back-FromOneModel
              (record {
                store = record_failure w o index model e f.store;
                chunks = f.chunks;
                error = some (translate e chain);
              })
              (next e) (nothing_sent f.chunks first.0 first.1.0) (h e))
        | inr t ↦ rw t (index, model, first.0, (first.1.0 ∙ own, λ g. absurd cc))
      ]

  stream_models-FromOneModel :
      (chain : List String) (index : ℕ) (last : CallError) (models : List String) (s : Store)
      → FromOneModel (stream_models chain index last models s)
  unfolding stream_models FromOneModel
  stream_models-FromOneModel chain index last [] s =
      (0, "", (provider 0 "").chunks, (refl, λ g. absurd cc))
  stream_models-FromOneModel chain index last (model ∷ models) s =
      let sent = provider index model in
      let f = forward index model sent.ending sent.chunks s in
      settle_stream-FromOneModel chain index model sent.chunks f f.error _ refl refl
        (forward-FirstOf index model sent.ending sent.chunks s)
        (λ e after. stream_models-FromOneModel chain (suc index) e models after)

  -- Whatever the providers and the database do, the client gets the first chunks of the stream of
  -- one model, never parts of two, and that whole stream if the call ends without an error.
  pub stream_unspliced : (s : Store) → FromOneModel (stream s)
  unfolding stream FromOneModel
  stream_unspliced s = elim (Option-cases (assert_within_budget w.started_at o.organization_id s)) [
    | inl e ↦ rw e (
        stream_models-FromOneModel (chain_for w.models o) 0 (other "undefined")
          (chain_for w.models o) s)
    | inr (t, e) ↦ rw e (0, "", (provider 0 "").chunks, (refl, λ g. absurd cc))
  ]
