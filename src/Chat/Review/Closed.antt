-- ===== src/Chat/Review/Closed.antt =====
-- The review fails closed.
use capere_ai.Base.{
  ◌≡◌, refl, true, false, ◌||◌, Option, none, some, List, [], String, arith, Bool-cases, inl, inr,
  ◌⊎◌,
}
use capere_ai.Llm.Router.{LlmCompletion, Result, ok, err}
use capere_ai.Tools.{ToolResult}
use capere_ai.Chat.Review.{
  ReflectionVerdict, Reviewer, has_text, refine, or_failed, with_answer, review_text, review,
  safe_reflection_failure,
}

module _ {V : Type 0} {S : Type 0} (w : Reviewer V S) where
  -- The draft is blank, or the answer was read as its approval, or it is rejected with a text in its place:
  -- the one that the answer was read to have, or the text for a review that failed.
  unfoldable pub IsVerdict : String → Result → ReflectionVerdict → Type 0
  IsVerdict draft answer v =
      ((w.is_blank draft ≡ true) × (v.approved ≡ true))
      ⊎ (((c : LlmCompletion) × (answer ≡ ok c)
            × (w.read_verdict c.content ≡ some v)
            × (v.approved ≡ true))
          ⊎ ((v.approved ≡ false)
              × ((v.revised_response ≡ some safe_reflection_failure)
                  ⊎ ((c : LlmCompletion) × (answer ≡ ok c)
                      × (w.read_verdict c.content ≡ some v)
                      × (has_text v.revised_response ≡ true)))))

  IsVerdict-refine :
      (draft : String) (c : LlmCompletion) (o : Option ReflectionVerdict)
      → w.read_verdict c.content ≡ o
      → IsVerdict draft (ok c) (or_failed (refine o))
  unfolding IsVerdict
  IsVerdict-refine draft c none e = inr (inr (refl, inl refl))
  IsVerdict-refine draft c (some v) e =
      elim (Bool-cases (v.approved || has_text v.revised_response)) [
        | inr n ↦ rw n (inr (inr (refl, inl refl)))
        | inl y ↦ rw y (elim (Bool-cases v.approved) [
          | inl a ↦ inr (inl (c, refl, e, a))
          | inr n ↦ inr (inr (n, inr (c, refl, e, ground arith)))
        ])
      ]

  IsVerdict-with_answer :
      (draft : String) (o : S × Result) → IsVerdict draft o.1 ((with_answer w o).1)
  unfolding IsVerdict
  IsVerdict-with_answer draft (s, err e) = inr (inr (refl, inl refl))
  IsVerdict-with_answer draft (s, ok c) = IsVerdict-refine draft c (w.read_verdict c.content) refl

  IsVerdict-blank :
      (draft : String) (answer : Result)
      → w.is_blank draft ≡ true
      → IsVerdict draft answer (record { approved = true; issues = []; revised_response = none })
  unfolding IsVerdict
  IsVerdict-blank draft answer y = inl (y, refl)

  -- Whatever the router does, a draft that is not blank is approved only where the answer of the model to
  -- this draft was read as its approval; in every other case it is rejected, with a text in its place.
  pub review-IsVerdict :
      (user_request draft : String) (results : List (ToolResult V)) (prompt : String) (s : S)
      → IsVerdict draft
          ((w.ask_review prompt (review_text w user_request draft results) s).1)
          ((review w user_request draft results prompt s).1)
  unfolding review
  review-IsVerdict user_request draft results prompt s = elim (Bool-cases (w.is_blank draft)) [
    | inl y ↦ rw y (IsVerdict-blank draft _ y)
    | inr n ↦ rw n (
        IsVerdict-with_answer draft
          (w.ask_review prompt (review_text w user_request draft results) s))
  ]
