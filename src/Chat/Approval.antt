-- ===== src/Chat/Approval.antt =====
-- The answer that is presented where responses are reviewed.
use capere_ai.Base.{
  ◌≡◌, refl, Bool, true, false, Option, none, some, String, str_eq, arith, Bool-cases, inl, inr,
  ◌⊎◌, List, [], ◌∷◌, ◌++◌, subst, sym,
}
use capere_ai.Auth.{Refusal, Checked, passed, refused}
use capere_ai.Memory.{Tables}
use capere_ai.Tools.{ToolResult}
use capere_ai.Reasoning.{ReasoningResult, or_else}
use capere_ai.Llm.Router.{LlmCompletion, Result, ok}
use capere_ai.Chat.Review.{
  ReflectionVerdict, review, has_text, safe_reflection_failure, describe_evidence,
}
use capere_ai.Chat.Review.Closed.{IsVerdict, review-IsVerdict}
use capere_ai.Chat.{
  Command, Intelligence, Flow, ChatEnd, and_next, of_checked, results_of, formatted, by_verdict,
  overriding,
}
use capere_ai.Chat.Response.{answered_verdict, final_answer}

module _ {V : Type 0} {S : Type 0} {Hit : Type 0} (w : Intelligence V S Hit) where
  -- The answer of the model to the review was read as the verdict.
  abbrev pub IsRead : Result → ReflectionVerdict → Type 0
  IsRead answer v =
      (c : LlmCompletion) × (answer ≡ ok c) × ((w.reviewer).read_verdict c.content ≡ some v)

  -- The draft as it is, if it is blank or the answer to its review was read as its approval; or another
  -- text, marked as revised: the one that this answer was read to have in place of a draft that it rejects,
  -- or the text for a review that failed.
  unfoldable pub Presents : Result → String → String × Bool × Bool → Type 0
  Presents answer draft (content, reviewed, revised) =
      (reviewed ≡ true)
      × (((revised ≡ false)
            × (content ≡ draft)
            × (((w.reviewer).is_blank draft ≡ true)
                ⊎ ((v : ReflectionVerdict) × (v.approved ≡ true) × IsRead answer v)))
          ⊎ ((revised ≡ true)
              × ((content ≡ safe_reflection_failure)
                  ⊎ ((v : ReflectionVerdict) × (v.approved ≡ false)
                      × (v.revised_response ≡ some content)
                      × IsRead answer v))))

  Presents-approved :
      (answer : Result) (draft : String) (b : Bool) (o : Option String)
      → b ≡ true
      → ((w.reviewer).is_blank draft ≡ true)
        ⊎ ((v : ReflectionVerdict) × (v.approved ≡ true) × IsRead answer v)
      → Presents answer draft (by_verdict w draft b o)
  unfolding Presents
  Presents-approved answer draft true o e h = (refl, inl (refl, refl, h))
  Presents-approved answer draft false o e h = absurd cc

  Presents-failed :
      (answer : Result) (draft : String) (b : Bool) (o : Option String)
      → b ≡ false
      → o ≡ some safe_reflection_failure
      → Presents answer draft (by_verdict w draft b o)
  unfolding Presents
  Presents-failed answer draft b o e f = rw (e, f) (refl, inr (refl, inl refl))

  Presents-rejected :
      (answer : Result) (draft : String) (v : ReflectionVerdict) (o : Option String)
      → v.approved ≡ false
      → v.revised_response ≡ o
      → has_text o ≡ true
      → IsRead answer v
      → Presents answer draft (by_verdict w draft false o)
  unfolding Presents
  Presents-rejected answer draft v none e f h read = absurd cc
  Presents-rejected answer draft v (some text) e f h read = elim (Bool-cases (str_eq text "")) [
    | inl y ↦ absurd (ground arith)
    | inr n ↦ rw n (refl, inr (refl, inr (v, e, f, read)))
  ]

  Presents-by_verdict :
      (draft : String) (answer : Result) (v : ReflectionVerdict)
      → IsVerdict w.reviewer draft answer v
      → Presents answer draft (by_verdict w draft v.approved v.revised_response)
  unfolding IsVerdict
  Presents-by_verdict draft answer v (inl (blank, approved)) =
      Presents-approved answer draft _ _ approved (inl blank)
  Presents-by_verdict draft answer v (inr (inl (c, e, read, approved))) =
      Presents-approved answer draft _ _ approved (inr (v, approved, (c, e, read)))
  Presents-by_verdict draft answer v (inr (inr (rejected, inl failed))) =
      Presents-failed answer draft _ _ rejected failed
  Presents-by_verdict draft answer v (inr (inr (rejected, inr (c, e, read, text)))) =
      subst (λ b. Presents answer draft (by_verdict w draft b v.revised_response)) (sym rejected)
        (Presents-rejected answer draft v v.revised_response rejected refl text (c, e, read))

  -- What is presented of a draft, by the answer that the model gives to a review with the organization's
  -- prompt, of the user's request, the evidence of the tools and this draft.
  unfoldable pub Reviewed :
      Command → List (ToolResult V) → String → S → String × Bool × Bool → Type 0
  Reviewed c results draft s a =
      (prompt : String) × (w.resolve_prompt "intelligence.response_review" c.organization_id
        ≡ passed prompt)
      × Presents
          (((w.reviewer).ask_review prompt
            ("USER REQUEST:\n"
                ∷ c.message
                ∷ "\n\nEVIDENCE AVAILABLE TO THE ASSISTANT:\n"
                ∷ describe_evidence (w.reviewer).output_text (w.reviewer).first_500 results
              ++ "\n\nDRAFT RESPONSE:\n" ∷ draft ∷ [])
            s).1)
          draft a

  -- What is presented where the draft is the model's, and where it is a formatted live check.
  unfoldable pub Answers :
      Command → List (ToolResult V) → Option String → String → S → String × Bool × Bool → Type 0
  Answers c results none content s a = Reviewed c results content s a
  Answers c results (some text) content s a = (a.0 ≡ text) × (a.2 ≡ false)

  Answers-overriding :
      (c : Command) (results : List (ToolResult V)) (o : Option String) (content : String) (s : S)
      (a : String × Bool × Bool)
      → Reviewed c results (or_else o content) s a
      → Answers c results o content s (overriding w o a)
  unfolding Answers
  Answers-overriding c results none content s a h = h
  Answers-overriding c results (some text) content s (x, reviewed, revised) h = (refl, refl)

  -- The tables stay as they are, and an answer is given; it is refused only where the organization has no
  -- prompt for the review.
  unfoldable pub Concludes :
      Command → Tables → (String × Bool × Bool → Type 0) → Flow S (String × Bool × Bool) → Type 0
  Concludes c t Q (Flow.next t1 s1 a) = (t1 ≡ t) × Q a
  Concludes c t Q (Flow.stop t1 s1 e) =
      (r : Refusal) × (e ≡ ChatEnd.refusal r)
      × (w.resolve_prompt "intelligence.response_review" c.organization_id ≡ refused r)

  Concludes-reviewed :
      (c : Command) (live : Option (String × ToolResult V)) (content : String)
      (results : List (ToolResult V)) (t : Tables) (s : S) (o : Checked String)
      → w.resolve_prompt "intelligence.response_review" c.organization_id ≡ o
      → Concludes c t (Answers c results (formatted w c live) content s) (
          and_next
            (and_next (of_checked t s o) (λ t1 s1 prompt.
              answered_verdict w (or_else (formatted w c live) content) t1 (
                review w.reviewer c.message
                  (or_else (formatted w c live) content)
                  results
                  prompt
                  s1)))
            (λ t1 s1 a. Flow.next t1 s1 (overriding w (formatted w c live) a)))
  unfolding Concludes Reviewed
  Concludes-reviewed c live content results t s (refused r) e = (r, refl, e)
  Concludes-reviewed c live content results t s (passed prompt) e =
      let draft = or_else (formatted w c live) content in
      (
        refl,
        Answers-overriding c results (formatted w c live) content s _ (
          prompt,
          e,
          Presents-by_verdict draft _ _
              (review-IsVerdict w.reviewer c.message draft results prompt s),
        ),
      )

  -- Where responses are reviewed, an answer is given if the organization has a prompt for the review. It is
  -- the formatted result of a live check; or the draft, if it is blank or the answer of the model to the
  -- review of this request, its evidence and this draft was read as its approval; or marked as revised, the
  -- text that this answer was read to have in place of a draft that it rejects, or the text for a review
  -- that failed. No draft is presented as it is because its review failed.
  pub final_answer-Answers :
      (c : Command) (live : Option (String × ToolResult V)) (r : ReasoningResult V) (t : Tables)
      (s : S)
      → w.is_enabled "intelligence.response_review" ≡ true
      → Concludes c t
          (Answers c (results_of w live r.tool_results) (formatted w c live) r.content s)
          (final_answer w c live r t s)
  final_answer-Answers c live r t s on = rw on (
      Concludes-reviewed c live r.content (results_of w live r.tool_results) t s
        (w.resolve_prompt "intelligence.response_review" c.organization_id) refl)
