-- ===== src/Chat/Scope/Respond.antt =====
-- A call only adds turns of its own session, and none where it is ephemeral.
use capere_ai.Base.{
  ℕ, ◌≡◌, refl, ◌&&◌, Option, none, some, List, [], ◌∷◌, String, All, All-append, All-map, All-of,
  Bool-cases, inl, inr,
}
use capere_ai.Memory.{Tables, MemorySnapshot}
use capere_ai.Tools.{ToolResult, has}
use capere_ai.Reasoning.{LlmRole, LlmMessage, ReasoningResult, RunEnd, or_else, run}
use capere_ai.Chat.Review.{ReflectionVerdict, review}
use capere_ai.Chat.Policy.{CapabilityPolicy, resolve_policy}
use capere_ai.Chat.Turns.{history_of, turn, call_turn, turns_of_message, transcript_turns}
use capere_ai.Chat.{
  Command, Intelligence, check_flag, open_session, check_session, keep_turn, preflight_tool,
  preflight, checked_live, request_of, ended, results_of, formatted,
}
use capere_ai.Chat.Response.{
  with_prompt, answered_verdict, reviewed_answer, final_answer, keep_transcript, conclude, converse,
  respond,
}
use capere_ai.Chat.Scope.{
  Holds, Holds-and_next, Holds-of_checked, Any, own_id, IsOwn, OwnTurn, Kept, Opened,
  Holds-check_flag, Holds-open_session, Holds-check_session, Holds-keep_turn, Holds-keep_turns,
}

module _ {V : Type 0} {S : Type 0} {Hit : Type 0} (w : Intelligence V S Hit) (c : Command)
    (new_id : ℕ) (P : Tables → Type 0) where
  OwnTurn-turns_of_message :
      (id : ℕ) (m : LlmMessage)
      → id ≡ own_id w c new_id P
      → (role : LlmRole)
      → All
          (OwnTurn w c new_id P)
          (turns_of_message (w.wording).arguments_text id c.organization_id m role)
  unfolding OwnTurn
  OwnTurn-turns_of_message id m own LlmRole.assistant =
      All-map (OwnTurn w c new_id P)
        (call_turn (w.wording).arguments_text id c.organization_id m.content) m.tool_calls
        (All-of _ (λ call. (own, refl)) m.tool_calls)
  OwnTurn-turns_of_message id m own LlmRole.tool = ((own, refl), tt)
  OwnTurn-turns_of_message id m own LlmRole.system = tt
  OwnTurn-turns_of_message id m own LlmRole.user = tt

  OwnTurn-transcript_turns :
      (id : ℕ) (ms : List LlmMessage)
      → id ≡ own_id w c new_id P
      → All
          (OwnTurn w c new_id P)
          (transcript_turns (w.wording).arguments_text id c.organization_id ms)
  unfolding transcript_turns
  OwnTurn-transcript_turns id [] own = tt
  OwnTurn-transcript_turns id (m ∷ ms) own =
      All-append (OwnTurn w c new_id P) _ _ (OwnTurn-turns_of_message id m own m.role)
        (OwnTurn-transcript_turns id ms own)

  module _ (kept : Kept w c new_id P) (opened : Opened w c new_id P) where
    Holds-keep_transcript :
        (o : Option ℕ) (ms : List LlmMessage) (t : Tables) (s : S)
        → IsOwn w c new_id P o
        → P t
        → Holds P Any (keep_transcript w c o ms t s)
    unfolding Holds
    Holds-keep_transcript none ms t s own p = (p, tt)
    Holds-keep_transcript (some id) ms t s own p = elim (Bool-cases c.ephemeral) [
      | inl y ↦ rw y (p, tt)
      | inr n ↦
          rw n (
            Holds-keep_turns w c new_id P kept opened _ t s n (OwnTurn-transcript_turns id ms own)
              p)
    ]

    Holds-checked_live :
        (t : Tables) (name : String) (o : S × Option (ToolResult V))
        → P t
        → Holds P Any (checked_live w t name o)
    unfolding Holds
    Holds-checked_live t name (s, none) p = p
    Holds-checked_live t name (s, some r) p = (p, tt)

    Holds-preflight :
        (q : CapabilityPolicy) (session : Option ℕ) (o : Option String) (t : Tables) (s : S)
        → P t
        → Holds P Any (preflight w c q session o t s)
    unfolding Holds
    Holds-preflight q session none t s p = (p, tt)
    Holds-preflight q session (some name) t s p =
        elim (Bool-cases
          (w.is_enabled "intelligence.bounded_tools" && has (w.service).tools name)) [
            | inl y ↦ rw y (Holds-checked_live t name _ p)
            | inr n ↦ rw n (p, tt)
          ]

    Holds-ended : (t : Tables) (o : S × RunEnd V) → P t → Holds P Any (ended w t o)
    unfolding Holds
    Holds-ended t (s, RunEnd.finished r) p = (p, tt)
    Holds-ended t (s, RunEnd.rejected e) p = p
    Holds-ended t (s, RunEnd.stuck) p = p

    Holds-answered_verdict :
        (draft : String) (t : Tables) (o : S × ReflectionVerdict)
        → P t
        → Holds P Any (answered_verdict w draft t o)
    unfolding Holds
    Holds-answered_verdict draft t (s, v) p = (p, tt)

    Holds-with_prompt :
        (name : String) (t : Tables) (s : S) → P t → Holds P Any (with_prompt w c name t s)
    Holds-with_prompt name t s p =
        Holds-of_checked P t s (w.resolve_prompt name c.organization_id) p

    Holds-reviewed_answer :
        (draft : String) (results : List (ToolResult V)) (t : Tables) (s : S)
        → P t
        → Holds P Any (reviewed_answer w c draft results t s)
    unfolding Holds
    Holds-reviewed_answer draft results t s p =
        elim (Bool-cases (w.is_enabled "intelligence.response_review")) [
          | inl y ↦ rw y (
              Holds-and_next P Any Any (with_prompt w c "intelligence.response_review" t s) _
                (Holds-with_prompt "intelligence.response_review" t s p)
                (λ t1 s1 prompt p1 x.
                  Holds-answered_verdict draft t1
                    (review w.reviewer c.message draft results prompt s1) p1))
          | inr n ↦ rw n (p, tt)
        ]

    Holds-final_answer :
        (live : Option (String × ToolResult V)) (r : ReasoningResult V) (t : Tables) (s : S)
        → P t
        → Holds P Any (final_answer w c live r t s)
    unfolding Holds
    Holds-final_answer live r t s p =
        Holds-and_next P Any Any _ _
          (Holds-reviewed_answer (or_else (formatted w c live) r.content)
            (results_of w live r.tool_results) t s p)
          (λ t1 s1 a p1 x. (p1, tt))

    Holds-conclude :
        (session : Option ℕ) (history : List LlmMessage) (live : Option (String × ToolResult V))
        (r : ReasoningResult V) (t : Tables) (s : S)
        → IsOwn w c new_id P session
        → P t
        → Holds P Any (conclude w c session history live r t s)
    unfolding Holds OwnTurn
    Holds-conclude session history live r t s own p =
        Holds-and_next P Any Any _ _ (Holds-final_answer live r t s p) (λ t1 s1 a p1 x.
          Holds-and_next P Any Any _ _ (Holds-keep_transcript session _ t1 s1 own p1)
            (λ t2 s2 u p2 x2.
              Holds-and_next P Any Any _ _
                (Holds-keep_turn w c new_id P kept opened session _ t2 s2 own (λ id e. (e, refl))
                  p2)
                (λ t3 s3 u' p3 x3. (p3, tt))))

    Holds-converse :
        (q : CapabilityPolicy) (session : Option ℕ) (memory : MemorySnapshot Hit) (prompt : String)
        (t : Tables) (s : S)
        → IsOwn w c new_id P session
        → P t
        → Holds P Any (converse w c q session memory prompt t s)
    unfolding Holds OwnTurn
    Holds-converse q session memory prompt t s own p =
        let first = λ (id : ℕ). turn id c.organization_id LlmRole.user (c.message ∷ []) in
        Holds-and_next P Any Any (keep_turn w c session first t s) _
          (Holds-keep_turn w c new_id P kept opened session first t s own (λ id e. (e, refl)) p)
          (λ t1 s1 u p1 x1.
            Holds-and_next P Any Any (preflight w c q session (preflight_tool w c q) t1 s1) _
              (Holds-preflight q session (preflight_tool w c q) t1 s1 p1)
              (λ t2 s2 live p2 x2.
                Holds-and_next P Any Any
                  (ended w t2 (run w.service (request_of w c q session prompt memory live) s2)) _
                  (Holds-ended t2 (run w.service (request_of w c q session prompt memory live) s2)
                    p2)
                  (λ t3 s3 r p3 x3.
                    Holds-conclude session (history_of memory.conversation) live r t3 s3 own p3)))

    -- Each step of a call keeps P, where the turns and the session of the call do.
    pub Holds-respond : (t : Tables) (s : S) → P t → Holds P Any (respond w new_id c t s)
    unfolding respond
    Holds-respond t s p =
        let q = resolve_policy c.capability in
        Holds-and_next P Any Any (check_flag w q.enabled_flag t s) _
          (Holds-check_flag w c new_id P kept opened q.enabled_flag t s p)
          (λ t1 s1 u p1 x1.
            Holds-and_next P (IsOwn w c new_id P) Any (open_session w new_id c q c.session_id t1 s1)
              _ (Holds-open_session w c new_id P kept opened q c.session_id t1 s1 refl p1)
              (λ t2 s2 session p2 own.
                Holds-and_next P Any Any (check_session w c c.session_id t2 s2) _
                  (Holds-check_session w c new_id P kept opened c.session_id t2 s2 p2)
                  (λ t3 s3 u' p3 x3.
                    Holds-and_next P Any Any (with_prompt w c q.system_prompt t3 s3) _
                      (Holds-with_prompt q.system_prompt t3 s3 p3)
                      (λ t4 s4 prompt p4 x4. Holds-converse q session _ prompt t4 s4 own p4))))
