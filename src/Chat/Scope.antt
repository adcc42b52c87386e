-- ===== src/Chat/Scope.antt =====
-- What a call does to the tables of the conversations, however it ends: what each step keeps of them.
pub mod Respond
pub mod Effects
use capere_ai.Base.{
  ℕ, ◌+◌, ◌≡◌, refl, sym, subst, ap, ◌∙◌, Bool, true, false, not, ◌&&◌, ◌||◌, ◌==◌, Option, none,
  some, List, [], ◌∷◌, ◌++◌, String, str_eq, eq_refl, arith, map, any, All, All-append, All-map,
  All-of, Bool-cases, inl, inr, if◌then◌else◌,
}
use mathlib.Core.List.{append-nil, append_assoc}
use capere_ai.Auth.{Refusal, Checked, passed, refused, passed_if, passed_same}
use capere_ai.Rag.Text.{drop}
use capere_ai.Memory.{
  MessageRow, NewTurn, Tables, MemorySnapshot, snapshot, append, create_session,
  assert_session_access, session_not_found, in_session, last_sequence, message_row, is_own_session,
  admits_user,
}
use capere_ai.Memory.Sequence.{HasSequence, appended_row, append-HasSequence}
use capere_ai.Tools.{ToolResult}
use capere_ai.Reasoning.{LlmRole, LlmMessage, ReasoningResult, RunEnd, or_else, run}
use capere_ai.Chat.Review.{ReflectionVerdict, review}
use capere_ai.Chat.Policy.{CapabilityPolicy, resolve_policy}
use capere_ai.Chat.Turns.{
  history_of, turn, call_turn, tool_turn, turns_of_message, transcript_turns,
}
use capere_ai.Chat.{
  Command, ChatResponse, Intelligence, Flow, ChatEnd, and_next, of_checked, of_change, check_flag,
  open_session, check_session, either_user, keep_turn, keep_turns, preflight_tool, preflight,
  checked_live, prompt_messages, prior_of, request_of, ended, results_of, formatted, overriding,
  by_verdict,
}
use capere_ai.Chat.Response.{
  with_prompt, answered_verdict, reviewed_answer, final_answer, input_count, last_turn,
  keep_transcript, response, conclude, converse, respond,
}

module _ {S : Type 0} (P : Tables → Type 0) where
  -- The tables satisfy P where the flow goes on, with a result that satisfies Q, and where it stops.
  unfoldable pub Holds : {A : Type 0} → (A → Type 0) → Flow S A → Type 0
  Holds Q (Flow.next t s a) = P t × Q a
  Holds Q (Flow.stop t s e) = P t

  pub Holds-and_next :
      {A B : Type 0} (Q : A → Type 0) (R : B → Type 0) (f : Flow S A)
      (k : Tables → S → A → Flow S B)
      → Holds Q f
      → ((t : Tables) (s : S) (a : A) → P t → Q a → Holds R (k t s a))
      → Holds R (and_next f k)
  unfolding Holds
  Holds-and_next Q R (Flow.next t s a) k (p, q) h = h t s a p q
  Holds-and_next Q R (Flow.stop t s e) k p h = p

  pub Holds-of_checked :
      {A : Type 0} (t : Tables) (s : S) (a : Checked A)
      → P t
      → Holds (λ (x : A). Unit {0}) (of_checked t s a)
  unfolding Holds
  Holds-of_checked t s (passed a) p = (p, tt)
  Holds-of_checked t s (refused r) p = p

  pub Holds-of_change :
      (t : Tables) (s : S) (o : Checked Tables)
      → P t
      → ((t' : Tables) → o ≡ passed t' → P t')
      → Holds (λ (u : Unit {0}). Unit {0}) (of_change t s o)
  unfolding Holds
  Holds-of_change t s (passed t') p h = (h t' refl, tt)
  Holds-of_change t s (refused r) p h = p

abbrev pub Any : {A : Type 0} → A → Type 0
Any a = Unit {0}

module _ {V : Type 0} {S : Type 0} {Hit : Type 0} (w : Intelligence V S Hit) (c : Command)
    (new_id : ℕ) (P : Tables → Type 0) where
  -- The session of the call.
  abbrev pub own_id : ℕ
  own_id = or_else c.session_id new_id

  abbrev pub IsOwn : Option ℕ → Type 0
  IsOwn none = Unit {0}
  IsOwn (some id) = id ≡ own_id

  -- A turn of the call's session and organization.
  unfoldable pub OwnTurn : NewTurn → Type 0
  OwnTurn p = (p.session_id ≡ own_id) × (p.organization_id ≡ c.organization_id)

  unfoldable pub Kept : Type 0
  Kept =
      c.ephemeral ≡ false
      → (now : ℕ) (p : NewTurn) (t t' : Tables) → OwnTurn p
      → append now p t ≡ passed t'
      → P t
      → P t'

  unfoldable pub Opened : Type 0
  Opened =
      c.ephemeral ≡ false
      → (agent : String) (title : Option String) (t : Tables) → P t
      → P (create_session new_id c.organization_id c.user_id agent title t)

  module _ (kept : Kept) (opened : Opened) where
    pub Holds-check_flag :
        (o : Option String) (t : Tables) (s : S) → P t → Holds P Any (check_flag w o t s)
    unfolding Holds
    Holds-check_flag none t s p = (p, tt)
    Holds-check_flag (some flag) t s p = elim (Bool-cases (w.is_enabled flag)) [
      | inl y ↦ rw y (p, tt)
      | inr n ↦ rw n p
    ]

    pub Holds-open_session :
        (q : CapabilityPolicy) (o : Option ℕ) (t : Tables) (s : S)
        → c.session_id ≡ o
        → P t
        → Holds P IsOwn (open_session w new_id c q o t s)
    unfolding Holds Opened
    Holds-open_session q (some id) t s e p = (p, rw e refl)
    Holds-open_session q none t s e p = elim (Bool-cases c.ephemeral) [
      | inl y ↦ rw y (p, tt)
      | inr n ↦ rw n (opened n _ _ t p, rw e refl)
    ]

    pub Holds-check_session :
        (o : Option ℕ) (t : Tables) (s : S) → P t → Holds P Any (check_session w c o t s)
    unfolding Holds assert_session_access
    Holds-check_session none t s p = (p, tt)
    Holds-check_session (some id) t s p =
        Holds-of_change P t s _ p
          (λ t' e. subst P (passed_same t t' ((passed_if _ session_not_found (passed t) t' e).1)) p)

    pub Holds-keep_turn :
        (o : Option ℕ) (make : ℕ → NewTurn) (t : Tables) (s : S)
        → IsOwn o
        → ((id : ℕ) → id ≡ own_id → OwnTurn (make id))
        → P t
        → Holds P Any (keep_turn w c o make t s)
    unfolding Holds Kept
    Holds-keep_turn none make t s own h p = (p, tt)
    Holds-keep_turn (some id) make t s own h p = elim (Bool-cases c.ephemeral) [
      | inl y ↦ rw y (p, tt)
      | inr n ↦ rw n (Holds-of_change P t s _ p (λ t' e. kept n _ (make id) t t' (h id own) e p))
    ]

    pub Holds-keep_turns :
        (ps : List NewTurn) (t : Tables) (s : S)
        → c.ephemeral ≡ false
        → All OwnTurn ps
        → P t
        → Holds P Any (keep_turns w ps t s)
    unfolding Holds keep_turns Kept
    Holds-keep_turns [] t s n own p = (p, tt)
    Holds-keep_turns (q ∷ ps) t s n (first, own) p =
        Holds-and_next P Any Any _ _ (Holds-of_change P t s _ p (λ t' e. kept n _ q t t' first e p))
          (λ t' s' u p' x. Holds-keep_turns ps t' s' n own p')
