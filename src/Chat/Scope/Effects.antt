-- ===== src/Chat/Scope/Effects.antt =====
-- The tables after a call.
use capere_ai.Base.{
  ℕ, ◌≡◌, refl, sym, ap, subst, suc, ◌∙◌, ◌==◌, str_eq, true, ◌&&◌, List, [], ◌∷◌, ◌++◌, String,
  eq_refl, arith, All, All-append,
}
use mathlib.Core.List.{append-nil, append_assoc}
use capere_ai.Memory.{MessageRow, Tables, in_session, create_session, last_sequence, message_row}
use capere_ai.Memory.Sequence.{HasSequence, appended_row, append-HasSequence}
use capere_ai.Chat.{Command, Intelligence, Flow}
use capere_ai.Reasoning.{or_else}
use capere_ai.Chat.Scope.{Holds, Any, OwnTurn, Kept, Opened}
use capere_ai.Chat.Scope.Respond.{Holds-respond}
use capere_ai.Chat.Response.{respond}

-- The tables where a flow goes on or stops.
abbrev pub tables_of : {S A : Type 0} → Flow S A → Tables
tables_of (Flow.next t s a) = t
tables_of (Flow.stop t s e) = t

holds_of : {S A : Type 0} (P : Tables → Type 0) (f : Flow S A) → Holds P Any f → P (tables_of f)
unfolding Holds
holds_of P (Flow.next t s a) h = h.0
holds_of P (Flow.stop t s e) h = h

-- Messages of one session and organization were added after those that were there.
unfoldable pub Adds : String → ℕ → List MessageRow → List MessageRow → Type 0
Adds org id before after =
    (new : List MessageRow) × (after ≡ before ++ new) × All (λ m. in_session org id m ≡ true) new

module _ {V : Type 0} {S : Type 0} {Hit : Type 0} (w : Intelligence V S Hit) (c : Command)
    (new_id : ℕ) (t : Tables) (s : S) where
  -- An ephemeral call leaves the tables as they were, however it ends.
  pub respond_ephemeral : c.ephemeral ≡ true → tables_of (respond w new_id c t s) ≡ t
  unfolding Kept Opened
  respond_ephemeral e =
      holds_of (λ t'. t' ≡ t) (respond w new_id c t s)
        (Holds-respond w c new_id (λ t'. t' ≡ t) (λ n. absurd cc) (λ n. absurd cc) t s refl)

  -- However a call ends, the messages of the other sessions and organizations are as they were: it only
  -- adds messages of its own session and organization after the others.
  pub respond-Adds :
      Adds c.organization_id
        (or_else c.session_id new_id)
        t.messages
        (tables_of (respond w new_id c t s)).messages
  unfolding Adds Kept Opened OwnTurn create_session
  respond-Adds =
      let P = λ (t' : Tables).
        Adds c.organization_id (or_else c.session_id new_id) t.messages t'.messages in
      holds_of P (respond w new_id c t s) (
        Holds-respond w c new_id P
          (λ n now p t1 t2 own e (new, same, all).
            let row = message_row now p (suc (last_sequence p.session_id t1.messages)) in
            let mine : in_session c.organization_id (or_else c.session_id new_id) row ≡ true =
              subst
                (λ o.
                  str_eq o c.organization_id && p.session_id == or_else c.session_id new_id ≡ true)
                (sym own.1) (rw (eq_refl c.organization_id) ground (arith, own.0)) in
            (
              new ++ row ∷ [],
              appended_row now p t1 t2 e
                  ∙ ap (λ z. z ++ row ∷ []) same
                  ∙ append_assoc t.messages new (row ∷ []),
              All-append (λ m. in_session c.organization_id (or_else c.session_id new_id) m ≡ true)
                  new (row ∷ []) all (mine, tt),
            ))
          (λ n agent title t1 p. p) t s ([], sym (append-nil t.messages), tt))

  -- Where the messages of every session are numbered from 1 in the order of the rows, they are so after a
  -- call, however it ends.
  pub respond-HasSequence :
      HasSequence t.messages → HasSequence (tables_of (respond w new_id c t s)).messages
  unfolding Kept Opened create_session
  respond-HasSequence h =
      holds_of (λ t'. HasSequence t'.messages) (respond w new_id c t s)
        (Holds-respond w c new_id (λ t'. HasSequence t'.messages)
          (λ n now p t1 t2 own e h1. append-HasSequence now p t1 t2 h1 e)
          (λ n agent title t1 h1. h1) t s h)
