-- ===== src/Memory/Sequence.antt =====
-- The messages of a session are numbered from 1 in the order in which they were appended.
use capere_ai.Base.{
  ℕ, suc, ◌+◌, ◌<◌, ◌≡◌, refl, sym, subst, ap, ◌∙◌, ◌==◌, List, [], ◌∷◌, ◌++◌, arith, length, any,
  select, order_by_desc, All, All-imp, rev, IsAscending, order_by_desc-rev, select-append,
  Bool-cases, inl, inr,
}
use mathlib.Core.List.{append-nil}
use capere_ai.Auth.{passed, passed_same, passed_if}
use capere_ai.Memory.{
  MessageRow, Tables, NewTurn, of_session, sequence_of, is_own_session, first_sequence,
  last_sequence, message_row, append, session_not_found,
}

unfoldable pub Numbered : ℕ → List MessageRow → Type 0
Numbered k [] = Unit
Numbered k (m ∷ ms) = (m.sequence ≡ suc k) × Numbered (suc k) ms

unfoldable pub HasSequence : List MessageRow → Type 0
HasSequence messages = (id : ℕ) → Numbered 0 (select (of_session id) messages)

pub Numbered-IsAscending :
    (k : ℕ) (ms : List MessageRow)
    → Numbered k ms
    → IsAscending sequence_of ms × All (λ m. k < m.sequence) ms
unfolding Numbered
Numbered-IsAscending k [] h = (tt, tt)
Numbered-IsAscending k (m ∷ ms) (e, h) =
    let rest = Numbered-IsAscending (suc k) ms h in
    (
      (
        All-imp (λ x. suc k < x.sequence) (λ x. m.sequence < x.sequence) (λ x lt. ground arith) ms
            rest.1,
        rest.0,
      ),
      (
        omega (arith, e),
        All-imp (λ x. suc k < x.sequence) (λ x. k < x.sequence) (λ x lt. omega (arith, lt)) ms
            rest.1,
      ),
    )

first_kept :
    (zs : List MessageRow) (y x : MessageRow)
    → first_sequence ((zs ++ y ∷ []) ++ x ∷ []) ≡ first_sequence (zs ++ y ∷ [])
first_kept [] y x = refl
first_kept (z ∷ zs) y x = refl

first_sequence-rev :
    (k : ℕ) (m : MessageRow) (ms : List MessageRow)
    → Numbered k (m ∷ ms)
    → first_sequence (rev ms ++ m ∷ []) ≡ suc (k + length ms)
unfolding Numbered
first_sequence-rev k m [] (e, h) = omega (arith, e)
first_sequence-rev k m (n ∷ ms) (e, h) =
    first_kept (rev ms) n m ∙ first_sequence-rev (suc k) n ms h ∙ omega arith

last_sequence-length :
    (id : ℕ) (messages : List MessageRow)
    → Numbered 0 (select (of_session id) messages)
    → last_sequence id messages ≡ length (select (of_session id) messages)
last_sequence-length id messages h = go (select (of_session id) messages) h
  where
    go :
        (ms : List MessageRow)
        → Numbered 0 ms
        → first_sequence (order_by_desc sequence_of ms) ≡ length ms
    go [] h = refl
    go (m ∷ ms) h =
        ap first_sequence
          (order_by_desc-rev sequence_of (m ∷ ms) ((Numbered-IsAscending 0 (m ∷ ms) h).0))
        ∙ first_sequence-rev 0 m ms h
        ∙ omega arith

Numbered-append :
    (k : ℕ) (ms : List MessageRow) (m : MessageRow)
    → Numbered k ms
    → m.sequence ≡ suc (k + length ms)
    → Numbered k (ms ++ m ∷ [])
unfolding Numbered
Numbered-append k [] m h e = (omega (arith, e), tt)
Numbered-append k (x ∷ ms) m (s, h) e = (s, Numbered-append (suc k) ms m h (omega (arith, e)))

-- The rows after an accepted turn.
pub appended_row :
    (now : ℕ) (p : NewTurn) (t t' : Tables)
    → append now p t ≡ passed t'
    → t'.messages
      ≡ t.messages ++ message_row now p (suc (last_sequence p.session_id t.messages)) ∷ []
unfolding append
appended_row now p t t' h =
    let done =
      passed_if (any (is_own_session p.session_id p.organization_id) t.sessions) session_not_found _
        t' h in
    sym (ap (λ (x : Tables). x.messages) (passed_same _ t' done.1))

-- Where the messages of every session are numbered from 1 in the order of the rows, they are so after
-- any turn that is accepted.
pub append-HasSequence :
    (now : ℕ) (p : NewTurn) (t t' : Tables)
    → HasSequence t.messages
    → append now p t ≡ passed t'
    → HasSequence t'.messages
unfolding HasSequence
append-HasSequence now p t t' h e id =
    let new = message_row now p (suc (last_sequence p.session_id t.messages)) in
    subst (λ ms. Numbered 0 (select (of_session id) ms)) (sym (appended_row now p t t' e))
      (rw (select-append (of_session id) t.messages new) (elim (Bool-cases (p.session_id == id)) [
        | inl y ↦
            let same : p.session_id ≡ id = ground arith in
            rw y (
              Numbered-append 0 (select (of_session id) t.messages) new (h id) (
                omega (
                  arith,
                  last_sequence-length p.session_id t.messages (h p.session_id),
                  ap (λ i. length (select (of_session i) t.messages)) same,
                )))
        | inr n ↦
            rw n (subst (Numbered 0) (sym (append-nil (select (of_session id) t.messages))) (h id))
      ]))
