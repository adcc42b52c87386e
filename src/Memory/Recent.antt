-- ===== src/Memory/Recent.antt =====
-- What `recent` returns of the turns of a session.
use capere_ai.Base.{
  ℕ, suc, ◌≡◌, refl, sym, subst, ap, ◌∙◌, true, false, [], ◌∷◌, ◌++◌, String, str_eq, eq_refl,
  arith, take, select, rev, last, rev-take, last-append, IsAscending, order_by_desc-rev,
  select-IsAscending, select-select, select-append, if◌then◌else◌,
}
use mathlib.Core.List.{append-nil}
use capere_ai.Auth.{passed}
use capere_ai.Memory.{
  MessageRow, Tables, NewTurn, of_session, in_session, sequence_of, last_sequence, message_row,
  append, recent,
}
use capere_ai.Memory.Sequence.{HasSequence, Numbered-IsAscending, appended_row, append-HasSequence}

-- Where the sessions are numbered, the recent turns are the last ones of the session in the order in
-- which they were appended.
pub recent-last :
    (org : String) (id n : ℕ) (t : Tables)
    → HasSequence t.messages
    → recent org id n t ≡ last n (select (in_session org id) t.messages)
unfolding recent HasSequence
recent-last org id n t h =
    let rows = select (in_session org id) t.messages in
    let up : IsAscending sequence_of rows =
      subst (IsAscending sequence_of)
        (sym (select-select (of_session id) (λ m. str_eq m.organization_id org) t.messages))
        (select-IsAscending sequence_of (λ m. str_eq m.organization_id org)
          (select (of_session id) t.messages)
          ((Numbered-IsAscending 0 (select (of_session id) t.messages) (h id)).0)) in
    ap (λ z. rev (take n z)) (order_by_desc-rev sequence_of rows up) ∙ rev-take n rows

module _ (now : ℕ) (p : NewTurn) (t t' : Tables) (h : HasSequence t.messages)
    (e : append now p t ≡ passed t') where
  abbrev new : MessageRow
  new = message_row now p (suc (last_sequence p.session_id t.messages))

  rows_after :
      (org : String) (id : ℕ)
      → select (in_session org id) t'.messages
        ≡ select (in_session org id) t.messages ++ (if in_session org id new then new ∷ [] else [])
  rows_after org id =
      ap (select (in_session org id)) (appended_row now p t t' e)
      ∙ select-append (in_session org id) t.messages new

  -- Where the sessions are numbered, an accepted turn is the last of the recent ones of its session,
  -- after those that were recent before.
  pub recent-append :
      (n : ℕ)
      → recent p.organization_id p.session_id (suc n) t'
        ≡ recent p.organization_id p.session_id n t
          ++ message_row now p (suc (last_sequence p.session_id t.messages)) ∷ []
  recent-append n =
      let mine : in_session p.organization_id p.session_id new ≡ true =
        rw (eq_refl p.organization_id) ground arith in
      recent-last p.organization_id p.session_id (suc n) t' (append-HasSequence now p t t' h e)
      ∙ ap (last (suc n)) (rows_after p.organization_id p.session_id ∙ rw mine refl)
      ∙ last-append n (select (in_session p.organization_id p.session_id) t.messages) new
      ∙ ap (λ z. z ++ new ∷ []) (sym (recent-last p.organization_id p.session_id n t h))

  -- The recent turns of another session, or of another organization, stay as they were.
  pub recent-append_other :
      (org : String) (id n : ℕ)
      → in_session org id new ≡ false
      → recent org id n t' ≡ recent org id n t
  recent-append_other org id n other =
      recent-last org id n t' (append-HasSequence now p t t' h e)
      ∙ ap (last n)
          (rows_after org id ∙ rw other (append-nil (select (in_session org id) t.messages)))
      ∙ sym (recent-last org id n t h)
