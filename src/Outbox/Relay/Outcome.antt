-- ===== src/Outbox/Relay/Outcome.antt =====
-- What a pass does to the table, when nothing but the relay and its insights runs write to it meanwhile.
use capere_ai.Base.{
  ℕ, ◌≡◌, ◌≢◌, refl, sym, ap, ap₂, ◌∙◌, subst, Bool, true, false, Option, none, some, List, [], ◌∷◌,
  ◌++◌, ◌+◌, take, map-append, map, arith, elem, find, update, length, All, All-imp, All-zip,
  All-ne, All-elem, Distinct, Distinct-unique, Distinct-take, Distinct-order_by, Distinct-select,
  is_some, ◌==◌, if◌then◌else◌, ==_iff, Bool-cases, Option-cases, inl, inr,
}
use capere_ai.Outbox.{
  EventRow, Table, Text, DomainEvent, ClaimedDomainEvent, to_event, claim, ids, claim_rows,
  claim_batch, owns, mark_consumed, mark_failed,
}
use mathlib.Core.List.{map-id, append-nil, append_assoc}
use capere_ai.Outbox.Bus.{Registry}
use capere_ai.Outbox.Ownership.{claimed_ids, claimed_ids-claim_batch, claim_rows-All, owner_finds}
use capere_ai.Outbox.Relay.{
  Lost, Insights, batch_size, deliver_all, deliver_all-settled, tick, finish,
}

module _ (outcome : DomainEvent → Option Text) (now token : ℕ) where
  -- The row of a delivered event: consumed, or failed once more, with the error, and free again.
  abbrev pub settled : EventRow → DomainEvent → EventRow
  settled r e = elim (outcome e) [
    | none ↦ record r {
      consumed_at = some now;
      published_at = some now;
      claimed_at = none;
      claim_token = none;
    }
    | some error ↦ record r {
      attempts = r.attempts + 1;
      last_error = some (take 2000 error);
      claimed_at = none;
      claim_token = none;
    }
  ]

  -- The settlements of a list of rows' events, one after the other, as they meet one row.
  abbrev apply : List EventRow → EventRow → EventRow
  apply [] r = r
  apply (b ∷ bs) r = apply bs (if owns b.id token r then settled r (to_event b) else r)

  apply_free : (bs : List EventRow) (r : EventRow) → r.claim_token ≡ none → apply bs r ≡ r
  apply_free [] r e = refl
  apply_free (b ∷ bs) r e = ground (arith, apply_free bs r e)

  settled-free : (r : EventRow) (e : DomainEvent) → (settled r e).claim_token ≡ none
  settled-free r e = ground arith

  apply_miss : (bs : List EventRow) (r : EventRow) → elem r.id (ids bs) ≡ false → apply bs r ≡ r
  apply_miss [] r h = refl
  apply_miss (b ∷ bs) r h = ground (arith, apply_miss bs r)

  apply_hit :
      (bs : List EventRow) (r : EventRow) (at : ℕ)
      → All (λ b. r.id ≡ b.id → r ≡ b) bs
      → elem r.id (ids bs) ≡ true
      → apply bs (claim token at r) ≡ settled r (to_event r)
  apply_hit [] r at same h = cc
  apply_hit (b ∷ bs) r at (same, later) h = elim (Bool-cases (r.id == b.id)) [
    | inl e ↦ hit (same ((==_iff r.id b.id).0 e))
    | inr e ↦ ground (arith, apply_hit bs r at later)
  ]
    where
      hit : r ≡ b → apply (b ∷ bs) (claim token at r) ≡ settled r (to_event r)
      hit e =
          subst (λ c. apply (c ∷ bs) (claim token at r) ≡ settled r (to_event r)) e
            (ground (
              arith,
              apply_free bs (settled (claim token at r) (to_event r))
                  (settled-free (claim token at r) (to_event r)),
            ))

  apply-update :
      (b : EventRow) (bs : List EventRow) (rows : Table)
      → map (apply bs) (update (owns b.id token) (λ r. settled r (to_event b)) rows)
        ≡ map (apply (b ∷ bs)) rows
  apply-update b bs [] = refl
  apply-update b bs (r ∷ rows) = ap (λ l. apply (b ∷ bs) r ∷ l) (apply-update b bs rows)

  map-apply_free :
      (bs : List EventRow) (rows : Table)
      → All (λ r. r.claim_token ≡ none) rows
      → map (apply bs) rows ≡ rows
  map-apply_free bs [] h = refl
  map-apply_free bs (r ∷ rows) (e, h) =
      ap₂ (λ x l. x ∷ l) (apply_free bs r e) (map-apply_free bs rows h)

find-append_some :
    (i t : ℕ) (rows new : Table)
    → is_some (find (owns i t) rows) ≡ true
    → is_some (find (owns i t) (rows ++ new)) ≡ true
find-append_some i t [] new h = absurd cc
find-append_some i t (r ∷ rows) new h = ground (arith, find-append_some i t rows new)

find-update_other :
    (i j t : ℕ) (f : EventRow → EventRow) (rows : Table)
    → i ≢ j
    → is_some (find (owns i t) rows) ≡ true
    → is_some (find (owns i t) (update (owns j t) f rows)) ≡ true
find-update_other i j t f [] ne h = h
find-update_other i j t f (r ∷ rows) ne h = ground (arith, find-update_other i j t f rows)

abbrev pub mark_claimed : ℕ → EventRow → ClaimedDomainEvent
mark_claimed token r = record { event = to_event r; claim_token = token }

-- The rows that the insights runs of a batch add, in the order of its events.
abbrev pub written_by : (DomainEvent → Table) → List ClaimedDomainEvent → Table
written_by written [] = []
written_by written (c ∷ cs) = written c.event ++ written_by written cs

module _ (lost : Lost) (bus : Registry) (insights : Insights) (outcome : DomainEvent → Option Text)
    (written : DomainEvent → Table)
    (adds : (e : DomainEvent) (rows : Table) → insights e rows ≡ (rows ++ written e, outcome e))
    (unclaimed : (e : DomainEvent) → All (λ r. r.claim_token ≡ none) (written e))
    (now token : ℕ) where
  finish_quiet :
      (b : EventRow) (rows : Table)
      → is_some (find (owns b.id token) rows) ≡ true
      → finish lost bus insights now (mark_claimed token b) (insights (to_event b) rows)
        ≡ some (
            update
              (owns b.id token)
              (λ r. settled outcome now token r (to_event b))
              (rows ++ written (to_event b)))
  unfolding mark_consumed mark_failed to_event
  finish_quiet b rows h =
      let there = find-append_some b.id token rows (written (to_event b)) h in
      rw (adds (to_event b) rows) (elim (Option-cases (outcome (to_event b))) [
        | inl e ↦ rw e (ground arith)
        | inr (error, e) ↦ rw e (ground arith)
      ])

  still_found :
      (j : ℕ) (f : EventRow → EventRow) (bs : List EventRow) (rows : Table)
      → elem j (ids bs) ≡ false
      → All (λ b. is_some (find (owns b.id token) rows) ≡ true) bs
      → All (λ b. is_some (find (owns b.id token) (update (owns j token) f rows)) ≡ true) bs
  still_found j f bs rows new h =
      All-imp (λ b. (b.id ≢ j) × (is_some (find (owns b.id token) rows) ≡ true)) _
        (λ b p. find-update_other b.id j token f rows p.0 p.1) bs
        (All-zip _ _ bs (All-ne (λ r. r.id) j bs new) h)

  deliver_all_quiet :
      (bs : List EventRow) (rows : Table)
      → Distinct (ids bs)
      → All (λ b. is_some (find (owns b.id token) rows) ≡ true) bs
      → let pass = deliver_all lost bus insights now (map (mark_claimed token) bs) rows in
        (pass.0
          ≡ map (apply outcome now token bs) rows
            ++ written_by written (map (mark_claimed token) bs))
        × (pass.1 ≡ true)
  unfolding deliver_all
  deliver_all_quiet [] rows d h = (sym (append-nil (map (λ r. r) rows) ∙ map-id rows), refl)
  deliver_all_quiet (b ∷ bs) rows (new, d) (here, later) =
      let f = λ (r : EventRow). settled outcome now token r (to_event b) in
      let ws = written (to_event b) in
      let rest = written_by written (map (mark_claimed token) bs) in
      let found =
        All-imp _ (λ c. is_some (find (owns c.id token) (rows ++ ws)) ≡ true)
          (λ c. find-append_some c.id token rows ws) bs later in
      let ih =
        deliver_all_quiet bs (update (owns b.id token) f (rows ++ ws)) d
          (still_found b.id f bs (rows ++ ws) new found) in
      let go =
        deliver_all-settled lost bus insights now (mark_claimed token b)
          (map (mark_claimed token) bs) rows (update (owns b.id token) f (rows ++ ws))
          (finish_quiet b rows here) in
      let settled_rows =
        apply-update outcome now token b bs (rows ++ ws)
        ∙ map-append (apply outcome now token (b ∷ bs)) rows ws
        ∙ ap (λ l. map (apply outcome now token (b ∷ bs)) rows ++ l)
            (map-apply_free outcome now token (b ∷ bs) ws (unclaimed (to_event b))) in
      (
        go.0
            ∙ ih.0
            ∙ ap (λ l. l ++ rest) settled_rows
            ∙ append_assoc (map (apply outcome now token (b ∷ bs)) rows) ws rest,
        go.1 ∙ ih.1,
      )

  abbrev pub settle_row : List ℕ → EventRow → EventRow
  settle_row js r = if elem r.id js then settled outcome now token r (to_event r) else r

  apply-claimed :
      (bs : List EventRow) (at : ℕ) (rows : Table)
      → All (λ r. All (λ b. r.id ≡ b.id → r ≡ b) bs) rows
      → map (apply outcome now token bs) (update (λ r. elem r.id (ids bs)) (claim token at) rows)
        ≡ map (settle_row (ids bs)) rows
  apply-claimed bs at [] h = refl
  apply-claimed bs at (r ∷ rows) (same, h) = elim (Bool-cases (elem r.id (ids bs))) [
    | inl e ↦ rw e (
        ap₂ (λ x l. x ∷ l) (apply_hit outcome now token bs r at same e)
          (apply-claimed bs at rows h))
    | inr e ↦
        rw e (ap₂ (λ x l. x ∷ l) (apply_miss outcome now token bs r e) (apply-claimed bs at rows h))
  ]

  module _ (locked : ℕ → Bool) (at : ℕ) (rows : Table) (distinct : Distinct (ids rows)) where
    abbrev batch : List EventRow
    batch = claim_rows locked at batch_size rows

    batch-Distinct : Distinct (ids batch)
    unfolding claim_rows
    batch-Distinct =
        Distinct-take (λ r. r.id) batch_size _
          (Distinct-order_by (λ r. r.id) _ _ (Distinct-select (λ r. r.id) _ rows distinct))

    batch-found :
        All
          (λ b.
            is_some
              (find (owns b.id token) (update (λ r. elem r.id (ids batch)) (claim token at) rows))
            ≡ true)
          batch
    batch-found =
        All-imp (λ b. (elem b.id (ids batch) ≡ true) × (elem b.id (ids rows) ≡ true)) _
          (λ b h. owner_finds (ids batch) token at b.id rows h.0 h.1) batch
          (All-zip _ _ batch (All-elem (λ r. r.id) batch) (
            claim_rows-All _ (λ b. elem b.id (ids rows) ≡ true) locked at batch_size rows
              (λ b p _. p) (All-elem (λ r. r.id) rows)))

    batch_unique : All (λ r. All (λ b. r.id ≡ b.id → r ≡ b) batch) rows
    batch_unique =
        All-imp (λ r. All (λ b. r.id ≡ b.id → r ≡ b) rows) _
          (λ r u.
            claim_rows-All _ (λ b. r.id ≡ b.id → r ≡ b) locked at batch_size rows (λ b p _. p) u)
          rows (Distinct-unique (λ r. r.id) rows distinct)

    -- A pass during which only its insights runs write to the table, each adding unclaimed rows and
    -- succeeding or not as its event decides, does not throw: it reports the size of its batch, consumes
    -- each claimed event whose insights run succeeds, records one more failure and the start of the error for each other
    -- claimed event, frees both, changes no other row, and leaves the rows of its insights runs after the
    -- others as they were added. Ids are distinct.
    pub tick_quiet :
        let result = tick lost bus insights now locked token at rows in
        let claimed = (claim_batch locked token at batch_size rows).1 in
        (result.0 ≡ map (settle_row (claimed_ids claimed)) rows ++ written_by written claimed)
        × (result.1 ≡ some (length claimed))
    unfolding tick claim_batch
    tick_quiet =
        let run =
          deliver_all_quiet batch (claim_batch locked token at batch_size rows).0 batch-Distinct
            batch-found in
        let added = written_by written (map (mark_claimed token) batch) in
        (
          run.0
              ∙ ap (λ l. l ++ added)
                  (apply-claimed batch at rows batch_unique
                    ∙ ap (λ js. map (settle_row js) rows)
                        (sym (claimed_ids-claim_batch locked token at batch_size rows))),
          rw (run.1),
        )
