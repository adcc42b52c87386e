-- ===== src/Outbox/Invariant.antt =====
-- The bookkeeping of the outbox over any sequence of its operations.
use capere_ai.Base.{
  ℕ, ◌≤◌, ◌≡◌, ◌≢◌, ◌⊎◌, refl, Bool, true, false, Option, some, none, List, [], ◌∷◌, arith, elem,
  All, All-append, All-update, is_none, find, Option-cases, inl, inr,
}
use capere_ai.Outbox.{
  EventRow, EventToPublish, Table, Text, is_claimable, claim, ids, claim_rows, claim_batch, owns,
  update_owned, consume, fail, mark_consumed, mark_failed, publish_in_transaction,
}
use capere_ai.Outbox.Ownership.{claim_rows-All, claim_batch-All}

pub data Op : Type 0 where
  publish : (id now : ℕ) → EventToPublish → Op
  claims : (locked : ℕ → Bool) → (token now limit : ℕ) → Op
  consumed : (now id token : ℕ) → Op
  failed : (id token : ℕ) → Text → Op

-- An operation that is refused leaves the table as it was.
abbrev pub after : Table → Option Table → Table
after rows none = rows
after rows (some rows') = rows'

unfoldable pub step : Table → Op → Table
step rows (publish id now e) = publish_in_transaction id now e rows
step rows (claims locked token now limit) = (claim_batch locked token now limit rows).0
step rows (consumed now id token) = after rows (mark_consumed now id token rows)
step rows (failed id token error) = after rows (mark_failed id token error rows)

unfoldable pub run : Table → List Op → Table
run rows [] = rows
run rows (op ∷ ops) = run (step rows op) ops

-- What holds of all rows after an update by the owner.
pub update_owned-All {κ} :
    (P : EventRow → Type κ) (id token : ℕ) (f : EventRow → EventRow) (rows : Table)
    → ((r : EventRow) → P r → r.claim_token ≡ some token → P (f r))
    → All P rows
    → All P (after rows (update_owned id token f rows))
update_owned-All P id token f rows keep h = elim (Option-cases (find (owns id token) rows)) [
  | inl e ↦ rw (e, update_owned) h
  | inr (r, e) ↦
      rw (e, update_owned)
        (All-update P P (owns id token) f (λ r p o. keep r p (token_of r o)) (λ r p _. p) rows h)
]
  where
    token_of : (r : EventRow) → owns id token r ≡ true → r.claim_token ≡ some token
    token_of r o = ground arith

pub claim_batch-table {κ} :
    (P : EventRow → Type κ) (locked : ℕ → Bool) (token now limit : ℕ) (rows : Table)
    → ((r : EventRow)
        → P r
        → elem r.id (ids (claim_rows locked now limit rows)) ≡ true
        → P (claim token now r))
    → All P rows
    → All P (claim_batch locked token now limit rows).0
unfolding claim_batch
claim_batch-table P locked token now limit rows keep h =
    All-update P P _ (claim token now) keep (λ r p _. p) rows h

-- A row whose event is done with: consumed, or out of attempts, and owned by nobody.
pub record IsClosed (r : EventRow) : Type 0 where
  pub free : r.claim_token ≡ none
  pub done : (is_none r.consumed_at ≡ false) ⊎ (r.max_attempts ≤ r.attempts)

-- The rows of one id.
abbrev pub ClosedAt : ℕ → EventRow → Type 0
ClosedAt i r = r.id ≡ i → IsClosed r

not_claimable : (r : EventRow) (now : ℕ) → IsClosed r → is_claimable now r ≡ true → ⊥
unfolding is_claimable
not_claimable r now c e = ground arith

-- An event that is consumed or dead-lettered is in no later batch.
claim_rows_skips :
    (i : ℕ) (locked : ℕ → Bool) (now limit : ℕ) (rows : Table)
    → All (ClosedAt i) rows
    → All (λ r. r.id ≢ i) (claim_rows locked now limit rows)
claim_rows_skips i locked now limit rows =
    claim_rows-All (ClosedAt i) (λ r. r.id ≢ i) locked now limit rows
      λ r c e same. not_claimable r now (c same) e

elem-ids_of_ne :
    (i : ℕ) (rows : List EventRow) → All (λ r. r.id ≢ i) rows → elem i (ids rows) ≡ false
elem-ids_of_ne i [] h = refl
elem-ids_of_ne i (r ∷ rows) (ne, h) = ground (arith, elem-ids_of_ne i rows h)

abbrev pub NotPublished : ℕ → Op → Type 0
NotPublished i (publish id now e) = id ≢ i
NotPublished i _ = Unit

step-ClosedAt :
    (i : ℕ) (rows : Table) (op : Op)
    → NotPublished i op
    → All (ClosedAt i) rows
    → All (ClosedAt i) (step rows op)
unfolding step mark_consumed mark_failed publish_in_transaction
step-ClosedAt i rows (publish id now e) ne h =
    All-append (ClosedAt i) rows _ h ((λ same. absurd (ne same)), tt)
step-ClosedAt i rows (claims locked token now limit) _ h =
    claim_batch-table (ClosedAt i) locked token now limit rows keep h
  where
    keep :
        (r : EventRow)
        → ClosedAt i r
        → elem r.id (ids (claim_rows locked now limit rows)) ≡ true
        → ClosedAt i (claim token now r)
    keep r c e same =
        let missing = elem-ids_of_ne i _ (claim_rows_skips i locked now limit rows h) in
        ground (arith)
step-ClosedAt i rows (consumed now id token) _ h =
    update_owned-All (ClosedAt i) id token (consume now) rows
      (λ r c o same. absurd (let free = (c same).free in ground arith)) h
step-ClosedAt i rows (failed id token error) _ h =
    update_owned-All (ClosedAt i) id token (fail error) rows
      (λ r c o same. absurd (let free = (c same).free in ground arith)) h

run-ClosedAt :
    (i : ℕ) (rows : Table) (ops : List Op)
    → All (NotPublished i) ops
    → All (ClosedAt i) rows
    → All (ClosedAt i) (run rows ops)
unfolding run
run-ClosedAt i rows [] n h = h
run-ClosedAt i rows (op ∷ ops) (n, ns) h =
    run-ClosedAt i (step rows op) ops ns (step-ClosedAt i rows op n h)

-- Once the row of an event is consumed or has used up its attempts, and nobody owns it, no batch
-- claimed after any further operations holds the event, if its id is not published again.
pub closed_never_claimed :
    (i : ℕ) (rows : Table) (ops : List Op) (locked : ℕ → Bool) (token now limit : ℕ)
    → All (NotPublished i) ops
    → All (ClosedAt i) rows
    → All (λ c. c.event.id ≢ i) (claim_batch locked token now limit (run rows ops)).1
closed_never_claimed i rows ops locked token now limit n h =
    claim_batch-All locked token now limit (run rows ops) (ClosedAt i) (λ j. j ≢ i)
      (λ r c e same. not_claimable r now (c same) e) (run-ClosedAt i rows ops n h)
