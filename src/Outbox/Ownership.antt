-- ===== src/Outbox/Ownership.antt =====
-- Who owns a claimed event: only the token of its batch settles it.
use capere_ai.Base.{
  ℕ, ◌≡◌, ◌≢◌, refl, ◌∙◌, ap, Bool, true, false, ◌&&◌, not, some, none, List, [], ◌∷◌, map, arith,
  elem, find, All, All-imp, All-of, All-map, All-take, All-select, All-update, All-order_by,
  find-eq-none, ◌==◌, update, inl, inr, is_some, subst, sym, All-zip, All-elem, Bool-cases, ==_iff,
}
use capere_ai.Outbox.{
  EventRow, Table, ClaimedDomainEvent, Text, is_claimable, to_event, claim, ids, claim_rows,
  claim_batch, owns, mark_consumed, mark_failed, update_owned, consume, fail,
}

abbrev pub claimed_ids : List ClaimedDomainEvent → List ℕ
claimed_ids = map (λ c. c.event.id)

-- What all rows have that the query can select, all rows that it selects have.
pub claim_rows-All {κ} :
    (P Q : EventRow → Type κ) (locked : ℕ → Bool) (now limit : ℕ) (rows : Table)
    → ((r : EventRow) → P r → is_claimable now r ≡ true → Q r)
    → All P rows
    → All Q (claim_rows locked now limit rows)
unfolding claim_rows
claim_rows-All P Q locked now limit rows f h = All-take Q limit _ (
    All-order_by Q _ _ (
      All-select P Q (λ r. is_claimable now r && not (locked r.id)) (λ r p e. f r p (ground arith))
        rows h))

module _ (locked : ℕ → Bool) (token now limit : ℕ) (rows : Table) where
  pub claimed_ids-claim_batch :
      claimed_ids (claim_batch locked token now limit rows).1
      ≡ ids (claim_rows locked now limit rows)
  unfolding claim_batch to_event
  claimed_ids-claim_batch = go (claim_rows locked now limit rows)
    where
      go :
          (rs : List EventRow)
          → claimed_ids (map (λ r. record { event = to_event r; claim_token = token }) rs) ≡ ids rs
      go [] = refl
      go (r ∷ rs) = ap (λ l. r.id ∷ l) (go rs)

  -- The rows of a batch carry its token and its time.
  pub claim_batch-marks :
      All
        (λ r.
          elem r.id (ids (claim_rows locked now limit rows)) ≡ true
          → (r.claimed_at ≡ some now) × (r.claim_token ≡ some token))
        (claim_batch locked token now limit rows).0
  unfolding claim_batch
  claim_batch-marks =
      All-update (λ r. Unit {0}) _ _ (claim token now) (λ r _ e _. (refl, refl)) (λ r _ e h. cc)
        rows (All-of (λ r. Unit {0}) (λ r. tt) rows)

  -- What holds of the rows that the batch is taken from holds of its events.
  pub claim_batch-All {κ} :
      (P : EventRow → Type κ) (Q : ℕ → Type κ)
      → ((r : EventRow) → P r → is_claimable now r ≡ true → Q r.id)
      → All P rows
      → All (λ c. Q c.event.id) (claim_batch locked token now limit rows).1
  unfolding claim_batch to_event
  claim_batch-All P Q f h =
      All-map (λ c. Q c.event.id) (λ r. record { event = to_event r; claim_token = token }) _
        (claim_rows-All P (λ r. Q r.id) locked now limit rows f h)

module _ (js : List ℕ) (token now i : ℕ) where
  others_own_nothing :
      (t : ℕ) (rows : Table)
      → elem i js ≡ true
      → t ≢ token
      → All
          (λ r. elem r.id js ≡ true → (r.claimed_at ≡ some now) × (r.claim_token ≡ some token))
          rows
      → find (owns i t) rows ≡ none
  others_own_nothing t rows e ne marked =
      find-eq-none (owns i t) rows
        (All-imp _ (λ r. owns i t r ≡ false) (λ r h. not_owner r h) rows marked)
    where
      not_owner :
          (r : EventRow)
          → (elem r.id js ≡ true → (r.claimed_at ≡ some now) × (r.claim_token ≡ some token))
          → owns i t r ≡ false
      not_owner r h = elim (Bool-cases (r.id == i)) [
        | inl same ↦
            let same' = (==_iff r.id i).0 same in
            let marked = (h (subst (λ k. elem k js ≡ true) (sym same') e)).1 in
            rw (same, marked) (ground arith)
        | inr other ↦ rw other
      ]

  pub owner_finds :
      (rows : Table)
      → elem i js ≡ true
      → elem i (ids rows) ≡ true
      → is_some (find (owns i token) (update (λ r. elem r.id js) (claim token now) rows)) ≡ true
  owner_finds [] e h = cc
  owner_finds (r ∷ rows) e h = elim (Bool-cases (r.id == i)) [
    | inl same ↦
        let hit = subst (λ k. elem k js ≡ true) (sym ((==_iff r.id i).0 same)) e in
        rw hit (ground arith)
    | inr other ↦ ground (arith, owner_finds rows e)
  ]

update_owned-find :
    (i t : ℕ) (f : EventRow → EventRow) (rows : Table)
    → is_some (update_owned i t f rows) ≡ is_some (find (owns i t) rows)
update_owned-find i t f rows = ground arith

update_owned-none :
    (i t : ℕ) (f : EventRow → EventRow) (rows : Table)
    → find (owns i t) rows ≡ none
    → update_owned i t f rows ≡ none
update_owned-none i t f rows h = ground arith

-- Each event of a batch is settled by the batch's token and by no other: `markConsumed` and
-- `markFailed` succeed with it, and with any other token they are refused.
pub claim_batch_ownership :
    (locked : ℕ → Bool) (token now limit later : ℕ) (error : Text) (rows : Table)
    → let claimed = claim_batch locked token now limit rows in
      All
        (λ c.
          ((is_some (mark_consumed later c.event.id token claimed.0) ≡ true)
            × (is_some (mark_failed c.event.id token error claimed.0) ≡ true))
          × ((t : ℕ)
              → t ≢ token
              → (mark_consumed later c.event.id t claimed.0 ≡ none)
                × (mark_failed c.event.id t error claimed.0 ≡ none)))
        claimed.1
unfolding mark_consumed mark_failed
claim_batch_ownership locked token now limit later error rows =
    All-imp (λ c. (elem c.event.id js ≡ true) × (elem c.event.id (ids rows) ≡ true)) _
      (λ c h. (
        (found c.event.id (consume later) h, found c.event.id (fail error) h),
        λ t ne.
            let none_found = others_own_nothing js token now c.event.id t _ h.0 ne marks in
            (
              update_owned-none c.event.id t (consume later) claimed.0 none_found,
              update_owned-none c.event.id t (fail error) claimed.0 none_found,
            ),
      ))
      claimed.1 (All-zip _ (λ c. elem c.event.id (ids rows) ≡ true) claimed.1 in_batch in_table)
  where
    claimed : Table × List ClaimedDomainEvent
    claimed = claim_batch locked token now limit rows

    js : List ℕ
    js = ids (claim_rows locked now limit rows)

    marks :
        All
          (λ r. elem r.id js ≡ true → (r.claimed_at ≡ some now) × (r.claim_token ≡ some token))
          claimed.0
    marks = claim_batch-marks locked token now limit rows

    in_table : All (λ c. elem c.event.id (ids rows) ≡ true) claimed.1
    in_table =
        claim_batch-All locked token now limit rows (λ r. elem r.id (ids rows) ≡ true)
          (λ i. elem i (ids rows) ≡ true) (λ r p _. p) (All-elem (λ r. r.id) rows)

    in_batch : All (λ c. elem c.event.id js ≡ true) claimed.1
    in_batch =
        subst (λ l. All (λ c. elem c.event.id l ≡ true) claimed.1)
          (claimed_ids-claim_batch locked token now limit rows)
          (All-elem (λ c. c.event.id) claimed.1)

    found :
        (i : ℕ) (f : EventRow → EventRow)
        → (elem i js ≡ true) × (elem i (ids rows) ≡ true)
        → is_some (update_owned i token f claimed.0) ≡ true
    found i f h =
        update_owned-find i token f claimed.0
        ∙ unfold claim_batch in owner_finds js token now i rows h.0 h.1
