-- ===== src/Outbox/Exclusive.antt =====
-- A claimed event stays with its claim, whatever other workers do meanwhile.
use capere_ai.Base.{
  ℕ, ◌+◌, ◌≤◌, ◌≡◌, ◌≢◌, refl, Bool, true, false, some, List, [], ◌∷◌, arith, elem, All, All-append,
  sym, inl, inr, subst, Bool-cases, ◌==◌, ==_iff,
}
use capere_ai.Outbox.{
  EventRow, Table, is_claimable, ids, claim_rows, claim_batch, consume, fail, mark_consumed,
  mark_failed, publish_in_transaction,
}
use capere_ai.Outbox.Ownership.{
  claimed_ids, claimed_ids-claim_batch, claim_batch-marks, claim_batch-All, claim_rows-All,
}
use capere_ai.Outbox.Invariant.{
  Op, publish, claims, consumed, failed, step, run, update_owned-All, claim_batch-table,
}

-- What another worker does: it publishes no second event under an id of the batch, claims no later than
-- five minutes after the batch was claimed, and settles with a token of its own.
abbrev pub IsOfOther : List ℕ → ℕ → ℕ → Op → Type 0
IsOfOther js token now (publish id at e) = elem id js ≡ false
IsOfOther js token now (claims locked t at limit) = at ≤ now + 300000
IsOfOther js token now (consumed at id t) = t ≢ token
IsOfOther js token now (failed id t error) = t ≢ token

module _ (js : List ℕ) (token now : ℕ) where
  -- A row of the batch has the claim's token and time.
  abbrev HeldBy : EventRow → Type 0
  HeldBy r = elem r.id js ≡ true → (r.claimed_at ≡ some now) × (r.claim_token ≡ some token)

  not_in_batch :
      (b : Bool) (r : EventRow) (at : ℕ)
      → at ≤ now + 300000
      → (b ≡ true → (r.claimed_at ≡ some now) × (r.claim_token ≡ some token))
      → is_claimable at r ≡ true
      → b ≡ false
  unfolding is_claimable
  not_in_batch false r at le h e = refl
  not_in_batch true r at le h e = ground (arith, h refl)

  other_token :
      (r : EventRow) (t : ℕ)
      → t ≢ token
      → HeldBy r
      → r.claim_token ≡ some t
      → elem r.id js ≡ true
      → ⊥
  other_token r t ne h e m = let held = (h m).1 in ne (cc)

  claim_rows_miss :
      (locked : ℕ → Bool) (at limit : ℕ) (rows : Table)
      → at ≤ now + 300000
      → All HeldBy rows
      → All (λ r. elem r.id js ≡ false) (claim_rows locked at limit rows)
  claim_rows_miss locked at limit rows le =
      claim_rows-All HeldBy (λ r. elem r.id js ≡ false) locked at limit rows
        (λ r p e. not_in_batch _ r at le p e)

  elem-ids_missed :
      (i : ℕ) (rows : List EventRow)
      → All (λ r. elem r.id js ≡ false) rows
      → elem i js ≡ true
      → elem i (ids rows) ≡ false
  elem-ids_missed i [] h e = refl
  elem-ids_missed i (r ∷ rows) (missed, h) e = elim (Bool-cases (i == r.id)) [
    | inl same ↦ absurd (let here = subst (λ k. elem k js ≡ true) ((==_iff i r.id).0 same) e in cc)
    | inr other ↦ ground (arith, elem-ids_missed i rows h e)
  ]

  step-HeldBy :
      (rows : Table) (op : Op)
      → IsOfOther js token now op
      → All HeldBy rows
      → All HeldBy (step rows op)
  unfolding step mark_consumed mark_failed publish_in_transaction
  step-HeldBy rows (publish id at e) new h = All-append HeldBy rows _ h ((λ m. absurd cc), tt)
  step-HeldBy rows (claims locked t at limit) le h =
      claim_batch-table HeldBy locked t at limit rows
        (λ r p e m.
          let missed = elem-ids_missed r.id _ (claim_rows_miss locked at limit rows le h) m in
          absurd cc)
        h
  step-HeldBy rows (consumed at id t) ne h =
      update_owned-All HeldBy id t (consume at) rows (λ r p o m. absurd (other_token r t ne p o m))
        h
  step-HeldBy rows (failed id t error) ne h =
      update_owned-All HeldBy id t (fail error) rows (λ r p o m. absurd (other_token r t ne p o m))
        h

  run-HeldBy :
      (rows : Table) (ops : List Op)
      → All (IsOfOther js token now) ops
      → All HeldBy rows
      → All HeldBy (run rows ops)
  unfolding run
  run-HeldBy rows [] others h = h
  run-HeldBy rows (op ∷ ops) (other, others) h =
      run-HeldBy (step rows op) ops others (step-HeldBy rows op other h)

-- As long as the token of a batch settles none of its events, none of
-- them is in another batch claimed within five minutes of it, whatever rows are locked, and whatever others
-- publish under other ids, claim within these five minutes and settle with other tokens in between.
pub claim_batch_exclusive :
    (locked locked' : ℕ → Bool) (token token' now now' limit limit' : ℕ) (rows : Table)
    (ops : List Op)
    → All (IsOfOther (claimed_ids (claim_batch locked token now limit rows).1) token now) ops
    → now' ≤ now + 300000
    → All
        (λ c. elem c.event.id (claimed_ids (claim_batch locked token now limit rows).1) ≡ false)
        (claim_batch locked' token' now' limit'
          (run (claim_batch locked token now limit rows).0 ops)).1
claim_batch_exclusive locked locked' token token' now now' limit limit' rows ops others le =
    let first = claim_batch locked token now limit rows in
    let js = claimed_ids first.1 in
    let marked =
      subst (λ is. All (HeldBy is token now) first.0)
        (sym (claimed_ids-claim_batch locked token now limit rows))
        (claim_batch-marks locked token now limit rows) in
    claim_batch-All locked' token' now' limit' (run first.0 ops) (HeldBy js token now)
      (λ i. elem i js ≡ false) (λ r p e. not_in_batch js token now _ r now' le p e)
      (run-HeldBy js token now first.0 ops others marked)
