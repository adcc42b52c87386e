-- ===== src/Outbox/Batch.antt =====
-- Which events `claimBatch` takes: the oldest of those that can be claimed, up to its limit.
use capere_ai.Base.{
  ℕ, ◌≤◌, ◌≡◌, refl, ◌⊎◌, sym, ◌∙◌, subst, Bool, true, false, ◌&&◌, not, List, [], ◌∷◌, ◌++◌, arith,
  elem, select, length, length-append, suc, length-map, length-take-le, All, All-imp, All-map,
  All-select_inv, IsServed, order_by-IsServed, inl, inr,
}
use capere_ai.Outbox.{
  EventRow, Table, ClaimedDomainEvent, is_claimable, to_event, ids, claim_rows, claim_batch,
  EventToPublish, publish_in_transaction,
}
use capere_ai.Outbox.Ownership.{claimed_ids, claimed_ids-claim_batch}

abbrev pub Served : ℕ → List ClaimedDomainEvent → EventRow → Type 0
Served limit batch r =
    (elem r.id (claimed_ids batch) ≡ true)
    ⊎ ((length batch ≡ limit) × All (λ c. c.event.occurred_at ≤ r.created_at) batch)

module _ (locked : ℕ → Bool) (token now limit : ℕ) (rows : Table) where
  to_served :
      (r : EventRow)
      → IsServed (λ r. r.id) (λ r. r.created_at) limit (claim_rows locked now limit rows) r
      → Served limit (claim_batch locked token now limit rows).1 r
  unfolding claim_batch to_event
  to_served r (inl e) = inl (ap_ids e)
    where
      ap_ids :
          elem r.id (ids (claim_rows locked now limit rows)) ≡ true
          → elem r.id (claimed_ids (claim_batch locked token now limit rows).1) ≡ true
      ap_ids e =
          subst (λ l. elem r.id l ≡ true)
            (sym (claimed_ids-claim_batch locked token now limit rows)) e
  to_served r (inr (full, h)) = inr (
    length-map _ (claim_rows locked now limit rows) ∙ full,
    All-map (λ c. c.event.occurred_at ≤ r.created_at) _ (claim_rows locked now limit rows) h,
  )

  served :
      All
        (λ r.
          is_claimable now r && not (locked r.id) ≡ true
          → Served limit (claim_batch locked token now limit rows).1 r)
        rows
  served =
      All-imp _ _ (λ r f e. to_served r (f e)) rows
        (All-select_inv
          (IsServed (λ r. r.id) (λ r. r.created_at) limit (claim_rows locked now limit rows))
          (λ r. is_claimable now r && not (locked r.id)) rows
          (unfold claim_rows in
            order_by-IsServed (λ r. r.id) (λ r. r.created_at) limit
              (select (λ r. is_claimable now r && not (locked r.id)) rows)))

  batch-length-le : length (claim_batch locked token now limit rows).1 ≤ limit
  unfolding claim_batch claim_rows
  batch-length-le =
      subst (λ n. n ≤ limit) (sym (length-map _ (claim_rows locked now limit rows)))
        (length-take-le limit _)

-- A batch holds at most `limit` events. Each row that can be claimed and is not locked is in it, or
-- else it is full of events that occurred no later.
pub claim_batch_oldest_first :
    (locked : ℕ → Bool) (token now limit : ℕ) (rows : Table)
    → (length (claim_batch locked token now limit rows).1 ≤ limit)
      × All
          (λ r.
            is_claimable now r ≡ true
            → locked r.id ≡ false
            → Served limit (claim_batch locked token now limit rows).1 r)
          rows
claim_batch_oldest_first locked token now limit rows = (
  batch-length-le locked token now limit rows,
  All-imp _ _ (λ r f c l. f (ground arith)) rows (served locked token now limit rows),
)

pub length-publish_in_transaction :
    (id now : ℕ) (event : EventToPublish) (rows : Table)
    → length (publish_in_transaction id now event rows) ≡ suc (length rows)
unfolding publish_in_transaction
length-publish_in_transaction id now event rows = omega (arith, length-append rows _)

-- A publication adds one row, of the event.
pub published :
    (id now : ℕ) (event : EventToPublish) (rows : Table)
    → (row : EventRow) × (publish_in_transaction id now event rows ≡ rows ++ row ∷ [])
      × (row.event_type ≡ event.event_type)
      × (row.organization_id ≡ event.organization_id)
      × (row.aggregate_id ≡ event.aggregate_id)
unfolding publish_in_transaction
published id now event rows = (_, refl, refl, refl, refl)
