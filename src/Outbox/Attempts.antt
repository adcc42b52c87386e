-- ===== src/Outbox/Attempts.antt =====
-- How often an event is tried, and what the monitoring counts.
use capere_ai.Base.{
  ℕ, ◌+◌, ◌≤◌, ◌<◌, ◌≡◌, refl, Bool, true, false, ◌&&◌, not, some, none, List, [], ◌∷◌, arith, elem,
  All, All-append, All-zip, is_some, is_none, length, select, All-imp, Bool-cases, Distinct,
  select_reflects, Distinct-concat, map-update, All-update, Option-cases, find, elem-take,
  elem-order_by, ◌∙◌, inl, inr,
}
use capere_ai.Outbox.{
  EventRow, Table, Text, is_claimable, claim, ids, claim_rows, claim_batch, consume, fail,
  mark_consumed, mark_failed, publish_in_transaction, stats, owns, update_owned,
}
use capere_ai.Outbox.Invariant.{
  Op, publish, claims, consumed, failed, step, run, update_owned-All, after,
}

-- The two claim columns go together, and a claimed row is unconsumed with an attempt left.
pub record IsSound (r : EventRow) : Type 0 where
  pub bounded : r.attempts ≤ r.max_attempts
  pub paired : is_some r.claim_token ≡ is_some r.claimed_at
  pub open_claim :
      is_some r.claim_token ≡ true → (r.attempts < r.max_attempts) × (r.consumed_at ≡ none)

claim-IsSound :
    (r : EventRow) (token now : ℕ)
    → is_claimable now r ≡ true
    → IsSound r
    → IsSound (claim token now r)
unfolding is_claimable
claim-IsSound r token now e s = ground arith

consume-IsSound : (r : EventRow) (now : ℕ) → IsSound r → IsSound (consume now r)
consume-IsSound r now s = ground arith

fail-IsSound :
    (r : EventRow) (token : ℕ) (error : Text)
    → r.claim_token ≡ some token
    → IsSound r
    → IsSound (fail error r)
fail-IsSound r token error e s = ground (arith, s.open_claim)

-- With distinct ids only a claimable row has the id of a selected row.
selected_claimable :
    (locked : ℕ → Bool) (now limit : ℕ) (rows : Table)
    → Distinct (ids rows)
    → All
        (λ r. elem r.id (ids (claim_rows locked now limit rows)) ≡ true → is_claimable now r ≡ true)
        rows
unfolding claim_rows
selected_claimable locked now limit rows d =
    All-imp (λ r. elem r.id (ids (select free rows)) ≡ true → free r ≡ true) _
      (λ r f h. claimable r (f (kept r h))) rows (select_reflects (λ r. r.id) free rows d)
  where
    free : EventRow → Bool
    free r = is_claimable now r && not (locked r.id)

    claimable : (r : EventRow) → free r ≡ true → is_claimable now r ≡ true
    claimable r e = ground arith

    kept :
        (r : EventRow)
        → elem r.id (ids (claim_rows locked now limit rows)) ≡ true
        → elem r.id (ids (select free rows)) ≡ true
    kept r h = elim (Bool-cases (elem r.id (ids (select free rows)))) [
      | inl e ↦ e
      | inr e ↦
          let gone =
            elem-take (λ r. r.id) r.id limit _
              (elem-order_by (λ r. r.id) r.id (λ r. r.created_at) (select free rows) ∙ e) in
          cc
    ]

abbrev pub IsNew : Table → Op → Type 0
IsNew rows (publish id now e) = elem id (ids rows) ≡ false
IsNew rows _ = Unit

-- Every publication on the way brings a new id, as a primary key does.
abbrev pub AllNew : Table → List Op → Type 0
AllNew rows [] = Unit
AllNew rows (op ∷ ops) = IsNew rows op × AllNew (step rows op) ops

pub record Inv (rows : Table) : Type 0 where
  pub distinct : Distinct (ids rows)
  pub sound : All IsSound rows

after-ids :
    (id token : ℕ) (f : EventRow → EventRow) (rows : Table)
    → ((r : EventRow) → (f r).id ≡ r.id)
    → ids (after rows (update_owned id token f rows)) ≡ ids rows
after-ids id token f rows same = elim (Option-cases (find (owns id token) rows)) [
  | inl e ↦ rw (e, update_owned)
  | inr (r, e) ↦ rw (e, update_owned) (map-update (λ r. r.id) (owns id token) f same rows)
]

step-Distinct :
    (rows : Table) (op : Op) → IsNew rows op → Distinct (ids rows) → Distinct (ids (step rows op))
unfolding step claim_batch mark_consumed mark_failed publish_in_transaction
step-Distinct rows (publish id now e) new d = Distinct-concat (λ r. r.id) rows _ new d
step-Distinct rows (claims locked token now limit) _ d =
    rw (map-update (λ r. r.id) _ (claim token now) (λ r. refl) rows) d
step-Distinct rows (consumed now id token) _ d =
    rw (after-ids id token (consume now) rows (λ r. refl)) d
step-Distinct rows (failed id token error) _ d =
    rw (after-ids id token (fail error) rows (λ r. refl)) d

step-IsSound :
    (rows : Table) (op : Op) → Distinct (ids rows) → All IsSound rows → All IsSound (step rows op)
unfolding step mark_consumed mark_failed publish_in_transaction claim_batch
step-IsSound rows (publish id now e) d h =
    All-append IsSound rows _ h
      (record { bounded = omega arith; paired = refl; open_claim = λ e. cc }, tt)
step-IsSound rows (claims locked token now limit) d h =
    All-update
      (λ r.
        IsSound r
        × (elem r.id (ids (claim_rows locked now limit rows)) ≡ true → is_claimable now r ≡ true))
      IsSound _ (claim token now) (λ r s e. claim-IsSound r token now (s.1 e) s.0) (λ r s _. s.0)
      rows (All-zip IsSound _ rows h (selected_claimable locked now limit rows d))
step-IsSound rows (consumed now id token) d h =
    update_owned-All IsSound id token (consume now) rows (λ r s o. consume-IsSound r now s) h
step-IsSound rows (failed id token error) d h =
    update_owned-All IsSound id token (fail error) rows (λ r s o. fail-IsSound r token error o s) h

-- Whatever operations run, in any order and by any workers, if each publication has a new id:
-- ids stay distinct, no event is tried more than `max_attempts` times, and a claimed row has both
-- claim columns, an attempt left and has not been consumed.
pub run-Inv : (rows : Table) (ops : List Op) → AllNew rows ops → Inv rows → Inv (run rows ops)
unfolding run
run-Inv rows [] _ v = v
run-Inv rows (op ∷ ops) (new, later) v = run-Inv (step rows op) ops later (record {
  distinct = step-Distinct rows op new v.distinct;
  sound = step-IsSound rows op v.distinct v.sound;
})

-- The two counts of `stats` split the unconsumed rows.
pub stats_split :
    (rows : Table)
    → (stats rows).0 + (stats rows).1 ≡ length (select (λ r. is_none r.consumed_at) rows)
unfolding stats
stats_split [] = refl
stats_split (r ∷ rows) = ground (arith, stats_split rows)
