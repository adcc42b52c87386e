-- ===== src/Jobs/Scheduler/Exclusive.antt =====
-- Leases: a claimed run is nobody else's until its lease is over, whatever other workers do meanwhile.
use capere_ai.Base.{
  ℕ, ◌+◌, ◌<◌, ◌≡◌, ◌≢◌, ◌⊎◌, refl, Bool, true, false, some, List, [], ◌∷◌, arith, elem, find,
  is_none, subst, All, All-of, All-map, All-append, All-update, Bool-cases, inl, inr, ◌==◌, ==_iff,
}
use capere_ai.Jobs.Scheduler.{
  JobRun, running, ClaimedRun, Outcome, is_lost, bury, expire, is_retryable, reopen, run_ids,
  retry_rows, reclaimed, claim_retries, finish, is_own_run, execute,
}
use capere_ai.Jobs.Scheduler.Claims.{claimed_ids, claimed_ids-reclaimed, retry_rows-All}
use capere_ai.Jobs.Scheduler.Steps.{Step, retries, starts, executes, revives, Reach, here, next}
use capere_ai.Jobs.Monitoring.{retry, revive, is_revivable}

module _ (js : List ℕ) (worker until : ℕ) where
  -- What another worker, or an operator, does: it claims retries while the leases of the batch run, starts
  -- no run under an id of the batch, and ends a run of another batch or under its own name.
  abbrev pub IsOfOther : {a b : List JobRun} → Step a b → Type 0
  IsOfOther (retries locked w at) = at < until
  IsOfOther (starts id w at j new) = elem id js ≡ false
  IsOfOther (executes w at dispatch run) = (elem run.run_id js ≡ false) ⊎ (w ≢ worker)
  IsOfOther (revives organization_id id at e) = Unit {0}

  abbrev pub AreOfOthers : {a b : List JobRun} → Reach a b → Type 0
  AreOfOthers here = Unit {0}
  AreOfOthers (next r s) = AreOfOthers r × IsOfOther s

  -- A run of the batch is running, owned by the worker, under a lease until `until`.
  abbrev Leased : JobRun → Type 0
  Leased r =
      elem r.id js ≡ true
      → (r.status ≡ running) × (r.claimed_by ≡ some worker) × (r.lease_until ≡ some until)

  held :
      (b : Bool) (r : JobRun) (at : ℕ)
      → at < until
      → (b ≡ true
          → (r.status ≡ running) × (r.claimed_by ≡ some worker) × (r.lease_until ≡ some until))
      → is_retryable at r ≡ true
      → b ≡ false
  unfolding is_retryable
  held false r at lt h e = refl
  held true r at lt h e = ground (arith, h refl)

  expire-Leased :
      (at : ℕ) (runs : List JobRun) → at < until → All Leased runs → All Leased (expire at runs)
  unfolding expire is_lost
  expire-Leased at runs lt =
      All-update Leased Leased _ (bury at) (λ r h e m. absurd (let all = h m in ground arith))
        (λ r h _. h) runs

  selected_miss :
      (locked : ℕ → Bool) (at : ℕ) (runs : List JobRun)
      → at < until
      → All Leased runs
      → All (λ r. elem r.id js ≡ false) (retry_rows locked at runs)
  selected_miss locked at runs lt =
      retry_rows-All Leased (λ r. elem r.id js ≡ false) locked at runs (λ r p e. held _ r at lt p e)

  elem-ids_missed :
      (i : ℕ) (runs : List JobRun)
      → All (λ r. elem r.id js ≡ false) runs
      → elem i js ≡ true
      → elem i (run_ids runs) ≡ false
  elem-ids_missed i [] h e = refl
  elem-ids_missed i (r ∷ runs) (missed, h) e = elim (Bool-cases (i == r.id)) [
    | inl same ↦ absurd (let here = subst (λ k. elem k js ≡ true) ((==_iff i r.id).0 same) e in cc)
    | inr other ↦ ground (arith, elem-ids_missed i runs h e)
  ]

  not_own :
      (r : JobRun) (id w : ℕ)
      → (elem id js ≡ false) ⊎ (w ≢ worker)
      → Leased r
      → is_own_run w id r ≡ true
      → elem r.id js ≡ true
      → ⊥
  not_own r id w (inl missed) h e m = elim (Bool-cases (r.id == id)) [
    | inl same ↦ let there = subst (λ k. elem k js ≡ true) ((==_iff r.id id).0 same) m in cc
    | inr other ↦ ground arith
  ]
  not_own r id w (inr ne) h e m = let owned = (h m).1 in ne (ground arith)

  keeps_id : (run : ClaimedRun) (at : ℕ) (o : Outcome) (r : JobRun) → (finish run at o r).id ≡ r.id
  unfolding finish
  keeps_id run at (Outcome.done t) r = refl
  keeps_id run at (Outcome.threw t) r = refl

  Step-Leased : {a b : List JobRun} (s : Step a b) → IsOfOther s → All Leased a → All Leased b
  unfolding claim_retries execute retry
  Step-Leased (retries {runs} locked w at) lt h =
      let kept = expire-Leased at runs lt h in
      All-update Leased Leased _ (reopen w at)
        (λ r p e m.
          let missed =
            elem-ids_missed r.id _ (selected_miss locked at (expire at runs) lt kept) m in
          absurd cc)
        (λ r p _. p) (expire at runs) kept
  Step-Leased (starts {runs} id w at j new) missed h =
      All-append Leased runs _ h ((λ m. absurd cc), tt)
  Step-Leased (executes {runs} w at dispatch run) other h =
      All-update Leased Leased _ _
        (λ r p e m. absurd (
          not_own r run.run_id w other p e
            (subst (λ k. elem k js ≡ true) (keeps_id run at (dispatch run) r) m)))
        (λ r p _. p) runs h
  Step-Leased (revives {runs} {runs'} organization_id id at e) _ h =
      elim (Bool-cases (is_none (find (is_revivable organization_id id) runs))) [
        | inl missing ↦ absurd (ground arith)
        | inr found ↦ subst (All Leased) (ground arith) (
            All-update Leased Leased (is_revivable organization_id id) (revive at)
              (λ r p q m. absurd (let all = p m in ground arith)) (λ r p _. p) runs h)
      ]

  Reach-Leased : {a b : List JobRun} (r : Reach a b) → AreOfOthers r → All Leased a → All Leased b
  Reach-Leased here _ h = h
  Reach-Leased (next r s) (others, other) h = Step-Leased s other (Reach-Leased r others h)

retries-Leased :
    (locked : ℕ → Bool) (worker now : ℕ) (runs : List JobRun)
    → All
        (Leased (claimed_ids (claim_retries locked worker now runs).1) worker (now + 300000))
        (claim_retries locked worker now runs).0
unfolding claim_retries
retries-Leased locked worker now runs =
    rw (claimed_ids-reclaimed (retry_rows locked now (expire now runs))) (
      All-update (λ r. Unit {0}) _ _ (reopen worker now) (λ r _ e _. (refl, refl, refl))
        (λ r _ e h. cc) (expire now runs) (All-of (λ r. Unit {0}) (λ r. tt) (expire now runs)))

-- As long as their own worker ends none of the runs of a batch of retries, a batch taken less than five
-- minutes later has none of them, whatever other workers claim in that time, start under other ids and end
-- meanwhile, and whatever an operator revives.
pub claim_retries_exclusive :
    (locked locked' : ℕ → Bool) (worker worker' now now' : ℕ) (runs later : List JobRun)
    (between : Reach (claim_retries locked worker now runs).0 later)
    → AreOfOthers
        (claimed_ids (claim_retries locked worker now runs).1)
        worker
        (now + 300000)
        between
    → now' < now + 300000
    → All
        (λ c. elem c.run_id (claimed_ids (claim_retries locked worker now runs).1) ≡ false)
        (claim_retries locked' worker' now' later).1
unfolding claim_retries
claim_retries_exclusive locked locked' worker worker' now now' runs later between others lt =
    let js = claimed_ids (claim_retries locked worker now runs).1 in
    let leased =
      Reach-Leased js worker (now + 300000) between others
        (retries-Leased locked worker now runs) in
    All-map (λ c. elem c.run_id js ≡ false) reclaimed _
      (selected_miss js worker (now + 300000) locked' now' (expire now' later) lt
        (expire-Leased js worker (now + 300000) now' later lt leased))
