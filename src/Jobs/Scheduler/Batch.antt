-- ===== src/Jobs/Scheduler/Batch.antt =====
-- One pass of the scheduler.
use capere_ai.Base.{
  ℕ, ◌-◌, ◌≤◌, ◌<◌, ◌≡◌, Bool, true, none, some, List, [], arith, any, is_none, length,
  length-append, length-map, length-take-le, Option-cases, inl, inr,
}
use capere_ai.Jobs.Scheduler.{
  JobRun, Database, ClaimedRun, Outcome, retry_rows, reclaimed, expire, claim_retries, next_run_at,
  due_jobs, claim_due, tick,
}
use capere_ai.Jobs.Scheduler.Due.{claim_due-eq-none, claim_due-length-le}

retry_rows-length-le :
    (locked : ℕ → Bool) (now : ℕ) (runs : List JobRun) → length (retry_rows locked now runs) ≤ 20
unfolding retry_rows
retry_rows-length-le locked now runs = length-take-le 20 _

claim_retries-length-le :
    (locked : ℕ → Bool) (worker now : ℕ) (runs : List JobRun)
    → length (claim_retries locked worker now runs).1 ≤ 20
unfolding claim_retries
claim_retries-length-le locked worker now runs = omega (
  arith,
  length-map reclaimed (retry_rows locked now (expire now runs)),
  retry_rows-length-le locked now (expire now runs),
)

module _ (run_id : ℕ → ℕ) (locked : ℕ → Bool) (worker now later : ℕ)
    (dispatch : ClaimedRun → Outcome) (db : Database) where
  -- A pass executes 20 runs at most.
  pub tick-le : {n : ℕ} → (tick run_id locked worker now later dispatch db).1 ≡ some n → n ≤ 20
  unfolding tick
  tick-le {n} e =
      let retries = claim_retries locked worker now db.runs in
      let db' = record db { runs = retries.0 } in
      elim (Option-cases (claim_due run_id locked worker (20 - length retries.1) now db')) [
        | inl failed ↦
            ground
              (arith, length-append retries.1 [], claim_retries-length-le locked worker now db.runs)
        | inr (after, found) ↦ ground (
          arith,
          length-append retries.1 after.1,
          length-append retries.1 [],
          claim_retries-length-le locked worker now db.runs,
          claim_due-length-le run_id locked worker (20 - length retries.1) now db' found,
        )
      ]

  -- A single due job with a schedule that `nextRunAt` refuses stops the pass: it throws, no due job
  -- starts, and the retries that it has claimed are left running with an attempt used up, though
  -- none of them is executed.
  pub tick_blocked :
      length (claim_retries locked worker now db.runs).1 < 20
      → any
          (λ j. is_none (next_run_at j.schedule now))
          (due_jobs locked (20 - length (claim_retries locked worker now db.runs).1) now db.jobs)
        ≡ true
      → ((tick run_id locked worker now later dispatch db).1 ≡ none)
        × ((tick run_id locked worker now later dispatch db).0
            ≡ record db { runs = (claim_retries locked worker now db.runs).0 })
  unfolding tick
  tick_blocked lt h =
      let retries = claim_retries locked worker now db.runs in
      let db' = record db { runs = retries.0 } in
      let failed = claim_due-eq-none run_id locked worker (20 - length retries.1) now db' h in
      (ground arith, ground arith)
