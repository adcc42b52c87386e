-- ===== src/Jobs/Monitoring.antt =====
-- backend/src/jobs/job-monitoring.service.ts: an operator lists failed runs and retries one.
use capere_ai.Base.{
  ℕ, Bool, true, false, ◌&&◌, ◌||◌, Option, none, some, List, ◌==◌, some_and, find, select, update,
  order_by_desc, take, is_none, if◌then◌else◌,
}
use capere_ai.Jobs.Scheduler.{JobRun, JobStatus, failed, dead_lettered, is_failed}

abbrev pub is_dead : JobStatus → Bool
is_dead dead_lettered = true
is_dead _ = false

-- `list`, whose status filter is a test here.
unfoldable pub list : ℕ → (JobStatus → Bool) → List JobRun → List JobRun
list organization_id status runs = take 100 (
    order_by_desc (λ r. r.created_at)
      (select (λ r. some_and (λ o. o == organization_id) r.organization_id && status r.status)
        runs))

abbrev pub revive : ℕ → JobRun → JobRun
revive now r = record r {
  status = failed;
  attempts = 0;
  next_retry_at = some now;
  error = none;
  finished_at = none;
  claimed_by = none;
  lease_until = none;
}

abbrev pub is_revivable : ℕ → ℕ → JobRun → Bool
is_revivable organization_id id r =
    some_and (λ o. o == organization_id) r.organization_id
    && r.id == id
    && (is_failed r.status || is_dead r.status)

-- `retry`; `none` where there is no such run and it throws.
unfoldable pub retry : ℕ → ℕ → ℕ → List JobRun → Option (List JobRun)
retry organization_id id now runs =
    if is_none (find (is_revivable organization_id id) runs)
    then none
    else some (update (is_revivable organization_id id) (revive now) runs)
