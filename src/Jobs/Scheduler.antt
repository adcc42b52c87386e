-- ===== src/Jobs/Scheduler.antt =====
-- backend/src/jobs/scheduler.service.ts over the tables `capere.scheduled_jobs` and
-- `capere.job_runs`. Times are milliseconds; ids and worker ids are UUIDs read as numbers.
mod Tables
pub mod Claims
pub mod Exclusive
pub mod Due
pub mod Runs
pub mod Steps
pub mod Retry
pub mod Batch
mod Tests
pub use Tables.*
use capere_ai.Base.{
  ℕ, zero, suc, ◌+◌, ◌-◌, ◌*◌, ◌^◌, min, String, Bool, true, false, not, ◌&&◌, ◌||◌, Option, none,
  some, List, [], ◌∷◌, ◌++◌, map, ltb, leb, ◌==◌, if◌then◌else◌, is_none, is_some, some_and, elem,
  take, select, update, order_by, length, str_eq, codes,
}

abbrev pub lease_ms : ℕ
lease_ms = 300000

abbrev pub max_batch_size : ℕ
max_batch_size = 20

-- `SCHEDULE_INTERVALS`
pub interval_of : String → Option ℕ
interval_of schedule =
    if str_eq schedule "hourly"
    then some 3600000
    else if str_eq schedule "daily"
    then some 86400000
    else if str_eq schedule "weekly"
    then some 604800000
    else if str_eq schedule "monthly"
    then some 2592000000
    else none

-- `nextRunAt`; `none` where it throws, for a cron expression or an unknown schedule.
unfoldable pub next_run_at : String → ℕ → Option ℕ
unfolding interval_of
next_run_at schedule from = elim (interval_of schedule) [
  | some interval ↦ some (from + interval)
  | none ↦ none
]

abbrev pub is_running : JobStatus → Bool
is_running running = true
is_running _ = false

abbrev pub is_failed : JobStatus → Bool
is_failed failed = true
is_failed _ = false

abbrev pub lease_over : ℕ → JobRun → Bool
lease_over now r = is_running r.status && some_and (λ t. leb t now) r.lease_until

-- The first update of `claimRetries`.
unfoldable pub is_lost : ℕ → JobRun → Bool
is_lost now r = lease_over now r && leb r.max_attempts r.attempts

pub lease_message : Text
lease_message = codes "Worker lease expired after the final permitted attempt"

abbrev pub bury : ℕ → JobRun → JobRun
bury now r = record r {
  status = dead_lettered;
  finished_at = some now;
  lease_until = none;
  claimed_by = none;
  next_retry_at = none;
  error = some lease_message;
}

unfoldable pub expire : ℕ → List JobRun → List JobRun
unfolding is_lost
expire now = update (is_lost now) (bury now)

-- The runs that `claimRetries` selects.
unfoldable pub is_retryable : ℕ → JobRun → Bool
is_retryable now r =
    (is_failed r.status && some_and (λ t. leb t now) r.next_retry_at || lease_over now r)
    && ltb r.attempts r.max_attempts

abbrev pub reopen : ℕ → ℕ → JobRun → JobRun
reopen worker now r = record r {
  status = running;
  attempts = r.attempts + 1;
  claimed_by = some worker;
  lease_until = some (now + lease_ms);
  next_retry_at = none;
  started_at = some now;
  finished_at = none;
}

abbrev pub run_ids : List JobRun → List ℕ
run_ids = map (λ r. r.id)

unfoldable pub retry_rows : (ℕ → Bool) → ℕ → List JobRun → List JobRun
unfolding is_retryable
retry_rows locked now runs =
    take max_batch_size
      (order_by (λ r. r.created_at) (select (λ r. is_retryable now r && not (locked r.id)) runs))

-- A run as the worker sees it once it has one more attempt.
abbrev pub reclaimed : JobRun → ClaimedRun
reclaimed r = record {
  run_id = r.id;
  organization_id = r.organization_id;
  job_type = r.job_type;
  payload = r.payload;
  attempts = r.attempts + 1;
  max_attempts = r.max_attempts;
}

-- `claimRetries`. The loop updates the selected rows one by one, each by its id.
unfoldable pub claim_retries : (ℕ → Bool) → ℕ → ℕ → List JobRun → List JobRun × List ClaimedRun
unfolding expire retry_rows
claim_retries locked worker now runs =
    let kept = expire now runs in
    let rows = retry_rows locked now kept in
    (update (λ r. elem r.id (run_ids rows)) (reopen worker now) kept, map reclaimed rows)

unfoldable pub is_due : ℕ → ScheduledJob → Bool
is_due now j = j.enabled && (is_none j.next_run_at || some_and (λ t. leb t now) j.next_run_at)

abbrev when_next : Option ℕ → ℕ
when_next none = 0
when_next (some t) = t

-- `order by next_run_at asc`, which puts rows without a time last.
unfoldable pub due_jobs : (ℕ → Bool) → ℕ → ℕ → List ScheduledJob → List ScheduledJob
unfolding is_due
due_jobs locked limit now jobs =
    let due = select (λ j. is_due now j && not (locked j.id)) jobs in
    take limit (
      order_by (λ j. when_next j.next_run_at) (select (λ j. is_some j.next_run_at) due)
      ++ select (λ j. is_none j.next_run_at) due)

abbrev pub new_run : ℕ → ℕ → ℕ → ScheduledJob → JobRun
new_run id worker now j = record {
  id = id;
  organization_id = j.organization_id;
  scheduled_job_id = some j.id;
  job_type = j.job_type;
  status = running;
  payload = j.payload;
  attempts = 1;
  max_attempts = 3;
  claimed_by = some worker;
  lease_until = some (now + lease_ms);
  next_retry_at = none;
  started_at = some now;
  finished_at = none;
  created_at = now;
  result = none;
  error = none;
}

abbrev pub claimed_new : JobRun → ClaimedRun
claimed_new r = record {
  run_id = r.id;
  organization_id = r.organization_id;
  job_type = r.job_type;
  payload = r.payload;
  attempts = r.attempts;
  max_attempts = r.max_attempts;
}

-- The loop of `claimDue`; `none` where `nextRunAt` throws, which rolls the transaction back. The
-- database gives the run of a job its id.
unfoldable pub start_due :
    (ℕ → ℕ) → ℕ → ℕ → List ScheduledJob → Database → Option (Database × List ClaimedRun)
unfolding next_run_at
start_due run_id worker now [] db = some (db, [])
start_due run_id worker now (j ∷ js) db = elim (next_run_at j.schedule now) [
  | none ↦ none
  | some next ↦
      let run = new_run (run_id j.id) worker now j in
      let started = record db {
        jobs =
            update (λ k. k.id == j.id)
              (λ k. record k { last_run_at = some now; next_run_at = some next }) db.jobs;
        runs = db.runs ++ run ∷ [];
      } in
      let rest = start_due run_id worker now js started in
      elim rest [ none ↦ none | some (db', claimed) ↦ some (db', claimed_new run ∷ claimed) ]
]

unfoldable pub claim_due :
    (ℕ → ℕ) → (ℕ → Bool) → ℕ → ℕ → ℕ → Database → Option (Database × List ClaimedRun)
unfolding due_jobs start_due
claim_due run_id locked worker limit now db =
    start_due run_id worker now (due_jobs locked limit now db.jobs) db

-- What a job did: its result, or the message of its error.
pub data Outcome : Type 0 where
  done : Text → Outcome
  threw : Text → Outcome

abbrev pub retry_delay : ℕ → ℕ
retry_delay attempts = min 3600000 (1000 * 2 ^ attempts)

-- The two updates of `execute`.
unfoldable pub finish : ClaimedRun → ℕ → Outcome → JobRun → JobRun
finish run now (done result) r = record r {
  status = succeeded;
  finished_at = some now;
  lease_until = none;
  claimed_by = none;
  result = some result;
}
finish run now (threw message) r =
    let terminal = leb run.max_attempts run.attempts in
    record r {
      status = if terminal then dead_lettered else failed;
      finished_at = some now;
      lease_until = none;
      claimed_by = none;
      next_retry_at = if terminal then none else some (now + retry_delay run.attempts);
      error = some (take 2000 message);
    }

abbrev pub is_own_run : ℕ → ℕ → JobRun → Bool
is_own_run worker id r = r.id == id && some_and (λ w. w == worker) r.claimed_by

unfoldable pub execute : ℕ → ℕ → (ClaimedRun → Outcome) → ClaimedRun → List JobRun → List JobRun
unfolding finish
execute worker now dispatch run =
    update (is_own_run worker run.run_id) (finish run now (dispatch run))

unfoldable pub execute_all :
    ℕ → ℕ → (ClaimedRun → Outcome) → List ClaimedRun → List JobRun → List JobRun
unfolding execute
execute_all worker now dispatch [] runs = runs
execute_all worker now dispatch (run ∷ rest) runs =
    execute_all worker now dispatch rest (execute worker now dispatch run runs)

-- `tick`: retries are claimed and committed, then due jobs, then all are executed. `none` where it
-- throws. No other job is asked for once the retries fill a batch.
unfoldable pub tick :
    (ℕ → ℕ) → (ℕ → Bool) → ℕ → ℕ → ℕ → (ClaimedRun → Outcome) → Database → Database × Option ℕ
tick run_id locked worker now later dispatch db =
    let retries = claim_retries locked worker now db.runs in
    let db' = record db { runs = retries.0 } in
    let remaining = max_batch_size - length retries.1 in
    let due =
      if ltb 0 remaining
      then claim_due run_id locked worker remaining now db'
      else some (db', []) in
    elim due [
      | none ↦ (db', none)
      | some (db'', started) ↦
          let batch = retries.1 ++ started in
          (
            record db'' { runs = execute_all worker later dispatch batch db''.runs },
            some (length batch),
          )
    ]
