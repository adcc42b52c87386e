-- ===== src/Jobs/Scheduler/Tests.antt =====
-- Passes of the scheduler over a small database.
use capere_ai.Base.{
  ℕ, ◌+◌, ◌-◌, ◌<◌, ◌≡◌, refl, String, Bool, true, false, Option, none, some, List, [], ◌∷◌, map,
  arith, elem, any, is_none, length, All, ◌++◌, inl,
}
use capere_ai.Jobs.Scheduler.{
  JobRun, JobStatus, running, succeeded, failed, ScheduledJob, Database, ClaimedRun, Outcome, done,
  is_lost, run_ids, expire, is_retryable, retry_rows, claim_retries, next_run_at, is_due, due_jobs,
  start_due, claim_due, new_run, claimed_new, finish, execute, execute_all, tick,
}
use capere_ai.Jobs.Scheduler.Claims.{claimed_ids}
use capere_ai.Jobs.Scheduler.Exclusive.{AreOfOthers, claim_retries_exclusive}
use capere_ai.Jobs.Scheduler.Steps.{
  retries, starts, executes, Reach, here, next, Inv, Reach-Inv, AreFresh, tick-Reach,
}
use capere_ai.Jobs.Scheduler.Batch.{tick_blocked}

scheduler : Unit {0}
unfolding tick claim_retries expire is_lost retry_rows is_retryable claim_due due_jobs is_due
    start_due next_run_at execute_all execute finish
scheduler = tt

abbrev job : ℕ → String → Option ℕ → ScheduledJob
job id schedule at = record {
  id = id;
  organization_id = some 1;
  job_type = "insights-sweep";
  schedule = schedule;
  enabled = true;
  payload = [];
  last_run_at = none;
  next_run_at = at;
}

-- A run that failed once and may be retried at 50.
abbrev failed_run : JobRun
failed_run = record (new_run 9 1 0 (job 1 "daily" none)) {
  status = failed;
  claimed_by = none;
  lease_until = none;
  next_retry_at = some 50;
}

abbrev healthy : Database
healthy = record {
  jobs = job 1 "daily" (some 90) ∷ job 2 "hourly" none ∷ [];
  runs = failed_run ∷ [];
}

-- The schedule of job 3 is a cron expression.
abbrev poisoned : Database
poisoned = record {
  jobs = job 1 "daily" (some 90) ∷ job 3 "0 3 * * *" none ∷ [];
  runs = failed_run ∷ [];
}

abbrev unlocked : ℕ → Bool
unlocked i = false

abbrev run_id : ℕ → ℕ
run_id i = i + 100

abbrev works : ClaimedRun → Outcome
works run = done []

abbrev statuses : List JobRun → List (ℕ × JobStatus × ℕ)
statuses = map (λ r. (r.id, r.status, r.attempts))

tick_test :
    ((tick run_id unlocked 7 100 110 works healthy).1 ≡ some 3)
    × (statuses (tick run_id unlocked 7 100 110 works healthy).0.runs
        ≡ (9, succeeded, 2) ∷ (101, succeeded, 1) ∷ (102, succeeded, 1) ∷ [])
    × ((tick run_id unlocked 7 100 110 works poisoned).1 ≡ none)
    × (statuses (tick run_id unlocked 7 100 110 works poisoned).0.runs ≡ (9, running, 2) ∷ [])
unfolding scheduler
tick_test = (refl, refl, refl, refl)

-- Meanwhile worker 8 claims retries too, starts run 200 and ends it.
abbrev claimed_200 : ClaimedRun
claimed_200 = claimed_new (new_run 200 8 160 (job 2 "hourly" none))

abbrev first_left : List JobRun
first_left = (claim_retries unlocked 7 100 healthy.runs).0

abbrev second_left : List JobRun
second_left =
    (claim_retries unlocked 8 150 first_left).0 ++ new_run 200 8 160 (job 2 "hourly" none) ∷ []

second_left-new : elem 200 (run_ids (claim_retries unlocked 8 150 first_left).0) ≡ false
unfolding scheduler
second_left-new = refl

abbrev meanwhile : Reach first_left (execute 8 170 works claimed_200 second_left)
meanwhile =
    next
      (next (next here (retries unlocked 8 150))
        (starts 200 8 160 (job 2 "hourly" none) second_left-new))
      (executes 8 170 works claimed_200)

meanwhile-AreOfOthers :
    AreOfOthers (claimed_ids (claim_retries unlocked 7 100 healthy.runs).1) 7 300100 meanwhile
unfolding scheduler
meanwhile-AreOfOthers = (((tt, omega arith), refl), inl refl)

claim_retries_exclusive_example :
    All
      (λ c. elem c.run_id (claimed_ids (claim_retries unlocked 7 100 healthy.runs).1) ≡ false)
      (claim_retries unlocked 8 200 (execute 8 170 works claimed_200 second_left)).1
claim_retries_exclusive_example =
    claim_retries_exclusive unlocked unlocked 7 8 100 200 healthy.runs
      (execute 8 170 works claimed_200 second_left) meanwhile meanwhile-AreOfOthers (omega arith)

abbrev first_run : JobRun
first_run = new_run 101 7 100 (job 1 "daily" (some 90))

abbrev second_run : JobRun
second_run = new_run 102 7 100 (job 2 "hourly" none)

abbrev started : Database × List ClaimedRun
started = (
  record {
    jobs =
        record (job 1 "daily" (some 86400100)) { last_run_at = some 100 }
        ∷ record (job 2 "hourly" (some 3600100)) { last_run_at = some 100 }
        ∷ [];
    runs = failed_run ∷ first_run ∷ second_run ∷ [];
  },
  claimed_new first_run ∷ claimed_new second_run ∷ [],
)

abbrev first_attempt : ClaimedRun
first_attempt = record {
  run_id = 9;
  organization_id = some 1;
  job_type = "insights-sweep";
  payload = [];
  attempts = 1;
  max_attempts = 3;
}

abbrev lost_run : JobRun
lost_run = new_run 9 1 0 (job 1 "daily" none)

healthy-Inv : Inv healthy.runs
healthy-Inv = record {
  distinct = (refl, tt);
  sound = (record { bounded = omega arith; owned = refl; leased = refl }, tt);
}

Reach-Inv_example :
    Inv (execute 7 110 works first_attempt (claim_retries unlocked 7 100 healthy.runs).0)
Reach-Inv_example =
    Reach-Inv healthy-Inv
      (next (next here (retries unlocked 7 100)) (executes 7 110 works first_attempt))

healthy-AreFresh :
    AreFresh run_id 7 100
      (due_jobs unlocked
        (20 - length (claim_retries unlocked 7 100 healthy.runs).1)
        100
        healthy.jobs)
      (claim_retries unlocked 7 100 healthy.runs).0
unfolding scheduler
healthy-AreFresh = (refl, (refl, tt))

tick-Reach_example : Reach healthy.runs (tick run_id unlocked 7 100 110 works healthy).0.runs
tick-Reach_example = tick-Reach run_id unlocked 7 100 110 works healthy healthy-AreFresh

poisoned_facts :
    (length (claim_retries unlocked 7 100 poisoned.runs).1 < 20)
    × (any
          (λ j. is_none (next_run_at j.schedule 100))
          (due_jobs unlocked
            (20 - length (claim_retries unlocked 7 100 poisoned.runs).1)
            100
            poisoned.jobs)
        ≡ true)
unfolding scheduler
poisoned_facts = (omega arith, refl)

tick_blocked_example :
    ((tick run_id unlocked 7 100 110 works poisoned).1 ≡ none)
    × ((tick run_id unlocked 7 100 110 works poisoned).0
        ≡ record poisoned { runs = (claim_retries unlocked 7 100 poisoned.runs).0 })
tick_blocked_example =
    tick_blocked run_id unlocked 7 100 110 works poisoned poisoned_facts.0 poisoned_facts.1
