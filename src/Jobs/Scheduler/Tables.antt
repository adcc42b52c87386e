-- ===== src/Jobs/Scheduler/Tables.antt =====
-- The rows of `capere.scheduled_jobs` and `capere.job_runs`, and a run as a worker claims it.
use capere_ai.Base.{ℕ, Bool, Option, List, String}

-- The payload of a job and what a job returns, as JSON text.
abbrev pub Text : Type 0
Text = List ℕ

pub data JobStatus : Type 0 where
  scheduled running succeeded failed dead_lettered : JobStatus

pub record ScheduledJob : Type 0 where
  pub id : ℕ
  pub organization_id : Option ℕ
  pub job_type : String
  pub schedule : String
  pub enabled : Bool
  pub payload : Text
  pub last_run_at : Option ℕ
  pub next_run_at : Option ℕ

pub record JobRun : Type 0 where
  pub id : ℕ
  pub organization_id : Option ℕ
  pub scheduled_job_id : Option ℕ
  pub job_type : String
  pub status : JobStatus
  pub payload : Text
  pub attempts : ℕ
  pub max_attempts : ℕ
  pub claimed_by : Option ℕ
  pub lease_until : Option ℕ
  pub next_retry_at : Option ℕ
  pub started_at : Option ℕ
  pub finished_at : Option ℕ
  pub created_at : ℕ
  pub result : Option Text
  pub error : Option Text

pub record Database : Type 0 where
  pub jobs : List ScheduledJob
  pub runs : List JobRun

pub record ClaimedRun : Type 0 where
  pub run_id : ℕ
  pub organization_id : Option ℕ
  pub job_type : String
  pub payload : Text
  pub attempts : ℕ
  pub max_attempts : ℕ
