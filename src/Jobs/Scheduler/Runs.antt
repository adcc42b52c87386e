-- ===== src/Jobs/Scheduler/Runs.antt =====
-- What holds of every job run, and when a run is tried again.
use capere_ai.Base.{ℕ, ◌+◌, ◌≤◌, ◌≡◌, ◌⊎◌, true, false, ◌&&◌, some, arith, is_some, leb, ltb}
use capere_ai.Jobs.Scheduler.{
  JobRun, running, ClaimedRun, Outcome, done, threw, is_running, is_lost, bury, is_retryable,
  reopen, retry_delay, finish,
}
use capere_ai.Jobs.Monitoring.{revive}

-- A run is owned under a lease while it is running, and only then; it never has more attempts
-- than it may have.
pub record IsSound (r : JobRun) : Type 0 where
  pub bounded : r.attempts ≤ r.max_attempts
  pub owned : is_some r.claimed_by ≡ is_running r.status
  pub leased : is_some r.lease_until ≡ is_running r.status

pub bury-IsSound : (r : JobRun) (now : ℕ) → IsSound r → IsSound (bury now r)
bury-IsSound r now s = ground arith

pub reopen-IsSound :
    (r : JobRun) (worker now : ℕ)
    → is_retryable now r ≡ true
    → IsSound r
    → IsSound (reopen worker now r)
unfolding is_retryable
reopen-IsSound r worker now e s = ground arith

pub finish-IsSound :
    (run : ClaimedRun) (now : ℕ) (o : Outcome) (r : JobRun)
    → IsSound r
    → IsSound (finish run now o r)
unfolding finish
finish-IsSound run now (done result) r s = ground arith
finish-IsSound run now (threw message) r s = ground arith

pub revive-IsSound : (r : JobRun) (now : ℕ) → IsSound r → IsSound (revive now r)
revive-IsSound r now s = ground arith

-- A retried run is claimable only from its retry time on, a finished or dead-lettered one never:
-- after an attempt that ends at `now`, a success is final, a failure is final if it was the last
-- permitted attempt, and otherwise the run can be claimed once 2^attempts seconds, an hour at most,
-- have passed.
pub finish-is_retryable :
    (run : ClaimedRun) (now t : ℕ) (o : Outcome) (r : JobRun)
    → r.attempts ≡ run.attempts
    → r.max_attempts ≡ run.max_attempts
    → is_retryable t (finish run now o r) ≡ (elim o [
      | done result ↦ false
      | threw message ↦ ltb run.attempts run.max_attempts && leb (now + retry_delay run.attempts) t
    ])
unfolding finish is_retryable
finish-is_retryable run now t (done result) r same same' = ground arith
finish-is_retryable run now t (threw message) r same same' = ground arith

-- A running run is never stuck: once its lease is over it is retried or dead-lettered.
pub running_progress :
    (r : JobRun) (until t : ℕ)
    → r.status ≡ running
    → r.lease_until ≡ some until
    → until ≤ t
    → (is_retryable t r ≡ true) × (is_lost t r ≡ false)
      ⊎ (is_retryable t r ≡ false) × (is_lost t r ≡ true)
unfolding is_retryable is_lost
running_progress r until t e l le = ground arith
