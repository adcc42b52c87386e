-- ===== src/Jobs/Scheduler/Steps.antt =====
-- The table of job runs as a transition system: claims of retries, new runs, results, and an
-- operator's retries, by any workers in any order.
use capere_ai.Base.{
  ℕ, ◌-◌, ◌≡◌, refl, ◌∙◌, subst, Bool, true, false, not, ◌&&◌, some, List, [], ◌∷◌, ◌++◌, arith,
  elem, select, update, length, All, All-append, All-update, All-zip, All-imp, is_none, ltb, find,
  Option-cases, Bool-cases, inl, inr, Distinct, Distinct-concat, select_reflects, elem-take,
  elem-order_by, map-update,
}
use capere_ai.Jobs.Scheduler.{
  JobRun, ScheduledJob, Database, ClaimedRun, Outcome, is_lost, bury, expire, is_retryable, reopen,
  run_ids, retry_rows, claim_retries, start_due, claim_due, due_jobs, new_run, finish, is_own_run,
  execute, execute_all, tick,
}
use capere_ai.Jobs.Scheduler.Due.{start_one, start_due-cons, start_due-nil}
use capere_ai.Jobs.Scheduler.Runs.{
  IsSound, bury-IsSound, reopen-IsSound, finish-IsSound, revive-IsSound,
}
use capere_ai.Jobs.Monitoring.{retry, revive, is_revivable}

pub data Step : List JobRun → List JobRun → Type 0 where
  retries :
      {runs : List JobRun} (locked : ℕ → Bool) (worker now : ℕ)
      → Step runs (claim_retries locked worker now runs).0
  starts :
      {runs : List JobRun} (id worker now : ℕ) (j : ScheduledJob)
      → elem id (run_ids runs) ≡ false
      → Step runs (runs ++ new_run id worker now j ∷ [])
  executes :
      {runs : List JobRun} (worker now : ℕ) (dispatch : ClaimedRun → Outcome) (run : ClaimedRun)
      → Step runs (execute worker now dispatch run runs)
  revives :
      {runs runs' : List JobRun} (organization_id id now : ℕ)
      → retry organization_id id now runs ≡ some runs'
      → Step runs runs'

pub data Reach (runs : List JobRun) : List JobRun → Type 0 where
  here : Reach runs runs
  next : {mid last : List JobRun} → Reach runs mid → Step mid last → Reach runs last

pub record Inv (runs : List JobRun) : Type 0 where
  pub distinct : Distinct (run_ids runs)
  pub sound : All IsSound runs

expire-Inv : (now : ℕ) (runs : List JobRun) → Inv runs → Inv (expire now runs)
unfolding expire
expire-Inv now runs v = record {
  distinct = rw (map-update (λ r. r.id) (is_lost now) (bury now) (λ r. refl) runs) v.distinct;
  sound =
      All-update IsSound IsSound (is_lost now) (bury now) (λ r s _. bury-IsSound r now s)
        (λ r s _. s) runs v.sound;
}

-- With distinct ids only a retryable run has the id of a selected run.
selected_retryable :
    (locked : ℕ → Bool) (now : ℕ) (runs : List JobRun)
    → Distinct (run_ids runs)
    → All
        (λ r. elem r.id (run_ids (retry_rows locked now runs)) ≡ true → is_retryable now r ≡ true)
        runs
unfolding retry_rows
selected_retryable locked now runs d =
    All-imp (λ r. elem r.id (run_ids (select free runs)) ≡ true → free r ≡ true) _
      (λ r f h. retryable r (f (kept r h))) runs (select_reflects (λ r. r.id) free runs d)
  where
    free : JobRun → Bool
    free r = is_retryable now r && not (locked r.id)

    retryable : (r : JobRun) → free r ≡ true → is_retryable now r ≡ true
    retryable r e = ground arith

    kept :
        (r : JobRun)
        → elem r.id (run_ids (retry_rows locked now runs)) ≡ true
        → elem r.id (run_ids (select free runs)) ≡ true
    kept r h = elim (Bool-cases (elem r.id (run_ids (select free runs)))) [
      | inl e ↦ e
      | inr e ↦
          let gone =
            elem-take (λ r. r.id) r.id 20 _
              (elem-order_by (λ r. r.id) r.id (λ r. r.created_at) (select free runs) ∙ e) in
          cc
    ]

reopen_all-Inv :
    (locked : ℕ → Bool) (worker now : ℕ) (runs : List JobRun)
    → Inv runs
    → Inv (update (λ r. elem r.id (run_ids (retry_rows locked now runs))) (reopen worker now) runs)
reopen_all-Inv locked worker now runs v = record {
  distinct = rw (map-update (λ r. r.id) _ (reopen worker now) (λ r. refl) runs) v.distinct;
  sound =
      All-update
        (λ r.
          IsSound r
          × (elem r.id (run_ids (retry_rows locked now runs)) ≡ true → is_retryable now r ≡ true))
        IsSound _ (reopen worker now) (λ r s e. reopen-IsSound r worker now (s.1 e) s.0)
        (λ r s _. s.0) runs
        (All-zip IsSound _ runs v.sound (selected_retryable locked now runs v.distinct));
}

finish-id : (run : ClaimedRun) (now : ℕ) (o : Outcome) (r : JobRun) → (finish run now o r).id ≡ r.id
unfolding finish
finish-id run now (Outcome.done t) r = refl
finish-id run now (Outcome.threw t) r = refl

new_run-IsSound : (id worker now : ℕ) (j : ScheduledJob) → IsSound (new_run id worker now j)
new_run-IsSound id worker now j = ground arith

revive_all-Inv :
    (organization_id id now : ℕ) (runs : List JobRun)
    → Inv runs
    → Inv (update (is_revivable organization_id id) (revive now) runs)
revive_all-Inv organization_id id now runs v = record {
  distinct = rw (map-update (λ r. r.id) _ (revive now) (λ r. refl) runs) v.distinct;
  sound =
      All-update IsSound IsSound _ (revive now) (λ r s _. revive-IsSound r now s) (λ r s _. s) runs
        v.sound;
}

pub Step-Inv : {runs runs' : List JobRun} → Step runs runs' → Inv runs → Inv runs'
unfolding claim_retries execute retry
Step-Inv (retries {runs} locked worker now) v =
    reopen_all-Inv locked worker now (expire now runs) (expire-Inv now runs v)
Step-Inv (starts {runs} id worker now j new) v = record {
  distinct = Distinct-concat (λ r. r.id) runs _ new v.distinct;
  sound = All-append IsSound runs _ v.sound (new_run-IsSound id worker now j, tt);
}
Step-Inv (executes {runs} worker now dispatch run) v = record {
  distinct =
      rw
        (map-update (λ r. r.id) (is_own_run worker run.run_id) (finish run now (dispatch run))
          (finish-id run now (dispatch run)) runs)
        v.distinct;
  sound =
      All-update IsSound IsSound _ _ (λ r s _. finish-IsSound run now (dispatch run) r s)
        (λ r s _. s) runs v.sound;
}
Step-Inv (revives {runs} {runs'} organization_id id now e) v =
    elim (Bool-cases (is_none (find (is_revivable organization_id id) runs))) [
      | inl missing ↦ absurd (ground arith)
      | inr found ↦ subst Inv (ground arith) (revive_all-Inv organization_id id now runs v)
    ]

-- In whatever order workers claim, start, finish and revive runs, from any sound table: ids stay
-- distinct, no run has more attempts than it may have, and exactly the running runs have an owner
-- and a lease.
pub Reach-Inv : {runs runs' : List JobRun} → Inv runs → Reach runs runs' → Inv runs'
Reach-Inv v here = v
Reach-Inv v (next r s) = Step-Inv s (Reach-Inv v r)

-- New runs have ids of their own.
abbrev pub AreFresh : (ℕ → ℕ) → ℕ → ℕ → List ScheduledJob → List JobRun → Type 0
AreFresh run_id worker now [] runs = Unit
AreFresh run_id worker now (j ∷ js) runs =
    (elem (run_id j.id) (run_ids runs) ≡ false)
    × AreFresh run_id worker now js (runs ++ new_run (run_id j.id) worker now j ∷ [])

Reach-trans : {a b c : List JobRun} → Reach a b → Reach b c → Reach a c
Reach-trans p here = p
Reach-trans p (next q s) = next (Reach-trans p q) s

start_due-Reach :
    (run_id : ℕ → ℕ) (worker now : ℕ) (js : List ScheduledJob) (db : Database)
    {after : Database × List ClaimedRun}
    → start_due run_id worker now js db ≡ some after
    → AreFresh run_id worker now js db.runs
    → Reach db.runs after.0.runs
unfolding start_one
start_due-Reach run_id worker now [] db {after} e f =
    subst (λ (d : Database). Reach db.runs d.runs) (start_due-nil run_id worker now db e).0 here
start_due-Reach run_id worker now (j ∷ js) db {after} e (new, f) =
    let (next_at, rest, found, went_on, _) = start_due-cons run_id worker now j js db e in
    Reach-trans (next here (starts (run_id j.id) worker now j new))
      (start_due-Reach run_id worker now js (start_one run_id worker now j next_at db) went_on f)

execute_all-Reach :
    (worker now : ℕ) (dispatch : ClaimedRun → Outcome) (batch : List ClaimedRun)
    (runs : List JobRun)
    → Reach runs (execute_all worker now dispatch batch runs)
unfolding execute_all
execute_all-Reach worker now dispatch [] runs = here
execute_all-Reach worker now dispatch (run ∷ batch) runs =
    Reach-trans (next here (executes worker now dispatch run))
      (execute_all-Reach worker now dispatch batch (execute worker now dispatch run runs))

claim_due-Reach :
    (run_id : ℕ → ℕ) (locked : ℕ → Bool) (worker limit now : ℕ) (db : Database)
    {after : Database × List ClaimedRun}
    → claim_due run_id locked worker limit now db ≡ some after
    → AreFresh run_id worker now (due_jobs locked limit now db.jobs) db.runs
    → Reach db.runs after.0.runs
unfolding claim_due
claim_due-Reach run_id locked worker limit now db e f =
    start_due-Reach run_id worker now (due_jobs locked limit now db.jobs) db e f

-- Each pass of the scheduler, whatever its jobs do and also where it throws, is a sequence of such
-- steps, if the new runs have new ids.
pub tick-Reach :
    (run_id : ℕ → ℕ) (locked : ℕ → Bool) (worker now later : ℕ) (dispatch : ClaimedRun → Outcome)
    (db : Database)
    → AreFresh run_id worker now
        (due_jobs locked (20 - length (claim_retries locked worker now db.runs).1) now db.jobs)
        (claim_retries locked worker now db.runs).0
    → Reach db.runs (tick run_id locked worker now later dispatch db).0.runs
unfolding tick
tick-Reach run_id locked worker now later dispatch db f = elim (Bool-cases (ltb 0 limit)) [
  | inl room ↦ elim (Option-cases (claim_due run_id locked worker limit now db')) [
    | inl failed ↦ subst (Reach db.runs) (ground arith) claimed
    | inr (after, e) ↦
        let run = Reach-trans claimed (
          Reach-trans (claim_due-Reach run_id locked worker limit now db' e f)
            (execute_all-Reach worker later dispatch (taken.1 ++ after.1) after.0.runs)) in
        subst (Reach db.runs) (ground arith) run
  ]
  | inr full ↦
      let run =
        Reach-trans claimed (execute_all-Reach worker later dispatch (taken.1 ++ []) taken.0) in
      subst (Reach db.runs) (ground arith) run
]
  where
    taken : List JobRun × List ClaimedRun
    taken = claim_retries locked worker now db.runs

    db' : Database
    db' = record db { runs = taken.0 }

    limit : ℕ
    limit = 20 - length taken.1

    claimed : Reach db.runs taken.0
    claimed = next here (retries locked worker now)
