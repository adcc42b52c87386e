-- ===== src/Jobs/Scheduler/Due.antt =====
-- Scheduled jobs that are due: each one starts one run, and is not due again for an hour or more.
use capere_ai.Base.{
  ℕ, suc, ◌+◌, ◌≤◌, ◌<◌, ◌≡◌, ◌≢◌, sym, ap, ◌∙◌, subst, Bool, true, ◌&&◌, not, none, some, List, [],
  ◌∷◌, ◌++◌, String, arith, select, update, any, All, All-imp, All-of, All-take, All-append,
  All-select, All-update, All-order_by, some_and, leb, ◌==◌, is_some, is_none, Option-cases, inl,
  inr, length, length-take-le,
}
use capere_ai.Jobs.Scheduler.{
  ScheduledJob, Database, ClaimedRun, next_run_at, is_due, due_jobs, start_due, claim_due, new_run,
  claimed_new,
}

-- Every interval is an hour at least.
pub next_run_at-le :
    (schedule : String) (now next : ℕ) → next_run_at schedule now ≡ some next → now + 3600000 ≤ next
unfolding next_run_at
next_run_at-le schedule now next e = ground arith

due_jobs-All {κ} :
    (P Q : ScheduledJob → Type κ) (locked : ℕ → Bool) (limit now : ℕ) (jobs : List ScheduledJob)
    → ((j : ScheduledJob) → P j → is_due now j ≡ true → Q j)
    → All P jobs
    → All Q (due_jobs locked limit now jobs)
unfolding due_jobs
due_jobs-All P Q locked limit now jobs f h = All-take Q limit _ (
    All-append Q _ _
      (All-order_by Q _ _ (All-select Q Q (λ j. is_some j.next_run_at) (λ j q _. q) due all_due))
      (All-select Q Q (λ j. is_none j.next_run_at) (λ j q _. q) due all_due))
  where
    due : List ScheduledJob
    due = select (λ j. is_due now j && not (locked j.id)) jobs

    all_due : All Q due
    all_due =
        All-select P Q (λ j. is_due now j && not (locked j.id)) (λ j p e. f j p (ground arith)) jobs
          h

-- The job of an id, if there is one, has its next run at `until` or later.
abbrev Later : ℕ → ℕ → ScheduledJob → Type 0
Later until i j = j.id ≡ i → some_and (λ t. leb until t) j.next_run_at ≡ true

abbrev pub touch : ℕ → ℕ → ScheduledJob → ScheduledJob
touch now next k = record k { last_run_at = some now; next_run_at = some next }

unfoldable pub start_one : (ℕ → ℕ) → ℕ → ℕ → ScheduledJob → ℕ → Database → Database
start_one run_id worker now j next db = record db {
  jobs = update (λ k. k.id == j.id) (touch now next) db.jobs;
  runs = db.runs ++ new_run (run_id j.id) worker now j ∷ [];
}

module _ (run_id : ℕ → ℕ) (worker now : ℕ) where
  -- A loop that succeeds has started its first job, and goes on from there.
  pub start_due-cons :
      (j : ScheduledJob) (js : List ScheduledJob) (db : Database)
      {after : Database × List ClaimedRun}
      → start_due run_id worker now (j ∷ js) db ≡ some after
      → (next : ℕ) × (rest : List ClaimedRun) × (next_run_at j.schedule now ≡ some next)
        × (start_due run_id worker now js (start_one run_id worker now j next db)
            ≡ some (after.0, rest))
        × (after.1 ≡ claimed_new (new_run (run_id j.id) worker now j) ∷ rest)
  unfolding start_due start_one
  start_due-cons j js db {after} e = elim (Option-cases (next_run_at j.schedule now)) [
    | inl none_next ↦ absurd (ground arith)
    | inr (next, found) ↦
        elim (Option-cases
          (start_due run_id worker now js (start_one run_id worker now j next db))) [
            | inl failed ↦ absurd (ground arith)
            | inr (rest, went_on) ↦ (next, rest.1, found, ground arith, ground arith)
          ]
  ]

  pub start_due-nil :
      (db : Database) {after : Database × List ClaimedRun}
      → start_due run_id worker now [] db ≡ some after
      → (db ≡ after.0) × ([] ≡ after.1)
  unfolding start_due
  start_due-nil db e = (cc, cc)

  touch-Later :
      (i until : ℕ) (j : ScheduledJob) (next : ℕ) (jobs : List ScheduledJob)
      → until ≤ next
      → All (Later until i) jobs
      → All (Later until i) (update (λ k. k.id == j.id) (touch now next) jobs)
  touch-Later i until j next jobs le h =
      All-update (Later until i) (Later until i) (λ k. k.id == j.id) (touch now next)
        (λ k l e same. ground arith) (λ k l _. l) jobs h

  touched-Later :
      (until : ℕ) (j : ScheduledJob) (next : ℕ) (jobs : List ScheduledJob)
      → until ≤ next
      → All (Later until j.id) (update (λ k. k.id == j.id) (touch now next) jobs)
  touched-Later until j next jobs le =
      All-update (λ k. Unit {0}) (Later until j.id) (λ k. k.id == j.id) (touch now next)
        (λ k _ e same. ground arith) (λ k _ e same. absurd (ground arith)) jobs
        (All-of (λ k. Unit {0}) (λ k. tt) jobs)

  start_due-keeps :
      (i : ℕ) (js : List ScheduledJob) (db : Database) {after : Database × List ClaimedRun}
      → start_due run_id worker now js db ≡ some after
      → All (Later (now + 3600000) i) db.jobs
      → All (Later (now + 3600000) i) after.0.jobs
  start_due-keeps i [] db {after} e h =
      subst (λ (d : Database). All (Later (now + 3600000) i) d.jobs) (start_due-nil db e).0 h
  start_due-keeps i (j ∷ js) db {after} e h =
      let (next, rest, found, went_on, _) = start_due-cons j js db e in
      start_due-keeps i js (start_one run_id worker now j next db) went_on (
        unfold start_one in
        touch-Later i (now + 3600000) j next db.jobs (next_run_at-le j.schedule now next found) h)

  start_due-Later :
      (js : List ScheduledJob) (db : Database) {after : Database × List ClaimedRun}
      → start_due run_id worker now js db ≡ some after
      → All (λ j. All (Later (now + 3600000) j.id) after.0.jobs) js
  start_due-Later [] db e = tt
  start_due-Later (j ∷ js) db {after} e =
      let (next, rest, found, went_on, _) = start_due-cons j js db e in
      let db' = start_one run_id worker now j next db in
      (
        start_due-keeps j.id js db' went_on (
            unfold start_one in
            touched-Later (now + 3600000) j next db.jobs
              (next_run_at-le j.schedule now next found)),
        start_due-Later js db' went_on,
      )

  -- One run for each job, in order.
  pub start_due-length :
      (js : List ScheduledJob) (db : Database) {after : Database × List ClaimedRun}
      → start_due run_id worker now js db ≡ some after
      → length after.1 ≡ length js
  start_due-length [] db e = ap length (sym (start_due-nil db e).1)
  start_due-length (j ∷ js) db e =
      let (next, rest, found, went_on, all) = start_due-cons j js db e in
      ap length all ∙ ap suc (start_due-length js (start_one run_id worker now j next db) went_on)

not_due :
    (r : ScheduledJob) (now until : ℕ)
    → now < until
    → some_and (λ t. leb until t) r.next_run_at ≡ true
    → is_due now r ≡ true
    → ⊥
unfolding is_due
not_due r now until lt l d = ground arith

-- A due job starts once: after a successful claim, none of the claimed jobs is due within the next
-- hour, so that no worker claims it again before.
pub claim_due_once :
    (run_id : ℕ → ℕ) (locked locked' : ℕ → Bool) (worker limit limit' now now' : ℕ) (db : Database)
    {after : Database × List ClaimedRun}
    → claim_due run_id locked worker limit now db ≡ some after
    → now' < now + 3600000
    → All
        (λ j. All (λ k. k.id ≢ j.id) (due_jobs locked' limit' now' after.0.jobs))
        (due_jobs locked limit now db.jobs)
unfolding claim_due
claim_due_once run_id locked locked' worker limit limit' now now' db {after} e lt =
    All-imp (λ j. All (Later (now + 3600000) j.id) after.0.jobs) _
      (λ j h.
        due_jobs-All (Later (now + 3600000) j.id) (λ k. k.id ≢ j.id) locked' limit' now'
          after.0.jobs (λ k l d same. not_due k now' (now + 3600000) lt (l same) d) h)
      (due_jobs locked limit now db.jobs)
      (start_due-Later run_id worker now (due_jobs locked limit now db.jobs) db e)

-- One job with a schedule that is not supported, and the whole claim fails.
start_due-eq-none :
    (run_id : ℕ → ℕ) (worker now : ℕ) (js : List ScheduledJob) (db : Database)
    → any (λ j. is_none (next_run_at j.schedule now)) js ≡ true
    → start_due run_id worker now js db ≡ none
unfolding start_due start_one
start_due-eq-none run_id worker now [] db h = cc
start_due-eq-none run_id worker now (j ∷ js) db h =
    elim (Option-cases (next_run_at j.schedule now)) [
      | inl e ↦ ground arith
      | inr (next, e) ↦
          ground
            (arith, start_due-eq-none run_id worker now js (start_one run_id worker now j next db))
    ]

pub claim_due-eq-none :
    (run_id : ℕ → ℕ) (locked : ℕ → Bool) (worker limit now : ℕ) (db : Database)
    → any (λ j. is_none (next_run_at j.schedule now)) (due_jobs locked limit now db.jobs) ≡ true
    → claim_due run_id locked worker limit now db ≡ none
unfolding claim_due
claim_due-eq-none run_id locked worker limit now db h =
    start_due-eq-none run_id worker now (due_jobs locked limit now db.jobs) db h

length-due_jobs-le :
    (locked : ℕ → Bool) (limit now : ℕ) (jobs : List ScheduledJob)
    → length (due_jobs locked limit now jobs) ≤ limit
unfolding due_jobs
length-due_jobs-le locked limit now jobs = length-take-le limit _

pub claim_due-length-le :
    (run_id : ℕ → ℕ) (locked : ℕ → Bool) (worker limit now : ℕ) (db : Database)
    {after : Database × List ClaimedRun}
    → claim_due run_id locked worker limit now db ≡ some after
    → length after.1 ≤ limit
unfolding claim_due
claim_due-length-le run_id locked worker limit now db e = omega (
  arith,
  start_due-length run_id worker now (due_jobs locked limit now db.jobs) db e,
  length-due_jobs-le locked limit now db.jobs,
)
