-- ===== src/Rag/Worker/Invariant.antt =====
-- What holds of the jobs, and which of them no worker takes up again.
use capere_ai.Base.{
  ℕ, String, ◌≤◌, ◌≡◌, refl, sym, ◌∙◌, subst, Bool, true, false, not, ◌&&◌, ◌==◌, Option, is_some,
  List, [], ◌∷◌, map, arith, elem, select, update, All, All-imp, All-zip, All-of, All-update,
  Bool-cases, inl, inr, Distinct, select_reflects, elem-order_by, map-update, leb,
}
use capere_ai.Rag.Rows.{RagChunk, RagJob, Store, is_running}
use capere_ai.Rag.Access.{answered, owns, with_lease}
use capere_ai.Rag.Ingestion.{repeats, write_chunks}
use capere_ai.Rag.Worker.{
  ClaimedRagJob, is_claimable, claim_row, claim_first, claimable_jobs, claim, succeeded_row,
  failed_row,
}
use capere_ai.Rag.Worker.Steps.{Step, Reach}

abbrev pub job_ids : List RagJob → List ℕ
job_ids = map (λ r. r.id)

-- A job is claimed under a lease while it is running, and only then; it never has more attempts than it
-- may have.
pub record IsSound (r : RagJob) : Type 0 where
  pub bounded : r.attempts ≤ r.max_attempts
  pub owned : is_some r.claimed_by ≡ is_running r.status
  pub leased : is_some r.lease_until ≡ is_running r.status

pub record Inv (db : Store) : Type 0 where
  pub distinct : Distinct (job_ids db.jobs)
  pub sound : All IsSound db.jobs

claim_row-IsSound :
    (token now : ℕ) (r : RagJob)
    → is_claimable now r ≡ true
    → IsSound r
    → IsSound (claim_row token now r)
unfolding is_claimable
claim_row-IsSound token now r e s = ground arith

with_lease-IsSound :
    (job token now : ℕ) (r : RagJob)
    → owns job token r ≡ true
    → IsSound r
    → IsSound (with_lease now r)
with_lease-IsSound job token now r e s = ground arith

succeeded_row-IsSound : (r : RagJob) → IsSound r → IsSound (succeeded_row r)
succeeded_row-IsSound r s = ground arith

failed_row-IsSound :
    (j : ClaimedRagJob) (message : String) (now : ℕ) (r : RagJob)
    → IsSound r
    → IsSound (failed_row j message now r)
failed_row-IsSound j message now r s = elim (Bool-cases (leb j.max_attempts j.attempts)) [
  | inl y ↦ rw y (record { bounded = s.bounded; owned = refl; leased = refl })
  | inr n ↦ rw n (record { bounded = s.bounded; owned = refl; leased = refl })
]

-- With distinct ids only a claimable job has the id of a selected one.
selected_claimable :
    (locked : ℕ → Bool) (now : ℕ) (db : Store)
    → Distinct (job_ids db.jobs)
    → All
        (λ r. elem r.id (job_ids (claimable_jobs locked now db)) ≡ true → is_claimable now r ≡ true)
        db.jobs
unfolding claimable_jobs
selected_claimable locked now db d =
    All-imp (λ r. elem r.id (job_ids (select free db.jobs)) ≡ true → free r ≡ true) _
      (λ r f h.
        claimable r
          (f (sym (elem-order_by (λ x. x.id) r.id (λ x. x.created_at) (select free db.jobs)) ∙ h)))
      db.jobs (select_reflects (λ r. r.id) free db.jobs d)
  where
    free : RagJob → Bool
    free r = is_claimable now r && not (locked r.id)

    claimable : (r : RagJob) → free r ≡ true → is_claimable now r ≡ true
    claimable r e = ground arith

-- What a claim does: nothing, or it takes a job of which only claimable rows have the id.
pub data Claimed (t : ℕ) (now : ℕ) (db : Store) (db' : Store) : Type 0 where
  nothing : db' ≡ db → Claimed t now db db'
  taken :
      (id : ℕ)
      → All (λ r. (r.id == id) ≡ true → is_claimable now r ≡ true) db.jobs
      → db' ≡ record db { jobs = update (λ r. r.id == id) (claim_row t now) db.jobs }
      → Claimed t now db db'

claim_first-Claimed :
    (t now : ℕ) (db db' : Store) (o : Option ClaimedRagJob) (js : List RagJob)
    → All (λ r. elem r.id (job_ids js) ≡ true → is_claimable now r ≡ true) db.jobs
    → claim_first t now db js ≡ answered (db', o)
    → Claimed t now db db'
claim_first-Claimed t now db db' o [] h e = Claimed.nothing cc
claim_first-Claimed t now db db' o (j ∷ js) h e =
    Claimed.taken j.id (All-imp _ _ (λ r f m. f (ground arith)) db.jobs h) cc

pub claim-Claimed :
    (locked : ℕ → Bool) (t now : ℕ) (db db' : Store) (o : Option ClaimedRagJob)
    → Distinct (job_ids db.jobs)
    → claim locked t now db ≡ answered (db', o)
    → Claimed t now db db'
unfolding claim
claim-Claimed locked t now db db' o d e =
    claim_first-Claimed t now db db' o (claimable_jobs locked now db)
      (selected_claimable locked now db d) e

update-Inv :
    (db : Store) (p : RagJob → Bool) (f : RagJob → RagJob)
    → ((r : RagJob) → (f r).id ≡ r.id)
    → All (λ r. p r ≡ true → IsSound r → IsSound (f r)) db.jobs
    → Inv db
    → Inv (record db { jobs = update p f db.jobs })
update-Inv db p f same keep v = record {
  distinct = rw (map-update (λ r. r.id) p f same db.jobs) v.distinct;
  sound =
      All-update (λ r. IsSound r × (p r ≡ true → IsSound r → IsSound (f r))) IsSound p f
        (λ r h e. h.1 e h.0) (λ r h e. h.0) db.jobs (All-zip IsSound _ db.jobs v.sound keep);
}

pub same_jobs :
    (version : ℕ) (rows : List RagChunk) (db db' : Store) (b : Bool)
    → write_chunks version rows db b ≡ answered (db', rows)
    → db'.jobs ≡ db.jobs
same_jobs version rows db db' true e = absurd cc
same_jobs version rows db db' false e = cc

Inv-of_jobs : (db db' : Store) → db'.jobs ≡ db.jobs → Inv db → Inv db'
Inv-of_jobs db db' e v = record {
  distinct = subst (λ js. Distinct (job_ids js)) (sym e) v.distinct;
  sound = subst (All IsSound) (sym e) v.sound;
}

Claimed-Inv : (t now : ℕ) (db db' : Store) → Claimed t now db db' → Inv db → Inv db'
Claimed-Inv t now db db' (Claimed.nothing e) v = subst Inv (sym e) v
Claimed-Inv t now db db' (Claimed.taken id claimable e) v = subst Inv (sym e) (
    update-Inv db (λ r. r.id == id) (claim_row t now) (λ r. refl)
      (All-imp _ _ (λ r c e' s. claim_row-IsSound t now r (c e') s) db.jobs claimable) v)

pub Step-Inv : (t : ℕ) (db db' : Store) → Step t db db' → Inv db → Inv db'
Step-Inv t db db' (Step.claims locked now o e) v =
    Claimed-Inv t now db db' (claim-Claimed locked t now db db' o v.distinct e) v
Step-Inv t db db' (Step.renews job now) v =
    update-Inv db (owns job t) (with_lease now) (λ r. refl)
      (All-of _ (with_lease-IsSound job t now) db.jobs) v
Step-Inv t db db' (Step.stores job version rows o e) v =
    Inv-of_jobs db db' (same_jobs version rows db db' (repeats rows) e) v
Step-Inv t db db' (Step.indexes job document version count o) v = Inv-of_jobs db _ refl v
Step-Inv t db db' (Step.erases job document version_ids o) v = Inv-of_jobs db _ refl v
Step-Inv t db db' (Step.succeeds job) v =
    update-Inv db (owns job t) succeeded_row (λ r. refl)
      (All-of _ (λ r _ s. succeeded_row-IsSound r s) db.jobs) v
Step-Inv t db db' (Step.fails j message now of_token o) v =
    Inv-of_jobs
      (record db { jobs = update (owns j.id j.claim_token) (failed_row j message now) db.jobs }) _
      refl
      (update-Inv db (owns j.id j.claim_token) (failed_row j message now) (λ r. refl)
        (All-of _ (λ r _ s. failed_row-IsSound j message now r s) db.jobs) v)

-- In whatever order workers claim jobs, work on them and end: ids stay distinct, no job has more attempts
-- than it may have, and exactly the running jobs have an owner and a lease.
pub all_reached-Inv : (T : ℕ → Type 0) (db db' : Store) → Inv db → Reach T db db' → Inv db'
all_reached-Inv T db db' v Reach.here = v
all_reached-Inv T db db' v (Reach.next {mid} t m r s) =
    Step-Inv t mid db' s (all_reached-Inv T db mid v r)
