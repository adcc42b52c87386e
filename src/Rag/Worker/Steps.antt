-- ===== src/Rag/Worker/Steps.antt =====
-- The tables as a transition system: claims, renewals and the writes of claimed jobs, by any workers in
-- any order.
use capere_ai.Base.{ℕ, ◌≡◌, Bool, true, Option, List, String, update}
use capere_ai.Rag.Rows.{RagChunk, Store}
use capere_ai.Rag.Access.{answered, owns, is_owned, with_lease}
use capere_ai.Rag.Ingestion.{repeats, write_chunks, index, erase}
use capere_ai.Rag.Worker.{ClaimedRagJob, claim, succeeded_row, failed_store}

-- A step of the worker with the token `t`. It writes content only while a job is running under `t`.
pub data Step (t : ℕ) (db : Store) : Store → Type 0 where
  claims :
      {db' : Store} (locked : ℕ → Bool) (now : ℕ) (job : Option ClaimedRagJob)
      → claim locked t now db ≡ answered (db', job)
      → Step t db db'
  renews :
      (job now : ℕ) → Step t db (record db { jobs = update (owns job t) (with_lease now) db.jobs })
  stores :
      {db' : Store} (job version : ℕ) (rows : List RagChunk)
      → is_owned job t db ≡ true
      → write_chunks version rows db (repeats rows) ≡ answered (db', rows)
      → Step t db db'
  indexes :
      (job document version count : ℕ)
      → is_owned job t db ≡ true
      → Step t db (index document version count db)
  erases :
      (job document : ℕ) (version_ids : List ℕ)
      → is_owned job t db ≡ true
      → Step t db (erase document version_ids db)
  succeeds : (job : ℕ) → Step t db (record db { jobs = update (owns job t) succeeded_row db.jobs })
  fails :
      (j : ClaimedRagJob) (message : String) (now : ℕ)
      → j.claim_token ≡ t
      → is_owned j.id t db ≡ true
      → Step t db (failed_store j message now db)

-- Steps of workers whose tokens are among `T`.
pub data Reach (T : ℕ → Type 0) (db : Store) : Store → Type 0 where
  here : Reach T db db
  next : {mid last : Store} (t : ℕ) → T t → Reach T db mid → Step t mid last → Reach T db last

pub Reach-trans : {T : ℕ → Type 0} {a b c : Store} → Reach T a b → Reach T b c → Reach T a c
Reach-trans p here = p
Reach-trans p (next t m q s) = next t m (Reach-trans p q) s
