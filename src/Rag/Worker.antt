-- ===== src/Rag/Worker.antt =====
-- backend/src/rag/rag-ingestion.worker.ts: one pass of a worker. The timer's start and stop are process
-- control; its renewals are among what happens between two accesses.
pub mod Steps
pub mod Rules
pub mod Runs
pub mod Passes
pub mod Invariant
pub mod Abandoned
use capere_ai.Base.{
  ℕ, ◌+◌, ◌-◌, ◌*◌, ◌^◌, ◌==◌, Bool, true, false, not, ◌&&◌, ◌||◌, Option, none, some, is_none,
  some_and, List, [], ◌∷◌, String, ltb, leb, select, update, length, order_by, if◌then◌else◌,
}
use capere_ai.Rag.Rows.{
  RagJob, RagJobOperation, RagJobStatus, RagDocument, RagDocumentStatus, RagVersion,
  RagVersionStatus, Store, is_running, is_open, is_deleted,
}
use capere_ai.Rag.Access.{
  lease_lost, thrown, Answer, answered, Flow, Action, Host, ◌>>=◌, ◌>>◌, fail_with, transaction,
  assert_lease, owns, if_owned, or_lost, lease_ms,
}
use capere_ai.Rag.Ingestion.{RagSettings, ingest, purge}

pub record ClaimedRagJob : Type 0 where
  pub id : ℕ
  pub document_id : ℕ
  pub version_id : Option ℕ
  pub operation : RagJobOperation
  pub attempts : ℕ
  pub max_attempts : ℕ
  pub claim_token : ℕ

-- The `WHERE` of the claim.
unfoldable pub is_claimable : ℕ → RagJob → Bool
is_claimable now r =
    is_open r.status
    && ltb r.attempts r.max_attempts
    && (is_none r.next_retry_at || some_and (λ t. leb t now) r.next_retry_at)
    && (not (is_running r.status) || some_and (λ t. ltb t now) r.lease_until)

abbrev pub claim_row : ℕ → ℕ → RagJob → RagJob
claim_row token now r = record r {
  status = RagJobStatus.running;
  attempts = r.attempts + 1;
  claimed_by = some token;
  lease_until = some (now + lease_ms);
  error_message = none;
}

abbrev pub claimed : ℕ → RagJob → ClaimedRagJob
claimed token r = record {
  id = r.id;
  document_id = r.document_id;
  version_id = r.version_id;
  operation = r.operation;
  attempts = r.attempts + 1;
  max_attempts = r.max_attempts;
  claim_token = token;
}

-- The update sets the number of attempts that the query has read.
abbrev pub claim_first : ℕ → ℕ → Store → List RagJob → Answer (Store × Option ClaimedRagJob)
claim_first token now db [] = answered (db, none)
claim_first token now db (j ∷ js) = answered (
  record db { jobs = update (λ r. r.id == j.id) (claim_row token now) db.jobs },
  some (claimed token j),
)

unfoldable pub claimable_jobs : (ℕ → Bool) → ℕ → Store → List RagJob
unfolding is_claimable
claimable_jobs locked now db =
    order_by (λ r. r.created_at) (select (λ r. is_claimable now r && not (locked r.id)) db.jobs)

unfoldable pub claim : (ℕ → Bool) → ℕ → ℕ → Store → Answer (Store × Option ClaimedRagJob)
unfolding claimable_jobs
claim locked token now db = claim_first token now db (claimable_jobs locked now db)

abbrev pub succeeded_row : RagJob → RagJob
succeeded_row r = record r {
  status = RagJobStatus.succeeded;
  error_message = none;
  lease_until = none;
  claimed_by = none;
}

unfoldable pub mark_succeeded : ClaimedRagJob → ℕ → Store → Answer (Store × Bool)
mark_succeeded j now db = answered (
  record db { jobs = update (owns j.id j.claim_token) succeeded_row db.jobs },
  length (select (owns j.id j.claim_token) db.jobs) == 1,
)

abbrev pub retry_at : ClaimedRagJob → ℕ → Option ℕ
retry_at j now =
    if leb j.max_attempts j.attempts then none else some (now + 5000 * 2 ^ (j.attempts - 1))

abbrev pub failed_row : ClaimedRagJob → String → ℕ → RagJob → RagJob
failed_row j message now r = record r {
  status =
      if leb j.max_attempts j.attempts then RagJobStatus.dead_lettered else RagJobStatus.failed;
  next_retry_at = retry_at j now;
  lease_until = none;
  claimed_by = none;
  error_message = some message;
}

abbrev pub failed_document : String → RagDocument → RagDocument
failed_document message d = record d {
  status = RagDocumentStatus.failed;
  error_message = some message;
}

abbrev pub failed_version : String → RagVersion → RagVersion
failed_version message v = record v {
  status = RagVersionStatus.failed;
  error_message = some message;
}

abbrev pub fail_version : Option ℕ → String → List RagVersion → List RagVersion
fail_version none message versions = versions
fail_version (some id) message versions = update (λ v. v.id == id) (failed_version message) versions

abbrev pub failed_store : ClaimedRagJob → String → ℕ → Store → Store
failed_store j message now db = record db {
  jobs = update (owns j.id j.claim_token) (failed_row j message now) db.jobs;
  documents =
      update (λ d. not (is_deleted d.status) && d.id == j.document_id) (failed_document message)
        db.documents;
  versions = fail_version j.version_id message db.versions;
}

unfoldable pub mark_failed : ClaimedRagJob → String → ℕ → Store → Answer (Store × Unit {0})
mark_failed j message now db =
    if_owned j.id j.claim_token db (answered (failed_store j message now db, tt))

module _ {S : Type 0} {V : Type 0} (w : Host S V) where
  abbrev pub ingest_version : RagSettings → ClaimedRagJob → Option ℕ → Action S (Unit {0})
  ingest_version settings j none = fail_with (thrown "Ingestion job has no document version")
  ingest_version settings j (some version) =
      ingest w j.id j.claim_token settings j.document_id version

  abbrev pub work_of : RagSettings → ClaimedRagJob → RagJobOperation → Action S (Unit {0})
  work_of settings j RagJobOperation.delete = purge w j.id j.claim_token j.document_id
  work_of settings j RagJobOperation.ingest = ingest_version settings j j.version_id
  work_of settings j RagJobOperation.reindex = ingest_version settings j j.version_id

  -- What runs under the heartbeat of the lease.
  unfoldable pub work : RagSettings → ClaimedRagJob → Action S (Unit {0})
  work settings j = do
    assert_lease w j.id j.claim_token
    work_of settings j j.operation
    hit ← transaction w (mark_succeeded j)
    or_lost hit

  -- The end of a pass: whether a job was worked on; an error is logged.
  abbrev pub after_fail : Flow S (Unit {0}) → Store × S × Bool
  after_fail (Flow.next db s u) = (db, s, true)
  after_fail (Flow.stop db s e) = (db, s, false)

  abbrev pub after_work : ClaimedRagJob → Flow S (Unit {0}) → Store × S × Bool
  after_work j (Flow.next db s u) = (db, s, true)
  after_work j (Flow.stop db s lease_lost) = (db, s, false)
  after_work j (Flow.stop db s (thrown m)) = after_fail (transaction w (mark_failed j m) db s)

  abbrev pub after_claim : RagSettings → Flow S (Option ClaimedRagJob) → Store × S × Bool
  after_claim settings (Flow.stop db s e) = (db, s, false)
  after_claim settings (Flow.next db s none) = (db, s, false)
  after_claim settings (Flow.next db s (some j)) = after_work j (work settings j db s)

  abbrev pub claim_next : Action S (Option ClaimedRagJob)
  claim_next db s = transaction w (claim (w.is_locked s) (w.new_token s)) db s

  -- A pass does nothing while another runs in the process, or when the worker stops.
  unfoldable pub tick : RagSettings → Bool → Store → S → Store × S × Bool
  unfolding claim mark_failed work
  tick settings is_busy db s =
      if is_busy then (db, s, false) else after_claim settings (claim_next db s)
