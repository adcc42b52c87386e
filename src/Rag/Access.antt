-- ===== src/Rag/Access.antt =====
-- How rag.service.ts and rag-ingestion.worker.ts reach the database and the services around them. Between
-- two accesses other connections may change the tables in any way.
use capere_ai.Base.{
  ℕ, ◌+◌, ◌==◌, Bool, true, false, ◌&&◌, Option, none, some, some_and, List, String, update, select,
  any, length, if◌then◌else◌,
}
use capere_ai.Rag.Chunking.{ChunkError}
use capere_ai.Rag.Rows.{RagJob, RagVisibility, Store, is_running}

-- `RagLeaseLostError`, or any other error with its message.
pub data Failure : Type 0 where
  lease_lost : Failure
  thrown : String → Failure

pub data Answer (A : Type 0) : Type 0 where
  answered : A → Answer A
  failed : Failure → Answer A

-- What a run of an action leaves: the tables, the world, and a result or an error.
pub data Flow (S : Type 0) (A : Type 0) : Type 0 where
  next : Store → S → A → Flow S A
  stop : Store → S → Failure → Flow S A

abbrev pub Action : Type 0 → Type 0 → Type 0
Action S A = Store → S → Flow S A

abbrev pub and_then : {S A B : Type 0} → Flow S A → (A → Action S B) → Flow S B
and_then (Flow.next db s a) k = k a db s
and_then (Flow.stop db s e) k = Flow.stop db s e

infixl 5 ◌>>=◌ ◌>>◌
abbrev pub ◌>>=◌ : {S A B : Type 0} → Action S A → (A → Action S B) → Action S B
◌>>=◌ m k db s = and_then (m db s) k

abbrev pub ◌>>◌ : {S B : Type 0} → Action S (Unit {0}) → Action S B → Action S B
◌>>◌ m k db s = and_then (m db s) (λ _. k)

abbrev pub done : {S A : Type 0} → A → Action S A
done a db s = Flow.next db s a

abbrev pub fail_with : {S A : Type 0} → Failure → Action S A
fail_with e db s = Flow.stop db s e

-- A point of the vector store; its id is the chunk's.
pub record VectorRecord (V : Type 0) : Type 0 where
  pub point_id : ℕ
  pub vector : V
  pub document_id : ℕ
  pub version_id : ℕ
  pub chunk_id : ℕ
  pub visibility : RagVisibility
  pub organization_id : Option ℕ
  pub title : String
  pub source : String
  pub content : List ℕ
  pub checksum : List ℕ

-- The world `S` of a worker, with vectors `V`.
pub record Host (S : Type 0) (V : Type 0) : Type 0 where
  -- What other connections do before the next access of the database.
  pub others : S → Store → S × Store
  pub now : S → ℕ
  pub is_locked : S → ℕ → Bool
  -- An error of the next access of the database.
  pub refusal : S → Option String
  -- Whether a renewal of the lease by the timer has failed.
  pub is_heartbeat_lost : S → Bool
  pub new_token : S → ℕ
  -- The storage of source files.
  pub get_source : List ℕ → S → S × Answer (List ℕ)
  pub remove_source : List ℕ → S → S
  -- The text of a source, decoded and without its markup.
  pub source_text : String → List ℕ → List ℕ
  pub checksum : List ℕ → List ℕ
  pub error_text : ChunkError → String
  pub chunk_id : ℕ → ℕ → ℕ
  -- The embedding provider, and what `undefined ?? []` gives.
  pub embed : List (List ℕ) → S → S × Answer (List V)
  pub no_vector : V
  -- The vector store. It writes records in batches of its own and asserts the lease before each.
  pub ensure_collection : S → S × Answer (Unit {0})
  pub delete_version : ℕ → S → S × Answer (Unit {0})
  pub delete_document : ℕ → S → S × Answer (Unit {0})
  pub batches_of : List (VectorRecord V) → S → S × Answer (List (List (VectorRecord V)))
  pub write_batch : List (VectorRecord V) → S → S × Answer (Unit {0})

abbrev pub settle : {S A : Type 0} → Store → S → Answer (Store × A) → Flow S A
settle db s (Answer.answered (db', a)) = Flow.next db' s a
settle db s (Answer.failed e) = Flow.stop db s e

abbrev pub unless_refused : {S A : Type 0} → Option String → Store → S → Flow S A → Flow S A
unless_refused none db s f = f
unless_refused (some m) db s f = Flow.stop db s (thrown m)

abbrev pub answer : {S A : Type 0} → Store → S × Answer A → Flow S A
answer db (s, Answer.answered a) = Flow.next db s a
answer db (s, Answer.failed e) = Flow.stop db s e

-- A call of a service.
abbrev pub call : {S A : Type 0} → (S → S × Answer A) → Action S A
call f db s = answer db (f s)

-- The claim of a job under a token.
abbrev pub owns : ℕ → ℕ → RagJob → Bool
owns job token r = r.id == job && (is_running r.status && some_and (λ t. t == token) r.claimed_by)

abbrev pub is_owned : ℕ → ℕ → Store → Bool
is_owned job token db = any (owns job token) db.jobs

module _ {S : Type 0} {V : Type 0} (w : Host S V) where
  -- A statement or a transaction at the database's time; one that fails is rolled back.
  abbrev pub transact : {A : Type 0} → (ℕ → Store → Answer (Store × A)) → Store × S → Flow S A
  transact f (db, s) = unless_refused (w.refusal s) db s (settle db s (f (w.now s) db))

  abbrev pub swap : S × Store → Store × S
  swap (s, db) = (db, s)

  abbrev pub transaction : {A : Type 0} → (ℕ → Store → Answer (Store × A)) → Action S A
  transaction f db s = transact f (swap (w.others s db))

abbrev pub lease_ms : ℕ
lease_ms = 300000

abbrev pub with_lease : ℕ → RagJob → RagJob
with_lease now r = record r { lease_until = some (now + lease_ms) }

-- The renewal, with whether it hit one row.
abbrev pub renew : ℕ → ℕ → ℕ → Store → Answer (Store × Bool)
renew job token now db = Answer.answered (
  record db { jobs = update (owns job token) (with_lease now) db.jobs },
  length (select (owns job token) db.jobs) == 1,
)

abbrev pub or_lost : {S : Type 0} → Bool → Action S (Unit {0})
or_lost true = done tt
or_lost false = fail_with lease_lost

module _ {S : Type 0} {V : Type 0} (w : Host S V) (job token : ℕ) where
  -- `assertLease`
  unfoldable pub assert_lease : Action S (Unit {0})
  assert_lease db s =
      if w.is_heartbeat_lost s
      then Flow.stop db s lease_lost
      else (transaction w (renew job token) >>= or_lost) db s

-- A transaction that `lockLease` opens.
abbrev pub if_owned : {A : Type 0} → ℕ → ℕ → Store → Answer (Store × A) → Answer (Store × A)
if_owned job token db a = if is_owned job token db then a else Answer.failed lease_lost
