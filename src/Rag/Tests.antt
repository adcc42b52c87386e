-- ===== src/Rag/Tests.antt =====
-- Runs of a worker on one document of two short passages.
use capere_ai.Base.{
  ℕ, suc, ◌+◌, ◌≡◌, ◌≢◌, refl, true, false, none, some, List, [], ◌∷◌, codes, map, arith, update,
  length, if◌then◌else◌, ◌||◌, ◌==◌,
}
use capere_ai.Rag.Text.{is_space, trim_start, trim_end, trim, normalize_text}
use capere_ai.Rag.Chunking
use capere_ai.Rag.Chunking.{
  TextChunk, ChunkerOptions, window_end, next_start, chunk_at, chunk_of, chunk_from, chunk_text,
}
use capere_ai.Rag.Rows.{
  RagVisibility, RagDocument, RagDocumentStatus, RagVersion, RagVersionStatus, RagJob,
  RagJobOperation, RagJobStatus, Store,
}
use capere_ai.Rag.Access.{answered, Host, owns, with_lease, assert_lease}
use capere_ai.Rag.Ingestion.{
  RagSettings, chunks_of, embed_batches, write_batches, store_version, ingest, purge_found, purge,
}
use capere_ai.Rag.Ingestion.Quiet.{IsQuiet, Serves}
use capere_ai.Rag.Ingestion.Outcome.{
  Ends, IndexedBy, ErasedOf, row_of, ingest_indexed, purge_erases,
}
use capere_ai.Rag.Ingestion.Repeated.{IsStopped, store_version_repeated}
use capere_ai.Rag.Worker.{
  is_claimable, claimable_jobs, claim, claim_row, mark_succeeded, mark_failed, work, tick,
}
use capere_ai.Rag.Worker.Steps.{Step, Reach}
use capere_ai.Rag.Worker.Passes.{tick_steps}
use capere_ai.Rag.Worker.Invariant.{Inv, all_reached-Inv}
use capere_ai.Rag.Worker.Abandoned.{Row, abandoned}
use capere_ai.Rag.Documents.{
  CreateRagDocument, Library, new_document, new_version, new_job, create, is_visible, get, list,
}
use capere_ai.Rag.Documents.Files.{
  Platform, UploadedSourceFile, validate_file, safe_filename, storage_path,
}
use capere_ai.Rag.Documents.Uploads.{get-create}

abbrev text : List ℕ
text = codes "ab cd"

-- The world is the clock; a source is its path, a checksum the text itself.
abbrev host : (ℕ → Store → ℕ × Store) → Host ℕ ℕ
host others = record {
  others = others;
  now = λ s. s;
  is_locked = λ s id. false;
  refusal = λ s. none;
  is_heartbeat_lost = λ s. false;
  new_token = λ s. 4;
  get_source = λ path s. (suc s, answered path);
  remove_source = λ path s. s;
  source_text = λ mime bytes. bytes;
  checksum = λ t. t;
  error_text = λ e. "";
  chunk_id = λ version sequence. sequence;
  embed = λ texts s. (suc s, answered (map length texts));
  no_vector = 0;
  ensure_collection = λ s. (s, answered tt);
  delete_version = λ version s. (s, answered tt);
  delete_document = λ document s. (s, answered tt);
  batches_of = λ records s. (s, answered (records ∷ []));
  write_batch = λ records s. (s, answered tt);
}

abbrev quiet : Host ℕ ℕ
quiet = host (λ s db. (s, db))

-- Another worker, with the token 9, renews its lease of the job 1.
abbrev shared : Host ℕ ℕ
shared = host (λ s db. (suc s, record db { jobs = update (owns 1 9) (with_lease s) db.jobs }))

abbrev settings : RagSettings
settings = record {
  chunker = record { target_characters = 3; overlap_characters = 0; max_chunks = 9 };
  embedding_batch_size = 1;
}

abbrev document : RagDocument
document = record {
  id = 5;
  organization_id = some 1;
  visibility = RagVisibility.tenant;
  title = "SOP";
  description = none;
  source_filename = "sop.txt";
  source_mime_type = "text/plain";
  source_bytes = 5;
  storage_path = text;
  source_checksum = text;
  status = RagDocumentStatus.pending;
  active_version_id = none;
  created_by = some 2;
  error_message = none;
  created_at = 0;
}

abbrev version : RagVersion
version = record {
  id = 6;
  document_id = 5;
  version_number = 1;
  source_checksum = text;
  parser_fingerprint = "";
  chunker_fingerprint = "";
  embedding_fingerprint = "";
  status = RagVersionStatus.pending;
  chunk_count = 0;
  error_message = none;
}

abbrev queued : RagJob
queued = record {
  id = 7;
  organization_id = some 1;
  document_id = 5;
  version_id = some 6;
  operation = RagJobOperation.ingest;
  status = RagJobStatus.queued;
  idempotency_key = 6;
  attempts = 0;
  max_attempts = 5;
  next_retry_at = none;
  lease_until = none;
  claimed_by = none;
  error_message = none;
  created_at = 0;
}

abbrev store : RagJob → Store
store j = record { documents = document ∷ []; versions = version ∷ []; chunks = []; jobs = j ∷ [] }

unfolds : Unit {0}
unfolding is_space trim_start trim_end trim normalize_text window_end next_start chunk_at chunk_of
    chunk_from chunk_text assert_lease chunks_of embed_batches write_batches store_version ingest
    purge_found purge is_claimable claimable_jobs claim mark_succeeded mark_failed work tick
    IndexedBy ErasedOf
unfolds = tt

tick_test :
    map (λ d. d.active_version_id) (tick quiet settings false (store queued) 10).0.documents
    ≡ some 6 ∷ []
unfolding unfolds
tick_test = refl

chunks_test :
    map (λ c. c.content) (tick quiet settings false (store queued) 10).0.chunks
    ≡ codes "ab" ∷ codes "cd" ∷ []
unfolding unfolds
chunks_test = refl

succeeded_test :
    map (λ j. j.status) (tick quiet settings false (store queued) 10).0.jobs
    ≡ RagJobStatus.succeeded ∷ []
unfolding unfolds
succeeded_test = refl

renewed :
    (s : ℕ) (db : Store)
    → Reach (λ t. Unit {0}) db (record db { jobs = update (owns 1 9) (with_lease s) db.jobs })
renewed s db = Reach.next 9 tt Reach.here (Step.renews 1 s)

tick_steps_example :
    Reach (λ t. Unit {0}) (store queued) (tick shared settings false (store queued) 10).0
tick_steps_example = tick_steps shared (λ t. Unit {0}) renewed settings false (store queued) 10 tt

queued-Inv : Inv (store queued)
queued-Inv = record {
  distinct = (refl, tt);
  sound = (record { bounded = omega arith; owned = refl; leased = refl }, tt);
}

all_reached-Inv_example : Inv (tick shared settings false (store queued) 10).0
all_reached-Inv_example =
    all_reached-Inv (λ t. Unit {0}) (store queued) (tick shared settings false (store queued) 10).0
      queued-Inv tick_steps_example

-- The worker 9 ended in the last attempt of the job.
abbrev lost : RagJob
lost = record queued {
  status = RagJobStatus.running;
  attempts = 5;
  lease_until = some 1;
  claimed_by = some 9;
}

lost-Inv : Inv (store lost)
lost-Inv = record {
  distinct = (refl, tt);
  sound = (record { bounded = omega arith; owned = refl; leased = refl }, tt);
}

quiet_others : (s : ℕ) (db : Store) → Reach (λ t. t ≢ 9) db db
quiet_others s db = Reach.here

not_nine : ◌≢◌ {A = ℕ} 4 9
not_nine = λ e. absurd (omega (arith, e))

lost-Reach : Reach (λ t. t ≢ 9) (store lost) (tick quiet settings false (store lost) 999999).0
lost-Reach = tick_steps quiet (λ t. t ≢ 9) quiet_others settings false (store lost) 999999 not_nine

abandoned_example : Row lost (tick quiet settings false (store lost) 999999).0
abandoned_example =
    abandoned lost 9 refl refl (omega arith) (store lost)
      (tick quiet settings false (store lost) 999999).0 lost-Inv refl lost-Reach

quiet-IsQuiet : IsQuiet quiet
quiet-IsQuiet = record { alone = λ s db. refl; accepts = λ s. refl; beats = λ s. refl }

quiet-Serves : Serves quiet (λ path. path)
quiet-Serves = record {
  stored = λ path s. (suc s, refl);
  embeds = λ texts s. (suc s, map length texts, refl);
  collects = λ s. (s, tt, refl);
  deletes_version = λ id s. (s, tt, refl);
  deletes_document = λ id s. (s, tt, refl);
  batched = λ records s. (s, records ∷ [], refl);
  writes = λ records s. (s, tt, refl);
}

abbrev passage : ℕ → ℕ → List ℕ → TextChunk
passage sequence start content = record {
  sequence = sequence;
  content = content;
  source_start = start;
  source_end = start + length content;
  character_count = length content;
  content_checksum = content;
}

abbrev claimed : Store
claimed = store (claim_row 4 10 queued)

cut :
    chunk_text (λ t. t) text (settings.chunker)
    ≡ Chunking.ok (passage 0 0 (codes "ab") ∷ passage 1 3 (codes "cd") ∷ [])
unfolding unfolds
cut = refl

ingest_indexed_example : Ends (ingest quiet 7 4 settings 5 6 claimed 10) (
    IndexedBy 5 6
      (map (row_of quiet.chunk_id 6) (passage 0 0 (codes "ab") ∷ passage 1 3 (codes "cd") ∷ []))
      claimed)
ingest_indexed_example =
    ingest_indexed quiet (λ path. path) settings 7 4 5 6 document (passage 0 0 (codes "ab"))
      (passage 1 3 (codes "cd") ∷ []) claimed 10 quiet-IsQuiet quiet-Serves refl refl refl cut refl

purge_erases_example : Ends (purge quiet 7 4 5 claimed 10) (ErasedOf 5 claimed)
purge_erases_example =
    purge_erases quiet (λ path. path) 7 4 5 document claimed 10 quiet-IsQuiet quiet-Serves refl refl

store_version_repeated_example : IsStopped (
    store_version quiet 7 4 document 6
      (passage 0 0 (codes "ab") ∷ passage 1 3 (codes "ab") ∷ [])
      (2 ∷ 2 ∷ [])
      claimed
      10)
store_version_repeated_example =
    store_version_repeated quiet 7 4 6 document [] [] [] (passage 0 0 (codes "ab"))
      (passage 1 3 (codes "ab")) (2 ∷ 2 ∷ []) claimed 10 refl

abbrev platform : Platform
platform = record {
  max_bytes = 100;
  allowed_mime_types = "text/plain" ∷ [];
  chunker_fingerprint = "";
  embedding_fingerprint = "";
  id_text = λ id. codes "5";
  name_text = λ t. "sop.txt";
  trim = λ t. t;
  checksum = λ t. t;
  document_id = 5;
  version_id = 6;
  job_id = 7;
}

abbrev file : UploadedSourceFile
file = record { original_name = codes "s/p.txt"; mime_type = "text/plain"; size = 5; buffer = text }

abbrev sop : CreateRagDocument
sop = record { title = "SOP"; description = some ""; visibility = RagVisibility.tenant }

abbrev nothing : Library
nothing = record {
  sources = [];
  store = record { documents = []; versions = []; chunks = []; jobs = [] };
}

uploads : Unit {0}
unfolding validate_file safe_filename storage_path new_document new_version new_job create
    is_visible get list
uploads = tt

path_test :
    (create platform 3 2 1 sop (some file) true true true nothing).0.sources
    ≡ codes "rag/organizations/5/5/5/s_p.txt" ∷ []
unfolding uploads
path_test = refl

abbrev uploaded : Library
uploaded = (create platform 3 2 1 sop (some file) true true true nothing).0

get-create_example :
    get 8 5 uploaded.store
    ≡ (if false || 1 == 8 then some (new_document platform 3 2 1 sop file) else none)
unfolding uploads
get-create_example =
    get-create platform 3 2 1 sop nothing uploaded (some file) true true true
      (new_document platform 3 2 1 sop file) 8 refl refl

list_test :
    map
      (λ d. d.id)
      (list 1 (record { visibility = none; status = none; limit = 25; offset = 0 }) uploaded.store)
    ≡ 5 ∷ []
unfolding uploads
list_test = refl
