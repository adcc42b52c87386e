-- ===== src/Rag/Ingestion.antt =====
-- backend/src/rag/rag.service.ts, `ingest` and `purge`: the work of a claimed job.
pub mod Quiet
pub mod Indexed
pub mod Outcome
pub mod Repeated
use capere_ai.Base.{
  ℕ, zero, suc, ◌+◌, ◌/◌, ◌==◌, Bool, true, false, not, ◌&&◌, ◌||◌, Option, none, some, List, [],
  ◌∷◌, ◌++◌, map, String, str_eq, take, find, any, elem, select, update, length, if◌then◌else◌,
}
use capere_ai.Rag.Text.{drop}
use capere_ai.Rag.Chunking.{TextChunk, ChunkerOptions, chunk_text}
use capere_ai.Rag.Chunking
use capere_ai.Rag.Rows.{
  RagDocument, RagVersion, RagChunk, RagDocumentStatus, RagVersionStatus, Store,
}
use capere_ai.Rag.Access.{
  thrown, Answer, answered, Action, Host, VectorRecord, ◌>>=◌, ◌>>◌, done, fail_with, call,
  transaction, assert_lease, if_owned,
}

-- The settings `rag` of the configuration, which asks for batches of 1 or more.
pub record RagSettings : Type 0 where
  pub chunker : ChunkerOptions
  pub embedding_batch_size : ℕ

abbrev pub same_codes : List ℕ → List ℕ → Bool
same_codes [] [] = true
same_codes [] (d ∷ t) = false
same_codes (c ∷ s) [] = false
same_codes (c ∷ s) (d ∷ t) = c == d && same_codes s t

-- The key (version, checksum) of the table of chunks, among the chunks of one version.
abbrev pub repeats : List RagChunk → Bool
repeats [] = false
repeats (c ∷ cs) = any (λ d. same_codes c.content_checksum d.content_checksum) cs || repeats cs

-- The deletion of the old chunks of a version and the insertion of its new ones.
abbrev pub write_chunks : ℕ → List RagChunk → Store → Bool → Answer (Store × List RagChunk)
write_chunks version rows db true = Answer.failed (thrown "duplicate key")
write_chunks version rows db false =
    answered
      (record db { chunks = select (λ c. not (c.version_id == version)) db.chunks ++ rows }, rows)

abbrev pub replace_chunks : ℕ → ℕ → ℕ → List RagChunk → ℕ → Store → Answer (Store × List RagChunk)
replace_chunks job token version rows now db =
    if_owned job token db (write_chunks version rows db (repeats rows))

abbrev pub indexed_version : ℕ → RagVersion → RagVersion
indexed_version count v = record v {
  status = RagVersionStatus.indexed;
  chunk_count = count;
  error_message = none;
}

abbrev pub indexed_document : ℕ → RagDocument → RagDocument
indexed_document version d = record d {
  status = RagDocumentStatus.indexed;
  active_version_id = some version;
  error_message = none;
}

abbrev pub index : ℕ → ℕ → ℕ → Store → Store
index document version count db = record db {
  versions = update (λ v. v.id == version) (indexed_version count) db.versions;
  documents = update (λ d. d.id == document) (indexed_document version) db.documents;
}

abbrev pub index_version : ℕ → ℕ → ℕ → ℕ → ℕ → ℕ → Store → Answer (Store × Unit {0})
index_version job token document version count now db =
    if_owned job token db (answered (index document version count db, tt))

abbrev pub superseded_version : RagVersion → RagVersion
superseded_version v = record v { status = RagVersionStatus.superseded; chunk_count = 0 }

abbrev pub deleted_document : RagDocument → RagDocument
deleted_document d = record d {
  status = RagDocumentStatus.deleted;
  active_version_id = none;
  error_message = none;
}

-- The transaction of `purge`, with the ids of the versions that were read before it.
abbrev pub erase : ℕ → List ℕ → Store → Store
erase document version_ids db = record db {
  chunks = select (λ c. not (elem c.version_id version_ids)) db.chunks;
  versions = update (λ v. v.document_id == document) superseded_version db.versions;
  documents = update (λ d. d.id == document) deleted_document db.documents;
}

abbrev pub erase_content : ℕ → ℕ → ℕ → List ℕ → ℕ → Store → Answer (Store × Unit {0})
erase_content job token document version_ids now db =
    if_owned job token db (answered (erase document version_ids db, tt))

abbrev pub find_document : ℕ → ℕ → Store → Answer (Store × Option RagDocument)
find_document id now db = answered (db, find (λ d. d.id == id) db.documents)

abbrev pub version_ids_of : ℕ → ℕ → Store → Answer (Store × List ℕ)
version_ids_of document now db =
    answered (db, map (λ v. v.id) (select (λ v. v.document_id == document) db.versions))

abbrev pub batches_from {ℓ} : {A : Type ℓ} → ℕ → ℕ → List A → List (List A)
batches_from size zero xs = []
batches_from size (suc fuel) [] = []
batches_from size (suc fuel) (x ∷ xs) =
    take size (x ∷ xs) ∷ batches_from size fuel (drop size (x ∷ xs))

-- `slice` by a step of `size`; one round for each element is enough.
abbrev pub batches {ℓ} : {A : Type ℓ} → ℕ → List A → List (List A)
batches size xs = batches_from size (length xs) xs

abbrev pub or_throw : {S A : Type 0} → Option A → Action S A
or_throw none = fail_with (thrown "no result")
or_throw (some a) = done a

module _ {S : Type 0} {V : Type 0} (w : Host S V) where
  abbrev pub chunk_row : ℕ → TextChunk → RagChunk
  chunk_row version c = record {
    id = w.chunk_id version c.sequence;
    version_id = version;
    sequence = c.sequence;
    content = c.content;
    content_checksum = c.content_checksum;
    character_count = c.character_count;
    token_count = (c.character_count + 3) / 4;
    source_start = c.source_start;
    source_end = c.source_end;
  }

  abbrev pub vector_record : RagDocument → RagChunk → V → VectorRecord V
  vector_record d c v = record {
    point_id = c.id;
    vector = v;
    document_id = d.id;
    version_id = c.version_id;
    chunk_id = c.id;
    visibility = d.visibility;
    organization_id = d.organization_id;
    title = d.title;
    source = d.source_filename;
    content = c.content;
    checksum = c.content_checksum;
  }

  abbrev pub vector_records : RagDocument → List RagChunk → List V → List (VectorRecord V)
  vector_records d [] vs = []
  vector_records d (c ∷ cs) [] = vector_record d c w.no_vector ∷ vector_records d cs []
  vector_records d (c ∷ cs) (v ∷ vs) = vector_record d c v ∷ vector_records d cs vs

  abbrev pub chunked : Chunking.Result (List TextChunk) → Action S (List TextChunk)
  chunked (Chunking.ok []) = fail_with (thrown "Source document contains no indexable text")
  chunked (Chunking.ok (c ∷ cs)) = done (c ∷ cs)
  chunked (Chunking.err e) = fail_with (thrown (w.error_text e))

  -- The chunks of a source; PDF is refused.
  unfoldable pub chunks_of : RagSettings → RagDocument → List ℕ → Action S (List TextChunk)
  chunks_of settings d bytes =
      if str_eq d.source_mime_type "application/pdf"
      then fail_with (thrown "PDF extraction is not configured in this deployment")
      else chunked (chunk_text w.checksum (w.source_text d.source_mime_type bytes) settings.chunker)

module _ {S : Type 0} {V : Type 0} (w : Host S V) (job token : ℕ) where
  unfoldable pub embed_batches : List (List TextChunk) → Action S (List V)
  embed_batches [] = done []
  embed_batches (b ∷ bs) = do
    assert_lease w job token
    vectors ← call (w.embed (map (λ c. c.content) b))
    rest ← embed_batches bs
    done (vectors ++ rest)

  unfoldable pub write_batches : List (List (VectorRecord V)) → Action S (Unit {0})
  write_batches [] = done tt
  write_batches (b ∷ bs) = do assert_lease w job token; call (w.write_batch b); write_batches bs

  -- From the chunks and their vectors on.
  unfoldable pub store_version : RagDocument → ℕ → List TextChunk → List V → Action S (Unit {0})
  unfolding write_batches
  store_version d version chunks vectors = do
    call w.ensure_collection
    assert_lease w job token
    stored ← transaction w (replace_chunks job token version (map (chunk_row w version) chunks))
    assert_lease w job token
    call (w.delete_version version)
    assert_lease w job token
    batched ← call (w.batches_of (vector_records w d stored vectors))
    write_batches batched
    assert_lease w job token
    transaction w (index_version job token d.id version (length stored))

  unfoldable pub ingest : RagSettings → ℕ → ℕ → Action S (Unit {0})
  unfolding chunks_of embed_batches store_version
  ingest settings document version = do
    assert_lease w job token
    found ← transaction w (find_document document)
    d ← or_throw found
    bytes ← call (w.get_source d.storage_path)
    chunks ← chunks_of w settings d bytes
    vectors ← embed_batches (batches settings.embedding_batch_size chunks)
    store_version d version chunks vectors

  abbrev pub remove_source : List ℕ → Action S (Unit {0})
  remove_source path db s = done tt db (w.remove_source path s)

  unfoldable pub purge_found : ℕ → Option RagDocument → Action S (Unit {0})
  purge_found document none = done tt
  purge_found document (some d) = do
    assert_lease w job token
    call (w.delete_document document)
    version_ids ← transaction w (version_ids_of document)
    assert_lease w job token
    transaction w (erase_content job token document version_ids)
    remove_source d.storage_path

  unfoldable pub purge : ℕ → Action S (Unit {0})
  unfolding purge_found
  purge document = do
    assert_lease w job token
    found ← transaction w (find_document document)
    purge_found document found
