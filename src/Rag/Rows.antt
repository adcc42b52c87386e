-- ===== src/Rag/Rows.antt =====
-- The tables of rag.service.ts and rag-ingestion.worker.ts. The section and the page of a chunk are
-- never set; columns that nothing here reads or writes are left out.
use capere_ai.Base.{ℕ, Bool, true, false, Option, List, String}

pub data RagVisibility : Type 0 where
  shared tenant : RagVisibility

pub data RagDocumentStatus : Type 0 where
  pending processing indexed failed deleting deleted : RagDocumentStatus

pub data RagVersionStatus : Type 0 where
  pending processing indexed failed superseded : RagVersionStatus

pub data RagJobOperation : Type 0 where
  ingest reindex delete : RagJobOperation

pub data RagJobStatus : Type 0 where
  queued running succeeded failed dead_lettered : RagJobStatus

abbrev pub is_running : RagJobStatus → Bool
is_running RagJobStatus.running = true
is_running s = false

-- `status IN ('queued', 'failed', 'running')`
abbrev pub is_open : RagJobStatus → Bool
is_open RagJobStatus.succeeded = false
is_open RagJobStatus.dead_lettered = false
is_open s = true

abbrev pub is_deleted : RagDocumentStatus → Bool
is_deleted RagDocumentStatus.deleted = true
is_deleted s = false

pub record RagDocument : Type 0 where
  pub id : ℕ
  pub organization_id : Option ℕ
  pub visibility : RagVisibility
  pub title : String
  pub description : Option String
  pub source_filename : String
  pub source_mime_type : String
  pub source_bytes : ℕ
  pub storage_path : List ℕ
  pub source_checksum : List ℕ
  pub status : RagDocumentStatus
  pub active_version_id : Option ℕ
  pub created_by : Option ℕ
  pub error_message : Option String
  pub created_at : ℕ

pub record RagVersion : Type 0 where
  pub id : ℕ
  pub document_id : ℕ
  pub version_number : ℕ
  pub source_checksum : List ℕ
  pub parser_fingerprint : String
  pub chunker_fingerprint : String
  pub embedding_fingerprint : String
  pub status : RagVersionStatus
  pub chunk_count : ℕ
  pub error_message : Option String

pub record RagChunk : Type 0 where
  pub id : ℕ
  pub version_id : ℕ
  pub sequence : ℕ
  pub content : List ℕ
  pub content_checksum : List ℕ
  pub character_count : ℕ
  pub token_count : ℕ
  pub source_start : ℕ
  pub source_end : ℕ

pub record RagJob : Type 0 where
  pub id : ℕ
  pub organization_id : Option ℕ
  pub document_id : ℕ
  pub version_id : Option ℕ
  pub operation : RagJobOperation
  pub status : RagJobStatus
  pub idempotency_key : ℕ
  pub attempts : ℕ
  pub max_attempts : ℕ
  pub next_retry_at : Option ℕ
  pub lease_until : Option ℕ
  pub claimed_by : Option ℕ
  pub error_message : Option String
  pub created_at : ℕ

pub record Store : Type 0 where
  pub documents : List RagDocument
  pub versions : List RagVersion
  pub chunks : List RagChunk
  pub jobs : List RagJob
