-- ===== src/Rag/Documents.antt =====
-- backend/src/rag/rag.service.ts, `create`, `list` and `get`. The
-- policies of the database on rows are not modelled; a write that they refuse is one that fails.
pub mod Files
pub mod Uploads
use capere_ai.Base.{
  ℕ, suc, ◌+◌, ◌==◌, Bool, true, false, not, ◌&&◌, ◌||◌, Option, none, some, some_and, List, [],
  ◌∷◌, ◌++◌, map, String, str_eq, codes, leb, ltb, take, find, any, select, order_by_desc, length,
  if◌then◌else◌,
}
use capere_ai.Rag.Text.{drop}
use capere_ai.Rag.Documents.Files.{
  Platform, UploadedSourceFile, UploadError, validate_file, storage_path,
}
use capere_ai.Rag.Rows.{
  RagVisibility, shared, tenant, RagDocument, RagDocumentStatus, RagVersion, RagVersionStatus,
  RagJob, RagJobOperation, RagJobStatus, Store, is_deleted,
}

pub record CreateRagDocument : Type 0 where
  pub title : String
  pub description : Option String
  pub visibility : RagVisibility

abbrev pub owner : RagVisibility → ℕ → Option ℕ
owner tenant org = some org
owner shared org = none

abbrev or_null : String → Option String
or_null s = if str_eq s "" then none else some s

abbrev trimmed : Platform → Option String → Option String
trimmed p none = none
trimmed p (some s) = or_null (p.trim s)

unfoldable pub new_document :
    Platform → ℕ → ℕ → ℕ → CreateRagDocument → UploadedSourceFile → RagDocument
new_document p now user org dto f = record {
  id = p.document_id;
  organization_id = owner dto.visibility org;
  visibility = dto.visibility;
  title = p.trim dto.title;
  description = trimmed p dto.description;
  source_filename = p.name_text f.original_name;
  source_mime_type = f.mime_type;
  source_bytes = f.size;
  storage_path = storage_path p f.original_name (owner dto.visibility org);
  source_checksum = p.checksum f.buffer;
  status = RagDocumentStatus.pending;
  active_version_id = none;
  created_by = some user;
  error_message = none;
  created_at = now;
}

unfoldable pub new_version : Platform → UploadedSourceFile → RagVersion
new_version p f = record {
  id = p.version_id;
  document_id = p.document_id;
  version_number = 1;
  source_checksum = p.checksum f.buffer;
  parser_fingerprint = "text-v1";
  chunker_fingerprint = p.chunker_fingerprint;
  embedding_fingerprint = p.embedding_fingerprint;
  status = RagVersionStatus.pending;
  chunk_count = 0;
  error_message = none;
}

unfoldable pub new_job : Platform → ℕ → ℕ → CreateRagDocument → RagJob
new_job p now org dto = record {
  id = p.job_id;
  organization_id = owner dto.visibility org;
  document_id = p.document_id;
  version_id = some p.version_id;
  operation = RagJobOperation.ingest;
  status = RagJobStatus.queued;
  idempotency_key = p.version_id;
  attempts = 0;
  max_attempts = 5;
  next_retry_at = some now;
  lease_until = none;
  claimed_by = none;
  error_message = none;
  created_at = now;
}

-- The paths of the stored sources, and the tables.
pub record Library : Type 0 where
  pub sources : List (List ℕ)
  pub store : Store

pub data Created : Type 0 where
  created : RagDocument → Created
  refused : UploadError → Created

-- The transaction; if it fails, the source that was put is removed, where that succeeds.
abbrev insert :
    Platform
    → ℕ
    → ℕ
    → ℕ
    → CreateRagDocument
    → UploadedSourceFile
    → Bool
    → Bool
    → Library
    → Library × Created
insert p now user org dto f true removes lib = (
  record {
    sources = storage_path p f.original_name (owner dto.visibility org) ∷ lib.sources;
    store = record (lib.store) {
      documents = lib.store.documents ++ new_document p now user org dto f ∷ [];
      versions = lib.store.versions ++ new_version p f ∷ [];
      jobs = lib.store.jobs ++ new_job p now org dto ∷ [];
    };
  },
  created (new_document p now user org dto f),
)
insert p now user org dto f false true lib = (lib, refused UploadError.not_inserted)
insert p now user org dto f false false lib = (
  record lib { sources = storage_path p f.original_name (owner dto.visibility org) ∷ lib.sources },
  refused UploadError.not_inserted,
)

-- The answers of the storage and of the database: whether the source is put, the rows are inserted, and
-- the source removed again.
abbrev put :
    Platform
    → ℕ
    → ℕ
    → ℕ
    → CreateRagDocument
    → UploadedSourceFile
    → Bool
    → Bool
    → Bool
    → Library
    → Library × Created
put p now user org dto f true inserts removes lib = insert p now user org dto f inserts removes lib
put p now user org dto f false inserts removes lib = (lib, refused UploadError.not_stored)

abbrev pub create_valid :
    Platform
    → ℕ
    → ℕ
    → ℕ
    → CreateRagDocument
    → Option UploadedSourceFile
    → Bool
    → Bool
    → Bool
    → Library
    → Option UploadError
    → Library × Created
create_valid p now user org dto file puts inserts removes lib (some e) = (lib, refused e)
create_valid p now user org dto none puts inserts removes lib none =
    (lib, refused UploadError.no_file)
create_valid p now user org dto (some f) puts inserts removes lib none =
    put p now user org dto f puts inserts removes lib

unfoldable pub create :
    Platform
    → ℕ
    → ℕ
    → ℕ
    → CreateRagDocument
    → Option UploadedSourceFile
    → Bool
    → Bool
    → Bool
    → Library
    → Library × Created
unfolding validate_file
create p now user org dto file puts inserts removes lib =
    create_valid p now user org dto file puts inserts removes lib (validate_file p file)

abbrev is_shared : RagVisibility → Bool
is_shared shared = true
is_shared tenant = false

-- Shared, or of the organization.
unfoldable pub is_visible : ℕ → RagDocument → Bool
is_visible org d =
    is_shared d.visibility
    || not (is_shared d.visibility) && some_and (λ o. o == org) d.organization_id

unfoldable pub get : ℕ → ℕ → Store → Option RagDocument
unfolding is_visible
get org id db = find (λ d. d.id == id && is_visible org d) db.documents

pub record ListRagDocuments : Type 0 where
  pub visibility : Option RagVisibility
  pub status : Option RagDocumentStatus
  pub limit : ℕ
  pub offset : ℕ

abbrev status_code : RagDocumentStatus → ℕ
status_code RagDocumentStatus.pending = 0
status_code RagDocumentStatus.processing = 1
status_code RagDocumentStatus.indexed = 2
status_code RagDocumentStatus.failed = 3
status_code RagDocumentStatus.deleting = 4
status_code RagDocumentStatus.deleted = 5

abbrev has_visibility : Option RagVisibility → RagDocument → Bool
has_visibility none d = true
has_visibility (some shared) d = is_shared d.visibility
has_visibility (some tenant) d = not (is_shared d.visibility)

abbrev has_status : Option RagDocumentStatus → RagDocument → Bool
has_status none d = true
has_status (some s) d = status_code d.status == status_code s

unfoldable pub list : ℕ → ListRagDocuments → Store → List RagDocument
unfolding is_visible
list org q db = take q.limit (
    drop q.offset (
      order_by_desc (λ d. d.created_at)
        (select
          (λ d.
            is_visible org d
            && not (is_deleted d.status)
            && has_visibility q.visibility d
            && has_status q.status d)
          db.documents)))
