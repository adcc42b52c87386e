-- ===== src/Rag/Documents/Files.antt =====
-- backend/src/rag: the checks of an uploaded file (`validateFile` of rag.service.ts) and the path under which
-- it is stored (`storagePath` of source-storage.ts).
use capere_ai.Base.{
  ℕ, ◌==◌, Bool, true, false, ◌&&◌, ◌||◌, Option, none, some, List, [], ◌∷◌, ◌++◌, map, String,
  str_eq, codes, leb, ltb, take, any, length, if◌then◌else◌,
}

pub record UploadedSourceFile : Type 0 where
  pub original_name : List ℕ
  pub mime_type : String
  pub size : ℕ
  pub buffer : List ℕ

pub data UploadError : Type 0 where
  no_file too_large unsupported_type not_stored not_inserted : UploadError

-- The settings, and what the platform supplies: the text of an id, the ids of new rows, texts and hashes.
pub record Platform : Type 0 where
  pub max_bytes : ℕ
  pub allowed_mime_types : List String
  pub chunker_fingerprint : String
  pub embedding_fingerprint : String
  pub id_text : ℕ → List ℕ
  pub name_text : List ℕ → String
  pub trim : String → String
  pub checksum : List ℕ → List ℕ
  pub document_id : ℕ
  pub version_id : ℕ
  pub job_id : ℕ

abbrev check_type : Bool → Option UploadError
check_type true = none
check_type false = some UploadError.unsupported_type

-- `validateFile`
unfoldable pub validate_file : Platform → Option UploadedSourceFile → Option UploadError
validate_file p none = some UploadError.no_file
validate_file p (some f) =
    if f.size == 0 || length f.buffer == 0
    then some UploadError.no_file
    else if ltb p.max_bytes f.size
    then some UploadError.too_large
    else check_type (any (λ m. str_eq m f.mime_type) p.allowed_mime_types)

-- `[a-zA-Z0-9._-]`
abbrev pub is_safe : ℕ → Bool
is_safe c =
    leb b'a' c && leb c b'z'
    || leb b'A' c && leb c b'Z'
    || leb b'0' c && leb c b'9'
    || c == b'.'
    || c == b'_'
    || c == b'-'

abbrev or_source : List ℕ → List ℕ
or_source [] = codes "source"
or_source (c ∷ s) = c ∷ s

unfoldable pub safe_filename : List ℕ → List ℕ
safe_filename name = or_source (take 160 (map (λ c. if is_safe c then c else b'_') name))

abbrev prefix : Platform → Option ℕ → List ℕ
prefix p none = codes "rag/shared"
prefix p (some org) = codes "rag/organizations/" ++ p.id_text org

unfoldable pub storage_path : Platform → List ℕ → Option ℕ → List ℕ
storage_path p name org =
    prefix p org
    ++ b'/'
      ∷ (p.id_text p.document_id ++ b'/' ∷ (p.id_text p.version_id ++ b'/' ∷ safe_filename name))
