-- ===== src/Rag/Ingestion/Outcome.antt =====
-- How the work of a claimed job ends.
use capere_ai.Base.{
  ℕ, ◌+◌, ◌/◌, ◌≡◌, refl, sym, ap, ◌∙◌, subst, false, not, ◌==◌, none, some, List, ◌∷◌, ◌++◌,
  str_eq, map, find, elem, select, update, length, length-map,
}
use capere_ai.Rag.Chunking
use capere_ai.Rag.Chunking.{TextChunk, chunk_text}
use capere_ai.Rag.Rows.{RagDocument, RagChunk, RagVersionStatus, RagDocumentStatus, Store}
use capere_ai.Rag.Access.{Flow, Action, Host, ◌>>◌, owns, transaction, assert_lease}
use capere_ai.Rag.Ingestion.{
  RagSettings, repeats, indexed_version, superseded_version, deleted_document, erase, erase_content,
  version_ids_of, chunk_row, ingest, remove_source, purge_found, purge,
}
use capere_ai.Rag.Ingestion.Quiet.{
  IsQuiet, Serves, Goes, Goes-given, Goes-bind, Goes-call, Goes-transaction, Held, Held-is_owned,
  Goes-asserted,
}
use capere_ai.Rag.Ingestion.Indexed.{ingest_indexes, Goes-found}

-- The action returns, and the tables that it leaves have `P`.
abbrev pub Ends : {S : Type 0} → Flow S (Unit {0}) → (Store → Type 0) → Type 0
Ends {S} f P = (db : Store) × (s : S) × (f ≡ Flow.next db s tt) × P db

-- The rows in place of the chunks of the version, which is indexed with their number, and the document by
-- it; the rest of the content as before.
unfoldable pub IndexedBy : ℕ → ℕ → List RagChunk → Store → Store → Type 0
IndexedBy document version rows before after =
    (after.chunks ≡ select (λ c. not (c.version_id == version)) before.chunks ++ rows)
    × (after.versions
        ≡ update (λ v. v.id == version)
            (λ v. record v {
              status = RagVersionStatus.indexed;
              chunk_count = length rows;
              error_message = none;
            })
            before.versions)
    × (after.documents
        ≡ update (λ d. d.id == document)
            (λ d. record d {
              status = RagDocumentStatus.indexed;
              active_version_id = some version;
              error_message = none;
            })
            before.documents)

-- The row of a chunk of a version: under the id given to it, its text, place and checksum, and its tokens
-- counted as a quarter of its characters, rounded up.
abbrev pub row_of : (ℕ → ℕ → ℕ) → ℕ → TextChunk → RagChunk
row_of chunk_id version x = record {
  id = chunk_id version x.sequence;
  version_id = version;
  sequence = x.sequence;
  content = x.content;
  content_checksum = x.content_checksum;
  character_count = x.character_count;
  token_count = (x.character_count + 3) / 4;
  source_start = x.source_start;
  source_end = x.source_end;
}

-- No chunk of the document's versions, these superseded and without chunks, and the document deleted with
-- no active version; the rest of the content as before.
unfoldable pub ErasedOf : ℕ → Store → Store → Type 0
ErasedOf document before after =
    (after.chunks
      ≡ select
          (λ c. not (
            elem c.version_id
              (map (λ v. v.id) (select (λ v. v.document_id == document) before.versions))))
          before.chunks)
    × (after.versions
        ≡ update (λ v. v.document_id == document)
            (λ v. record v { status = RagVersionStatus.superseded; chunk_count = 0 })
            before.versions)
    × (after.documents
        ≡ update (λ d. d.id == document)
            (λ d. record d {
              status = RagDocumentStatus.deleted;
              active_version_id = none;
              error_message = none;
            })
            before.documents)

-- An ingestion of a claimed job that nothing disturbs, and whose services answer, of a document that is no
-- PDF and whose source has chunks, no two of one checksum, ends: the chunks of the version are those of the
-- source in place of its old ones, the version is indexed with their number, the document by the version,
-- and no other content changes.
pub ingest_indexed :
    {S V : Type 0} (w : Host S V) (source : List ℕ → List ℕ) (settings : RagSettings)
    (job t document version : ℕ) (d : RagDocument) (x : TextChunk) (xs : List TextChunk)
    (db : Store) (s : S)
    → IsQuiet w
    → Serves w source
    → length (select (owns job t) db.jobs) ≡ 1
    → find (λ y. y.id == document) db.documents ≡ some d
    → str_eq d.source_mime_type "application/pdf" ≡ false
    → chunk_text w.checksum
        (w.source_text d.source_mime_type (source d.storage_path))
        settings.chunker
      ≡ Chunking.ok (x ∷ xs)
    → repeats (map (row_of w.chunk_id version) (x ∷ xs)) ≡ false
    → Ends
        (ingest w job t settings document version db s)
        (IndexedBy document version (map (row_of w.chunk_id version) (x ∷ xs)) db)
unfolding IndexedBy
ingest_indexed w source settings job t document version d x xs db s quiet serves held found not_pdf
      chunked_as fine =
    let start : Held job t db db = record {
      documents = refl;
      versions = refl;
      chunks = refl;
      held = held;
    } in
    let (db', s', u, e, h) =
      ingest_indexes w quiet source serves job t settings document version db d found not_pdf x xs
        chunked_as fine db s start in
    (
      db',
      s',
      e,
      (
        h.chunks,
        h.versions
            ∙ ap (λ n. update (λ v. v.id == version) (indexed_version n) db.versions)
                (sym (length-map (chunk_row w version) (x ∷ xs))),
        h.documents,
      ),
    )

module _ {S : Type 0} {V : Type 0} (w : Host S V) (quiet : IsQuiet w) (source : List ℕ → List ℕ)
    (serves : Serves w source) (job t document : ℕ) (c : Store) (d : RagDocument) where
  version_ids : List ℕ
  version_ids = map (λ v. v.id) (select (λ v. v.document_id == document) c.versions)

  Goes-purge_found :
      Goes
        (purge_found w job t document (some d))
        (Held job t c)
        (λ _. Held job t (erase document version_ids c))
  unfolding purge_found version_ids
  Goes-purge_found =
      let after = λ (u : Unit {0}). Held job t (erase document version_ids c) in
      Goes-asserted w quiet job t c after _ (
        Goes-call (Held job t c) after (w.delete_document document) _
          (serves.deletes_document document)
          λ _.
            Goes-bind (Held job t c) (λ ids db. (ids ≡ version_ids) × Held job t c db) after
              (transaction w (version_ids_of document)) _
              (Goes-transaction w quiet (Held job t c)
                (λ ids db. (ids ≡ version_ids) × Held job t c db) (version_ids_of document)
                λ now db h. (
                  db,
                  _,
                  refl,
                  (
                    ap (λ vs. map (λ v. v.id) (select (λ v. v.document_id == document) vs))
                        h.versions,
                    h,
                  ),
                ))
              λ ids.
                Goes-given (erased ids) (Held job t c) after
                  λ same. subst (λ i. Goes (erased i) (Held job t c) after) (sym same) Goes-erased)
    where
      erased : List ℕ → Action S (Unit {0})
      erased ids = do
        assert_lease w job t
        transaction w (erase_content job t document ids)
        remove_source w job t d.storage_path

      Goes-erased :
          Goes (erased version_ids) (Held job t c) (λ _. Held job t (erase document version_ids c))
      Goes-erased =
          let after = λ (u : Unit {0}). Held job t (erase document version_ids c) in
          Goes-asserted w quiet job t c after _ (
            Goes-bind (Held job t c) after after
              (transaction w (erase_content job t document version_ids)) _
              (Goes-transaction w quiet (Held job t c) after
                (erase_content job t document version_ids)
                λ now db h. (
                  erase document version_ids db,
                  tt,
                  rw (Held-is_owned job t c db h) refl,
                  record {
                    documents = ap (update (λ y. y.id == document) deleted_document) h.documents;
                    versions =
                        ap (update (λ v. v.document_id == document) superseded_version) h.versions;
                    chunks = ap (select (λ y. not (elem y.version_id version_ids))) h.chunks;
                    held = h.held;
                  },
                ))
              λ _ db s h. (db, _, tt, refl, h))

  Goes-purge :
      find (λ y. y.id == document) c.documents ≡ some d
      → Goes
          (purge w job t document)
          (Held job t c)
          (λ _. Held job t (erase document version_ids c))
  unfolding purge
  Goes-purge found =
      let after = λ (u : Unit {0}). Held job t (erase document version_ids c) in
      Goes-asserted w quiet job t c after _
        (Goes-found w quiet source serves job t c after document (some d) _ found Goes-purge_found)

-- A purge of a claimed job that nothing disturbs, and whose services answer, ends: no chunk of the
-- document's versions is left and all other chunks are, its versions are superseded and count no chunk, and
-- the document is deleted and has no active version.
pub purge_erases :
    {S V : Type 0} (w : Host S V) (source : List ℕ → List ℕ) (job t document : ℕ) (d : RagDocument)
    (db : Store) (s : S)
    → IsQuiet w
    → Serves w source
    → length (select (owns job t) db.jobs) ≡ 1
    → find (λ y. y.id == document) db.documents ≡ some d
    → Ends (purge w job t document db s) (ErasedOf document db)
unfolding version_ids ErasedOf
purge_erases w source job t document d db s quiet serves held found =
    let start : Held job t db db = record {
      documents = refl;
      versions = refl;
      chunks = refl;
      held = held;
    } in
    let (db', s', u, e, h) =
      Goes-purge w quiet source serves job t document db d found db s start in
    (db', s', e, (h.chunks, h.versions, h.documents))
