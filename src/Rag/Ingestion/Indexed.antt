-- ===== src/Rag/Ingestion/Indexed.antt =====
-- What an ingestion and a purge leave that nothing disturbs.
use capere_ai.Base.{
  ℕ, ◌≡◌, refl, sym, ap, ◌∙◌, subst, false, not, ◌==◌, Option, some, List, [], ◌∷◌, ◌++◌, str_eq,
  map, find, find-holds, select, update, length, length-map, ==_iff,
}
use capere_ai.Rag.Chunking
use capere_ai.Rag.Chunking.{TextChunk, chunk_text}
use capere_ai.Rag.Rows.{RagDocument, RagChunk, Store}
use capere_ai.Rag.Access.{
  Answer, answered, answer, and_then, Action, Host, VectorRecord, ◌>>=◌, ◌>>◌, done, call,
  transaction, assert_lease,
}
use capere_ai.Rag.Ingestion.{
  RagSettings, repeats, replace_chunks, indexed_document, indexed_version, index, index_version,
  find_document, batches, chunk_row, vector_records, chunks_of, embed_batches, write_batches,
  store_version, ingest,
}
use capere_ai.Rag.Ingestion.Quiet.{
  IsQuiet, Serves, Goes, Goes-given, Goes-bind, Goes-call, Goes-transaction, Held, Held-is_owned,
  Goes-asserted,
}

-- The chunks of a version in place of its old ones.
abbrev pub with_chunks : ℕ → List RagChunk → Store → Store
with_chunks version rows c = record c {
  chunks = select (λ x. not (x.version_id == version)) c.chunks ++ rows;
}

module _ {S : Type 0} {V : Type 0} (w : Host S V) (quiet : IsQuiet w) (source : List ℕ → List ℕ)
    (serves : Serves w source) (job t : ℕ) where
  Goes-write_batches :
      (c : Store) (bs : List (List (VectorRecord V)))
      → Goes (write_batches w job t bs) (Held job t c) (λ _. Held job t c)
  unfolding write_batches
  Goes-write_batches c [] = λ db s h. (db, s, tt, refl, h)
  Goes-write_batches c (b ∷ bs) =
      Goes-asserted w quiet job t c (λ _. Held job t c) _
        (Goes-call (Held job t c) (λ _. Held job t c) (w.write_batch b) _ (serves.writes b)
          (λ _. Goes-write_batches c bs))

  Goes-embed_batches :
      (c : Store) (bs : List (List TextChunk))
      → Goes (embed_batches w job t bs) (Held job t c) (λ _. Held job t c)
  unfolding embed_batches
  Goes-embed_batches c [] = λ db s h. (db, s, [], refl, h)
  Goes-embed_batches c (b ∷ bs) =
      Goes-asserted w quiet job t c (λ _. Held job t c) _
        (Goes-call (Held job t c) (λ _. Held job t c) (w.embed (map (λ x. x.content) b)) _
          (serves.embeds (map (λ x. x.content) b))
          λ vs.
            Goes-bind (Held job t c) (λ _. Held job t c) (λ _. Held job t c)
              (embed_batches w job t bs) _ (Goes-embed_batches c bs)
              (λ rest db s h. (db, s, vs ++ rest, refl, h)))

  replaced :
      (c : Store) (version : ℕ) (rows : List RagChunk)
      → repeats rows ≡ false
      → (now : ℕ) (db : Store) → Held job t c db
      → (db' : Store) × (stored : List RagChunk) × (replace_chunks job t version rows now db
          ≡ answered (db', stored))
        × ((stored ≡ rows) × Held job t (with_chunks version rows c) db')
  replaced c version rows fine now db h = (
    with_chunks version rows db,
    rows,
    rw (Held-is_owned job t c db h, fine) refl,
    (
      refl,
      record {
        documents = h.documents;
        versions = h.versions;
        chunks = ap (λ cs. select (λ x. not (x.version_id == version)) cs ++ rows) h.chunks;
        held = h.held;
      },
    ),
  )

  Goes-index_version :
      (c : Store) (document version count : ℕ)
      → Goes
          (transaction w (index_version job t document version count))
          (Held job t c)
          (λ _. Held job t (index document version count c))
  Goes-index_version c document version count =
      Goes-transaction w quiet (Held job t c) (λ _. Held job t (index document version count c))
        (index_version job t document version count)
        λ now db h. (
          index document version count db,
          tt,
          rw (Held-is_owned job t c db h) refl,
          record {
            documents = ap (update (λ d. d.id == document) (indexed_document version)) h.documents;
            versions = ap (update (λ v. v.id == version) (indexed_version count)) h.versions;
            chunks = h.chunks;
            held = h.held;
          },
        )

  -- The rest of `store_version` once the chunks are stored.
  abbrev vectors_stored : RagDocument → ℕ → List RagChunk → List V → Action S (Unit {0})
  vectors_stored d version stored vectors = do
    assert_lease w job t
    call (w.delete_version version)
    assert_lease w job t
    batched ← call (w.batches_of (vector_records w d stored vectors))
    write_batches w job t batched
    assert_lease w job t
    transaction w (index_version job t d.id version (length stored))

  Goes-vectors_stored :
      (c : Store) (d : RagDocument) (version : ℕ) (stored : List RagChunk) (vectors : List V)
      → Goes
          (vectors_stored d version stored vectors)
          (Held job t c)
          (λ _. Held job t (index d.id version (length stored) c))
  Goes-vectors_stored c d version stored vectors =
      let after = λ (u : Unit {0}). Held job t (index d.id version (length stored) c) in
      Goes-asserted w quiet job t c after _ (
        Goes-call (Held job t c) after (w.delete_version version) _ (serves.deletes_version version)
          λ _. Goes-asserted w quiet job t c after _ (
            Goes-call (Held job t c) after (w.batches_of (vector_records w d stored vectors)) _
              (serves.batched (vector_records w d stored vectors))
              λ bs.
                Goes-bind (Held job t c) (λ _. Held job t c) after (write_batches w job t bs) _
                  (Goes-write_batches c bs)
                  λ _.
                    Goes-asserted w quiet job t c after _
                      (Goes-index_version c d.id version (length stored))))

  Goes-store_version :
      (c : Store) (d : RagDocument) (version : ℕ) (chunks : List TextChunk) (vectors : List V)
      → repeats (map (chunk_row w version) chunks) ≡ false
      → Goes (store_version w job t d version chunks vectors) (Held job t c) (λ _. Held job t (
          index d.id version
            (length chunks)
            (with_chunks version (map (chunk_row w version) chunks) c)))
  unfolding store_version
  Goes-store_version c d version chunks vectors fine =
      let rows = map (chunk_row w version) chunks in
      let c1 = with_chunks version rows c in
      let c2 = index d.id version (length chunks) c1 in
      Goes-call (Held job t c) (λ _. Held job t c2) w.ensure_collection _ serves.collects
        λ _.
          Goes-asserted w quiet job t c (λ _. Held job t c2) _
            (Goes-bind (Held job t c) (λ stored db. (stored ≡ rows) × Held job t c1 db)
              (λ _. Held job t c2) (transaction w (replace_chunks job t version rows)) _
              (Goes-transaction w quiet (Held job t c)
                (λ stored db. (stored ≡ rows) × Held job t c1 db)
                (replace_chunks job t version rows) (replaced c version rows fine))
              λ stored.
                Goes-given (vectors_stored d version stored vectors) (Held job t c1)
                  (λ _. Held job t c2)
                  λ same.
                    subst
                      (λ n.
                        Goes (vectors_stored d version stored vectors) (Held job t c1)
                          (λ _. Held job t (index d.id version n c1)))
                      (ap length same ∙ length-map (chunk_row w version) chunks)
                      (Goes-vectors_stored c1 d version stored vectors))

  Goes-known :
      {A B : Type 0} (c : Store) (R' : B → Store → Type 0) (f : S → S × Answer A) (a : A)
      (k : A → Action S B)
      → ((s : S) → (s' : S) × (f s ≡ (s', answered a)))
      → Goes (k a) (Held job t c) R'
      → Goes (call f >>= k) (Held job t c) R'
  Goes-known c R' f a k known go db s h =
      let (s1, e) = known s in
      let (db2, s2, b, e', r') = go db s1 h in
      (db2, s2, b, ap (λ p. and_then (answer db p) k) e ∙ e', r')

  pub Goes-found :
      {B : Type 0} (c : Store) (R' : B → Store → Type 0) (document : ℕ) (o : Option RagDocument)
      (k : Option RagDocument → Action S B)
      → find (λ d. d.id == document) c.documents ≡ o
      → Goes (k o) (Held job t c) R'
      → Goes (transaction w (find_document document) >>= k) (Held job t c) R'
  Goes-found c R' document o k e go =
      Goes-bind (Held job t c) (λ found db. (found ≡ o) × Held job t c db) R'
        (transaction w (find_document document)) k
        (Goes-transaction w quiet (Held job t c) (λ found db. (found ≡ o) × Held job t c db)
          (find_document document)
          λ now db h. (
            db,
            find (λ d. d.id == document) db.documents,
            refl,
            (ap (find (λ d. d.id == document)) h.documents ∙ e, h),
          ))
        λ found.
          Goes-given (k found) (Held job t c) R'
            λ same. subst (λ x. Goes (k x) (Held job t c) R') (sym same) go

  module _ (settings : RagSettings) (document version : ℕ) (c : Store) (d : RagDocument)
      (found : find (λ x. x.id == document) c.documents ≡ some d)
      (not_pdf : str_eq d.source_mime_type "application/pdf" ≡ false) (x : TextChunk)
      (xs : List TextChunk)
      (chunked_as : chunk_text w.checksum
          (w.source_text d.source_mime_type (source d.storage_path))
          settings.chunker
        ≡ Chunking.ok (x ∷ xs))
      (fine : repeats (map (chunk_row w version) (x ∷ xs)) ≡ false) where
    abbrev pub ingested : Store
    ingested =
        index document version (length (x ∷ xs))
          (with_chunks version (map (chunk_row w version) (x ∷ xs)) c)

    of_chunks : chunks_of w settings d (source d.storage_path) ≡ done (x ∷ xs)
    unfolding chunks_of
    of_chunks = rw (not_pdf, chunked_as) refl

    -- An ingestion that nothing disturbs ends: the chunks of the version are those of the source in place of
    -- its old ones, with their number, and the document is indexed by the version; nothing else of the
    -- content changes.
    pub ingest_indexes :
        Goes (ingest w job t settings document version) (Held job t c) (λ _. Held job t ingested)
    unfolding ingest
    ingest_indexes =
        let after = λ (u : Unit {0}). Held job t ingested in
        let same : d.id ≡ document =
          (==_iff d.id document).0 (find-holds (λ y. y.id == document) c.documents d found) in
        Goes-asserted w quiet job t c after _ (
          Goes-found c after document (some d) _ found (
            Goes-known c after (w.get_source d.storage_path) (source d.storage_path) _
              (serves.stored d.storage_path)
              (subst
                (λ m.
                  Goes
                    (m >>= λ chunks.
                      embed_batches w job t (batches settings.embedding_batch_size chunks)
                      >>= store_version w job t d version chunks)
                    (Held job t c) after)
                (sym of_chunks)
                (Goes-bind (Held job t c) (λ _. Held job t c) after
                  (embed_batches w job t (batches settings.embedding_batch_size (x ∷ xs))) _
                  (Goes-embed_batches c (batches settings.embedding_batch_size (x ∷ xs)))
                  λ vectors.
                    subst
                      (λ n.
                        Goes (store_version w job t d version (x ∷ xs) vectors) (Held job t c) (λ _.
                          Held job t (
                            index n version (length (x ∷ xs))
                              (with_chunks version (map (chunk_row w version) (x ∷ xs)) c))))
                      same (Goes-store_version c d version (x ∷ xs) vectors fine)))))
