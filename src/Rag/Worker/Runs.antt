-- ===== src/Rag/Worker/Runs.antt =====
-- The work of a claimed job is a sequence of steps.
use capere_ai.Base.{
  ℕ, ◌≡◌, subst, Bool, true, false, Option, none, some, List, [], ◌∷◌, str_eq, length, map,
  Bool-cases, inl, inr,
}
use capere_ai.Rag.Chunking
use capere_ai.Rag.Chunking.{TextChunk, chunk_text}
use capere_ai.Rag.Rows.{RagChunk, RagDocument, Store}
use capere_ai.Rag.Access.{answered, Action, Host, VectorRecord, ◌>>=◌, ◌>>◌, call, transaction}
use capere_ai.Rag.Ingestion.{
  RagSettings, repeats, write_chunks, replace_chunks, index, index_version, erase, erase_content,
  find_document, version_ids_of, batches, or_throw, chunk_row, vector_records, chunked, chunks_of,
  embed_batches, write_batches, store_version, ingest, purge_found, purge,
}
use capere_ai.Rag.Worker.Steps.{Step}
use capere_ai.Rag.Worker.Rules.{
  Keeps, Keeps-and_then, Keeps-transaction, Keeps-call, Keeps-read, Keeps-asserted,
  if_owned-answered, same_answer,
}

write_chunks-rows :
    (version : ℕ) (rows x : List RagChunk) (db db' : Store) (b : Bool)
    → write_chunks version rows db b ≡ answered (db', x)
    → write_chunks version rows db b ≡ answered (db', rows)
write_chunks-rows version rows x db db' true e = absurd cc
write_chunks-rows version rows x db db' false e = cc

module _ {S : Type 0} {V : Type 0} (w : Host S V) (P : Store → Type 0)
    (others : (s : S) (db : Store) → P db → P (w.others s db).1) (job t : ℕ)
    (step : (db db' : Store) → P db → Step t db db' → P db') where
  Keeps-write_batches :
      (bs : List (List (VectorRecord V))) → Keeps w P others (write_batches w job t bs)
  unfolding write_batches
  Keeps-write_batches [] = λ db s h. h
  Keeps-write_batches (b ∷ bs) =
      Keeps-asserted w P others job t step (call (w.write_batch b) >> write_batches w job t bs) (
        Keeps-call w P others (w.write_batch b) (λ _. write_batches w job t bs)
          (λ _. Keeps-write_batches bs))

  Keeps-embed_batches : (bs : List (List TextChunk)) → Keeps w P others (embed_batches w job t bs)
  unfolding embed_batches
  Keeps-embed_batches [] = λ db s h. h
  Keeps-embed_batches (b ∷ bs) = Keeps-asserted w P others job t step _ (
      Keeps-call w P others (w.embed (map (λ c. c.content) b)) _ (λ vs db s h.
        Keeps-and_then w P others (embed_batches w job t bs db s) _ (Keeps-embed_batches bs db s h)
          (λ rest db s h. h)))

  Keeps-index_version :
      (document version count : ℕ)
      → Keeps w P others (transaction w (index_version job t document version count))
  Keeps-index_version document version count =
      Keeps-transaction w P others (index_version job t document version count) (λ now db db' x e h.
        let owned =
          if_owned-answered job t db (answered (index document version count db, tt)) (db', x) e in
        subst P (same_answer _ (db', x) owned.1)
          (step db _ h (Step.indexes job document version count owned.0)))

  Keeps-replace_chunks :
      {B : Type 0} (version : ℕ) (rows : List RagChunk) (k : List RagChunk → Action S B)
      → ((stored : List RagChunk) → Keeps w P others (k stored))
      → Keeps w P others (transaction w (replace_chunks job t version rows) >>= k)
  Keeps-replace_chunks version rows k keep db s h =
      Keeps-and_then w P others (transaction w (replace_chunks job t version rows) db s) k
        (Keeps-transaction w P others (replace_chunks job t version rows)
          (λ now db db' x e h.
            let owned =
              if_owned-answered job t db (write_chunks version rows db (repeats rows)) (db', x) e in
            step db db' h (
              Step.stores job version rows owned.0
                (write_chunks-rows version rows x db db' (repeats rows) owned.1)))
          db s h)
        keep

  Keeps-store_version :
      (d : RagDocument) (version : ℕ) (chunks : List TextChunk) (vectors : List V)
      → Keeps w P others (store_version w job t d version chunks vectors)
  unfolding store_version
  Keeps-store_version d version chunks vectors = Keeps-call w P others w.ensure_collection _ λ _.
      Keeps-asserted w P others job t step _ (
        Keeps-replace_chunks version (map (chunk_row w version) chunks) _ λ stored.
          Keeps-asserted w P others job t step _ (
            Keeps-call w P others (w.delete_version version) _ λ _.
              Keeps-asserted w P others job t step _ (
                Keeps-call w P others (w.batches_of (vector_records w d stored vectors)) _
                  λ bs db s h.
                    Keeps-and_then w P others (write_batches w job t bs db s) _
                      (Keeps-write_batches bs db s h)
                      λ _.
                        Keeps-asserted w P others job t step _
                          (Keeps-index_version d.id version (length stored)))))

  Keeps-or_throw :
      {A B : Type 0} (o : Option A) (k : A → Action S B)
      → ((a : A) → Keeps w P others (k a))
      → Keeps w P others (or_throw o >>= k)
  Keeps-or_throw none k keep db s h = h
  Keeps-or_throw (some a) k keep db s h = keep a db s h

  Keeps-chunked : (r : Chunking.Result (List TextChunk)) → Keeps w P others (chunked w r)
  Keeps-chunked (Chunking.ok []) db s h = h
  Keeps-chunked (Chunking.ok (c ∷ cs)) db s h = h
  Keeps-chunked (Chunking.err e) db s h = h

  Keeps-chunks_of :
      (settings : RagSettings) (d : RagDocument) (bytes : List ℕ)
      → Keeps w P others (chunks_of w settings d bytes)
  unfolding chunks_of
  Keeps-chunks_of settings d bytes db s h =
      elim (Bool-cases (str_eq d.source_mime_type "application/pdf")) [
        | inl y ↦ rw y h
        | inr n ↦ rw n (
            Keeps-chunked
              (chunk_text w.checksum (w.source_text d.source_mime_type bytes) settings.chunker) db s
              h)
      ]

  pub Keeps-ingest :
      (settings : RagSettings) (document version : ℕ)
      → Keeps w P others (ingest w job t settings document version)
  unfolding ingest
  Keeps-ingest settings document version = Keeps-asserted w P others job t step _ (
      Keeps-read w P others (find_document document) _ (λ now db p e. same_answer (db, _) p e)
        λ found. Keeps-or_throw found _ λ d.
          Keeps-call w P others (w.get_source d.storage_path) _ λ bytes db s h.
            Keeps-and_then w P others (chunks_of w settings d bytes db s) _
              (Keeps-chunks_of settings d bytes db s h)
              λ chunks db s h.
                Keeps-and_then w P others
                  (embed_batches w job t (batches settings.embedding_batch_size chunks) db s) _
                  (Keeps-embed_batches (batches settings.embedding_batch_size chunks) db s h)
                  (Keeps-store_version d version chunks))

  Keeps-erase_content :
      {B : Type 0} (document : ℕ) (version_ids : List ℕ) (k : Unit {0} → Action S B)
      → ((u : Unit {0}) → Keeps w P others (k u))
      → Keeps w P others (transaction w (erase_content job t document version_ids) >>= k)
  Keeps-erase_content document version_ids k keep db s h =
      Keeps-and_then w P others (transaction w (erase_content job t document version_ids) db s) k
        (Keeps-transaction w P others (erase_content job t document version_ids)
          (λ now db db' x e h.
            let owned =
              if_owned-answered job t db (answered (erase document version_ids db, tt)) (db', x)
                e in
            subst P (same_answer _ (db', x) owned.1)
              (step db _ h (Step.erases job document version_ids owned.0)))
          db s h)
        keep

  Keeps-purge_found :
      (document : ℕ) (found : Option RagDocument)
      → Keeps w P others (purge_found w job t document found)
  unfolding purge_found
  Keeps-purge_found document none = λ db s h. h
  Keeps-purge_found document (some d) = Keeps-asserted w P others job t step _ (
      Keeps-call w P others (w.delete_document document) _ λ _.
        Keeps-read w P others (version_ids_of document) _ (λ now db p e. same_answer (db, _) p e)
          λ version_ids.
            Keeps-asserted w P others job t step _
              (Keeps-erase_content document version_ids _ (λ _ db s h. h)))

  pub Keeps-purge : (document : ℕ) → Keeps w P others (purge w job t document)
  unfolding purge
  Keeps-purge document = Keeps-asserted w P others job t step _ (
      Keeps-read w P others (find_document document) _ (λ now db p e. same_answer (db, _) p e)
        (Keeps-purge_found document))
