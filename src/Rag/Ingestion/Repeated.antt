-- ===== src/Rag/Ingestion/Repeated.antt =====
-- A source with a repeated passage.
use capere_ai.Base.{
  ℕ, ◌≡◌, ◌≢◌, refl, sym, ap, ◌∙◌, subst, Bool, true, Option, none, some, List, [], ◌∷◌, ◌++◌,
  String, arith, map, map-append, any, Bool-cases, inl, inr,
}
use capere_ai.Rag.Chunking.{TextChunk}
use capere_ai.Rag.Rows.{RagDocument, RagChunk, Store}
use capere_ai.Rag.Access.{
  Answer, answered, Flow, Action, Host, and_then, call, is_owned, settle, unless_refused,
  transaction, assert_lease,
}
use capere_ai.Rag.Ingestion.{repeats, same_codes, replace_chunks, chunk_row, store_version}

-- The action ended with an error.
abbrev pub IsStopped : {S A : Type 0} → Flow S A → Type 0
IsStopped (Flow.next db s a) = ⊥
IsStopped (Flow.stop db s e) = Unit

module _ {S : Type 0} {A : Type 0} {B : Type 0} (k : A → Action S B) where
  IsStopped-rest :
      (f : Flow S A)
      → ((a : A) (db : Store) (s : S) → IsStopped (k a db s))
      → IsStopped (and_then f k)
  IsStopped-rest (Flow.next db s a) h = h a db s
  IsStopped-rest (Flow.stop db s e) h = tt

  IsStopped-first : (f : Flow S A) → IsStopped f → IsStopped (and_then f k)
  IsStopped-first (Flow.next db s a) h = absurd h
  IsStopped-first (Flow.stop db s e) h = tt

IsStopped-refused :
    {S A : Type 0} (r : Option String) (db : Store) (s : S) (a : Answer (Store × A))
    → ((p : Store × A) → a ≢ answered p)
    → IsStopped (unless_refused r db s (settle db s a))
IsStopped-refused (some m) db s a h = tt
IsStopped-refused none db s (Answer.answered p) h = absurd (h p refl)
IsStopped-refused none db s (Answer.failed e) h = tt

same_codes_refl : (s : List ℕ) → same_codes s s ≡ true
same_codes_refl [] = refl
same_codes_refl (c ∷ s) = ground (arith, same_codes_refl s)

any_later :
    (p : RagChunk → Bool) (xs ys : List RagChunk) (b : RagChunk)
    → p b ≡ true
    → any p (xs ++ b ∷ ys) ≡ true
any_later p [] ys b h = ground arith
any_later p (x ∷ xs) ys b h = ground (arith, any_later p xs ys b h)

repeats_of_two :
    (xs ys zs : List RagChunk) (a b : RagChunk)
    → a.content_checksum ≡ b.content_checksum
    → repeats (xs ++ a ∷ (ys ++ b ∷ zs)) ≡ true
repeats_of_two [] ys zs a b e =
    let later =
      any_later (λ d. same_codes a.content_checksum d.content_checksum) ys zs b
        (subst (λ z. same_codes a.content_checksum z ≡ true) e
          (same_codes_refl a.content_checksum)) in
    ground (arith, later)
repeats_of_two (x ∷ xs) ys zs a b e = ground (arith, repeats_of_two xs ys zs a b e)

module _ {S : Type 0} {V : Type 0} (w : Host S V) (job t version : ℕ) where
  refused_chunks :
      (rows : List RagChunk) (now : ℕ) (db : Store) (p : Store × List RagChunk)
      → repeats rows ≡ true
      → replace_chunks job t version rows now db ≢ answered p
  refused_chunks rows now db p e = elim (Bool-cases (is_owned job t db)) [
    | inl y ↦ rw (y, e) (λ h. cc)
    | inr n ↦ rw n (λ h. cc)
  ]

  -- A version with two chunks of one checksum can never be stored, whatever the database, the services and
  -- the other workers do: the table of chunks refuses them.
  pub store_version_repeated :
      (d : RagDocument) (xs ys zs : List TextChunk) (a b : TextChunk) (vectors : List V)
      (db : Store) (s : S)
      → a.content_checksum ≡ b.content_checksum
      → IsStopped (store_version w job t d version (xs ++ a ∷ (ys ++ b ∷ zs)) vectors db s)
  unfolding store_version
  store_version_repeated d xs ys zs a b vectors db s e =
      let chunks = xs ++ a ∷ (ys ++ b ∷ zs) in
      let rows = map (chunk_row w version) chunks in
      let twice : repeats rows ≡ true =
        subst (λ r. repeats r ≡ true)
          (sym (
            map-append (chunk_row w version) xs (a ∷ (ys ++ b ∷ zs))
            ∙ ap (λ z. map (chunk_row w version) xs ++ chunk_row w version a ∷ z)
                (map-append (chunk_row w version) ys (b ∷ zs))))
          (repeats_of_two (map (chunk_row w version) xs) (map (chunk_row w version) ys)
            (map (chunk_row w version) zs) (chunk_row w version a) (chunk_row w version b) e) in
      IsStopped-rest _ (call w.ensure_collection db s) λ _ db1 s1.
        IsStopped-rest _ (assert_lease w job t db1 s1) λ _ db2 s2.
          IsStopped-first _ (transaction w (replace_chunks job t version rows) db2 s2) (
            let (s3, db3) = w.others s2 db2 in
            IsStopped-refused (w.refusal s3) db3 s3
              (replace_chunks job t version rows (w.now s3) db3)
              (λ p. refused_chunks rows (w.now s3) db3 p twice))
