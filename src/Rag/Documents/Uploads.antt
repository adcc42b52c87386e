-- ===== src/Rag/Documents/Uploads.antt =====
-- What an upload leaves, and who sees its document.
use capere_ai.Base.{
  ℕ, ◌≡◌, refl, sym, ap, ◌∙◌, subst, Bool, true, false, not, ◌==◌, ◌&&◌, ◌||◌, Option, none, some,
  some_and, List, [], ◌∷◌, ◌++◌, arith, find, any, Bool-cases, inl, inr, if◌then◌else◌,
}
use capere_ai.Rag.Rows.{RagVisibility, shared, tenant, RagDocument}
use capere_ai.Rag.Documents.{
  CreateRagDocument, Library, Created, created, refused, owner, new_document, create_valid, create,
  is_shared, is_visible, get,
}
use capere_ai.Rag.Documents.Files.{Platform, UploadedSourceFile, UploadError, validate_file}

find_last :
    (p q : RagDocument → Bool) (xs : List RagDocument) (d : RagDocument)
    → any p xs ≡ false
    → p d ≡ true
    → find (λ x. p x && q x) (xs ++ d ∷ []) ≡ (if q d then some d else none)
find_last p q [] d h y = rw y refl
find_last p q (x ∷ xs) d h y = elim (Bool-cases (p x)) [
  | inl u ↦ absurd (ground (arith, h, u))
  | inr u ↦ rw u (find_last p q xs d (ground (arith, h, u)) y)
]

visible_to :
    (v : RagVisibility) (org org' : ℕ)
    → is_shared v || not (is_shared v) && some_and (λ o. o == org') (owner v org)
      ≡ is_shared v || org == org'
visible_to shared org org' = refl
visible_to tenant org org' = refl

module _ (p : Platform) (now user org : ℕ) (dto : CreateRagDocument) (lib lib' : Library) where
  -- The document is the last row, of the ids and the owner of the upload.
  Added : RagDocument → Type 0
  Added d =
      ((lib'.store).documents ≡ (lib.store).documents ++ d ∷ [])
      × (d.id ≡ p.document_id)
      × (d.visibility ≡ dto.visibility)
      × (d.organization_id ≡ owner dto.visibility org)

  documents_of : Library × Created → List RagDocument
  documents_of (l, c) = (l.store).documents

  document_or : RagDocument → Library × Created → RagDocument
  document_or d (l, created d') = d'
  document_or d (l, refused e) = d

  created-Added :
      (file : Option UploadedSourceFile) (puts inserts removes : Bool) (o : Option UploadError)
      (d : RagDocument)
      → create_valid p now user org dto file puts inserts removes lib o ≡ (lib', created d)
      → Added d
  unfolding Added new_document documents_of document_or
  created-Added file puts inserts removes (some x) d e = absurd cc
  created-Added none puts inserts removes none d e = absurd cc
  created-Added (some f) false inserts removes none d e = absurd cc
  created-Added (some f) true false true none d e = absurd cc
  created-Added (some f) true false false none d e = absurd cc
  created-Added (some f) true true removes none d e =
      let made : new_document p now user org dto f ≡ d = ap (document_or d) e in
      subst Added made (sym (ap documents_of e), refl, refl, refl)

  -- A document just created, under an id of its own, is found by every organization if it is shared and by
  -- its own organization alone otherwise.
  pub get-create :
      (file : Option UploadedSourceFile) (puts inserts removes : Bool) (d : RagDocument) (org' : ℕ)
      → create p now user org dto file puts inserts removes lib ≡ (lib', created d)
      → any (λ x. x.id == p.document_id) (lib.store).documents ≡ false
      → get org' p.document_id (lib'.store)
        ≡ (if is_shared dto.visibility || org == org' then some d else none)
  unfolding create get is_visible Added
  get-create file puts inserts removes d org' e fresh =
      let (rows, id, v, o) = created-Added file puts inserts removes (validate_file p file) d e in
      let seen : is_visible org' d ≡ is_shared dto.visibility || org == org' =
        subst
          (λ z.
            is_shared z || not (is_shared z) && some_and (λ y. y == org') d.organization_id
            ≡ is_shared dto.visibility || org == org')
          (sym v)
          (subst
            (λ z.
              is_shared dto.visibility
                || not (is_shared dto.visibility) && some_and (λ y. y == org') z
              ≡ is_shared dto.visibility || org == org')
            (sym o) (visible_to dto.visibility org org')) in
      ap (find (λ x. x.id == p.document_id && is_visible org' x)) rows
      ∙ find_last (λ x. x.id == p.document_id) (is_visible org') (lib.store).documents d fresh
          (ground (arith, id))
      ∙ ap (λ b. if b then some d else none) seen

  -- A refused upload leaves the tables as they were, and no source behind if the storage removes it.
  pub create_refused :
      (file : Option UploadedSourceFile) (puts inserts removes : Bool) (x : UploadError)
      → create p now user org dto file puts inserts removes lib ≡ (lib', refused x)
      → (lib'.store ≡ lib.store) × (removes ≡ true → lib' ≡ lib)
  unfolding create
  create_refused file puts inserts removes x e =
      refused_by file puts inserts removes (validate_file p file) x e
    where
      refused_by :
          (file : Option UploadedSourceFile) (puts inserts removes : Bool) (o : Option UploadError)
          (x : UploadError)
          → create_valid p now user org dto file puts inserts removes lib o ≡ (lib', refused x)
          → (lib'.store ≡ lib.store) × (removes ≡ true → lib' ≡ lib)
      refused_by file puts inserts removes (some y) x e = (cc, (λ _. cc))
      refused_by none puts inserts removes none x e = (cc, (λ _. cc))
      refused_by (some f) false inserts removes none x e = (cc, (λ _. cc))
      refused_by (some f) true false true none x e = (cc, (λ _. cc))
      refused_by (some f) true false false none x e =
          (ap (λ r. (r.0).store) (sym e), (λ no. absurd cc))
      refused_by (some f) true true removes none x e = absurd cc
