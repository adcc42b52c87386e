-- ===== src/Rag/Chunking/Spans.antt =====
-- What chunking.ts promises of a document's chunks.
use capere_ai.Base.{
  ℕ, zero, suc, ◌+◌, ◌-◌, ◌*◌, ◌/◌, ◌≤◌, ◌<◌, ◌≡◌, ◌≢◌, ◌⊎◌, refl, subst, inl, inr, some, List, [],
  ◌∷◌, ◌++◌, arith, leb, ltb, length, All, All-append, All-zip, Bool-cases,
}
use capere_ai.Rag.Text.{slice, trim, index_of, normalize_text}
use capere_ai.Rag.Text.Laws.{
  slice-index_of, index_of-trim, index_of-trim_within, length-trim, length-slice-le,
}
use capere_ai.Rag.Chunking.{
  TextChunk, ChunkerOptions, ok, err, out_of_fuel, window_end, next_start, chunk_at, chunk_of,
  chunk_text,
}
use capere_ai.Rag.Chunking.Windows.{
  windows, window_end_bounds, cut, chunk_from-cut, chunk_from-total, windows_miss, windows-Covers,
  windows-forward, Covers,
}

-- A chunk is a nonempty piece of the text, no longer than the target, at its recorded place.
pub record IsPiece (text : List ℕ) (target : ℕ) (c : TextChunk) : Type 0 where
  pub placed : slice text c.source_start c.source_end ≡ c.content
  pub nonempty : c.content ≢ []
  pub short : length c.content ≤ target
  pub counted : c.character_count ≡ length c.content

-- The chunks are numbered one after the other.
abbrev pub Numbered : ℕ → List TextChunk → Type 0
Numbered n [] = Unit
Numbered n (c ∷ cs) = (c.sequence ≡ n) × Numbered (suc n) cs

Numbered-append :
    (n : ℕ) (xs ys : List TextChunk)
    → Numbered n xs
    → Numbered (n + length xs) ys
    → Numbered n (xs ++ ys)
Numbered-append n [] ys h k = subst (λ m. Numbered m ys) (omega arith) k
Numbered-append n (x ∷ xs) ys (e, h) k =
    (e, Numbered-append (suc n) xs ys h (subst (λ m. Numbered m ys) (omega arith) k))

module _ (checksum : List ℕ → List ℕ) (options : ChunkerOptions) (text : List ℕ) where
  -- The windows that the loop visits.
  abbrev IsWindow : ℕ × ℕ → Type 0
  IsWindow w = w.1 ≤ w.0 + options.target_characters

  windows-IsWindow : (fuel start : ℕ) → All IsWindow (windows options text fuel start)
  unfolding windows
  windows-IsWindow zero start = tt
  windows-IsWindow (suc fuel) start =
      let end = window_end options text start in
      let ih = windows-IsWindow fuel (next_start options text start end) in
      let fits = (window_end_bounds options text start).1 in
      elim (Bool-cases (ltb start (length text))) [
        | inl e ↦ rw e (
          fits,
          elim (Bool-cases (leb (length text) end)) [
            | inl last ↦ rw last tt
            | inr more ↦ rw more ih
          ],
        )
        | inr e ↦ rw e tt
      ]

  chunk_of-IsPiece :
      (start end n : ℕ) (content : List ℕ)
      → end ≤ start + options.target_characters
      → trim (slice text start end) ≡ content
      → All
          (IsPiece text options.target_characters)
          (chunk_of checksum options text start n content)
  unfolding chunk_of chunk_at
  chunk_of-IsPiece start end n [] fits e = tt
  chunk_of-IsPiece start end n (c ∷ s) fits e =
      let (i, at) = index_of-trim text start end in
      let at' : index_of (c ∷ s) text start ≡ some i =
        subst (λ p. index_of p text start ≡ some i) e at in
      (
        record {
          placed = rw at' (slice-index_of (c ∷ s) text start i at');
          nonempty = λ h. cc;
          short =
              subst (λ p. length p ≤ options.target_characters) e
                (omega (arith, length-trim (slice text start end), length-slice-le text start end));
          counted = refl;
        },
        tt,
      )

  chunk_of-Numbered :
      (start n : ℕ) (content : List ℕ) → Numbered n (chunk_of checksum options text start n content)
  unfolding chunk_of chunk_at
  chunk_of-Numbered start n [] = tt
  chunk_of-Numbered start n (c ∷ s) = (refl, tt)

  cut-IsPiece :
      (n : ℕ) (ws : List (ℕ × ℕ))
      → All IsWindow ws
      → All (IsPiece text options.target_characters) (cut checksum options text n ws)
        × Numbered n (cut checksum options text n ws)
  unfolding cut
  cut-IsPiece n [] h = (tt, tt)
  cut-IsPiece n (w ∷ ws) (fits, h) =
      let content = trim (slice text w.0 w.1) in
      let here = chunk_of checksum options text w.0 n content in
      let ih = cut-IsPiece (n + length here) ws h in
      (
        All-append _ here _ (chunk_of-IsPiece w.0 w.1 n content fits refl) ih.0,
        Numbered-append n here _ (chunk_of-Numbered w.0 n content) ih.1,
      )

  chunk_of_misses :
      (p start end n : ℕ) (content : List ℕ)
      → start ≤ end
      → (end ≤ p) ⊎ (p < start)
      → trim (slice text start end) ≡ content
      → All
          (λ c. (c.source_end ≤ p) ⊎ (p < c.source_start))
          (chunk_of checksum options text start n content)
  unfolding chunk_of chunk_at
  chunk_of_misses p start end n [] le h e = tt
  chunk_of_misses p start end n (c ∷ s) le h e =
      let (i, at) = index_of-trim text start end in
      let (lo, hi) = index_of-trim_within text start end i le at in
      let at' : index_of (c ∷ s) text start ≡ some i =
        subst (λ p. index_of p text start ≡ some i) e at in
      let hi' : i + length (c ∷ s) ≤ end = subst (λ p. i + length p ≤ end) e hi in
      (rw at' (omega arith), tt)

  -- A position that no window holds is in no chunk's span.
  cut_misses :
      (p n : ℕ) (ws : List (ℕ × ℕ))
      → All (λ w. (w.0 ≤ w.1) × ((w.1 ≤ p) ⊎ (p < w.0))) ws
      → All (λ c. (c.source_end ≤ p) ⊎ (p < c.source_start)) (cut checksum options text n ws)
  unfolding cut
  cut_misses p n [] h = tt
  cut_misses p n (w ∷ ws) ((le, out), h) =
      let content = trim (slice text w.0 w.1) in
      let here = chunk_of checksum options text w.0 n content in
      All-append _ here _ (chunk_of_misses p w.0 w.1 n content le out refl)
        (cut_misses p (n + length here) ws h)

abbrev all_windows : ChunkerOptions → List ℕ → List (ℕ × ℕ)
all_windows options text = windows options text (suc (length text)) 0

-- Whatever the input and the options, chunking ends: it gives chunks or one of its two errors.
pub chunk_text-total :
    (checksum : List ℕ → List ℕ) (input : List ℕ) (options : ChunkerOptions)
    → chunk_text checksum input options ≢ err out_of_fuel
unfolding chunk_text
chunk_text-total checksum input options = ground (
  arith,
  chunk_from-total checksum options (normalize_text input) (suc (length (normalize_text input))) 0
      [],
)

chunk_text-cut :
    (checksum : List ℕ → List ℕ) (input : List ℕ) (options : ChunkerOptions)
    {chunks : List TextChunk}
    → chunk_text checksum input options ≡ ok chunks
    → (options.overlap_characters < options.target_characters)
      × (chunks
          ≡ cut checksum options
              (normalize_text input)
              0
              (all_windows options (normalize_text input)))
unfolding chunk_text
chunk_text-cut checksum input options {chunks} e = (
  ground arith,
  chunk_from-cut checksum options (normalize_text input) (suc (length (normalize_text input))) 0 []
      (ground arith),
)

-- The chunks of a document are numbered from 0 on, and each one is a nonempty piece of the
-- normalised text, at most `targetCharacters` long, that stands where its source span says.
pub chunk_text-IsPiece :
    (checksum : List ℕ → List ℕ) (input : List ℕ) (options : ChunkerOptions)
    {chunks : List TextChunk}
    → chunk_text checksum input options ≡ ok chunks
    → All (IsPiece (normalize_text input) options.target_characters) chunks × Numbered 0 chunks
chunk_text-IsPiece checksum input options {chunks} e =
    let text = normalize_text input in
    rw ((chunk_text-cut checksum input options e).1) (
      cut-IsPiece checksum options text 0 (all_windows options text)
        (windows-IsWindow checksum options text (suc (length text)) 0))

-- If the overlap makes up for windows that end early, at 60 % of the target at the least, the
-- chunks are the trimmed texts of windows that leave no character of the text out.
pub chunk_text-Covers :
    (checksum : List ℕ → List ℕ) (input : List ℕ) (options : ChunkerOptions)
    {chunks : List TextChunk}
    → options.target_characters
      ≤ options.overlap_characters + options.target_characters * 6 / 10 + 1
    → chunk_text checksum input options ≡ ok chunks
    → (ws : List (ℕ × ℕ)) × Covers options (normalize_text input) 0 ws
      × (chunks ≡ cut checksum options (normalize_text input) 0 ws)
chunk_text-Covers checksum input options wide e =
    let text = normalize_text input in
    let (fits, same) = chunk_text-cut checksum input options e in
    (
      all_windows options text,
      windows-Covers options text (suc (length text)) 0 fits wide (omega arith),
      same,
    )

-- Otherwise text can be lost: where the first window ends before the step to the next one is done,
-- no chunk's source span holds a position between that end and the step.
pub chunk_text_gap :
    (checksum : List ℕ → List ℕ) (input : List ℕ) (options : ChunkerOptions)
    {chunks : List TextChunk} (p : ℕ)
    → window_end options (normalize_text input) 0 ≤ p
    → p < options.target_characters - options.overlap_characters
    → chunk_text checksum input options ≡ ok chunks
    → All (λ c. (c.source_end ≤ p) ⊎ (p < c.source_start)) chunks
chunk_text_gap checksum input options p le lt e =
    let text = normalize_text input in
    rw ((chunk_text-cut checksum input options e).1) (
      cut_misses checksum options text p 0 (all_windows options text) (
        All-zip _ _ (all_windows options text)
          (windows-forward options text (suc (length text)) 0
            (chunk_text-cut checksum input options e).0)
          (windows_miss options text (suc (length text)) 0 p le (omega arith))))
