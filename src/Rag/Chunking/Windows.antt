-- ===== src/Rag/Chunking/Windows.antt =====
-- The windows that the loop of chunking.ts walks through: they move forward, they end, and their
-- trimmed texts are the chunks. When neighbours overlap, and when text falls between them.
use capere_ai.Base.{
  ℕ, zero, suc, ◌+◌, ◌-◌, ◌*◌, ◌/◌, ◌≤◌, ◌<◌, ◌≡◌, ◌≢◌, ◌⊎◌, inl, inr, min, List, [], ◌∷◌, ◌++◌,
  arith, leb, ltb, if◌then◌else◌, length, All, All-imp, Bool-cases, length-append,
}
use mathlib.Core.List.{append-nil, append_assoc}
use capere_ai.Rag.Text.{slice, trim, last_index}
use capere_ai.Rag.Chunking.{
  TextChunk, ChunkerOptions, ok, err, out_of_fuel, window_end, next_start, chunk_of, chunk_from,
}

last_index-le : (c : ℕ) (s : List ℕ) (upto : ℕ) → last_index c s upto ≤ upto + 1
last_index-le c [] upto = omega arith
last_index-le c (d ∷ s) zero = ground arith
last_index-le c (d ∷ s) (suc upto) = ground (arith, last_index-le c s upto)

module _ (options : ChunkerOptions) (text : List ℕ) where
  abbrev step : ℕ
  step = options.target_characters - options.overlap_characters

  -- A window ends within the text and within its size.
  pub window_end_bounds :
      (start : ℕ)
      → (window_end options text start ≤ length text)
        × (window_end options text start ≤ start + options.target_characters)
  unfolding window_end
  window_end_bounds start = ground (
    arith,
    last_index-le 10 text (min (start + options.target_characters) (length text)),
    last_index-le 32 text (min (start + options.target_characters) (length text)),
  )

  -- A window that stops before the end of the text is full or passes 60 % of its size.
  window_end_far :
      (start : ℕ)
      → window_end options text start < length text
      → (start + options.target_characters * 6 / 10 + 1 ≤ window_end options text start)
        ⊎ (window_end options text start ≡ start + options.target_characters)
  unfolding window_end
  window_end_far start h = ground arith

  pub next_start-lt :
      (start : ℕ)
      → options.overlap_characters < options.target_characters
      → start < next_start options text start (window_end options text start)
  unfolding next_start
  next_start-lt start h = omega arith

  unfoldable pub windows : ℕ → ℕ → List (ℕ × ℕ)
  windows zero start = []
  windows (suc fuel) start =
      let end = window_end options text start in
      let rest = windows fuel (next_start options text start end) in
      if ltb start (length text)
      then (start, end) ∷ (if leb (length text) end then [] else rest)
      else []

  -- All later windows begin where the next one may begin.
  windows-from : (at fuel start : ℕ) → at ≤ start → All (λ w. at ≤ w.0) (windows fuel start)
  unfolding windows next_start
  windows-from at zero start h = tt
  windows-from at (suc fuel) start h =
      ground (
        arith,
        windows-from at fuel (next_start options text start (window_end options text start)),
      )

  window_end-lt :
      (start : ℕ)
      → options.overlap_characters < options.target_characters
      → start < length text
      → start < window_end options text start
  unfolding window_end
  window_end-lt start fits h = ground arith

  -- Every window holds at least one character.
  pub windows-forward :
      (fuel start : ℕ)
      → options.overlap_characters < options.target_characters
      → All (λ w. w.0 ≤ w.1) (windows fuel start)
  unfolding windows
  windows-forward zero start fits = tt
  windows-forward (suc fuel) start fits =
      let end = window_end options text start in
      let ih = windows-forward fuel (next_start options text start end) fits in
      ground (arith, ih, window_end-lt start fits)

  next_start-step :
      (start : ℕ) → start + step ≤ next_start options text start (window_end options text start)
  unfolding next_start
  next_start-step start = omega arith

  -- From a window on, no window holds what lies between its end and the earliest next start.
  pub windows_miss :
      (fuel start p : ℕ)
      → window_end options text start ≤ p
      → p < start + step
      → All (λ w. (w.1 ≤ p) ⊎ (p < w.0)) (windows fuel start)
  unfolding windows
  windows_miss zero start p le lt = tt
  windows_miss (suc fuel) start p le lt = elim (Bool-cases (ltb start (length text))) [
    | inl inside ↦ rw inside (
      inl le,
      elim (Bool-cases (leb (length text) (window_end options text start))) [
        | inl last ↦ rw last tt
        | inr more ↦ rw more later
      ],
    )
    | inr over ↦ rw over tt
  ]
    where
      later :
          All
            (λ w. (w.1 ≤ p) ⊎ (p < w.0))
            (windows fuel (next_start options text start (window_end options text start)))
      later =
          All-imp (λ (w : ℕ × ℕ). start + step ≤ w.0) (λ (w : ℕ × ℕ). (w.1 ≤ p) ⊎ (p < w.0))
            (λ (w : ℕ × ℕ) (h : start + step ≤ w.0). inr (omega arith)) _
            (windows-from (start + step) fuel _ (omega (arith, next_start-step start)))

  -- From `at` on the windows leave nothing out.
  abbrev pub Covers : ℕ → List (ℕ × ℕ) → Type 0
  Covers at [] = length text ≤ at
  Covers at (w ∷ ws) = (w.0 ≤ at) × Covers w.1 ws

  Covers-mono : {a b : ℕ} (ws : List (ℕ × ℕ)) → a ≤ b → Covers a ws → Covers b ws
  Covers-mono [] le h = omega arith
  Covers-mono (w ∷ ws) le h = (omega arith, h.1)

  -- The next window begins no later than this one ends, if the overlap makes up for an early end.
  next_start-le :
      (start : ℕ)
      → options.target_characters
        ≤ options.overlap_characters + options.target_characters * 6 / 10 + 1
      → window_end options text start < length text
      → next_start options text start (window_end options text start)
        ≤ window_end options text start
  unfolding next_start
  next_start-le start wide h = ground (arith, window_end_far start h)

  pub windows-Covers :
      (fuel start : ℕ)
      → options.overlap_characters < options.target_characters
      → options.target_characters
        ≤ options.overlap_characters + options.target_characters * 6 / 10 + 1
      → length text - start < fuel
      → Covers start (windows fuel start)
  unfolding windows
  windows-Covers zero start fits wide enough = omega arith
  windows-Covers (suc fuel) start fits wide enough =
      let next = next_start options text start (window_end options text start) in
      let ih = windows-Covers fuel next fits wide in
      ground (
        arith,
        ih,
        next_start-lt start fits,
        next_start-le start wide,
        Covers-mono {a = next} {b = window_end options text start} (windows fuel next),
      )

module _ (checksum : List ℕ → List ℕ) (options : ChunkerOptions) (text : List ℕ) where
  -- The chunks of a list of windows, numbered from `n`.
  unfoldable pub cut : ℕ → List (ℕ × ℕ) → List TextChunk
  cut n [] = []
  cut n (w ∷ ws) =
      let here = chunk_of checksum options text w.0 n (trim (slice text w.0 w.1)) in
      here ++ cut (n + length here) ws

  pub chunk_from-cut :
      (fuel start : ℕ) (chunks : List TextChunk) {result : List TextChunk}
      → chunk_from checksum options text fuel start chunks ≡ ok result
      → result ≡ chunks ++ cut (length chunks) (windows options text fuel start)
  unfolding chunk_from windows cut
  chunk_from-cut zero start chunks e = cc
  chunk_from-cut (suc fuel) start chunks {result} e =
      let end = window_end options text start in
      let here =
        chunk_of checksum options text start (length chunks) (trim (slice text start end)) in
      let ws = windows options text fuel (next_start options text start end) in
      ground (
        arith,
        chunk_from-cut fuel (next_start options text start end) (chunks ++ here) {result = result},
        append-nil chunks,
        append-nil here,
        length-append chunks here,
        append_assoc chunks here (cut (length chunks + length here) ws),
      )

  -- The loop ends before its fuel does.
  pub chunk_from-total :
      (fuel start : ℕ) (chunks : List TextChunk)
      → options.overlap_characters < options.target_characters
      → length text - start < fuel
      → chunk_from checksum options text fuel start chunks ≢ err out_of_fuel
  unfolding chunk_from
  chunk_from-total zero start chunks fits enough = absurd (omega arith)
  chunk_from-total (suc fuel) start chunks fits enough =
      let end = window_end options text start in
      ground (
        arith,
        next_start-lt options text start fits,
        chunk_from-total fuel (next_start options text start end)
            (chunks
              ++ chunk_of checksum options text start (length chunks) (trim (slice text start end)))
            fits,
      )
