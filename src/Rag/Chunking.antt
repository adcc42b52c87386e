-- ===== src/Rag/Chunking.antt =====
-- backend/src/rag/chunking.ts: a text cut into overlapping chunks. SHA-256 is a parameter.
pub mod Windows
pub mod Spans
mod Tests
use capere_ai.Base.{
  ℕ, zero, suc, ◌+◌, ◌-◌, ◌*◌, ◌/◌, min, max, Bool, true, false, ◌&&◌, Option, none, some, List, [],
  ◌∷◌, ◌++◌, leb, ltb, if◌then◌else◌, length,
}
use capere_ai.Rag.Text.{slice, trim, index_of, last_index, normalize_text}

pub record TextChunk : Type 0 where
  pub sequence : ℕ
  pub content : List ℕ
  pub source_start : ℕ
  pub source_end : ℕ
  pub character_count : ℕ
  pub content_checksum : List ℕ

pub record ChunkerOptions : Type 0 where
  pub target_characters : ℕ
  pub overlap_characters : ℕ
  pub max_chunks : ℕ

pub data ChunkError : Type 0 where
  overlap_too_large : ChunkError
  too_many_chunks : ℕ → ChunkError
  out_of_fuel : ChunkError

pub data Result {ℓ} (A : Type ℓ) : Type ℓ where
  ok : A → Result A
  err : ChunkError → Result A

abbrev newline : ℕ
newline = 10

abbrev blank : ℕ
blank = 32

-- `candidate` where it lies beyond 60 % of the window, else the hard end. `Math.max` of the two
-- positions is one below the `max` here.
abbrev soft_end : ℕ → ℕ → ℕ → ℕ → ℕ
soft_end start target hard_end found =
    if ltb (start + target * 6 / 10 + 1) found then found - 1 else hard_end

module _ (options : ChunkerOptions) (text : List ℕ) where
  -- Where the window that begins at `start` ends.
  unfoldable pub window_end : ℕ → ℕ
  window_end start =
      let target = options.target_characters in
      let hard_end = min (start + target) (length text) in
      if ltb hard_end (length text)
      then soft_end start target hard_end
          (max (last_index newline text hard_end) (last_index blank text hard_end))
      else hard_end

  unfoldable pub next_start : ℕ → ℕ → ℕ
  next_start start end =
      max (start + (options.target_characters - options.overlap_characters))
        (end - options.overlap_characters)

abbrev pub found_at : Option ℕ → ℕ
found_at none = 0
found_at (some n) = n

module _ (checksum : List ℕ → List ℕ) (options : ChunkerOptions) (text : List ℕ) where
  -- `indexOf` cannot fail here, so that its -1 is left out.
  unfoldable pub chunk_at : ℕ → ℕ → List ℕ → TextChunk
  chunk_at start sequence content =
      let content_start = found_at (index_of content text start) in
      record {
        sequence = sequence;
        content = content;
        source_start = content_start;
        source_end = content_start + length content;
        character_count = length content;
        content_checksum = checksum content;
      }

  -- The chunk of a window, none where it holds white space alone.
  unfoldable pub chunk_of : ℕ → ℕ → List ℕ → List TextChunk
  chunk_of start sequence [] = []
  chunk_of start sequence (c ∷ s) = chunk_at start sequence (c ∷ s) ∷ []

  -- The loop. `sequence` is the number of chunks so far.
  unfoldable pub chunk_from : ℕ → ℕ → List TextChunk → Result (List TextChunk)
  unfolding window_end next_start chunk_of
  chunk_from zero start chunks = err out_of_fuel
  chunk_from (suc fuel) start chunks =
      let end = window_end options text start in
      let more = chunks ++ chunk_of start (length chunks) (trim (slice text start end)) in
      let rest = chunk_from fuel (next_start options text start end) more in
      if ltb start (length text)
      then if leb options.max_chunks (length chunks)
        then err (too_many_chunks options.max_chunks)
        else if leb (length text) end
        then ok more
        else rest
      else ok chunks

unfoldable pub chunk_text : (List ℕ → List ℕ) → List ℕ → ChunkerOptions → Result (List TextChunk)
unfolding chunk_from
chunk_text checksum input options =
    if leb options.target_characters options.overlap_characters
    then err overlap_too_large
    else let text = normalize_text input in
      chunk_from checksum options text (suc (length text)) 0 []
