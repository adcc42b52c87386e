-- ===== src/Rag/Chunking/Tests.antt =====
-- Runs of the chunker, one of which loses text.
use capere_ai.Base.{
  ℕ, zero, suc, ◌-◌, ◌≤◌, ◌<◌, ◌≡◌, ◌≢◌, ◌⊎◌, refl, List, [], ◌∷◌, ◌++◌, arith, All,
}
use capere_ai.Rag.Text.{is_space, trim, trim_start, trim_end, normalize_text}
use capere_ai.Rag.Chunking.{
  TextChunk, ChunkerOptions, ok, err, out_of_fuel, window_end, next_start, chunk_at, chunk_of,
  chunk_from, chunk_text,
}
use capere_ai.Rag.Chunking.Windows.{Covers, cut}
use capere_ai.Rag.Chunking.Spans.{
  IsPiece, Numbered, chunk_text-total, chunk_text-IsPiece, chunk_text-Covers, chunk_text_gap,
}

abbrev repeat : ℕ → ℕ → List ℕ
repeat zero c = []
repeat (suc n) c = c ∷ repeat n c

-- Thirteen letters, a space, and a word of twenty.
abbrev input : List ℕ
input = repeat 13 97 ++ 32 ∷ repeat 20 98

abbrev narrow : ChunkerOptions
narrow = record { target_characters = 20; overlap_characters = 2; max_chunks = 10 }

abbrev wide : ChunkerOptions
wide = record { target_characters = 20; overlap_characters = 8; max_chunks = 10 }

abbrev piece : ℕ → List ℕ → ℕ → ℕ → TextChunk
piece n content start end = record {
  sequence = n;
  content = content;
  source_start = start;
  source_end = end;
  character_count = end - start;
  content_checksum = [];
}

abbrev no_sum : List ℕ → List ℕ
no_sum s = []

chunker : Unit {0}
unfolding chunk_text chunk_from chunk_of chunk_at window_end next_start normalize_text trim
    trim_start trim_end is_space
chunker = tt

abbrev narrow_chunks : List TextChunk
narrow_chunks = piece 0 (repeat 13 97) 0 13 ∷ piece 1 (repeat 16 98) 18 34 ∷ []

-- Four letters of the second word are in no chunk.
narrow_test : chunk_text no_sum input narrow ≡ ok narrow_chunks
unfolding chunker
narrow_test = refl

abbrev wide_chunks : List TextChunk
wide_chunks =
    piece 0 (repeat 13 97) 0 13
    ∷ piece 1 (97 ∷ 32 ∷ repeat 18 98) 12 32
    ∷ piece 2 (repeat 10 98) 24 34
    ∷ []

wide_test : chunk_text no_sum input wide ≡ ok wide_chunks
unfolding chunker
wide_test = refl

chunk_text-total_example : chunk_text no_sum input narrow ≢ err out_of_fuel
chunk_text-total_example = chunk_text-total no_sum input narrow

chunk_text-IsPiece_example :
    All (IsPiece (normalize_text input) 20) wide_chunks × Numbered 0 wide_chunks
chunk_text-IsPiece_example = chunk_text-IsPiece no_sum input wide wide_test

chunk_text-Covers_example :
    (ws : List (ℕ × ℕ)) × Covers wide (normalize_text input) 0 ws
    × (wide_chunks ≡ cut no_sum wide (normalize_text input) 0 ws)
chunk_text-Covers_example = chunk_text-Covers no_sum input wide (omega arith) wide_test

first_window : window_end narrow (normalize_text input) 0 ≤ 14
unfolding chunker
first_window = omega arith

chunk_text_gap_example : All (λ c. (c.source_end ≤ 14) ⊎ (14 < c.source_start)) narrow_chunks
chunk_text_gap_example =
    chunk_text_gap no_sum input narrow 14 first_window (omega arith) narrow_test
