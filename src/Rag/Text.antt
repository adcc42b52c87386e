-- ===== src/Rag/Text.antt =====
-- JavaScript strings as lists of UTF-16 code units, and what chunking.ts calls on them.
pub mod Laws
use capere_ai.Base.{
  ℕ, zero, suc, ◌+◌, ◌-◌, Bool, true, false, ◌&&◌, ◌||◌, not, Option, none, some, List, [], ◌∷◌,
  leb, ltb, ◌==◌, if◌then◌else◌, take, select,
}

abbrev pub drop {ℓ} : {A : Type ℓ} → ℕ → List A → List A
drop zero xs = xs
drop (suc n) [] = []
drop (suc n) (x ∷ xs) = drop n xs

-- `s.slice(from, to)` for 0 ≤ from ≤ to.
abbrev pub slice : List ℕ → ℕ → ℕ → List ℕ
slice s from to = take (to - from) (drop from s)

-- What `trim` removes: ECMAScript's white space and line terminators.
unfoldable pub is_space : ℕ → Bool
is_space c =
    leb 9 c && leb c 13
    || c == 32
    || c == 160
    || c == 0x1680
    || leb 0x2000 c && leb c 0x200a
    || c == 0x2028
    || c == 0x2029
    || c == 0x202f
    || c == 0x205f
    || c == 0x3000
    || c == 0xfeff

unfoldable pub trim_start : List ℕ → List ℕ
trim_start [] = []
trim_start (c ∷ s) = if is_space c then trim_start s else c ∷ s

abbrev cons_unless_blank : ℕ → List ℕ → List ℕ
cons_unless_blank c [] = if is_space c then [] else c ∷ []
cons_unless_blank c (d ∷ s) = c ∷ d ∷ s

unfoldable pub trim_end : List ℕ → List ℕ
trim_end [] = []
trim_end (c ∷ s) = cons_unless_blank c (trim_end s)

unfoldable pub trim : List ℕ → List ℕ
unfolding trim_start trim_end
trim s = trim_end (trim_start s)

abbrev pub starts_with : List ℕ → List ℕ → Bool
starts_with [] s = true
starts_with (c ∷ p) [] = false
starts_with (c ∷ p) (d ∷ s) = c == d && starts_with p s

-- `s.indexOf(p)` and, from a position on, `text.indexOf(p, from)`.
abbrev pub index_from : List ℕ → List ℕ → ℕ → Option ℕ
index_from p [] at = if starts_with p [] then some at else none
index_from p (c ∷ s) at = if starts_with p (c ∷ s) then some at else index_from p s (suc at)

abbrev pub index_of : List ℕ → List ℕ → ℕ → Option ℕ
index_of p text from = index_from p (drop from text) from

-- `text.lastIndexOf(c, upto) + 1`, so that 0 stands for -1.
abbrev pub last_index : ℕ → List ℕ → ℕ → ℕ
last_index c [] upto = 0
last_index c (d ∷ s) zero = if d == c then 1 else 0
last_index c (d ∷ s) (suc upto) =
    let later = last_index c s upto in if leb 1 later then suc later else if d == c then 1 else 0

-- The filter of `normalizeText`. It reads the first unit of each code point; a unit of a surrogate
-- pair is above 32, so the filter may as well read each unit.
abbrev is_kept : ℕ → Bool
is_kept c = c == 9 || c == 10 || c == 13 || leb 32 c

-- `/\r\n?/g` to "\n". The flag: the last unit was a carriage return.
abbrev crlf : Bool → List ℕ → List ℕ
crlf after_cr [] = []
crlf after_cr (c ∷ s) =
    let rest = crlf (c == 13) s in
    if c == 13 then 10 ∷ rest else if c == 10 && after_cr then rest else c ∷ rest

-- `/[ \t]+/g` to " ". The flag: the last unit was of the run.
abbrev squeeze : Bool → List ℕ → List ℕ
squeeze in_run [] = []
squeeze in_run (c ∷ s) =
    let blank = c == 32 || c == 9 in
    let rest = squeeze blank s in if blank then (if in_run then rest else 32 ∷ rest) else c ∷ rest

-- `/\n{3,}/g` to "\n\n". The number: how many newlines end what was read.
abbrev at_most_two : ℕ → List ℕ → List ℕ
at_most_two seen [] = []
at_most_two seen (c ∷ s) =
    let rest = at_most_two (if c == 10 then suc seen else 0) s in
    if c == 10 && leb 2 seen then rest else c ∷ rest

unfoldable pub normalize_text : List ℕ → List ℕ
unfolding trim
normalize_text input = trim (at_most_two 0 (squeeze false (crlf false (select is_kept input))))
