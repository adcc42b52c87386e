-- ===== src/Rag/Text/Laws.antt =====
-- Trimming takes a piece of a text, and `indexOf` finds where the piece stands.
use capere_ai.Base.{
  ℕ, zero, suc, ◌+◌, ◌-◌, ◌≤◌, ◌≡◌, refl, sym, ◌∙◌, true, some, List, [], ◌∷◌, arith, length, take,
  is_some, inl, inr, Bool-cases, Option-cases, length-take-le,
}
use native.Mathlib.Nat.{zero-add, suc-add}
use capere_ai.Rag.Text.{
  drop, slice, trim_start, trim_end, trim, cons_unless_blank, starts_with, index_from, index_of,
}

length-cons_unless_blank : (c : ℕ) (s : List ℕ) → length (cons_unless_blank c s) ≤ suc (length s)
length-cons_unless_blank c [] = ground arith
length-cons_unless_blank c (d ∷ s) = omega arith

length-trim_end : (s : List ℕ) → length (trim_end s) ≤ length s
unfolding trim_end
length-trim_end [] = omega arith
length-trim_end (c ∷ s) = omega (arith, length-trim_end s, length-cons_unless_blank c (trim_end s))

length-trim_start : (s : List ℕ) → length (trim_start s) ≤ length s
unfolding trim_start
length-trim_start [] = omega arith
length-trim_start (c ∷ s) = ground (arith, length-trim_start s)

pub length-trim : (s : List ℕ) → length (trim s) ≤ length s
unfolding trim
length-trim s = omega (arith, length-trim_end (trim_start s), length-trim_start s)

starts_with-cons_unless_blank :
    (c : ℕ) (p s : List ℕ)
    → starts_with p s ≡ true
    → starts_with (cons_unless_blank c p) (c ∷ s) ≡ true
starts_with-cons_unless_blank c [] s h = ground arith
starts_with-cons_unless_blank c (d ∷ p) s h = ground arith

starts_with-trim_end : (n : ℕ) (s : List ℕ) → starts_with (trim_end (take n s)) s ≡ true
unfolding trim_end
starts_with-trim_end zero s = refl
starts_with-trim_end (suc n) [] = refl
starts_with-trim_end (suc n) (c ∷ s) =
    starts_with-cons_unless_blank c (trim_end (take n s)) s (starts_with-trim_end n s)

-- The trimmed beginning of a text stands somewhere in it.
index_from-trim : (n : ℕ) (s : List ℕ) (at : ℕ) → is_some (index_from (trim (take n s)) s at) ≡ true
unfolding trim trim_start trim_end
index_from-trim zero [] at = refl
index_from-trim zero (c ∷ s) at = refl
index_from-trim (suc n) [] at = refl
index_from-trim (suc n) (c ∷ s) at =
    ground (arith, index_from-trim n s (suc at), starts_with-trim_end (suc n) (c ∷ s))

-- It is found within the piece that was trimmed.
index_from-trim_within :
    (n : ℕ) (s : List ℕ) (at i : ℕ)
    → index_from (trim (take n s)) s at ≡ some i
    → (at ≤ i) × (i + length (trim (take n s)) ≤ at + n)
unfolding trim trim_start trim_end
index_from-trim_within zero [] at i e = ground arith
index_from-trim_within zero (c ∷ s) at i e = ground arith
index_from-trim_within (suc n) [] at i e = ground arith
index_from-trim_within (suc n) (c ∷ s) at i e = ground (
  arith,
  index_from-trim_within n s (suc at) i,
  starts_with-trim_end (suc n) (c ∷ s),
  length-trim_end (trim_start (take n s)),
  length-trim_start (take n s),
  length-trim_end (c ∷ take n s),
  length-take-le n s,
)

index_from-found :
    (p s : List ℕ) (at i : ℕ)
    → index_from p s at ≡ some i
    → (k : ℕ) × (i ≡ at + k) × (starts_with p (drop k s) ≡ true)
index_from-found p [] at i e = (0, ground arith, ground arith)
index_from-found p (c ∷ s) at i e = elim (Bool-cases (starts_with p (c ∷ s))) [
  | inl here ↦ (0, ground arith, here)
  | inr later ↦
      let (k, same, h) = index_from-found p s (suc at) i (ground arith) in (suc k, omega arith, h)
]

take-starts_with : (p s : List ℕ) → starts_with p s ≡ true → take (length p) s ≡ p
take-starts_with [] s h = refl
take-starts_with (c ∷ p) [] h = cc
take-starts_with (c ∷ p) (d ∷ s) h = ground (arith, take-starts_with p s)

drop-nil {ℓ} : {A : Type ℓ} (b : ℕ) → drop {A = A} b [] ≡ []
drop-nil zero = refl
drop-nil (suc b) = refl

drop-drop : (a b : ℕ) (s : List ℕ) → drop b (drop a s) ≡ drop (a + b) s
drop-drop zero b s = rw zero-add
drop-drop (suc a) b [] = drop-nil b ∙ sym (drop-nil (suc a + b))
drop-drop (suc a) b (c ∷ s) = rw suc-add (drop-drop a b s)

-- What `indexOf` finds stands there.
pub slice-index_of :
    (p text : List ℕ) (from i : ℕ) → index_of p text from ≡ some i → slice text i (i + length p) ≡ p
slice-index_of p text from i e =
    let (k, same, h) = index_from-found p (drop from text) from i e in
    let here : starts_with p (drop i text) ≡ true = rw (same, ← drop-drop from k text) h in
    let width : i + length p - i ≡ length p = omega arith in
    rw width (take-starts_with p (drop i text) here)

-- The trimmed text of a window is found from the window's start on.
pub index_of-trim :
    (text : List ℕ) (from to : ℕ)
    → (i : ℕ) × (index_of (trim (slice text from to)) text from ≡ some i)
index_of-trim text from to =
    let h = index_from-trim (to - from) (drop from text) from in
    elim (Option-cases (index_of (trim (slice text from to)) text from)) [
      | inl e ↦ absurd (ground arith)
      | inr found ↦ found
    ]

pub index_of-trim_within :
    (text : List ℕ) (from to i : ℕ)
    → from ≤ to
    → index_of (trim (slice text from to)) text from ≡ some i
    → (from ≤ i) × (i + length (trim (slice text from to)) ≤ to)
index_of-trim_within text from to i le e =
    let (lo, hi) = index_from-trim_within (to - from) (drop from text) from i e in (lo, omega arith)

pub length-slice-le : (s : List ℕ) (from to : ℕ) → length (slice s from to) ≤ to - from
length-slice-le s from to = length-take-le (to - from) (drop from s)
