-- ===== src/Base/Keys.antt =====
-- Tables whose rows have a key: which keys a query keeps, and distinct keys.
use Prim.Native.Nat.{ℕ, zero, suc}
use mathlib.Core.Path.{◌≡◌, refl, ◌∙◌, sym}
use mathlib.Core.Logic.{◌≢◌, inl, inr}
use mathlib.Core.Bool.{Bool, true, false, ◌||◌}
use mathlib.Core.List.{List, [], ◌∷◌, ◌++◌, map}
use native.Mathlib.Omega.{arith}
use capere_ai.Base.Tests.{leb, ◌==◌, Bool-cases}
use capere_ai.Base.Lists.{take, elem, All, All-imp, All-zip}
use capere_ai.Base.Table.{select, update, insert_by, order_by}

abbrev pub Distinct : List ℕ → Type 0
Distinct [] = Unit
Distinct (i ∷ is) = (elem i is ≡ false) × Distinct is

module _ {ℓ} {A : Type ℓ} (key : A → ℕ) where
  pub All-ne : (i : ℕ) (xs : List A) → elem i (map key xs) ≡ false → All (λ a. key a ≢ i) xs
  All-ne i [] h = tt
  All-ne i (x ∷ xs) h = (ground arith, All-ne i xs (ground arith))

  pub elem-of_ne : (i : ℕ) (xs : List A) → All (λ a. key a ≢ i) xs → elem i (map key xs) ≡ false
  elem-of_ne i [] h = refl
  elem-of_ne i (x ∷ xs) (ne, h) = ground (arith, elem-of_ne i xs h)

  pub elem-select :
      (i : ℕ) (p : A → Bool) (xs : List A)
      → elem i (map key xs) ≡ false
      → elem i (map key (select p xs)) ≡ false
  elem-select i p [] h = refl
  elem-select i p (x ∷ xs) h = ground (arith, elem-select i p xs)

  elem-insert_by :
      (i : ℕ) (by : A → ℕ) (x : A) (ys : List A)
      → elem i (map key (insert_by by x ys)) ≡ elem i (map key (x ∷ ys))
  elem-insert_by i by x [] = refl
  elem-insert_by i by x (y ∷ ys) = ground (arith, elem-insert_by i by x ys)

  pub elem-order_by :
      (i : ℕ) (by : A → ℕ) (xs : List A) → elem i (map key (order_by by xs)) ≡ elem i (map key xs)
  elem-order_by i by [] = refl
  elem-order_by i by (x ∷ xs) =
      ground (arith, elem-insert_by i by x (order_by by xs), elem-order_by i by xs)

  pub elem-take :
      (i n : ℕ) (xs : List A) → elem i (map key xs) ≡ false → elem i (map key (take n xs)) ≡ false
  elem-take i zero xs h = refl
  elem-take i (suc n) [] h = refl
  elem-take i (suc n) (x ∷ xs) h = ground (arith, elem-take i n xs)

  pub Distinct-select :
      (p : A → Bool) (xs : List A) → Distinct (map key xs) → Distinct (map key (select p xs))
  Distinct-select p [] d = tt
  Distinct-select p (x ∷ xs) (new, d) = elim (Bool-cases (p x)) [
    | inl e ↦ rw e (elem-select (key x) p xs new, Distinct-select p xs d)
    | inr e ↦ rw e (Distinct-select p xs d)
  ]

  Distinct-insert_by :
      (by : A → ℕ) (x : A) (ys : List A)
      → elem (key x) (map key ys) ≡ false
      → Distinct (map key ys)
      → Distinct (map key (insert_by by x ys))
  Distinct-insert_by by x [] new d = (refl, tt)
  Distinct-insert_by by x (y ∷ ys) new (old, d) = elim (Bool-cases (leb (by x) (by y))) [
    | inl e ↦ rw e (new, (old, d))
    | inr e ↦ rw e (
      ground (arith, elem-insert_by (key y) by x ys),
      Distinct-insert_by by x ys (ground arith) d,
    )
  ]

  pub Distinct-order_by :
      (by : A → ℕ) (xs : List A) → Distinct (map key xs) → Distinct (map key (order_by by xs))
  Distinct-order_by by [] d = tt
  Distinct-order_by by (x ∷ xs) (new, d) =
      Distinct-insert_by by x (order_by by xs) (elem-order_by (key x) by xs ∙ new)
        (Distinct-order_by by xs d)

  pub Distinct-take : (n : ℕ) (xs : List A) → Distinct (map key xs) → Distinct (map key (take n xs))
  Distinct-take zero xs d = tt
  Distinct-take (suc n) [] d = tt
  Distinct-take (suc n) (x ∷ xs) (new, d) = (elem-take (key x) n xs new, Distinct-take n xs d)

  unselected :
      (p : A → Bool) (x : A) (xs : List A)
      → elem (key x) (map key (select p xs)) ≡ false
      → elem (key x) (map key (select p (x ∷ xs))) ≡ true
      → p x ≡ true
  unselected p x xs gone h = ground arith

  further_on :
      (p : A → Bool) (x : A) (xs : List A) (a : A)
      → (key a ≢ key x) × (elem (key a) (map key (select p xs)) ≡ true → p a ≡ true)
      → elem (key a) (map key (select p (x ∷ xs))) ≡ true
      → p a ≡ true
  further_on p x xs a (ne, f) h = f (ground arith)

  -- With distinct keys, only selected rows have a selected key.
  pub select_reflects :
      (p : A → Bool) (xs : List A)
      → Distinct (map key xs)
      → All (λ a. elem (key a) (map key (select p xs)) ≡ true → p a ≡ true) xs
  select_reflects p [] d = tt
  select_reflects p (x ∷ xs) (new, d) = (
    unselected p x xs (elem-select (key x) p xs new),
    All-imp (λ a. (key a ≢ key x) × (elem (key a) (map key (select p xs)) ≡ true → p a ≡ true))
        (λ a. elem (key a) (map key (select p (x ∷ xs))) ≡ true → p a ≡ true) (further_on p x xs) xs
        (All-zip _ _ xs (All-ne (key x) xs new) (select_reflects p xs d)),
  )

  -- An update that keeps the keys keeps them distinct.
  pub map-update :
      (p : A → Bool) (f : A → A)
      → ((a : A) → key (f a) ≡ key a)
      → (xs : List A) → map key (update p f xs) ≡ map key xs
  map-update p f same [] = refl
  map-update p f same (x ∷ xs) = ground (arith, same x, map-update p f same xs)

  pub elem-concat :
      (i : ℕ) (xs : List A) (a : A)
      → elem i (map key (xs ++ a ∷ [])) ≡ elem i (map key xs) || i == key a
  elem-concat i [] a = ground arith
  elem-concat i (x ∷ xs) a = ground (arith, elem-concat i xs a)

  pub Distinct-concat :
      (xs : List A) (a : A)
      → elem (key a) (map key xs) ≡ false
      → Distinct (map key xs)
      → Distinct (map key (xs ++ a ∷ []))
  Distinct-concat [] a new d = (refl, tt)
  Distinct-concat (x ∷ xs) a new (old, d) =
      (ground (arith, elem-concat (key x) xs a), Distinct-concat xs a (ground arith) d)

  absent :
      (x : A) (xs : List A)
      → elem (key x) (map key xs) ≡ false
      → All (λ b. key x ≡ key b → x ≡ b) xs
  absent x xs new =
      All-imp (λ b. key b ≢ key x) (λ b. key x ≡ key b → x ≡ b) (λ b ne e. absurd (ne (sym e))) xs
        (All-ne (key x) xs new)

  -- With distinct keys, rows of one key are one row.
  pub Distinct-unique :
      (xs : List A) → Distinct (map key xs) → All (λ a. All (λ b. key a ≡ key b → a ≡ b) xs) xs
  Distinct-unique [] d = tt
  Distinct-unique (x ∷ xs) (new, d) = (
    ((λ _. refl), absent x xs new),
    All-imp (λ a. (key a ≢ key x) × All (λ b. key a ≡ key b → a ≡ b) xs)
        (λ a. All (λ b. key a ≡ key b → a ≡ b) (x ∷ xs)) (λ a h. ((λ e. absurd (h.0 e)), h.1)) xs
        (All-zip _ _ xs (All-ne (key x) xs new) (Distinct-unique xs d)),
  )
