-- ===== src/Base/Sorted.antt =====
-- What `order by … limit …` returns: the least keys first, and nothing smaller left out.
use Prim.Native.Nat.{ℕ, zero, suc, ◌≤◌}
use mathlib.Core.Path.{◌≡◌, refl, ap}
use mathlib.Core.Logic.{◌⊎◌, inl, inr}
use mathlib.Core.Bool.{true}
use mathlib.Core.List.{List, [], ◌∷◌, map}
use native.Mathlib.Omega.{arith}
use capere_ai.Base.Tests.{leb, Bool-cases}
use capere_ai.Base.Lists.{take, elem, length, All, All-imp, All-of, All-zip}
use capere_ai.Base.Table.{insert_by, order_by, All-insert_by}

module _ {ℓ} {A : Type ℓ} (by : A → ℕ) where
  abbrev pub IsSorted : List A → Type 0
  IsSorted [] = Unit
  IsSorted (x ∷ xs) = All (λ y. by x ≤ by y) xs × IsSorted xs

  insert_by-IsSorted : (x : A) (ys : List A) → IsSorted ys → IsSorted (insert_by by x ys)
  insert_by-IsSorted x [] s = (tt, tt)
  insert_by-IsSorted x (y ∷ ys) (least, s) = elim (Bool-cases (leb (by x) (by y))) [
    | inl e ↦ rw e (
      (ground arith, All-imp (λ z. by y ≤ by z) (λ z. by x ≤ by z) (λ z h. ground arith) ys least),
      (least, s),
    )
    | inr e ↦
        rw e
          (All-insert_by (λ z. by y ≤ by z) by x ys (ground arith) least, insert_by-IsSorted x ys s)
  ]

  pub order_by-IsSorted : (xs : List A) → IsSorted (order_by by xs)
  order_by-IsSorted [] = tt
  order_by-IsSorted (x ∷ xs) = insert_by-IsSorted x (order_by by xs) (order_by-IsSorted xs)

module _ {ℓ κ} {A : Type ℓ} (P : A → Type κ) (by : A → ℕ) where
  All-insert_by_inv : (x : A) (ys : List A) → All P (insert_by by x ys) → P x × All P ys
  All-insert_by_inv x [] h = h
  All-insert_by_inv x (y ∷ ys) h = elim (Bool-cases (leb (by x) (by y))) [
    | inl e ↦ rw e at h
    | inr e ↦
        let h' : P y × All P (insert_by by x ys) = rw e at h in
        let (p, q) = All-insert_by_inv x ys h'.1 in (p, (h'.0, q))
  ]

  pub All-order_by_inv : (xs : List A) → All P (order_by by xs) → All P xs
  All-order_by_inv [] h = tt
  All-order_by_inv (x ∷ xs) h =
      let (p, q) = All-insert_by_inv x (order_by by xs) h in (p, All-order_by_inv xs q)

module _ {ℓ} {A : Type ℓ} (key by : A → ℕ) where
  -- A row is in the page, or the page is full of rows that are no later.
  abbrev pub IsServed : ℕ → List A → A → Type 0
  IsServed n page a =
      (elem (key a) (map key page) ≡ true) ⊎ ((length page ≡ n) × All (λ b. by b ≤ by a) page)

  pub take-IsServed : (n : ℕ) (xs : List A) → IsSorted by xs → All (IsServed n (take n xs)) xs
  take-IsServed zero xs s = All-of (IsServed 0 []) (λ a. inr (refl, tt)) xs
  take-IsServed (suc n) [] s = tt
  take-IsServed (suc n) (x ∷ xs) (least, s) = (
    inl (ground arith),
    All-imp (λ a. (by x ≤ by a) × IsServed n (take n xs) a) (IsServed (suc n) (x ∷ take n xs))
        (λ a h. widen n x (take n xs) a h.0 h.1) xs (All-zip _ _ xs least (take-IsServed n xs s)),
  )
    where
      widen :
          (n : ℕ) (x : A) (page : List A) (a : A)
          → by x ≤ by a
          → IsServed n page a
          → IsServed (suc n) (x ∷ page) a
      widen n x page a le (inl e) = inl (ground arith)
      widen n x page a le (inr (full, h)) = inr (ap suc full, (le, h))

  -- Of the rows of a query, each one is in the page, or the page is full of rows no later.
  pub order_by-IsServed : (n : ℕ) (xs : List A) → All (IsServed n (take n (order_by by xs))) xs
  order_by-IsServed n xs =
      All-order_by_inv (IsServed n (take n (order_by by xs))) by xs
        (take-IsServed n (order_by by xs) (order_by-IsSorted by xs))
