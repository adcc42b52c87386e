-- ===== src/Base/Reversed.antt =====
-- The latest rows: `order by key desc limit n` over rows that stand in ascending order.
use Prim.Native.Nat.{ℕ, zero, suc, ◌≤◌, ◌<◌}
use mathlib.Core.Path.{◌≡◌, refl, ap, ◌∙◌}
use mathlib.Core.Logic.{inl, inr}
use mathlib.Core.Bool.{Bool, true, false, ◌&&◌}
use mathlib.Core.List.{List, [], ◌∷◌, ◌++◌}
use native.Mathlib.Omega.{arith}
use capere_ai.Base.Tests.{leb, lt_cases, Bool-cases, if◌then◌else◌}
use capere_ai.Base.Lists.{take, length, length-append, All, All-append}
use capere_ai.Base.Table.{insert_desc, order_by_desc, select, All-select}

module _ {ℓ} {A : Type ℓ} where
  abbrev pub rev : List A → List A
  rev [] = []
  rev (x ∷ xs) = rev xs ++ x ∷ []

  -- The last n elements.
  abbrev pub last : ℕ → List A → List A
  last n [] = []
  last n (x ∷ xs) = if leb (suc (length xs)) n then x ∷ xs else last n xs

  length-rev : (xs : List A) → length (rev xs) ≡ length xs
  length-rev [] = refl
  length-rev (x ∷ xs) = length-append (rev xs) (x ∷ []) ∙ omega (arith, length-rev xs)

  rev-append : (xs : List A) (x : A) → rev (xs ++ x ∷ []) ≡ x ∷ rev xs
  rev-append [] x = refl
  rev-append (y ∷ ys) x = ap (λ z. z ++ y ∷ []) (rev-append ys x)

  rev-rev : (xs : List A) → rev (rev xs) ≡ xs
  rev-rev [] = refl
  rev-rev (x ∷ xs) = rev-append (rev xs) x ∙ ap (λ z. x ∷ z) (rev-rev xs)

  take-short : (n : ℕ) (xs : List A) (x : A) → n ≤ length xs → take n (xs ++ x ∷ []) ≡ take n xs
  take-short zero xs x h = refl
  take-short (suc n) [] x h = absurd (omega (arith, h))
  take-short (suc n) (y ∷ ys) x h = ap (λ z. y ∷ z) (take-short n ys x (omega (arith, h)))

  take-long : (n : ℕ) (xs : List A) → length xs ≤ n → take n xs ≡ xs
  take-long zero [] h = refl
  take-long zero (y ∷ ys) h = absurd (omega (arith, h))
  take-long (suc n) [] h = refl
  take-long (suc n) (y ∷ ys) h = ap (λ z. y ∷ z) (take-long n ys (omega (arith, h)))

  -- The first n of the reversed list, reversed again, are the last n.
  pub rev-take : (n : ℕ) (xs : List A) → rev (take n (rev xs)) ≡ last n xs
  rev-take zero [] = refl
  rev-take (suc n) [] = refl
  rev-take n (x ∷ xs) = elim (lt_cases (length xs) n) [
    | inl long ↦
        let e : leb (suc (length xs)) n ≡ true = ground arith in
        rw e (
          ap rev (take-long n (rev (x ∷ xs)) (omega (arith, length-rev (x ∷ xs))))
          ∙ rev-rev (x ∷ xs))
    | inr short ↦
        let e : leb (suc (length xs)) n ≡ false = ground arith in
        rw e (ap rev (take-short n (rev xs) x (omega (arith, length-rev xs))) ∙ rev-take n xs)
  ]

module _ {ℓ} {A : Type ℓ} (key : A → ℕ) where
  -- Every key is below those of the rows after it.
  abbrev pub IsAscending : List A → Type ℓ
  IsAscending [] = Unit
  IsAscending (x ∷ xs) = All (λ y. key x < key y) xs × IsAscending xs

  insert_desc-least :
      (x : A) (ys : List A) → All (λ y. key x < key y) ys → insert_desc key x ys ≡ ys ++ x ∷ []
  insert_desc-least x [] h = refl
  insert_desc-least x (y ∷ ys) (lt, h) =
      let e : leb (key y) (key x) ≡ false = ground arith in
      rw e (ap (λ z. y ∷ z) (insert_desc-least x ys h))

  All-rev : (k : ℕ) (xs : List A) → All (λ y. k < key y) xs → All (λ y. k < key y) (rev xs)
  All-rev k [] h = tt
  All-rev k (x ∷ xs) (p, h) = All-append (λ y. k < key y) (rev xs) (x ∷ []) (All-rev k xs h) (p, tt)

  pub order_by_desc-rev : (xs : List A) → IsAscending xs → order_by_desc key xs ≡ rev xs
  order_by_desc-rev [] h = refl
  order_by_desc-rev (x ∷ xs) (least, h) =
      ap (insert_desc key x) (order_by_desc-rev xs h)
      ∙ insert_desc-least x (rev xs) (All-rev (key x) xs least)

  pub select-IsAscending : (p : A → Bool) (xs : List A) → IsAscending xs → IsAscending (select p xs)
  select-IsAscending p [] h = tt
  select-IsAscending p (x ∷ xs) (least, h) = elim (Bool-cases (p x)) [
    | inl y ↦ rw y (
      All-select (λ z. key x < key z) (λ z. key x < key z) p (λ z q e. q) xs least,
      select-IsAscending p xs h,
    )
    | inr n ↦ rw n (select-IsAscending p xs h)
  ]

module _ {ℓ} {A : Type ℓ} where
  pub last-append :
      (n : ℕ) (xs : List A) (a : A) → last (suc n) (xs ++ a ∷ []) ≡ last n xs ++ a ∷ []
  last-append n [] a = ground arith
  last-append n (x ∷ xs) a = elim (lt_cases (length xs) n) [
    | inl long ↦
        let e : leb (suc (length xs)) n ≡ true = ground arith in
        let f : leb (suc (length (xs ++ a ∷ []))) (suc n) ≡ true =
          ground (arith, length-append xs (a ∷ [])) in
        rw (e, f) refl
    | inr short ↦
        let e : leb (suc (length xs)) n ≡ false = ground arith in
        let f : leb (suc (length (xs ++ a ∷ []))) (suc n) ≡ false =
          ground (arith, length-append xs (a ∷ [])) in
        rw (e, f) (last-append n xs a)
  ]

  pub select-select :
      (p q : A → Bool) (xs : List A) → select (λ a. q a && p a) xs ≡ select q (select p xs)
  select-select p q [] = refl
  select-select p q (x ∷ xs) = ground (arith, select-select p q xs)

  pub select-append :
      (p : A → Bool) (xs : List A) (a : A)
      → select p (xs ++ a ∷ []) ≡ select p xs ++ (if p a then a ∷ [] else [])
  select-append p [] a = ground arith
  select-append p (x ∷ xs) a = ground (arith, select-append p xs a)
