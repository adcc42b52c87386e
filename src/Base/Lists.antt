-- ===== src/Base/Lists.antt =====
-- Lists measured by native numbers, predicates over their elements, and Boolean searches.
use Prim.Native.Nat.{ℕ, zero, suc, ◌+◌, ◌≤◌}
use mathlib.Core.Path.{◌≡◌, refl, ap, subst}
use mathlib.Core.Logic.{inl, inr}
use mathlib.Core.Bool.{Bool, true, false, ◌||◌, ◌&&◌}
use mathlib.Core.Option.{Option, none, some}
use mathlib.Core.List.{List, [], ◌∷◌, ◌++◌, map}
use native.Mathlib.Omega.{arith}
use capere_ai.Base.Tests.{if◌then◌else◌, ◌==◌, Bool-cases, some_same}

module _ {ℓ} {A : Type ℓ} where
  abbrev pub length : List A → ℕ
  length [] = 0
  length (x ∷ xs) = suc (length xs)

  abbrev pub take : ℕ → List A → List A
  take zero xs = []
  take (suc n) [] = []
  take (suc n) (x ∷ xs) = x ∷ take n xs

  abbrev pub find : (A → Bool) → List A → Option A
  find p [] = none
  find p (x ∷ xs) = if p x then some x else find p xs

  abbrev pub any : (A → Bool) → List A → Bool
  any p [] = false
  any p (x ∷ xs) = p x || any p xs

  abbrev pub every : (A → Bool) → List A → Bool
  every p [] = true
  every p (x ∷ xs) = p x && every p xs

  pub length-append : (xs ys : List A) → length (xs ++ ys) ≡ length xs + length ys
  length-append [] ys = omega arith
  length-append (x ∷ xs) ys = omega (arith, length-append xs ys)

  pub length-take-le : (n : ℕ) (xs : List A) → length (take n xs) ≤ n
  length-take-le zero xs = omega arith
  length-take-le (suc n) [] = omega arith
  length-take-le (suc n) (x ∷ xs) = omega (arith, length-take-le n xs)

pub length-map {ℓ κ} :
    {A : Type ℓ} {B : Type κ} (f : A → B) (xs : List A) → length (map f xs) ≡ length xs
length-map f [] = refl
length-map f (x ∷ xs) = ap suc (length-map f xs)

-- The identifiers of a list of rows, as SQL's `in` reads them.
abbrev pub elem : ℕ → List ℕ → Bool
elem a [] = false
elem a (x ∷ xs) = a == x || elem a xs

module _ {ℓ κ} {A : Type ℓ} where
  abbrev pub All : (A → Type κ) → List A → Type κ
  All P [] = Unit
  All P (x ∷ xs) = P x × All P xs

module _ {ℓ κ μ} {A : Type ℓ} (P : A → Type κ) (Q : A → Type μ) where
  pub All-imp : ((a : A) → P a → Q a) → (xs : List A) → All P xs → All Q xs
  All-imp f [] h = tt
  All-imp f (x ∷ xs) (p, h) = (f x p, All-imp f xs h)

  pub All-zip : (xs : List A) → All P xs → All Q xs → All (λ a. P a × Q a) xs
  All-zip [] h k = tt
  All-zip (x ∷ xs) (p, h) (q, k) = ((p, q), All-zip xs h k)

module _ {ℓ κ} {A : Type ℓ} (P : A → Type κ) where
  pub All-of : ((a : A) → P a) → (xs : List A) → All P xs
  All-of f [] = tt
  All-of f (x ∷ xs) = (f x, All-of f xs)

  pub All-append : (xs ys : List A) → All P xs → All P ys → All P (xs ++ ys)
  All-append [] ys h k = k
  All-append (x ∷ xs) ys (p, h) k = (p, All-append xs ys h k)

  pub All-take : (n : ℕ) (xs : List A) → All P xs → All P (take n xs)
  All-take zero xs h = tt
  All-take (suc n) [] h = tt
  All-take (suc n) (x ∷ xs) (p, h) = (p, All-take n xs h)

module _ {ℓ κ μ} {A : Type ℓ} {B : Type κ} (P : B → Type μ) (f : A → B) where
  pub All-map : (xs : List A) → All (λ a. P (f a)) xs → All P (map f xs)
  All-map [] h = tt
  All-map (x ∷ xs) (p, h) = (p, All-map xs h)

-- Each row's key is among the keys of the table.
pub All-elem {ℓ} :
    {A : Type ℓ} (key : A → ℕ) (xs : List A) → All (λ a. elem (key a) (map key xs) ≡ true) xs
All-elem key [] = tt
All-elem key (x ∷ xs) = (
  ground arith,
  All-imp (λ a. elem (key a) (map key xs) ≡ true) (λ a. elem (key a) (map key (x ∷ xs)) ≡ true)
      (λ a h. ground arith) xs (All-elem key xs),
)

module _ {ℓ} {A : Type ℓ} (p : A → Bool) where
  pub find-holds : (xs : List A) (a : A) → find p xs ≡ some a → p a ≡ true
  find-holds [] a h = absurd cc
  find-holds (x ∷ xs) a h = elim (Bool-cases (p x)) [
    | inl y ↦ subst (λ z. p z ≡ true) (some_same x a (rw y at h)) y
    | inr n ↦ find-holds xs a (rw n at h)
  ]

  pub any-find : (xs : List A) (a : A) → find p xs ≡ some a → any p xs ≡ true
  any-find [] a h = absurd cc
  any-find (x ∷ xs) a h = elim (Bool-cases (p x)) [
    | inl y ↦ ground arith
    | inr n ↦ ground (arith, any-find xs a (rw n at h))
  ]

  pub any-append : (xs : List A) (a : A) → any p (xs ++ a ∷ []) ≡ any p xs || p a
  any-append [] a = ground arith
  any-append (x ∷ xs) a = ground (arith, any-append xs a)

  pub All-not_any : (xs : List A) → any p xs ≡ false → All (λ a. p a ≡ false) xs
  All-not_any [] h = tt
  All-not_any (x ∷ xs) h = (ground arith, All-not_any xs (ground arith))

pub map-append {ℓ κ} :
    {A : Type ℓ} {B : Type κ} (f : A → B) (xs ys : List A) → map f (xs ++ ys) ≡ map f xs ++ map f ys
map-append f [] ys = refl
map-append f (x ∷ xs) ys = ap (λ z. f x ∷ z) (map-append f xs ys)
