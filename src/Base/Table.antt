-- ===== src/Base/Table.antt =====
-- The parts of SQL that the services use, over a table kept as a list of its rows.
use Prim.Native.Nat.{ℕ, suc}
use mathlib.Core.Path.{◌≡◌, refl, ap}
use mathlib.Core.Logic.{inl, inr}
use mathlib.Core.Bool.{Bool, true, false}
use mathlib.Core.Option.{none}
use mathlib.Core.List.{List, [], ◌∷◌}
use capere_ai.Base.Tests.{if◌then◌else◌, leb, Bool-cases}
use native.Mathlib.Omega.{arith}
use capere_ai.Base.Lists.{length, All, find, any}

module _ {ℓ} {A : Type ℓ} where
  -- `where p`
  abbrev pub select : (A → Bool) → List A → List A
  select p [] = []
  select p (x ∷ xs) = if p x then x ∷ select p xs else select p xs

  -- `update … set f where p`
  abbrev pub update : (A → Bool) → (A → A) → List A → List A
  update p f [] = []
  update p f (x ∷ xs) = (if p x then f x else x) ∷ update p f xs

  abbrev pub insert_by : (A → ℕ) → A → List A → List A
  insert_by key x [] = x ∷ []
  insert_by key x (y ∷ ys) = if leb (key x) (key y) then x ∷ y ∷ ys else y ∷ insert_by key x ys

  -- `order by key asc`, where rows of one key keep their order.
  abbrev pub order_by : (A → ℕ) → List A → List A
  order_by key [] = []
  order_by key (x ∷ xs) = insert_by key x (order_by key xs)

  abbrev pub insert_desc : (A → ℕ) → A → List A → List A
  insert_desc key x [] = x ∷ []
  insert_desc key x (y ∷ ys) = if leb (key y) (key x) then x ∷ y ∷ ys else y ∷ insert_desc key x ys

  -- `order by key desc`
  abbrev pub order_by_desc : (A → ℕ) → List A → List A
  order_by_desc key [] = []
  order_by_desc key (x ∷ xs) = insert_desc key x (order_by_desc key xs)

module _ {ℓ κ μ} {A : Type ℓ} (P : A → Type κ) (Q : A → Type μ) where
  -- What the rows have and the test adds, the selected rows have.
  pub All-select :
      (p : A → Bool)
      → ((a : A) → P a → p a ≡ true → Q a)
      → (xs : List A) → All P xs
      → All Q (select p xs)
  All-select p f [] h = tt
  All-select p f (x ∷ xs) (q, h) = elim (Bool-cases (p x)) [
    | inl e ↦ rw e (f x q e, All-select p f xs h)
    | inr e ↦ rw e (All-select p f xs h)
  ]

  pub All-update :
      (p : A → Bool) (f : A → A)
      → ((a : A) → P a → p a ≡ true → Q (f a))
      → ((a : A) → P a → p a ≡ false → Q a)
      → (xs : List A) → All P xs
      → All Q (update p f xs)
  All-update p f hit miss [] h = tt
  All-update p f hit miss (x ∷ xs) (q, h) = elim (Bool-cases (p x)) [
    | inl e ↦ rw e (hit x q e, All-update p f hit miss xs h)
    | inr e ↦ rw e (miss x q e, All-update p f hit miss xs h)
  ]

module _ {ℓ κ} {A : Type ℓ} (P : A → Type κ) where
  pub All-insert_by :
      (key : A → ℕ) (x : A) (ys : List A) → P x → All P ys → All P (insert_by key x ys)
  All-insert_by key x [] p h = (p, tt)
  All-insert_by key x (y ∷ ys) p (q, h) = elim (Bool-cases (leb (key x) (key y))) [
    | inl e ↦ rw e (p, (q, h))
    | inr e ↦ rw e (q, All-insert_by key x ys p h)
  ]

  pub All-order_by : (key : A → ℕ) (xs : List A) → All P xs → All P (order_by key xs)
  All-order_by key [] h = tt
  All-order_by key (x ∷ xs) (p, h) = All-insert_by key x (order_by key xs) p (All-order_by key xs h)

module _ {ℓ} {A : Type ℓ} where
  -- A search fails exactly when the test fails everywhere.
  pub find-eq-none : (p : A → Bool) (xs : List A) → All (λ a. p a ≡ false) xs → find p xs ≡ none
  find-eq-none p [] h = refl
  find-eq-none p (x ∷ xs) (e, h) = rw e (find-eq-none p xs h)

  -- An update that keeps what a test reads keeps whether a row passes it.
  pub any-update :
      (q p : A → Bool) (f : A → A)
      → ((x : A) → q (f x) ≡ q x)
      → (xs : List A) → any q (update p f xs) ≡ any q xs
  any-update q p f same [] = refl
  any-update q p f same (x ∷ xs) = ground (arith, same x, any-update q p f same xs)

  pub length-update : (p : A → Bool) (f : A → A) (xs : List A) → length (update p f xs) ≡ length xs
  length-update p f [] = refl
  length-update p f (x ∷ xs) = ap suc (length-update p f xs)

module _ {ℓ κ} {A : Type ℓ} (P : A → Type κ) where
  pub All-select_inv :
      (p : A → Bool) (xs : List A) → All P (select p xs) → All (λ a. p a ≡ true → P a) xs
  All-select_inv p [] h = tt
  All-select_inv p (x ∷ xs) h = elim (Bool-cases (p x)) [
    | inl e ↦
        let h' : P x × All P (select p xs) = rw e at h in ((λ _. h'.0), All-select_inv p xs h'.1)
    | inr e ↦ ((λ e'. cc), All-select_inv p xs (rw e at h))
  ]
