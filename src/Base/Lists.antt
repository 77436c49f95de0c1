-- ===== src/Base/Lists.antt =====
-- Lists measured by native numbers, tests over lists, and predicates by recursion.
use Prim.Native.Nat.{ℕ, suc, ◌+◌}
use mathlib.Core.Path.{◌≡◌, refl}
use mathlib.Core.Bool.{Bool, true, false, ◌&&◌, ◌||◌}
use mathlib.Core.Option.{Option, none, some}
use mathlib.Core.List.{List, [], ◌∷◌, ◌++◌}
use native.Mathlib.Omega.{arith}
use mathlib.Core.List.{append-nil}
use mathlib.Core.Logic.{◌⊎◌, inl, inr}
use marketpilot.Base.Tests.{Bool-cases, if◌then◌else◌, Key, ◌==◌}

module _ {ℓ} {A : Type ℓ} where
  abbrev pub length : List A → ℕ
  length [] = 0
  length (x ∷ xs) = suc (length xs)

  -- `any(p(x) for x in xs)`
  abbrev pub any : (A → Bool) → List A → Bool
  any p [] = false
  any p (x ∷ xs) = p x || any p xs

  -- `all(p(x) for x in xs)`
  abbrev pub all : (A → Bool) → List A → Bool
  all p [] = true
  all p (x ∷ xs) = p x && all p xs

  -- `[x for x in xs if p(x)]`
  abbrev pub select : (A → Bool) → List A → List A
  select p [] = []
  select p (x ∷ xs) = let rest = select p xs in if p x then x ∷ rest else rest

  -- `xs[-1]`
  abbrev pub last : List A → Option A
  last [] = none
  last (x ∷ []) = some x
  last (x ∷ y ∷ xs) = last (y ∷ xs)

  -- `next((x for x in xs if p(x)), None)`
  abbrev pub first : (A → Bool) → List A → Option A
  first p [] = none
  first p (x ∷ xs) = let rest = first p xs in if p x then some x else rest

  pub length-append : (xs ys : List A) → length (xs ++ ys) ≡ length xs + length ys
  length-append [] ys = omega arith
  length-append (x ∷ xs) ys = omega (arith, length-append xs ys)

  pub last-snoc : (xs : List A) (x : A) → last (xs ++ x ∷ []) ≡ some x
  last-snoc [] x = refl
  last-snoc (y ∷ []) x = refl
  last-snoc (y ∷ z ∷ xs) x = last-snoc (z ∷ xs) x

module _ {A : Type 0} where
  abbrev pub IsIn : A → List A → Type 0
  IsIn a [] = ⊥
  IsIn a (x ∷ xs) = (x ≡ a) ⊎ IsIn a xs

module _ {ℓ} {A : Type ℓ} (p : A → Bool) where
  pub any-append : (xs ys : List A) → any p (xs ++ ys) ≡ (any p xs || any p ys)
  any-append [] ys = refl
  any-append (x ∷ xs) ys = ground (arith, any-append xs ys)

  pub any-select : (q : A → Bool) (xs : List A) → any p (select q xs) ≡ any (λ x. q x && p x) xs
  any-select q [] = refl
  any-select q (x ∷ xs) = ground (arith, any-select q xs)

  pub select-append : (xs ys : List A) → select p (xs ++ ys) ≡ select p xs ++ select p ys
  select-append [] ys = refl
  select-append (x ∷ xs) ys = ground (arith, select-append xs ys)

  pub last-select_snoc :
      (xs : List A) (x : A)
      → last (select p (xs ++ x ∷ [])) ≡ (if p x then some x else last (select p xs))
  last-select_snoc xs x = elim (Bool-cases (p x)) [
    | inl h ↦ rw (select-append, h) (last-snoc (select p xs) x)
    | inr h ↦ rw (select-append, h) (rw append-nil)
  ]

pub List-cases {ℓ} :
    {A : Type ℓ} (xs : List A) → (xs ≡ []) ⊎ ((x : A) × (ys : List A) × (xs ≡ x ∷ ys))
List-cases [] = inl refl
List-cases (x ∷ xs) = inr (x, xs, refl)

abbrev pub All {ℓ κ} : {A : Type ℓ} → (A → Type κ) → List A → Type κ
All P [] = Unit
All P (x ∷ xs) = P x × All P xs

-- `x in xs`
abbrev pub contains {ℓ} : {A : Type ℓ} ⦃key : Key A⦄ → A → List A → Bool
contains a [] = false
contains a (x ∷ xs) = a == x || contains a xs

pub all-of_All {ℓ} :
    {A : Type ℓ} (p : A → Bool) (xs : List A) → All (λ x. p x ≡ true) xs → all p xs ≡ true
all-of_All p [] h = refl
all-of_All p (x ∷ xs) (px, h) = ground (arith, all-of_All p xs h)
