-- ===== src/Base/Sort.antt =====
-- Python's `sorted`, which is stable.
use mathlib.Core.Path.{◌≡◌, refl, ap, ◌∙◌}
use mathlib.Core.Bool.{Bool, true, false, ◌&&◌, ◌||◌}
use mathlib.Core.List.{List, [], ◌∷◌, ◌++◌}
use native.Mathlib.Omega.{arith}
use marketpilot.Base.Tests.{if◌then◌else◌}
use marketpilot.Base.Lists.{any, All}
use marketpilot.Base.Order.{Order, ◌≼◌}

module _ {ℓ κ} {A : Type ℓ} {K : Type κ} ⦃o : Order K⦄ (key : A → K) where
  unfoldable pub insert : A → List A → List A
  insert a [] = a ∷ []
  insert a (x ∷ xs) = let rest = insert a xs in if key a ≼ key x then a ∷ x ∷ xs else x ∷ rest

  -- `sorted(xs, key=key)`
  unfoldable pub sort : List A → List A
  unfolding insert
  sort [] = []
  sort (x ∷ xs) = insert x (sort xs)

  pub any-insert : (p : A → Bool) (a : A) (xs : List A) → any p (insert a xs) ≡ (p a || any p xs)
  unfolding insert
  any-insert p a [] = refl
  any-insert p a (x ∷ xs) = ground (arith, any-insert p a xs)

  pub any-sort : (p : A → Bool) (xs : List A) → any p (sort xs) ≡ any p xs
  unfolding sort
  any-sort p [] = refl
  any-sort p (x ∷ xs) = any-insert p x (sort xs) ∙ ap (λ b. p x || b) (any-sort p xs)

  pub All-insert {μ} : (P : A → Type μ) (a : A) (xs : List A) → P a → All P xs → All P (insert a xs)
  unfolding insert
  All-insert P a [] pa h = (pa, tt)
  All-insert P a (x ∷ xs) pa (px, h) =
      elim (key a ≼ key x) as (λ b. All P (if b then a ∷ x ∷ xs else x ∷ insert a xs)) [
        | true ↦ (pa, (px, h))
        | false ↦ (px, All-insert P a xs pa h)
      ]

  pub All-sort {μ} : (P : A → Type μ) (xs : List A) → All P xs → All P (sort xs)
  unfolding sort
  All-sort P [] h = h
  All-sort P (x ∷ xs) (px, h) = All-insert P x (sort xs) px (All-sort P xs h)

  All-of_insert {μ} : (P : A → Type μ) (a : A) (xs : List A) → All P (insert a xs) → P a × All P xs
  unfolding insert
  All-of_insert P a [] = λ h. h
  All-of_insert P a (x ∷ xs) =
      elim (key a ≼ key x)
        as (λ b. All P (if b then a ∷ x ∷ xs else x ∷ insert a xs) → P a × (P x × All P xs)) [
          | true ↦ λ h. h
          | false ↦ λ h. let (pa, rest) = All-of_insert P a xs h.1 in (pa, (h.0, rest))
        ]

  -- What holds of all sorted items holds of all items.
  pub All-of_sort {μ} : (P : A → Type μ) (xs : List A) → All P (sort xs) → All P xs
  unfolding sort
  All-of_sort P [] h = h
  All-of_sort P (x ∷ xs) h =
      let (px, rest) = All-of_insert P x (sort xs) h in (px, All-of_sort P xs rest)

  -- Two items with keys of their own may go in in either order.
  pub insert_comm :
      (a b : A) (xs : List A)
      → ((key a ≼ key b) && (key b ≼ key a)) ≡ false
      → insert a (insert b xs) ≡ insert b (insert a xs)
  unfolding insert
  insert_comm a b [] h = ground (arith, o.le_total (key a) (key b))
  insert_comm a b (x ∷ xs) h = ground (
    arith,
    insert_comm a b xs h,
    o.le_total (key a) (key b),
    o.le_total (key a) (key x),
    o.le_total (key b) (key x),
    o.le_trans (key a) (key b) (key x),
    o.le_trans (key b) (key a) (key x),
  )

  pub sort-snoc :
      (xs : List A) (a : A)
      → All (λ x. ((key x ≼ key a) && (key a ≼ key x)) ≡ false) xs
      → sort (xs ++ a ∷ []) ≡ insert a (sort xs)
  unfolding sort
  sort-snoc [] a h = refl
  sort-snoc (x ∷ xs) a (hx, h) = ap (insert x) (sort-snoc xs a h) ∙ insert_comm x a (sort xs) hx

  -- Each item has a key at most the next one's.
  abbrev pub IsAscending : List A → Type 0
  IsAscending [] = Unit
  IsAscending (x ∷ []) = Unit
  IsAscending (x ∷ y ∷ xs) = ((key x ≼ key y) ≡ true) × IsAscending (y ∷ xs)

  insert-IsAscending : (a : A) (xs : List A) → IsAscending xs → IsAscending (insert a xs)
  unfolding insert
  insert-IsAscending a [] h = tt
  insert-IsAscending a (x ∷ []) h = ground (arith, o.le_total (key a) (key x))
  insert-IsAscending a (x ∷ y ∷ xs) h =
      ground (arith, o.le_total (key a) (key x), insert-IsAscending a (y ∷ xs))

  pub sort-IsAscending : (xs : List A) → IsAscending (sort xs)
  unfolding sort
  sort-IsAscending [] = tt
  sort-IsAscending (x ∷ xs) = insert-IsAscending x (sort xs) (sort-IsAscending xs)

  pub sort_sorted : (xs : List A) → IsAscending xs → sort xs ≡ xs
  unfolding sort
  sort_sorted [] h = refl
  sort_sorted (x ∷ []) h = refl
  sort_sorted (x ∷ y ∷ xs) (hx, h) = rw (sort_sorted (y ∷ xs) h) (rw hx)
