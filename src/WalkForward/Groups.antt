-- ===== src/WalkForward/Groups.antt =====
-- The groups of a split: whose samples they hold, and that none stands twice.
use marketpilot.Base.{
  All-append, text_key, nat_order, pair_order, text_order, All, All-map, All-put, All-zip, IsKeyed,
  IsKeyed-put, List, Option-cases, String, [], ap, arith, contains, contains-keys, eq_iff, false,
  get, get_of_All, if◌then◌else◌, inl, inr, insert, is_some, map, put, refl, sort, subst, suc, sym,
  true, zero, ℕ, ◌++◌, ◌==◌, ◌||◌, ◌∙◌, ◌∷◌, ◌≡◌, ◌≼◌, ◌⊎◌,
}
use marketpilot.WalkForward.Folds.{
  Groups, ValidationSample, drop, group_from, group_key, group_samples, listed, ordered_groups,
  samples_of, take,
}

abbrev pub IsIn : ValidationSample → List ValidationSample → Type 0
IsIn x [] = ⊥
IsIn x (y ∷ ys) = (x ≡ y) ⊎ IsIn x ys

all-IsIn : (xs : List ValidationSample) → All (λ x. IsIn x xs) xs
all-IsIn [] = tt
all-IsIn (x ∷ xs) = (inl refl, All-map _ _ (λ y h. inr h) xs (all-IsIn xs))

module _ (samples : List ValidationSample) where
  -- A sample of the group, among the samples of the split.
  abbrev IsOf : String → ValidationSample → Type 0
  IsOf g x = (x.group_id ≡ g) × IsIn x samples

  abbrev pub IsEntry : String × List ValidationSample → Type 0
  IsEntry e = All (IsOf e.0) e.1

  group_samples-All : (d : Groups) (g : String) → All IsEntry d → All (IsOf g) (group_samples d g)
  group_samples-All d g h = elim (Option-cases (get d g)) [
    | inl q ↦ subst (λ o. All (IsOf g) (listed o)) (sym q) tt
    | inr (xs, q) ↦ subst (λ o. All (IsOf g) (listed o)) (sym q) (get_of_All IsEntry d g xs h q)
  ]

  group_from-All :
      (xs : List ValidationSample) (d : Groups)
      → All (λ x. IsIn x samples) xs
      → All IsEntry d
      → All IsEntry (group_from xs d)
  unfolding group_from
  group_from-All [] d hx h = h
  group_from-All (x ∷ xs) d (px, hx) h =
      group_from-All xs (put d x.group_id (group_samples d x.group_id ++ x ∷ [])) hx (
        All-put IsEntry d x.group_id _ h (
          All-append (IsOf x.group_id) (group_samples d x.group_id) (x ∷ [])
            (group_samples-All d x.group_id h) ((refl, px), tt)))

  pub grouped-All : All IsEntry (group_from samples [])
  grouped-All = group_from-All samples [] (all-IsIn samples) tt

  -- Of groups with a property, samples whose group has it.
  pub samples_of-All :
      (Q : String → Type 0) (d : Groups) (gs : List String)
      → All IsEntry d
      → All Q gs
      → All (λ x. Q x.group_id × IsIn x samples) (samples_of d gs)
  samples_of-All Q d [] h k = tt
  samples_of-All Q d (g ∷ gs) h (qg, k) =
      All-append _ (group_samples d g) (samples_of d gs)
        (All-map _ _ (λ x p. (subst Q (sym p.0) qg, p.1)) (group_samples d g)
          (group_samples-All d g h))
        (samples_of-All Q d gs h k)

pub group_from-IsKeyed :
    (xs : List ValidationSample) (d : Groups) → IsKeyed d → IsKeyed (group_from xs d)
unfolding group_from
group_from-IsKeyed [] d h = h
group_from-IsKeyed (x ∷ xs) d h =
    group_from-IsKeyed xs _ (IsKeyed-put d x.group_id (group_samples d x.group_id ++ x ∷ []) h)

-- No text stands twice.
abbrev pub IsUnique : List String → Type 0
IsUnique [] = Unit
IsUnique (x ∷ xs) = (contains x xs ≡ false) × IsUnique xs

keys-IsUnique :
    (d : Groups) → IsKeyed d → IsUnique (map (λ (e : String × List ValidationSample). e.0) d)
keys-IsUnique [] h = tt
keys-IsUnique ((g, xs) ∷ d) (hg, h) = (contains-keys d g ∙ ap is_some hg, keys-IsUnique d h)

module _ (key : String → ℕ × String) where
  contains-insert :
      (a x : String) (xs : List String) → contains x (insert key a xs) ≡ (x == a || contains x xs)
  unfolding insert
  contains-insert a x [] = ground arith
  contains-insert a x (y ∷ xs) = ground (arith, contains-insert a x xs)

  insert-IsUnique :
      (a : String) (xs : List String)
      → contains a xs ≡ false
      → IsUnique xs
      → IsUnique (insert key a xs)
  unfolding insert
  insert-IsUnique a [] n h = (refl, tt)
  insert-IsUnique a (x ∷ xs) n (hx, h) =
      elim (key a ≼ key x) as (λ b. IsUnique (if b then a ∷ x ∷ xs else x ∷ insert key a xs)) [
        | true ↦ (n, (hx, h))
        | false ↦ (
          ground (arith, contains-insert a x xs, hx, n, eq_iff a x, eq_iff x a),
          insert-IsUnique a xs (ground (arith, n)) h,
        )
      ]

  contains-sort : (x : String) (xs : List String) → contains x (sort key xs) ≡ contains x xs
  unfolding sort
  contains-sort x [] = refl
  contains-sort x (y ∷ xs) =
      contains-insert y x (sort key xs) ∙ ap (λ b. x == y || b) (contains-sort x xs)

  sort-IsUnique : (xs : List String) → IsUnique xs → IsUnique (sort key xs)
  unfolding sort
  sort-IsUnique [] h = tt
  sort-IsUnique (x ∷ xs) (hx, h) =
      insert-IsUnique x (sort key xs) (contains-sort x xs ∙ hx) (sort-IsUnique xs h)

pub ordered_groups-IsUnique : (d : Groups) → IsKeyed d → IsUnique (ordered_groups d)
unfolding ordered_groups
ordered_groups-IsUnique d h = sort-IsUnique (group_key d) _ (keys-IsUnique d h)

pub All-take : (Q : String → Type 0) (n : ℕ) (xs : List String) → All Q xs → All Q (take n xs)
All-take Q zero xs h = tt
All-take Q (suc n) [] h = tt
All-take Q (suc n) (x ∷ xs) (qx, h) = (qx, All-take Q n xs h)

pub taken : (xs : List String) → All (λ x. contains x xs ≡ true) xs
taken [] = tt
taken (x ∷ xs) = (ground (arith, eq_iff x x), All-map _ _ (λ y h. ground (arith, h)) xs (taken xs))

-- What `drop` leaves is not in what `take` takes.
outside : (xs : List String) (x : String) → contains x xs ≡ false → All (λ y. (y == x) ≡ false) xs
outside [] x h = tt
outside (y ∷ xs) x h = (ground (arith, h, eq_iff x y, eq_iff y x), outside xs x (ground (arith, h)))

All-drop : (Q : String → Type 0) (n : ℕ) (xs : List String) → All Q xs → All Q (drop n xs)
All-drop Q zero xs h = h
All-drop Q (suc n) [] h = tt
All-drop Q (suc n) (x ∷ xs) (qx, h) = All-drop Q n xs h

all_free : (xs : List String) → All (λ y. contains y [] ≡ false) xs
all_free [] = tt
all_free (x ∷ xs) = (refl, all_free xs)

pub dropped :
    (n : ℕ) (xs : List String) → IsUnique xs → All (λ y. contains y (take n xs) ≡ false) (drop n xs)
dropped zero xs h = all_free xs
dropped (suc n) [] h = tt
dropped (suc n) (x ∷ xs) (hx, h) =
    All-map _ _ (λ y p. ground (arith, p)) (drop n xs)
      (All-zip _ _ (drop n xs) (All-drop _ n xs (outside xs x hx)) (dropped n xs h))
