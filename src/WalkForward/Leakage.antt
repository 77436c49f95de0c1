-- ===== src/WalkForward/Leakage.antt =====
-- What a fold may train on.
use marketpilot.Base.{
  text_key, nat_order, pair_order, text_order, All, All-map, All-sort, All-zip, Bool-cases,
  IsAscending, List, Result-cases, String, [], arith, contains, false, inl, inr, leb, length, ltb,
  ok, refl, select, sort-IsAscending, subst, suc, true, zero, ℕ, ◌+◌, ◌-◌, ◌<◌, ◌∷◌, ◌≡◌, ◌≤◌,
}
use marketpilot.WalkForward.Folds.{
  Splitter, ValidationSample, WalkForwardFold, build_fold, drop, fold_of, fold_with, folds_from,
  group_from, ordered_groups, purged, sample_ids, sample_key, samples_of, split, take,
}
use marketpilot.WalkForward.Groups.{
  IsEntry, IsIn, IsUnique, All-take, dropped, group_from-IsKeyed, grouped-All,
  ordered_groups-IsUnique, samples_of-All, taken,
}

-- A fold without leakage: the groups `trained` hold every training sample and no test sample, and all
-- training samples lie before the cutoff, which is the gap before every test sample.
pub record IsClean (gap : ℕ) (samples : List ValidationSample) (fold : WalkForwardFold)
    : Type 0 where
  pub train : List ValidationSample
  pub test : List ValidationSample
  pub trained : List String
  pub train_is : fold.train_ids ≡ sample_ids train
  pub test_is : fold.test_ids ≡ sample_ids test
  pub some_train : 0 < length train
  pub some_test : 0 < length test
  pub gap_before : fold.purge_cutoff + gap ≡ fold.test_start
  pub train_parts :
      All
        (λ x.
          (x.observed_at < fold.purge_cutoff)
          × ((contains x.group_id trained ≡ true) × IsIn x samples))
        train
  pub test_parts :
      All
        (λ x.
          (fold.test_start ≤ x.observed_at)
          × ((contains x.group_id trained ≡ false) × IsIn x samples))
        test

select-All :
    (P : ValidationSample → Type 0) (cutoff : ℕ) (xs : List ValidationSample)
    → All P xs
    → All (λ x. (x.observed_at < cutoff) × P x) (select (λ x. ltb x.observed_at cutoff) xs)
select-All P cutoff [] h = tt
select-All P cutoff (x ∷ xs) (px, h) = elim (Bool-cases (ltb x.observed_at cutoff)) [
  | inl e ↦ rw e ((ground (arith, e), px), select-All P cutoff xs h)
  | inr e ↦ rw e (select-All P cutoff xs h)
]

purged-All :
    (P : ValidationSample → Type 0) (cutoff : ℕ) (xs : List ValidationSample)
    → All P xs
    → All (λ x. (x.observed_at < cutoff) × P x) (purged cutoff xs)
unfolding purged
purged-All P cutoff xs h = All-sort sample_key _ _ (select-All P cutoff xs h)

-- The first of ascending samples is not after the others.
first_is_least :
    (x : ValidationSample) (xs : List ValidationSample)
    → IsAscending sample_key (x ∷ xs)
    → All (λ y. x.observed_at ≤ y.observed_at) (x ∷ xs)
first_is_least x [] h = (ground arith, tt)
first_is_least x (y ∷ xs) (le, h) =
    let least : x.observed_at ≤ y.observed_at = ground (arith, le) in
    (ground arith, All-map _ _ (λ z p. ground (arith, p, least)) (y ∷ xs) (first_is_least y xs h))

module _ (sp : Splitter) (samples : List ValidationSample) where
  fold_parts :
      (index : ℕ) (pool : List ValidationSample) (x : ValidationSample) (xs : List ValidationSample)
      (fold : WalkForwardFold)
      → fold_of sp index pool (x ∷ xs) ≡ ok fold
      → (sp.purge_gap ≤ x.observed_at)
        × (0 < length (purged (x.observed_at - sp.purge_gap) pool))
        × (fold_with index
              (x.observed_at - sp.purge_gap)
              (purged (x.observed_at - sp.purge_gap) pool)
              x
              xs
            ≡ fold)
  unfolding fold_of
  fold_parts index pool x xs fold h = (ground (arith, h), ground (arith, h), ground (arith, h))

  fold_of-IsClean :
      (index : ℕ) (trained : List String) (pool test : List ValidationSample)
      (fold : WalkForwardFold)
      → All (λ x. (contains x.group_id trained ≡ true) × IsIn x samples) pool
      → All (λ x. (contains x.group_id trained ≡ false) × IsIn x samples) test
      → IsAscending sample_key test
      → fold_of sp index pool test ≡ ok fold
      → IsClean sp.purge_gap samples fold
  unfolding fold_of
  fold_of-IsClean index trained pool [] fold hp ht asc h = cc h
  fold_of-IsClean index trained pool (x ∷ xs) fold hp ht asc h =
      let (fits, trains, is_fold) = fold_parts index pool x xs fold h in
      subst (IsClean sp.purge_gap samples) is_fold (record {
        train = purged (x.observed_at - sp.purge_gap) pool;
        test = x ∷ xs;
        trained = trained;
        train_is = refl;
        test_is = refl;
        some_train = trains;
        some_test = ground arith;
        gap_before = ground (arith, fits);
        train_parts = purged-All _ (x.observed_at - sp.purge_gap) pool hp;
        test_parts = All-zip _ _ (x ∷ xs) (first_is_least x xs asc) ht;
      })

  module _ (is_grouped : All (IsEntry samples) (group_from samples []))
      (unique : IsUnique (ordered_groups (group_from samples []))) where
    build_fold-IsClean :
        (offset index : ℕ) (fold : WalkForwardFold)
        → build_fold sp
            (group_from samples [])
            (ordered_groups (group_from samples []))
            offset
            index
          ≡ ok fold
        → IsClean sp.purge_gap samples fold
    unfolding build_fold
    build_fold-IsClean offset index fold h =
        let ordered = ordered_groups (group_from samples []) in
        fold_of-IsClean index (take offset ordered) _ _ fold
          (samples_of-All samples _ (group_from samples []) (take offset ordered) is_grouped
            (taken (take offset ordered)))
          (All-sort sample_key _ _ (
            samples_of-All samples _ (group_from samples [])
              (take sp.test_groups (drop offset ordered)) is_grouped
              (All-take _ sp.test_groups (drop offset ordered) (dropped offset ordered unique))))
          (sort-IsAscending sample_key
            (samples_of (group_from samples []) (take sp.test_groups (drop offset ordered))))
          h

    folds_from-IsClean :
        (fuel offset index : ℕ) (folds : List WalkForwardFold)
        → folds_from sp
            (group_from samples [])
            (ordered_groups (group_from samples []))
            fuel
            offset
            index
          ≡ ok folds
        → All (IsClean sp.purge_gap samples) folds
    unfolding folds_from
    folds_from-IsClean zero offset index folds h = cc h
    folds_from-IsClean (suc fuel) offset index folds h =
        elim (Bool-cases
          (leb (offset + sp.test_groups) (length (ordered_groups (group_from samples []))))) [
            | inl more ↦
                elim (Result-cases (
                  build_fold sp (group_from samples []) (ordered_groups (group_from samples []))
                    offset index)) [
                      | inl (fold, qf) ↦
                          elim (Result-cases (
                            folds_from sp (group_from samples [])
                              (ordered_groups (group_from samples [])) fuel
                              (offset + sp.step_groups) (index + 1))) [
                                | inl (rest, qr) ↦
                                    let same : fold ∷ rest ≡ folds = cc (more, qf, qr, h) in
                                    subst (All (IsClean sp.purge_gap samples)) same (
                                      build_fold-IsClean offset index fold qf,
                                      folds_from-IsClean fuel (offset + sp.step_groups) (index + 1)
                                          rest qr,
                                    )
                                | inr (e, qr) ↦ cc (more, qf, qr, h)
                              ]
                      | inr (e, qf) ↦ cc (more, qf, h)
                    ]
            | inr none_left ↦
                let same : [] ≡ folds = cc (none_left, h) in
                subst (All (IsClean sp.purge_gap samples)) same tt
          ]

-- Every fold that a split returns is clean: its training and its test samples are samples of the
-- call, neither list is empty, no group has samples on both sides, and every training sample lies
-- more than the purge gap before every test sample.
pub no_leakage :
    (sp : Splitter) (samples : List ValidationSample) (folds : List WalkForwardFold)
    → split sp samples ≡ ok folds
    → All (IsClean sp.purge_gap samples) folds
unfolding split
no_leakage sp samples folds h =
    folds_from-IsClean sp samples (grouped-All samples)
      (ordered_groups-IsUnique (group_from samples []) (group_from-IsKeyed samples [] tt))
      (length (ordered_groups (group_from samples [])) + 1) sp.min_train_groups 0 folds
      (ground (arith, h))
