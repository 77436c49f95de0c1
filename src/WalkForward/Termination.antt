-- ===== src/WalkForward/Termination.antt =====
-- The fuel of the loop is enough.
use marketpilot.Base.{
  text_key, Bool-cases, List, Option, Result-cases, String, [], arith, err, inl, inr, leb, length,
  none, ok, some, suc, zero, ℕ, ◌+◌, ◌<◌, ◌∷◌, ◌≡◌, ◌≢◌,
}
use marketpilot.WalkForward.Folds.{
  Groups, Splitter, ValidationSample, build_fold, fold_of, folds_from, group_from, make_splitter,
  ordered_groups, out_of_fuel, split,
}

positive_step :
    (m n gap : ℕ) (step : Option ℕ) (sp : Splitter)
    → make_splitter m n gap step ≡ ok sp
    → (0 < sp.step_groups) × (0 < sp.test_groups)
unfolding make_splitter
positive_step m n gap none sp h = (ground (arith, h), ground (arith, h))
positive_step m n gap (some k) sp h = (ground (arith, h), ground (arith, h))

module _ (sp : Splitter) (grouped : Groups) (ordered : List String) where
  fold_of-fuelled :
      (index : ℕ) (pool test : List ValidationSample) → fold_of sp index pool test ≢ err out_of_fuel
  unfolding fold_of
  fold_of-fuelled index pool [] h = ground (arith, h)
  fold_of-fuelled index pool (x ∷ xs) h = ground (arith, h)

  build_fold-fuelled :
      (offset index : ℕ) → build_fold sp grouped ordered offset index ≢ err out_of_fuel
  unfolding build_fold
  build_fold-fuelled offset index h = fold_of-fuelled index _ _ h

  folds_from-fuelled :
      (fuel offset index : ℕ)
      → 0 < sp.step_groups
      → 0 < sp.test_groups
      → 0 < fuel
      → length ordered < fuel + offset
      → folds_from sp grouped ordered fuel offset index ≢ err out_of_fuel
  unfolding folds_from
  folds_from-fuelled zero offset index ps pt some_fuel enough h = ground (arith, some_fuel)
  folds_from-fuelled (suc fuel) offset index ps pt some_fuel enough h =
      elim (Bool-cases (leb (offset + sp.test_groups) (length ordered))) [
        | inl more ↦ elim (Result-cases (build_fold sp grouped ordered offset index)) [
          | inl (fold, qf) ↦
              elim (Result-cases
                (folds_from sp grouped ordered fuel (offset + sp.step_groups) (index + 1))) [
                  | inl (rest, qr) ↦ cc (more, qf, qr, h)
                  | inr (e, qr) ↦
                      folds_from-fuelled fuel (offset + sp.step_groups) (index + 1) ps pt
                        (ground (arith, more, enough, pt)) (ground (arith, enough, ps))
                        (cc (more, qf, qr, h))
                ]
          | inr (e, qf) ↦ build_fold-fuelled offset index (cc (more, qf, h))
        ]
        | inr none_left ↦ cc (none_left, h)
      ]

-- A splitter that its constructor makes never runs out of the fuel that `split` gives its loop.
pub split_terminates :
    (m n gap : ℕ) (step : Option ℕ) (sp : Splitter) (samples : List ValidationSample)
    → make_splitter m n gap step ≡ ok sp
    → split sp samples ≢ err out_of_fuel
unfolding split
split_terminates m n gap step sp samples made h =
    let (ps, pt) = positive_step m n gap step sp made in
    let ordered = ordered_groups (group_from samples []) in
    folds_from-fuelled sp (group_from samples []) ordered (length ordered + 1) sp.min_train_groups 0
      ps pt (ground arith) (ground arith) (ground (arith, h))
