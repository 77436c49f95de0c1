-- ===== src/WalkForward/Folds.antt =====
-- validation/walk_forward.py. A group's samples are never empty, and the groups of a set are met in
-- the order of the list, which the sort by instant and unique id forgets.
use marketpilot.Base.{
  text_key, nat_order, pair_order, text_order, Bool, Datetime, Dict, List, Option, Result, String,
  [], aware, contains, err, false, first, get, is_blank, last, leb, length, ltb, map, min, naive,
  nat_eq, none, ok, put, select, some, sort, suc, true, zero, ℕ, ◌++◌, ◌+◌, ◌-◌, ◌||◌, ◌∷◌,
}
use marketpilot.Base.Fallible.{◌>>=◌, ◌>>◌, refuse_if}

pub record ValidationSample : Type 0 where
  pub sample_id : String
  pub observed_at : ℕ
  pub group_id : String
  pub event_type : String
  pub regime : String

pub data SplitError : Type 0 where
  ids_must_not_be_blank : SplitError
  observed_at_must_be_timezone_aware : SplitError
  group_counts_must_be_positive : SplitError
  step_must_be_positive : SplitError
  sample_ids_must_be_unique : SplitError
  no_training_samples : SplitError
  -- `IndexError`, of an empty test set
  index_out_of_range : SplitError
  -- `OverflowError`, of an instant before datetime.min
  date_out_of_range : SplitError
  -- no exception of the code: the loop ran out of its fuel
  out_of_fuel : SplitError

-- `ValidationSample.__post_init__`
unfoldable pub make_sample :
    String → Datetime → String → String → String → Result SplitError ValidationSample
make_sample sample_id (naive t) group_id event_type regime = do
  refuse_if (is_blank sample_id || is_blank group_id) ids_must_not_be_blank
  err observed_at_must_be_timezone_aware
make_sample sample_id (aware t) group_id event_type regime = do
  refuse_if (is_blank sample_id || is_blank group_id) ids_must_not_be_blank
  ok (record {
    sample_id = sample_id;
    observed_at = t;
    group_id = group_id;
    event_type = event_type;
    regime = regime;
  })

pub record WalkForwardFold : Type 0 where
  pub fold_index : ℕ
  pub train_ids : List String
  pub test_ids : List String
  pub purge_cutoff : ℕ
  pub test_start : ℕ
  pub test_end : ℕ

pub record Splitter : Type 0 where
  pub min_train_groups : ℕ
  pub test_groups : ℕ
  pub purge_gap : ℕ
  pub step_groups : ℕ

abbrev pub is_zero : Option ℕ → Bool
is_zero none = false
is_zero (some n) = nat_eq n 0

abbrev pub step_or : Option ℕ → ℕ → ℕ
step_or none test_groups = test_groups
step_or (some n) test_groups = n

-- `PurgedWalkForwardSplitter.__init__`, of a gap that is not negative
unfoldable pub make_splitter : ℕ → ℕ → ℕ → Option ℕ → Result SplitError Splitter
make_splitter min_train_groups test_groups purge_gap step = do
  refuse_if (nat_eq min_train_groups 0 || nat_eq test_groups 0) group_counts_must_be_positive
  refuse_if (is_zero step) step_must_be_positive
  ok (record {
    min_train_groups = min_train_groups;
    test_groups = test_groups;
    purge_gap = purge_gap;
    step_groups = step_or step test_groups;
  })

abbrev pub Groups : Type 0
Groups = Dict String (List ValidationSample)

-- `grouped[group_id]` of a `defaultdict(list)`
abbrev pub listed : Option (List ValidationSample) → List ValidationSample
listed none = []
listed (some xs) = xs

abbrev pub group_samples : Groups → String → List ValidationSample
group_samples grouped g = listed (get grouped g)

-- The loop that fills `grouped`.
unfoldable pub group_from : List ValidationSample → Groups → Groups
group_from [] grouped = grouped
group_from (x ∷ xs) grouped =
    group_from xs (put grouped x.group_id (group_samples grouped x.group_id ++ x ∷ []))

-- `min(...)`, of a group that is not empty
abbrev earliest : List ValidationSample → ℕ
earliest [] = 0
earliest (x ∷ []) = x.observed_at
earliest (x ∷ y ∷ xs) = min x.observed_at (earliest (y ∷ xs))

abbrev pub group_key : Groups → String → ℕ × String
group_key grouped g = (earliest (group_samples grouped g), g)

unfoldable pub ordered_groups : Groups → List String
unfolding sort
ordered_groups grouped =
    sort (group_key grouped) (map (λ (e : String × List ValidationSample). e.0) grouped)

abbrev pub take : ℕ → List String → List String
take zero xs = []
take (suc n) [] = []
take (suc n) (x ∷ xs) = x ∷ take n xs

abbrev pub drop : ℕ → List String → List String
drop zero xs = xs
drop (suc n) [] = []
drop (suc n) (x ∷ xs) = drop n xs

abbrev pub samples_of : Groups → List String → List ValidationSample
samples_of grouped [] = []
samples_of grouped (g ∷ gs) = group_samples grouped g ++ samples_of grouped gs

abbrev pub sample_key : ValidationSample → ℕ × String
sample_key x = (x.observed_at, x.sample_id)

abbrev pub sample_ids : List ValidationSample → List String
sample_ids xs = map (λ (x : ValidationSample). x.sample_id) xs

abbrev pub end_of : ValidationSample → Option ValidationSample → ℕ
end_of first none = first.observed_at
end_of first (some x) = x.observed_at

-- The training samples of a fold.
unfoldable pub purged : ℕ → List ValidationSample → List ValidationSample
unfolding sort
purged cutoff pool =
    sort sample_key (select (λ (x : ValidationSample). ltb x.observed_at cutoff) pool)

abbrev pub fold_with :
    ℕ → ℕ → List ValidationSample → ValidationSample → List ValidationSample → WalkForwardFold
fold_with index cutoff train first rest = record {
  fold_index = index;
  train_ids = sample_ids train;
  test_ids = sample_ids (first ∷ rest);
  purge_cutoff = cutoff;
  test_start = first.observed_at;
  test_end = end_of first (last rest);
}

-- One turn of the loop, from the sorted test samples and the samples of the training groups on.
unfoldable pub fold_of :
    Splitter → ℕ → List ValidationSample → List ValidationSample → Result SplitError WalkForwardFold
unfolding purged
fold_of sp index pool [] = err index_out_of_range
fold_of sp index pool (first ∷ rest) = do
  refuse_if (ltb first.observed_at sp.purge_gap) date_out_of_range
  let train = purged (first.observed_at - sp.purge_gap) pool
  refuse_if (nat_eq (length train) 0) no_training_samples
  ok (fold_with index (first.observed_at - sp.purge_gap) train first rest)

unfoldable pub build_fold :
    Splitter → Groups → List String → ℕ → ℕ → Result SplitError WalkForwardFold
unfolding sort fold_of
build_fold sp grouped ordered offset index =
    fold_of sp index (samples_of grouped (take offset ordered))
      (sort sample_key (samples_of grouped (take sp.test_groups (drop offset ordered))))

-- The `while` loop.
unfoldable pub folds_from :
    Splitter → Groups → List String → ℕ → ℕ → ℕ → Result SplitError (List WalkForwardFold)
unfolding build_fold
folds_from sp grouped ordered zero offset index = err out_of_fuel
folds_from sp grouped ordered (suc fuel) offset index =
    elim (leb (offset + sp.test_groups) (length ordered)) [
      | true ↦ do
        fold ← build_fold sp grouped ordered offset index
        rest ← folds_from sp grouped ordered fuel (offset + sp.step_groups) (index + 1)
        ok (fold ∷ rest)
      | false ↦ ok []
    ]

abbrev pub repeats : List String → Bool
repeats [] = false
repeats (x ∷ xs) = contains x xs || repeats xs

unfoldable pub split : Splitter → List ValidationSample → Result SplitError (List WalkForwardFold)
unfolding group_from ordered_groups folds_from
split sp samples = do
  refuse_if (repeats (sample_ids samples)) sample_ids_must_be_unique
  let grouped = group_from samples []
  let ordered = ordered_groups grouped
  folds_from sp grouped ordered (length ordered + 1) sp.min_train_groups 0
