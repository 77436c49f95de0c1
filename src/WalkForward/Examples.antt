-- ===== src/WalkForward/Examples.antt =====
-- Three groups of one sample each: two to train on, one to test.
use marketpilot.Base.{All, List, [], none, err, ok, refl, ℕ, ◌∷◌, ◌≡◌, ◌≢◌, String, put, get}
use marketpilot.WalkForward.{
  Splitter, ValidationSample, WalkForwardFold, fold_with, make_splitter, out_of_fuel, split,
}
use marketpilot.WalkForward.Leakage.{IsClean, no_leakage}
use marketpilot.WalkForward.Termination.{split_terminates}

abbrev sample : String → ℕ → String → ValidationSample
sample id t group = record {
  sample_id = id;
  observed_at = t;
  group_id = group;
  event_type = "none";
  regime = "calm";
}

abbrev samples : List ValidationSample
samples = sample "s3" 30 "c" ∷ sample "s1" 10 "a" ∷ sample "s2" 20 "b" ∷ []

abbrev splitter : Splitter
splitter = record { min_train_groups = 2; test_groups = 1; purge_gap = 5; step_groups = 1 }

abbrev fold : WalkForwardFold
fold = fold_with 0 25 (sample "s1" 10 "a" ∷ sample "s2" 20 "b" ∷ []) (sample "s3" 30 "c") []

splits : split splitter samples ≡ ok (fold ∷ [])
unfolding split put get
splits = refl

no_leakage_example : All (IsClean 5 samples) (fold ∷ [])
no_leakage_example = no_leakage splitter samples (fold ∷ []) splits

made : make_splitter 2 1 5 none ≡ ok splitter
unfolding make_splitter
made = refl

split_terminates_example : split splitter samples ≢ err out_of_fuel
split_terminates_example = split_terminates 2 1 5 none splitter samples made
