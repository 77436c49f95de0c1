-- ===== src/Promotion/Examples.antt =====
-- Criteria for two slices and a holdout that meets them; a float is a number of percents.
use marketpilot.Base.{
  text_key, pair_key, text_order, pair_order, nat_order, All, String, [], aware, get, is_blank, leb,
  ltb, ok, put, refl, sort, text_le, true, ℕ, ◌↔◌, ◌∷◌, ◌≡◌,
}
use marketpilot.Fixtures.{toy}
use marketpilot.Promotion.Criteria.{
  Floats, PromotionCriteria, ValidationSliceEvidence, calculated_hash, verify,
}
use marketpilot.Promotion.Gate.{
  FrozenValidationReport, GateRequest, evaluate_promotion_gate, report_of, verify_report,
}
use marketpilot.Promotion.Preregistered.{IsInOrder, evaluates_exactly}
use marketpilot.Promotion.Verdict.{IsMet, passed_exactly}

abbrev percents : Floats ℕ
percents = record { zero = 0; one = 100; lt = ltb; le = leb; is_finite = λ x. true; repr = λ x. "" }

abbrev draft : PromotionCriteria ℕ
draft = record {
  criteria_id = "ic-2026";
  version = "1";
  registered_at = 10;
  required_slices = ("CPI", "HIGH") ∷ ("NONE", "LOW") ∷ [];
  minimum_samples_per_slice = 30;
  maximum_expiry_cross_rate = 10;
  maximum_touch_rate = 20;
  maximum_cvar = 50;
  maximum_drawdown = 60;
  minimum_no_trade_pnl_difference = 5;
  criteria_hash = "";
}

abbrev criteria : PromotionCriteria ℕ
criteria = record draft { criteria_hash = calculated_hash percents toy draft }

abbrev evidence : String → String → ℕ → ValidationSliceEvidence ℕ
evidence event_type regime touch_rate = record {
  event_type = event_type;
  regime = regime;
  sample_count = 30;
  expiry_cross_rate = 5;
  touch_rate = touch_rate;
  cvar = 40;
  maximum_drawdown = 60;
  no_trade_pnl_difference = 5;
}

abbrev request : ℕ → GateRequest ℕ
request touch_rate = record {
  data_manifest_hash = "d";
  holdout_manifest_hash = "h";
  holdout_frozen_at = aware 20;
  evaluated_at = aware 30;
  slices = evidence "NONE" "LOW" 20 ∷ evidence "CPI" "HIGH" touch_rate ∷ [];
}

abbrev report : FrozenValidationReport ℕ
report = report_of percents toy criteria (request 20) 30

report_passed : report.passed ≡ true
unfolding report_of get put
report_passed = refl

failed_run :
    (report_of percents toy criteria (request 21) 30).failures ≡ "CPI/HIGH:TOUCH_RATE_EXCEEDED" ∷ []
unfolding report_of sort get put
failed_run = refl

passed_exactly_example :
    ((report.passed ≡ true)
      ↔ All (IsMet percents criteria (request 20).slices) (("CPI", "HIGH") ∷ ("NONE", "LOW") ∷ []))
    × ((report.failures ≡ [])
        ↔ All
            (IsMet percents criteria (request 20).slices)
            (("CPI", "HIGH") ∷ ("NONE", "LOW") ∷ []))
unfolding evaluate_promotion_gate is_blank sort text_le get put
passed_exactly_example = passed_exactly percents toy criteria (request 20) report refl

evaluates_exactly_example :
    ((r : FrozenValidationReport ℕ) × (evaluate_promotion_gate percents toy criteria (request 20)
        ≡ ok r)
      × (verify_report percents toy r ≡ ok tt))
    ↔ ((t : ℕ) × (u : ℕ) × ((verify percents toy criteria ≡ ok tt)
          × ((request 20).holdout_frozen_at ≡ aware t)
          × ((request 20).evaluated_at ≡ aware u))
        × IsInOrder percents toy criteria (request 20) t u)
evaluates_exactly_example = evaluates_exactly percents toy criteria (request 20)
