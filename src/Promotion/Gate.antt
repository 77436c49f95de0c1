-- ===== src/Promotion/Gate.antt =====
-- validation/promotion_gate.py: the report and `evaluate_promotion_gate`.
use Prim.Native.String.{◌++◌ as text_append}
use marketpilot.Base.{
  text_key, pair_key, text_order, pair_order, Bool, Datetime, Dict, List, Option, Result, String,
  [], false, get, if◌then◌else◌, is_blank, leb, ltb, map, none, not, ok, put, some, sort, true, ℕ,
  ◌++◌, ◌==◌, ◌||◌, ◌∷◌,
}
use marketpilot.Base.Fallible.{◌>>=◌, ◌>>◌, refuse_if}
use marketpilot.Domain.Snapshot.{
  Items, Json, Platform, cons, end, field, flag, freeze_snapshot, instant, list, nil, number,
  object, text,
}
use marketpilot.Promotion.Criteria.{
  Floats, PromotionCriteria, PromotionError, ValidationSliceEvidence, aware_utc, float_json,
  is_unique, slice_key, verify, evaluated_before_freeze, frozen_before_registration,
  manifest_hashes_required, report_hash_mismatch, slice_keys_must_be_unique,
}

pub record FrozenValidationReport (W : Type 0) : Type 0 where
  pub criteria_hash : String
  pub data_manifest_hash : String
  pub holdout_manifest_hash : String
  pub evaluated_at : ℕ
  pub slices : List (ValidationSliceEvidence W)
  pub passed : Bool
  pub failures : List String
  pub report_hash : String

-- The arguments of `evaluate_promotion_gate` but for the criteria.
pub record GateRequest (W : Type 0) : Type 0 where
  pub data_manifest_hash : String
  pub holdout_manifest_hash : String
  pub holdout_frozen_at : Datetime
  pub evaluated_at : Datetime
  pub slices : List (ValidationSliceEvidence W)

abbrev texts_json : List String → Items
texts_json [] = nil
texts_json (s ∷ ss) = cons (text s) (texts_json ss)

abbrev pub is_empty : List String → Bool
is_empty [] = true
is_empty (_ ∷ _) = false

-- `if c: failures.append(...)`
abbrev pub failed_if : Bool → String → List String
failed_if c s = if c then s ∷ [] else []

-- The loop of the dictionary `{item.slice_key: item for item in slices}`
unfoldable pub by_key :
    {W : Type 0}
    → List (ValidationSliceEvidence W)
    → Dict (String × String) (ValidationSliceEvidence W)
    → Dict (String × String) (ValidationSliceEvidence W)
by_key [] d = d
by_key (x ∷ xs) d = by_key xs (put d (slice_key x) x)

module _ {W : Type 0} (f : Floats W) where
  abbrev slice_json : ValidationSliceEvidence W → Json
  slice_json x = object (
      field "event_type" (text x.event_type) (
        field "regime" (text x.regime) (
          field "sample_count" (number x.sample_count) (
            field "expiry_cross_rate" (float_json f x.expiry_cross_rate) (
              field "touch_rate" (float_json f x.touch_rate) (
                field "cvar" (float_json f x.cvar) (
                  field "maximum_drawdown" (float_json f x.maximum_drawdown) (
                    field "no_trade_pnl_difference" (float_json f x.no_trade_pnl_difference)
                      end))))))))

  abbrev slices_json : List (ValidationSliceEvidence W) → Items
  slices_json [] = nil
  slices_json (x ∷ xs) = cons (slice_json x) (slices_json xs)

  abbrev report_json : FrozenValidationReport W → Json
  report_json r = object (
      field "criteria_hash" (text r.criteria_hash) (
        field "data_manifest_hash" (text r.data_manifest_hash) (
          field "holdout_manifest_hash" (text r.holdout_manifest_hash) (
            field "evaluated_at" (instant r.evaluated_at) (
              field "slices" (list (slices_json r.slices)) (
                field "passed" (flag r.passed)
                  (field "failures" (list (texts_json r.failures)) end)))))))

  abbrev pub report_hash_of : Platform → FrozenValidationReport W → String
  report_hash_of py r = (freeze_snapshot py (report_json r)).snapshot_id

  -- `FrozenValidationReport.verify`
  unfoldable pub verify_report :
      Platform → FrozenValidationReport W → Result PromotionError (Unit {0})
  unfolding freeze_snapshot
  verify_report py r = refuse_if (not (r.report_hash == report_hash_of py r)) report_hash_mismatch

  -- The failures of one required slice, by the evidence for it.
  unfoldable pub slice_failures :
      PromotionCriteria W → String → Option (ValidationSliceEvidence W) → List String
  slice_failures c prefix none = text_append prefix ":MISSING_SLICE" ∷ []
  slice_failures c prefix (some x) =
      failed_if (ltb x.sample_count c.minimum_samples_per_slice)
        (text_append prefix ":INSUFFICIENT_SAMPLES")
      ++ failed_if (f.lt c.maximum_expiry_cross_rate x.expiry_cross_rate)
          (text_append prefix ":EXPIRY_CROSS_EXCEEDED")
      ++ failed_if (f.lt c.maximum_touch_rate x.touch_rate)
          (text_append prefix ":TOUCH_RATE_EXCEEDED")
      ++ failed_if (f.lt c.maximum_cvar x.cvar) (text_append prefix ":CVAR_EXCEEDED")
      ++ failed_if (f.lt c.maximum_drawdown x.maximum_drawdown)
          (text_append prefix ":DRAWDOWN_EXCEEDED")
      ++ failed_if (f.lt x.no_trade_pnl_difference c.minimum_no_trade_pnl_difference)
          (text_append prefix ":NO_TRADE_EFFECT_BELOW_MINIMUM")

  -- The loop over the required slices.
  unfoldable pub all_failures :
      PromotionCriteria W
      → Dict (String × String) (ValidationSliceEvidence W)
      → List (String × String)
      → List String
  unfolding slice_failures
  all_failures c evidence [] = []
  all_failures c evidence ((event_type, regime) ∷ ks) =
      slice_failures c (text_append event_type (text_append "/" regime))
        (get evidence (event_type, regime))
      ++ all_failures c evidence ks

  unfoldable pub report_of :
      Platform → PromotionCriteria W → GateRequest W → ℕ → FrozenValidationReport W
  unfolding all_failures by_key
  report_of py c q evaluated =
      let failures = all_failures c (by_key q.slices []) c.required_slices in
      let candidate : FrozenValidationReport W = record {
        criteria_hash = c.criteria_hash;
        data_manifest_hash = q.data_manifest_hash;
        holdout_manifest_hash = q.holdout_manifest_hash;
        evaluated_at = evaluated;
        slices = sort slice_key q.slices;
        passed = is_empty failures;
        failures = sort (λ s. s) failures;
        report_hash = "";
      } in
      record candidate { report_hash = report_hash_of py candidate }

  -- The checks of `evaluate_promotion_gate`, and its report.
  unfoldable pub report_at :
      Platform
      → PromotionCriteria W
      → GateRequest W
      → ℕ
      → ℕ
      → Result PromotionError (FrozenValidationReport W)
  unfolding report_of verify_report
  report_at py c q frozen evaluated = do
    refuse_if (is_blank q.data_manifest_hash || is_blank q.holdout_manifest_hash)
        manifest_hashes_required
    refuse_if (leb frozen c.registered_at) frozen_before_registration
    refuse_if (leb evaluated frozen) evaluated_before_freeze
    refuse_if (not (is_unique (map slice_key q.slices))) slice_keys_must_be_unique
    let report = report_of py c q evaluated
    verify_report py report
    ok report

  unfoldable pub evaluate_promotion_gate :
      Platform
      → PromotionCriteria W
      → GateRequest W
      → Result PromotionError (FrozenValidationReport W)
  unfolding verify report_at
  evaluate_promotion_gate py c q = do
    verify f py c
    frozen ← aware_utc q.holdout_frozen_at "holdout_frozen_at"
    evaluated ← aware_utc q.evaluated_at "evaluated_at"
    report_at py c q frozen evaluated
