-- ===== src/Promotion/Criteria.antt =====
-- validation/promotion_gate.py: the criteria and the evidence of a slice. A float is of the parameter
-- `Floats`; the counts are at least 0.
use marketpilot.Base.{
  text_key, pair_key, Bool, Datetime, List, Result, String, [], any, aware, contains, err, false,
  is_blank, naive, nat_eq, not, ok, true, ℕ, ◌&&◌, ◌==◌, ◌||◌, ◌∷◌,
}
use marketpilot.Base.Fallible.{◌>>=◌, ◌>>◌, refuse_if}
use marketpilot.Domain.Snapshot.{
  Items, Json, Platform, cons, end, field, float, freeze_snapshot, instant, list, nil, number,
  object, text,
}

-- What the code does with a float.
pub record Floats (W : Type 0) : Type 0 where
  pub zero : W
  pub one : W
  pub lt : W → W → Bool
  pub le : W → W → Bool
  -- `math.isfinite`
  pub is_finite : W → Bool
  pub repr : W → String

pub data PromotionError : Type 0 where
  must_be_timezone_aware : String → PromotionError
  must_be_finite : String → PromotionError
  id_and_version_required : PromotionError
  slices_must_be_unique : PromotionError
  slice_values_must_not_be_blank : PromotionError
  minimum_must_be_positive : PromotionError
  must_be_a_rate : String → PromotionError
  must_not_be_negative : String → PromotionError
  criteria_hash_mismatch : PromotionError
  event_type_and_regime_required : PromotionError
  rates_must_be_rates : PromotionError
  risks_must_not_be_negative : PromotionError
  report_hash_mismatch : PromotionError
  manifest_hashes_required : PromotionError
  frozen_before_registration : PromotionError
  evaluated_before_freeze : PromotionError
  slice_keys_must_be_unique : PromotionError

pub record PromotionCriteria (W : Type 0) : Type 0 where
  pub criteria_id : String
  pub version : String
  pub registered_at : ℕ
  pub required_slices : List (String × String)
  pub minimum_samples_per_slice : ℕ
  pub maximum_expiry_cross_rate : W
  pub maximum_touch_rate : W
  pub maximum_cvar : W
  pub maximum_drawdown : W
  pub minimum_no_trade_pnl_difference : W
  pub criteria_hash : String

pub record ValidationSliceEvidence (W : Type 0) : Type 0 where
  pub event_type : String
  pub regime : String
  pub sample_count : ℕ
  pub expiry_cross_rate : W
  pub touch_rate : W
  pub cvar : W
  pub maximum_drawdown : W
  pub no_trade_pnl_difference : W

abbrev pub slice_key : {W : Type 0} → ValidationSliceEvidence W → String × String
slice_key x = (x.event_type, x.regime)

-- `_aware_utc`
abbrev pub aware_utc : Datetime → String → Result PromotionError ℕ
aware_utc (naive _) name = err (must_be_timezone_aware name)
aware_utc (aware t) name = ok t

-- `len(set(keys)) == len(keys)`
abbrev pub is_unique : List (String × String) → Bool
is_unique [] = true
is_unique (k ∷ ks) = not (contains k ks) && is_unique ks

abbrev is_empty : List (String × String) → Bool
is_empty [] = true
is_empty (_ ∷ _) = false

abbrev pair_json : String × String → Json
pair_json (a, b) = list (cons (text a) (cons (text b) nil))

abbrev pairs_json : List (String × String) → Items
pairs_json [] = nil
pairs_json (k ∷ ks) = cons (pair_json k) (pairs_json ks)

module _ {W : Type 0} (f : Floats W) where
  abbrev finite : W → String → Result PromotionError (Unit {0})
  finite x name = refuse_if (not (f.is_finite x)) (must_be_finite name)

  abbrev is_rate : W → Bool
  is_rate x = f.le f.zero x && f.le x f.one

  abbrev pub float_json : W → Json
  float_json x = float (f.repr x)

  -- `ValidationSliceEvidence.__post_init__`
  unfoldable pub check_slice : ValidationSliceEvidence W → Result PromotionError (Unit {0})
  check_slice x = do
    refuse_if (is_blank x.event_type || is_blank x.regime) event_type_and_regime_required
    finite x.expiry_cross_rate "expiry_cross_rate"
    finite x.touch_rate "touch_rate"
    finite x.cvar "cvar"
    finite x.maximum_drawdown "maximum_drawdown"
    finite x.no_trade_pnl_difference "no_trade_pnl_difference"
    refuse_if (not (is_rate x.expiry_cross_rate) || not (is_rate x.touch_rate)) rates_must_be_rates
    refuse_if (f.lt x.cvar f.zero || f.lt x.maximum_drawdown f.zero) risks_must_not_be_negative

  -- `PromotionCriteria._validate_fields`
  unfoldable pub validate_fields : PromotionCriteria W → Result PromotionError (Unit {0})
  validate_fields c = do
    refuse_if (is_blank c.criteria_id || is_blank c.version) id_and_version_required
    refuse_if (is_empty c.required_slices || not (is_unique c.required_slices))
        slices_must_be_unique
    refuse_if (any (λ (k : String × String). is_blank k.0 || is_blank k.1) c.required_slices)
        slice_values_must_not_be_blank
    refuse_if (nat_eq c.minimum_samples_per_slice 0) minimum_must_be_positive
    finite c.maximum_expiry_cross_rate "maximum_expiry_cross_rate"
    refuse_if (not (is_rate c.maximum_expiry_cross_rate))
        (must_be_a_rate "maximum_expiry_cross_rate")
    finite c.maximum_touch_rate "maximum_touch_rate"
    refuse_if (not (is_rate c.maximum_touch_rate)) (must_be_a_rate "maximum_touch_rate")
    finite c.maximum_cvar "maximum_cvar"
    refuse_if (f.lt c.maximum_cvar f.zero) (must_not_be_negative "maximum_cvar")
    finite c.maximum_drawdown "maximum_drawdown"
    refuse_if (f.lt c.maximum_drawdown f.zero) (must_not_be_negative "maximum_drawdown")

  abbrev pub criteria_json : PromotionCriteria W → Json
  criteria_json c = object (
      field "criteria_id" (text c.criteria_id) (
        field "version" (text c.version) (
          field "registered_at" (instant c.registered_at) (
            field "required_slices" (list (pairs_json c.required_slices)) (
              field "minimum_samples_per_slice" (number c.minimum_samples_per_slice) (
                field "maximum_expiry_cross_rate" (float_json c.maximum_expiry_cross_rate) (
                  field "maximum_touch_rate" (float_json c.maximum_touch_rate) (
                    field "maximum_cvar" (float_json c.maximum_cvar) (
                      field "maximum_drawdown" (float_json c.maximum_drawdown) (
                        field "minimum_no_trade_pnl_difference"
                          (float_json c.minimum_no_trade_pnl_difference) end))))))))))

  -- `PromotionCriteria._calculated_hash`
  abbrev pub calculated_hash : Platform → PromotionCriteria W → String
  calculated_hash py c = (freeze_snapshot py (criteria_json c)).snapshot_id

  -- `PromotionCriteria.create`, of criteria but for the instant and the hash
  unfoldable pub create :
      Platform → PromotionCriteria W → Datetime → Result PromotionError (PromotionCriteria W)
  unfolding validate_fields freeze_snapshot
  create py c registered_at = do
    registered ← aware_utc registered_at "registered_at"
    finite c.maximum_expiry_cross_rate "maximum_expiry_cross_rate"
    finite c.maximum_touch_rate "maximum_touch_rate"
    finite c.maximum_cvar "maximum_cvar"
    finite c.maximum_drawdown "maximum_drawdown"
    finite c.minimum_no_trade_pnl_difference "minimum_no_trade_pnl_difference"
    let candidate : PromotionCriteria W = record c {
      registered_at = registered;
      criteria_hash = "";
    }
    validate_fields candidate
    ok (record candidate { criteria_hash = calculated_hash py candidate })

  -- `PromotionCriteria.verify`
  unfoldable pub verify : Platform → PromotionCriteria W → Result PromotionError (Unit {0})
  unfolding validate_fields
  verify py c = do
    validate_fields c
    refuse_if (not (c.criteria_hash == calculated_hash py c)) criteria_hash_mismatch
