-- ===== src/Quality/Observations.antt =====
-- domain/data_quality.py: quotes, the policy and the report. `decimal.Decimal` is Python's standard
-- library, hence a parameter.
use marketpilot.Base.{
  text_key, Bool, Datetime, Dict, List, Option, Result, String, [], aware, err, if◌then◌else◌,
  is_blank, is_some, ltb, naive, none, not, ok, some, ℕ, ◌&&◌, ◌==◌, ◌||◌, ◌∷◌,
}
use marketpilot.Base.Fallible.{◌>>=◌, ◌>>◌, refuse_if}
use marketpilot.Decision.{DataQuality, is_green}

-- What the code does with a `Decimal`.
pub record Decimals (W : Type 0) : Type 0 where
  pub zero : W
  pub lt : W → W → Bool
  pub is_zero : W → Bool
  pub add : W → W → W
  pub subtract : W → W → W
  pub multiply : W → W → W
  -- `/ Decimal(2)`
  pub halve : W → W
  pub abs : W → W

pub data EntitlementStatus : Type 0 where
  verified denied unknown : EntitlementStatus

pub record QuoteObservation (W : Type 0) : Type 0 where
  pub source : String
  pub instrument_id : String
  pub source_ts : ℕ
  pub received_ts : ℕ
  pub delayed : Option Bool
  pub entitlement : EntitlementStatus
  pub bid : Option W
  pub ask : Option W
  pub bid_size : Option W
  pub ask_size : Option W
  pub field_timestamps : Dict String ℕ

pub data QualityError : Type 0 where
  source_and_instrument_required : QualityError
  must_be_timezone_aware : String → QualityError
  field_names_must_not_be_blank : QualityError
  amber_below_green : QualityError
  negative_tolerance : QualityError

abbrev require_aware : String → Datetime → Result QualityError ℕ
require_aware name (naive t) = err (must_be_timezone_aware name)
require_aware name (aware t) = ok t

-- The loop over the field timestamps.
unfoldable pub aware_fields : Dict String Datetime → Result QualityError (Dict String ℕ)
aware_fields [] = ok []
aware_fields ((name, timestamp) ∷ rest) = do
  refuse_if (is_blank name) field_names_must_not_be_blank
  t ← require_aware name timestamp
  ts ← aware_fields rest
  ok ((name, t) ∷ ts)

-- `QuoteObservation.__post_init__`, of an observation but for its instants
unfoldable pub make_observation :
    {W : Type 0}
    → QuoteObservation W
    → Datetime
    → Datetime
    → Dict String Datetime
    → Result QualityError (QuoteObservation W)
unfolding aware_fields
make_observation o source_ts received_ts field_timestamps = do
  refuse_if (is_blank o.source || is_blank o.instrument_id) source_and_instrument_required
  s ← require_aware "source_ts" source_ts
  r ← require_aware "received_ts" received_ts
  ts ← aware_fields field_timestamps
  ok (record o { source_ts = s; received_ts = r; field_timestamps = ts })

pub record QualityPolicy (W : Type 0) : Type 0 where
  pub green_max_age : ℕ
  pub amber_max_age : ℕ
  pub max_receive_latency : ℕ
  pub conflict_absolute_tolerance : W
  pub conflict_relative_tolerance : W
  pub require_two_sources : Bool
  pub required_fields : List String

-- `QualityPolicy.__post_init__`, of durations that are not negative
unfoldable pub check_policy :
    {W : Type 0} → Decimals W → QualityPolicy W → Result QualityError (Unit {0})
check_policy d p = do
  refuse_if (ltb p.amber_max_age p.green_max_age) amber_below_green
  refuse_if (d.lt p.conflict_absolute_tolerance d.zero || d.lt p.conflict_relative_tolerance d.zero)
      negative_tolerance

-- What is wrong with one source: a constructor in place of its text.
pub data Flaw : Type 0 where
  entitlement_is : EntitlementStatus → Flaw
  delay_unknown is_delayed received_before_source latency_exceeded : Flaw
  missing missing_timestamp after_receipt stale future_timestamp : String → Flaw
  observation_stale negative_value empty_size crossed_quote : Flaw

pub data Reason : Type 0 where
  no_sources duplicate_source second_source_missing : Reason
  instruments_differ dual_source_conflict : Reason
  flaw : String → Flaw → Reason

-- Reasons and stale fields in the order of the code's `add`, in place of a sorted set.
pub record FeedQualityReport : Type 0 where
  pub status : DataQuality
  pub freeze : Bool
  pub reasons : List Reason
  pub stale_fields : List (String × String)
  pub sources : List String
  pub observed_at : ℕ

-- `FeedQualityReport.permits_decision`
abbrev pub permits_decision : FeedQualityReport → Bool
permits_decision r = is_green r.status && not r.freeze

module _ {W : Type 0} (d : Decimals W) where
  abbrev middle : Option W → Option W → Option W
  middle (some bid) (some ask) = some (d.halve (d.add bid ask))
  middle _ _ = none

  -- `midpoint`
  abbrev pub midpoint : QuoteObservation W → Option W
  midpoint o = middle o.bid o.ask

  -- `getattr(observation, name, None) is not None`, of the names of the data
  unfoldable pub has_attribute : QuoteObservation W → String → Bool
  has_attribute o name =
      if name == "bid"
      then is_some o.bid
      else if name == "ask"
      then is_some o.ask
      else if name == "bid_size"
      then is_some o.bid_size
      else if name == "ask_size"
      then is_some o.ask_size
      else if name == "delayed"
      then is_some o.delayed
      else if name == "midpoint"
      then is_some (midpoint o)
      else (name == "source"
          || name == "instrument_id"
          || name == "source_ts"
          || name == "received_ts"
          || name == "entitlement"
          || name == "field_timestamps")
