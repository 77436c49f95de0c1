-- ===== src/Quality/Evaluator.antt =====
-- domain/data_quality.py: `class QuoteQualityEvaluator`.
use marketpilot.Base.{
  text_key, text_order, Bool, Datetime, List, Option, Result, String, [], aware, contains, err,
  false, get, if◌then◌else◌, leb, length, ltb, map, max, naive, nat_eq, none, not, ok, some, sort,
  true, ℕ, ◌&&◌, ◌-◌, ◌||◌, ◌∷◌,
}
use marketpilot.Decision.{DataQuality, green, amber, red}
use marketpilot.Quality.Observations.{
  Decimals, EntitlementStatus, FeedQualityReport, QualityError, QualityPolicy, QuoteObservation,
  Reason, has_attribute, midpoint, after_receipt, crossed_quote, delay_unknown,
  dual_source_conflict, duplicate_source, empty_size, entitlement_is, flaw, future_timestamp,
  instruments_differ, is_delayed, latency_exceeded, missing, missing_timestamp,
  must_be_timezone_aware, negative_value, no_sources, observation_stale, received_before_source,
  second_source_missing, stale, verified,
}

-- The variables of `evaluate`.
pub record Tally : Type 0 where
  pub reasons : List Reason
  pub stale_fields : List (String × String)
  pub worst_age : ℕ
  pub amber_age : Bool

abbrev pub no_tally : Tally
no_tally = record { reasons = []; stale_fields = []; worst_age = 0; amber_age = false }

abbrev pub add_reason : Reason → Tally → Tally
add_reason r t = record t { reasons = r ∷ t.reasons }

-- `if c: reasons.add(r)`
unfoldable pub add_if : Bool → Reason → Tally → Tally
add_if c r t = if c then add_reason r t else t

-- `{x for x in xs}`
unfoldable pub distinct : List String → List String
distinct [] = []
distinct (x ∷ xs) = let rest = distinct xs in if contains x rest then rest else x ∷ rest

abbrev pub is_verified : EntitlementStatus → Bool
is_verified verified = true
is_verified _ = false

-- The two tests of `delayed`.
abbrev delay : String → Option Bool → Tally → Tally
delay source none t = add_reason (flaw source delay_unknown) t
delay source (some true) t = add_reason (flaw source is_delayed) t
delay source (some false) t = t

-- `_age`: its result, and the reason that it adds
abbrev pub age_of : ℕ → ℕ → ℕ
age_of as_of timestamp = as_of - timestamp

abbrev pub age_reason : ℕ → ℕ → String → String → Tally → Tally
age_reason as_of timestamp source name t =
    add_if (ltb as_of timestamp) (flaw source (future_timestamp name)) t

abbrev pub see_age : ℕ → Tally → Tally
see_age age t = record t { worst_age = max t.worst_age age }

abbrev pub see_stale : Bool → String → String → Tally → Tally
see_stale c source name t =
    if c then record t { stale_fields = (source, name) ∷ t.stale_fields } else t

abbrev pub see_amber : Bool → Tally → Tally
see_amber c t = if c then record t { amber_age = true } else t

module _ {W : Type 0} (d : Decimals W) (p : QualityPolicy W) where
  -- One turn of the loop over the required fields, where the field has a timestamp.
  unfoldable pub timed_field : ℕ → QuoteObservation W → String → ℕ → Tally → Tally
  unfolding add_if
  timed_field as_of o name ts t0 =
      let t1 = add_if (ltb o.received_ts ts) (flaw o.source (after_receipt name)) t0 in
      let age = age_of as_of ts in
      let t2 = see_age age (age_reason as_of ts o.source name t1) in
      let t3 = see_stale (ltb p.green_max_age age) o.source name t2 in
      let t4 = see_amber (ltb p.green_max_age age && leb age p.amber_max_age) t3 in
      add_if (ltb p.amber_max_age age) (flaw o.source (stale name)) t4

  -- `if timestamp is None: ...; continue`
  unfoldable pub field_at : ℕ → QuoteObservation W → String → Option ℕ → Tally → Tally
  unfolding timed_field
  field_at as_of o name none t = add_reason (flaw o.source (missing_timestamp name)) t
  field_at as_of o name (some ts) t = timed_field as_of o name ts t

  unfoldable pub see_field : ℕ → QuoteObservation W → String → Tally → Tally
  unfolding field_at add_if has_attribute
  see_field as_of o name t =
      field_at as_of o name (get o.field_timestamps name)
        (add_if (not (has_attribute d o name)) (flaw o.source (missing name)) t)

  unfoldable pub see_fields : ℕ → QuoteObservation W → List String → Tally → Tally
  unfolding see_field
  see_fields as_of o [] t = t
  see_fields as_of o (name ∷ names) t = see_fields as_of o names (see_field as_of o name t)

  abbrev pub is_negative : Option W → Bool
  is_negative none = false
  is_negative (some v) = d.lt v d.zero

  abbrev pub is_zero_size : Option W → Bool
  is_zero_size none = false
  is_zero_size (some v) = d.is_zero v

  abbrev pub is_crossed : Option W → Option W → Bool
  is_crossed (some bid) (some ask) = d.lt ask bid
  is_crossed _ _ = false

  -- `_validate_quote`
  unfoldable pub validate_quote : QuoteObservation W → Tally → Tally
  unfolding add_if
  validate_quote o t0 =
      let t1 =
        add_if
          (is_negative o.bid
            || is_negative o.ask
            || is_negative o.bid_size
            || is_negative o.ask_size)
          (flaw o.source negative_value) t0 in
      let t2 =
        add_if (is_zero_size o.bid_size || is_zero_size o.ask_size) (flaw o.source empty_size) t1 in
      add_if (is_crossed o.bid o.ask) (flaw o.source crossed_quote) t2

  -- The loop's body before the required fields.
  unfoldable pub see_receipt : QuoteObservation W → Tally → Tally
  unfolding add_if
  see_receipt o t0 =
      let t1 =
        add_if (not (is_verified o.entitlement)) (flaw o.source (entitlement_is o.entitlement))
          t0 in
      let t2 = delay o.source o.delayed t1 in
      if ltb o.received_ts o.source_ts
      then add_reason (flaw o.source received_before_source) t2
      else add_if (ltb p.max_receive_latency (o.received_ts - o.source_ts))
          (flaw o.source latency_exceeded) t2

  -- The loop's body after the required fields.
  unfoldable pub see_ages : ℕ → QuoteObservation W → Tally → Tally
  unfolding add_if
  see_ages as_of o t0 =
      let oldest = max (age_of as_of o.source_ts) (age_of as_of o.received_ts) in
      let t1 =
        age_reason as_of o.received_ts o.source "received_ts"
          (age_reason as_of o.source_ts o.source "source_ts" t0) in
      let t2 = see_age (age_of as_of o.received_ts) (see_age (age_of as_of o.source_ts) t1) in
      let t3 = see_amber (ltb p.green_max_age oldest) t2 in
      add_if (ltb p.amber_max_age oldest) (flaw o.source observation_stale) t3

  unfoldable pub see_observation : ℕ → QuoteObservation W → Tally → Tally
  unfolding see_receipt see_fields see_ages validate_quote
  see_observation as_of o t =
      validate_quote o (see_ages as_of o (see_fields as_of o p.required_fields (see_receipt o t)))

  unfoldable pub see_observations : ℕ → List (QuoteObservation W) → Tally → Tally
  unfolding see_observation
  see_observations as_of [] t = t
  see_observations as_of (o ∷ os) t = see_observations as_of os (see_observation as_of o t)

  abbrev both : Option W → Option (List W) → Option (List W)
  both (some m) (some ms) = some (m ∷ ms)
  both _ _ = none

  -- `[item.midpoint for item in observations]`, or `none` where one is missing
  unfoldable pub midpoints : List (QuoteObservation W) → Option (List W)
  midpoints [] = some []
  midpoints (o ∷ os) = both (midpoint d o) (midpoints os)

  abbrev least : W → List W → W
  least low [] = low
  least low (m ∷ ms) = least (if d.lt m low then m else low) ms

  abbrev greatest : W → List W → W
  greatest high [] = high
  greatest high (m ∷ ms) = greatest (if d.lt high m then m else high) ms

  abbrev spread_exceeded : W → W → Bool
  spread_exceeded low high =
      let relative = d.multiply (d.abs low) p.conflict_relative_tolerance in
      let allowed =
        if d.lt p.conflict_absolute_tolerance relative
        then relative
        else p.conflict_absolute_tolerance in
      d.lt allowed (d.subtract high low)

  abbrev pub conflict_among : Option (List W) → Bool
  conflict_among none = false
  conflict_among (some []) = false
  conflict_among (some (m ∷ ms)) = spread_exceeded (least m ms) (greatest m ms)

  -- `_has_conflict`
  unfoldable pub has_conflict : List (QuoteObservation W) → Bool
  unfolding midpoints
  has_conflict os = if ltb (length os) 2 then false else conflict_among (midpoints os)

  abbrev pub sources_of : List (QuoteObservation W) → List String
  sources_of os = distinct (map (λ (o : QuoteObservation W). o.source) os)

  abbrev pub instruments_of : List (QuoteObservation W) → List String
  instruments_of os = distinct (map (λ (o : QuoteObservation W). o.instrument_id) os)

  -- The tests before the loop.
  unfoldable pub see_sources : List (QuoteObservation W) → Tally
  unfolding add_if distinct
  see_sources os =
      let n = length (sources_of os) in
      let t1 = add_if (nat_eq (length os) 0) no_sources no_tally in
      let t2 = add_if (not (nat_eq n (length os))) duplicate_source t1 in
      let t3 = add_if (p.require_two_sources && ltb n 2) second_source_missing t2 in
      add_if (ltb 1 (length (instruments_of os))) instruments_differ t3

  abbrev pub status_of : Tally → DataQuality
  status_of t =
      if not (nat_eq (length t.reasons) 0)
      then red
      else if t.amber_age || ltb p.green_max_age t.worst_age
      then amber
      else green

  abbrev is_red : DataQuality → Bool
  is_red red = true
  is_red _ = false

  -- The end of `evaluate`.
  unfoldable pub report_of : ℕ → List (QuoteObservation W) → Bool → Tally → FeedQualityReport
  unfolding add_if distinct
  report_of as_of os conflict t0 =
      let t = add_if conflict dual_source_conflict t0 in
      record {
        status = status_of t;
        freeze = conflict || is_red (status_of t);
        reasons = t.reasons;
        stale_fields = t.stale_fields;
        sources = sort (λ (s : String). s) (sources_of os);
        observed_at = as_of;
      }

  unfoldable pub evaluate_at : ℕ → List (QuoteObservation W) → FeedQualityReport
  unfolding see_sources see_observations has_conflict report_of
  evaluate_at as_of os =
      report_of as_of os (has_conflict os) (see_observations as_of os (see_sources os))

  unfoldable pub evaluate :
      List (QuoteObservation W) → Datetime → Result QualityError FeedQualityReport
  unfolding evaluate_at
  evaluate os (naive t) = err (must_be_timezone_aware "as_of")
  evaluate os (aware t) = ok (evaluate_at t os)
