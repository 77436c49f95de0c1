-- ===== src/Quality/Tallies.antt =====
-- When a tally raises nothing, step by step of the evaluator.
use marketpilot.Base.{
  text_key, Bool, List, Option, Option-cases, String, [], all, ap, arith, false, get, leb, length,
  ltb, nat_eq, none, not, refl, some, true, ℕ, ◌&&◌, ◌+◌, ◌||◌, ◌∙◌, ◌∷◌, ◌≡◌,
}
use marketpilot.Quality.Observations.{
  Decimals, QualityPolicy, QuoteObservation, Reason, has_attribute, permits_decision, flaw,
  negative_value, empty_size, crossed_quote, no_sources, duplicate_source, second_source_missing,
  instruments_differ,
}
use marketpilot.Quality.Evaluator.{
  evaluate_at, report_of, no_tally, see_sources, has_conflict, sources_of, instruments_of, Tally,
  add_if, field_at, is_crossed, is_negative, is_verified, is_zero_size, see_ages, see_field,
  see_fields, see_observation, see_observations, see_receipt, timed_field, validate_quote,
}

shuffle : (a b c : Bool) → (a && (not (not b) && c)) ≡ ((b && a) && c)
shuffle a b c = ground arith

and_swap : (a b c : Bool) → (a && (b && c)) ≡ ((b && a) && c)
and_swap a b c = ground arith

nest : (a b c q : Bool) → (c && (b && (a && q))) ≡ ((a && (b && c)) && q)
nest a b c q = ground arith

unnest :
    (a b c e q : Bool)
    → q ≡ true
    → (not e && ((not a && (not (not b) && not c)) && q)) ≡ (not a && (b && (not c && not e)))
unnest a b c e q h = ground arith

reorder : (a b c e q : Bool) → (a && (b && (c && (e && q)))) ≡ ((e && (c && (b && a))) && q)
reorder a b c e q = ground arith

abbrev pub is_prompt : Option Bool → Bool
is_prompt (some false) = true
is_prompt _ = false

module _ {W : Type 0} (d : Decimals W) (p : QualityPolicy W) where
  -- No reason, and no age above the green limit.
  abbrev pub quiet : Tally → Bool
  quiet t = nat_eq (length t.reasons) 0 && (not t.amber_age && leb t.worst_age p.green_max_age)

  quiet-add_if : (c : Bool) (r : Reason) (t : Tally) → quiet (add_if c r t) ≡ (not c && quiet t)
  unfolding add_if
  quiet-add_if true r t = ground arith
  quiet-add_if false r t = ground arith

  quiet-three :
      (a b c : Bool) (r r' r'' : Reason) (t : Tally)
      → quiet (add_if c r'' (add_if b r' (add_if a r t))) ≡ ((not a && (not b && not c)) && quiet t)
  quiet-three a b c r r' r'' t =
      quiet-add_if c r'' (add_if b r' (add_if a r t))
      ∙ ap (λ x. not c && x)
          (quiet-add_if b r' (add_if a r t) ∙ ap (λ x. not b && x) (quiet-add_if a r t))
      ∙ nest (not a) (not b) (not c) (quiet t)

  -- An instant that is not after the evaluation, and not older than the green limit.
  abbrev pub is_recent : ℕ → ℕ → Bool
  is_recent as_of ts = leb ts as_of && leb as_of (ts + p.green_max_age)

  abbrev pub time_ok : ℕ → QuoteObservation W → Option ℕ → Bool
  time_ok as_of o none = false
  time_ok as_of o (some ts) = leb ts o.received_ts && is_recent as_of ts

  abbrev pub field_ok : ℕ → QuoteObservation W → String → Bool
  field_ok as_of o name = has_attribute d o name && time_ok as_of o (get o.field_timestamps name)

  quiet-timed_field :
      (as_of : ℕ) (o : QuoteObservation W) (name : String) (ts : ℕ) (t : Tally)
      → leb p.green_max_age p.amber_max_age ≡ true
      → quiet (timed_field d p as_of o name ts t) ≡ (time_ok as_of o (some ts) && quiet t)
  unfolding timed_field
  quiet-timed_field as_of o name ts t h = ground arith

  quiet-field_at :
      (as_of : ℕ) (o : QuoteObservation W) (name : String) (ts : Option ℕ) (t : Tally)
      → leb p.green_max_age p.amber_max_age ≡ true
      → quiet (field_at d p as_of o name ts t) ≡ (time_ok as_of o ts && quiet t)
  unfolding field_at
  quiet-field_at as_of o name none t h = ground arith
  quiet-field_at as_of o name (some ts) t h = quiet-timed_field as_of o name ts t h

  quiet-see_field :
      (as_of : ℕ) (o : QuoteObservation W) (name : String) (t : Tally)
      → leb p.green_max_age p.amber_max_age ≡ true
      → quiet (see_field d p as_of o name t) ≡ (field_ok as_of o name && quiet t)
  unfolding see_field
  quiet-see_field as_of o name t h =
      quiet-field_at as_of o name (get o.field_timestamps name) _ h
      ∙ ap (λ b. time_ok as_of o (get o.field_timestamps name) && b)
          (quiet-add_if (not (has_attribute d o name)) _ t)
      ∙ shuffle (time_ok as_of o (get o.field_timestamps name)) (has_attribute d o name) (quiet t)

  quiet-see_fields :
      (as_of : ℕ) (o : QuoteObservation W) (names : List String) (t : Tally)
      → leb p.green_max_age p.amber_max_age ≡ true
      → quiet (see_fields d p as_of o names t) ≡ (all (field_ok as_of o) names && quiet t)
  unfolding see_fields
  quiet-see_fields as_of o [] t h = refl
  quiet-see_fields as_of o (name ∷ names) t h =
      quiet-see_fields as_of o names (see_field d p as_of o name t) h
      ∙ ap (λ b. all (field_ok as_of o) names && b) (quiet-see_field as_of o name t h)
      ∙ and_swap (all (field_ok as_of o) names) (field_ok as_of o name) (quiet t)

  abbrev pub receipt_ok : QuoteObservation W → Bool
  receipt_ok o =
      is_verified o.entitlement
      && (is_prompt o.delayed
          && (leb o.source_ts o.received_ts
              && leb o.received_ts (o.source_ts + p.max_receive_latency)))

  quiet-see_receipt :
      (o : QuoteObservation W) (t : Tally) → quiet (see_receipt d p o t) ≡ (receipt_ok o && quiet t)
  unfolding see_receipt
  quiet-see_receipt o t = ground (arith, Option-cases o.delayed)

  abbrev pub ages_ok : ℕ → QuoteObservation W → Bool
  ages_ok as_of o = is_recent as_of o.source_ts && is_recent as_of o.received_ts

  quiet-see_ages :
      (as_of : ℕ) (o : QuoteObservation W) (t : Tally)
      → leb p.green_max_age p.amber_max_age ≡ true
      → quiet (see_ages d p as_of o t) ≡ (ages_ok as_of o && quiet t)
  unfolding see_ages
  quiet-see_ages as_of o t h = ground arith

  abbrev pub quote_ok : QuoteObservation W → Bool
  quote_ok o =
      not (
        is_negative d p o.bid
        || is_negative d p o.ask
        || is_negative d p o.bid_size
        || is_negative d p o.ask_size)
      && (not (is_zero_size d p o.bid_size || is_zero_size d p o.ask_size)
          && not (is_crossed d p o.bid o.ask))

  quiet-validate_quote :
      (o : QuoteObservation W) (t : Tally)
      → quiet (validate_quote d p o t) ≡ (quote_ok o && quiet t)
  unfolding validate_quote
  quiet-validate_quote o t =
      quiet-three
        (is_negative d p o.bid
          || is_negative d p o.ask
          || is_negative d p o.bid_size
          || is_negative d p o.ask_size)
        (is_zero_size d p o.bid_size || is_zero_size d p o.ask_size) (is_crossed d p o.bid o.ask)
        (flaw o.source negative_value) (flaw o.source empty_size) (flaw o.source crossed_quote) t

  abbrev pub observation_ok : ℕ → QuoteObservation W → Bool
  observation_ok as_of o =
      receipt_ok o && (all (field_ok as_of o) p.required_fields && (ages_ok as_of o && quote_ok o))

  quiet-see_observation :
      (as_of : ℕ) (o : QuoteObservation W) (t : Tally)
      → leb p.green_max_age p.amber_max_age ≡ true
      → quiet (see_observation d p as_of o t) ≡ (observation_ok as_of o && quiet t)
  unfolding see_observation
  quiet-see_observation as_of o t h =
      let received = see_receipt d p o t in
      let fielded = see_fields d p as_of o p.required_fields received in
      quiet-validate_quote o (see_ages d p as_of o fielded)
      ∙ ap (λ b. quote_ok o && b)
          (quiet-see_ages as_of o fielded h
            ∙ ap (λ b. ages_ok as_of o && b)
                (quiet-see_fields as_of o p.required_fields received h
                  ∙ ap (λ b. all (field_ok as_of o) p.required_fields && b)
                      (quiet-see_receipt o t)))
      ∙ reorder (quote_ok o) (ages_ok as_of o) (all (field_ok as_of o) p.required_fields)
          (receipt_ok o) (quiet t)

  quiet-see_observations :
      (as_of : ℕ) (os : List (QuoteObservation W)) (t : Tally)
      → leb p.green_max_age p.amber_max_age ≡ true
      → quiet (see_observations d p as_of os t) ≡ (all (observation_ok as_of) os && quiet t)
  unfolding see_observations
  quiet-see_observations as_of [] t h = refl
  quiet-see_observations as_of (o ∷ os) t h =
      quiet-see_observations as_of os (see_observation d p as_of o t) h
      ∙ ap (λ b. all (observation_ok as_of) os && b) (quiet-see_observation as_of o t h)
      ∙ and_swap (all (observation_ok as_of) os) (observation_ok as_of o) (quiet t)

  abbrev pub sources_ok : List (QuoteObservation W) → Bool
  sources_ok os =
      not (nat_eq (length os) 0)
      && (nat_eq (length (sources_of d p os)) (length os)
          && (not (p.require_two_sources && ltb (length (sources_of d p os)) 2)
              && not (ltb 1 (length (instruments_of d p os)))))

  quiet-no_tally : quiet no_tally ≡ true
  quiet-no_tally = ground arith

  quiet-see_sources : (os : List (QuoteObservation W)) → quiet (see_sources d p os) ≡ sources_ok os
  unfolding see_sources
  quiet-see_sources os =
      quiet-add_if (ltb 1 (length (instruments_of d p os))) instruments_differ _
      ∙ ap (λ b. not (ltb 1 (length (instruments_of d p os))) && b)
          (quiet-three (nat_eq (length os) 0)
            (not (nat_eq (length (sources_of d p os)) (length os)))
            (p.require_two_sources && ltb (length (sources_of d p os)) 2) no_sources
            duplicate_source second_source_missing no_tally)
      ∙ unnest (nat_eq (length os) 0) (nat_eq (length (sources_of d p os)) (length os))
          (p.require_two_sources && ltb (length (sources_of d p os)) 2)
          (ltb 1 (length (instruments_of d p os))) (quiet no_tally) quiet-no_tally

  permits-report_of :
      (as_of : ℕ) (os : List (QuoteObservation W)) (conflict : Bool) (t : Tally)
      → permits_decision (report_of d p as_of os conflict t) ≡ (not conflict && quiet t)
  unfolding report_of
  permits-report_of as_of os true t = ground arith
  permits-report_of as_of os false t = ground arith

  -- What the evaluator permits, as one test.
  pub permits-evaluate_at :
      (as_of : ℕ) (os : List (QuoteObservation W))
      → leb p.green_max_age p.amber_max_age ≡ true
      → permits_decision (evaluate_at d p as_of os)
        ≡ (not (has_conflict d p os) && (all (observation_ok as_of) os && sources_ok os))
  unfolding evaluate_at
  permits-evaluate_at as_of os h =
      permits-report_of as_of os (has_conflict d p os)
        (see_observations d p as_of os (see_sources d p os))
      ∙ ap (λ b. not (has_conflict d p os) && b)
          (quiet-see_observations as_of os (see_sources d p os) h
            ∙ ap (λ b. all (observation_ok as_of) os && b) (quiet-see_sources os))
