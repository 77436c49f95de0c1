-- ===== src/Quality/Quote.antt =====
-- Quotes for the examples.
use marketpilot.Base.{Dict, String, [], false, ltb, nat_eq, some, true, ℕ, ◌*◌, ◌+◌, ◌-◌, ◌/◌, ◌∷◌}
use marketpilot.Quality.Observations.{Decimals, QualityPolicy, QuoteObservation, verified}

-- Whole cents stand in for the library's decimals.
abbrev pub cents : Decimals ℕ
cents = record {
  zero = 0;
  lt = ltb;
  is_zero = λ n. nat_eq n 0;
  add = ◌+◌;
  subtract = ◌-◌;
  multiply = ◌*◌;
  halve = λ n. n / 2;
  abs = λ n. n;
}

abbrev pub policy : QualityPolicy ℕ
policy = record {
  green_max_age = 2000000;
  amber_max_age = 5000000;
  max_receive_latency = 1000000;
  conflict_absolute_tolerance = 50;
  conflict_relative_tolerance = 0;
  require_two_sources = true;
  required_fields = "bid" ∷ "ask" ∷ "bid_size" ∷ "ask_size" ∷ [];
}

abbrev pub times : ℕ → Dict String ℕ
times t = ("bid", t) ∷ ("ask", t) ∷ ("bid_size", t) ∷ ("ask_size", t) ∷ []

abbrev pub quote : String → ℕ → QuoteObservation ℕ
quote source bid = record {
  source = source;
  instrument_id = "ES";
  source_ts = 2500000;
  received_ts = 3000000;
  delayed = some false;
  entitlement = verified;
  bid = some bid;
  ask = some (bid + 25);
  bid_size = some 3;
  ask_size = some 4;
  field_timestamps = times 2500000;
}
