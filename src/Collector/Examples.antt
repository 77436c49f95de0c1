-- ===== src/Collector/Examples.antt =====
-- A collector that starts, connects, and takes one quote.
use marketpilot.Base.{
  text_key, List, Option, String, [], arith, false, get, map, milliseconds, none, put, refl,
  seconds, some, true, values, ℕ, ◌++◌, ◌+◌, ◌∷◌, ◌≡◌, ◌≤◌,
}
use marketpilot.Fixtures.{toy}
use marketpilot.Decision.{green}
use marketpilot.Collector.Defs.{
  CollectorState, CollectorEvent, CollectorEventKind, CollectorPolicy, QuoteObservation, RetryAfter,
  Setup, Run, halted,
}
use marketpilot.Collector.Step.{loop, run, fresh_run, permits_decision}
use marketpilot.Collector.Halted.{halted_stays}
use marketpilot.Collector.Fresh.{IsObserved, streaming_is_fresh, IsWithinBudget, run-IsWithinBudget}
use marketpilot.Collector.Redelivery.{IsCounted, redelivery-IsCounted}
use marketpilot.Quality
use marketpilot.Quality.Quote
use marketpilot.Quality.Clean.{IsClean}
use marketpilot.Collector.Feed.{permitted_feed-IsClean, with_evaluator}
use marketpilot.Collector.Permits.{IsPermitted, permits-IsPermitted}

abbrev policy : CollectorPolicy
policy = record {
  base_backoff = seconds 1;
  max_backoff = seconds 30;
  max_reconnect_attempts = 5;
  allowed_lateness = milliseconds 250;
  freshness_limit = seconds 5;
}

abbrev setup : Setup
setup = record {
  platform = toy;
  expected_schema_version = "v1";
  expected_instrument_id = "ES";
  capability = record {
    configured = true;
    verification_status = "VERIFIED";
    production_ready = true;
    quality = green;
  };
  policy = policy;
  evaluate = λ quotes now. record { status = green; freeze = false; reasons = [] };
  session_gate = none;
}

abbrev event : String → CollectorEventKind → ℕ → Option QuoteObservation → CollectorEvent
event id kind t o = record {
  event_id = id;
  kind = kind;
  published_at = t;
  first_seen_at = t;
  schema_version = "v1";
  retry_after = RetryAfter.not_a_number;
  observation = o;
}

abbrev es_quote : QuoteObservation
es_quote = record {
  source = "webull";
  instrument_id = "ES";
  source_ts = 2900000;
  received_ts = 3000000;
  bid = some "1";
  ask = some "2";
  bid_size = some "1";
  ask_size = some "1";
  field_timestamps = [];
}

abbrev connecting_events : List CollectorEvent
connecting_events =
    event "e1" CollectorEventKind.start (seconds 1) none
    ∷ event "e2" CollectorEventKind.connected (seconds 2) none
    ∷ []

abbrev quote_event : CollectorEvent
quote_event = event "e3" CollectorEventKind.quote (seconds 3) (some es_quote)

abbrev lost_event : CollectorEvent
lost_event = event "e4" CollectorEventKind.connection_lost (seconds 4) none

permitted : permits_decision (run setup (connecting_events ++ quote_event ∷ [])) ≡ true
unfolding permits_decision run put
permitted = refl

-- A connection with no quote yet is degraded.
connected_only : (run setup connecting_events).final.state ≡ CollectorState.degraded
unfolding run
connected_only = refl

abbrev halted_run : Run
halted_run = record (fresh_run setup) { state = halted }

halted_stays_example : (loop setup connecting_events halted_run).state ≡ halted
halted_stays_example = halted_stays setup connecting_events halted_run refl

streaming_is_fresh_example :
    (t : ℕ) × IsObserved setup (connecting_events ++ quote_event ∷ []) t
    × (seconds 3 ≤ t + seconds 5)
unfolding run
streaming_is_fresh_example = streaming_is_fresh setup connecting_events quote_event refl

run-IsWithinBudget_example : IsWithinBudget setup (run setup (quote_event ∷ lost_event ∷ [])).final
run-IsWithinBudget_example = run-IsWithinBudget setup (quote_event ∷ lost_event ∷ [])

redelivery-IsCounted_example :
    IsCounted setup
      (record lost_event { event_id = "e3" })
      (loop setup (quote_event ∷ lost_event ∷ []) (fresh_run setup))
      (loop setup
        (record lost_event { event_id = "e3" } ∷ [])
        (loop setup (quote_event ∷ lost_event ∷ []) (fresh_run setup)))
redelivery-IsCounted_example =
    redelivery-IsCounted setup quote_event (record lost_event { event_id = "e3" }) (lost_event ∷ [])
      (fresh_run setup) refl

permits-IsPermitted_example : IsPermitted setup (connecting_events ++ quote_event ∷ [])
permits-IsPermitted_example =
    permits-IsPermitted setup (connecting_events ++ quote_event ∷ []) permitted

-- Quotes of the feed as whole cents, entitled and not delayed.
abbrev read_cents : QuoteObservation → Quality.QuoteObservation ℕ
read_cents o = record (Quote.quote o.source 400000) {
  instrument_id = o.instrument_id;
  source_ts = o.source_ts;
  received_ts = o.received_ts;
  field_timestamps = Quote.times o.source_ts;
}

abbrev second_quote : CollectorEvent
second_quote =
    event "e5" CollectorEventKind.quote (seconds 3)
      (some (record es_quote { source = "databento" }))

feed_permits :
    permits_decision (
      run
        (with_evaluator Quote.cents Quote.policy read_cents (λ r. "reason") setup)
        ((connecting_events ++ quote_event ∷ []) ++ second_quote ∷ []))
    ≡ true
unfolding permits_decision run with_evaluator put get
feed_permits = refl

permitted_feed-IsClean_example : IsClean Quote.cents Quote.policy (seconds 3) (
    map read_cents (
      values
        (run
          (with_evaluator Quote.cents Quote.policy read_cents (λ r. "reason") setup)
          ((connecting_events ++ quote_event ∷ []) ++ second_quote ∷ [])).final.latest_by_source))
permitted_feed-IsClean_example =
    permitted_feed-IsClean Quote.cents Quote.policy read_cents (λ r. "reason") setup
      (connecting_events ++ quote_event ∷ []) second_quote (omega arith) feed_permits

-- A drift event that was seen before an earlier event does not halt the run, nor revoke its permission.
abbrev late_drift : CollectorEvent
late_drift = record (event "e6" CollectorEventKind.schema_drift (seconds 2) none) {
  schema_version = "v2";
}

late_drift_permits :
    permits_decision (run setup ((connecting_events ++ quote_event ∷ []) ++ late_drift ∷ [])) ≡ true
unfolding permits_decision run put
late_drift_permits = refl

-- The copy of an event that is seen late degrades a run that permitted.
late_copy_degrades :
    (run setup (
      (connecting_events ++ quote_event ∷ [])
      ++ record quote_event { first_seen_at = seconds 100 } ∷ [])).final.state
    ≡ CollectorState.degraded
unfolding run put
late_copy_degrades = refl
