-- ===== src/Collector/Step.antt =====
-- One turn of the loop of `run`, the loop, and the result.
use marketpilot.Base.{
  text_key, Bool, List, Option, String, [], contains, false, if◌then◌else◌, last, ltb, map, none,
  not, select, some, true, values, ℕ, ◌&&◌, ◌++◌, ◌+◌, ◌==◌, ◌∷◌,
}
use marketpilot.Decision.{DataQuality, red, is_green}
use marketpilot.Collector.Defs.{
  CollectorState, CollectorEvent, Reason, FeedQualityReport, CapabilityReport, Setup,
  CollectorTrace, Run, apply_event, apply_freshness, report_permits, later, streaming, halted,
  stopped, duplicate_event, event_time_regression, drift, collector_halted, budget_exhausted,
  invalid_retry_after, collector_in, not_configured, unverified, not_production_ready,
  quality_not_green, no_quality_report, feed_not_green, session, quality, of_event, of_trace,
}

abbrev pub when : Bool → Reason → List Reason
when c r = if c then r ∷ [] else []

-- `_capability_reasons`
unfoldable pub capability_reasons : CapabilityReport → List Reason
capability_reasons c =
    when (not c.configured) not_configured
    ++ (when (not (c.verification_status == "VERIFIED")) unverified
        ++ (when (not c.production_ready) not_production_ready
            ++ when (not (is_green c.quality)) quality_not_green))

-- The variables before the first event.
unfoldable pub fresh_run : Setup → Run
unfolding capability_reasons
fresh_run c = record {
  state = stopped;
  next_retry_at = none;
  attempts = 0;
  watermark = none;
  last_observation_at = none;
  seen_events = [];
  seen_observations = [];
  latest_by_source = [];
  records = [];
  traces = [];
  run_reasons = capability_reasons c.capability;
  accepted_quotes = 0;
  duplicate_events = 0;
  duplicate_observations = 0;
  out_of_order_observations = 0;
  quality_report = none;
  previous_first_seen_at = none;
  raised = false;
}

abbrev regressed : Option ℕ → ℕ → Bool
regressed none t = false
regressed (some previous) t = ltb t previous

-- The reasons of the two tests that come first.
abbrev pub early_reasons : CollectorEvent → Run → List Reason
early_reasons e r =
    when (contains e.event_id r.seen_events) duplicate_event
    ++ when (regressed r.previous_first_seen_at e.first_seen_at) event_time_regression

unfoldable pub note_event : CollectorEvent → Run → Run
note_event e r = record r {
  records = r.records ++ of_event e ∷ [];
  seen_events =
      if contains e.event_id r.seen_events then r.seen_events else e.event_id ∷ r.seen_events;
  duplicate_events =
      if contains e.event_id r.seen_events then r.duplicate_events + 1 else r.duplicate_events;
  previous_first_seen_at = some (later r.previous_first_seen_at e.first_seen_at);
}

-- What an event that passed the first tests does, its reasons, and whether it is accepted.
unfoldable pub admit : Setup → CollectorEvent → Run → Run × List Reason
unfolding apply_event
admit c e r =
    if e.schema_version == c.expected_schema_version
    then elim r.state [ halted ↦ (r, collector_halted ∷ []) | _ ↦ apply_event c e r ]
    else (record r { state = halted; run_reasons = drift ∷ r.run_reasons }, drift ∷ [])

unfoldable pub process : Setup → CollectorEvent → Run → Run × List Reason
unfolding admit note_event
process c e r = elim (early_reasons e r) [
  | [] ↦ admit c e (note_event e r)
  | ◌∷◌ x xs ↦ (note_event e r, x ∷ xs)
]

abbrev pub is_lasting : Reason → Bool
is_lasting drift = true
is_lasting budget_exhausted = true
is_lasting invalid_retry_after = true
is_lasting _ = false

abbrev pub optional_reason : Option Reason → List Reason
optional_reason none = []
optional_reason (some r) = r ∷ []

unfoldable pub assess_quality : Setup → CollectorEvent → Run → Option FeedQualityReport
assess_quality c e r = elim r.latest_by_source [
  | [] ↦ none
  | ◌∷◌ x xs ↦ some (c.evaluate (values (x ∷ xs)) e.first_seen_at)
]

abbrev is_nil : List Reason → Bool
is_nil [] = true
is_nil (_ ∷ _) = false

abbrev status_of : Option FeedQualityReport → DataQuality
status_of none = red
status_of (some q) = q.status

abbrev freeze_of : Option FeedQualityReport → Bool
freeze_of none = true
freeze_of (some q) = q.freeze

-- The second half of a turn: quality, freshness, the lasting reasons, and the trace.
unfoldable pub conclude : Setup → CollectorEvent → Run × List Reason → Run
unfolding apply_freshness assess_quality
conclude c e (r, reasons) =
    let report = assess_quality c e r in
    let (state, stale) = apply_freshness c.policy r.state e.first_seen_at r.last_observation_at in
    let all_reasons = reasons ++ optional_reason stale in
    let trace : CollectorTrace = record {
      event_id = e.event_id;
      state = state;
      accepted = is_nil reasons;
      reasons = all_reasons;
      watermark = r.watermark;
      next_retry_at = r.next_retry_at;
      reconnect_attempts = r.attempts;
      quality = status_of report;
      freeze = freeze_of report;
    } in
    record r {
      state = state;
      quality_report = report;
      run_reasons = select is_lasting all_reasons ++ r.run_reasons;
      records = r.records ++ of_trace e.first_seen_at trace ∷ [];
      traces = r.traces ++ trace ∷ [];
    }

unfoldable pub step : Setup → CollectorEvent → Run → Run
unfolding process conclude
step c e r = conclude c e (process c e r)

unfoldable pub loop : Setup → List CollectorEvent → Run → Run
unfolding step
loop c [] r = r
loop c (e ∷ es) r = loop c es (step c e r)

abbrev pub gate_reasons : Option (ℕ → List String) → Option CollectorEvent → List Reason
gate_reasons (some gate) (some e) = map session (gate e.first_seen_at)
gate_reasons _ _ = []

-- `quality_report.reasons or ("QUALITY_NOT_GREEN",)`
abbrev pub feed_reasons : List String → List Reason
feed_reasons [] = feed_not_green ∷ []
feed_reasons (x ∷ xs) = map quality (x ∷ xs)

abbrev pub report_reasons : Option FeedQualityReport → List Reason
report_reasons none = no_quality_report ∷ []
report_reasons (some q) = if report_permits q then [] else feed_reasons q.reasons

abbrev pub state_reasons : CollectorState → List Reason
state_reasons streaming = []
state_reasons s = collector_in s ∷ []

pub record CollectorRunResult : Type 0 where
  pub final : Run
  pub reasons : List Reason

-- `run`, where no exception leaves it
unfoldable pub run : Setup → List CollectorEvent → CollectorRunResult
unfolding loop fresh_run
run c events =
    let final = loop c events (fresh_run c) in
    record {
      final = final;
      reasons =
          final.run_reasons
          ++ (state_reasons final.state
              ++ (gate_reasons c.session_gate (last events)
                  ++ report_reasons final.quality_report));
    }

-- `run`: nothing where the arithmetic of an event's delay raised.
unfoldable pub completed_run : Setup → List CollectorEvent → Option CollectorRunResult
unfolding run
completed_run c events =
    let result = run c events in if result.final.raised then none else some result

-- `CollectorRunResult.permits_decision`
unfoldable pub permits_decision : CollectorRunResult → Bool
permits_decision result = elim result.final.state [
  | streaming ↦ elim result.final.quality_report [
    | none ↦ false
    | some q ↦ report_permits q && is_nil result.reasons
  ]
  | _ ↦ false
]

-- Induction over the events of a run.
pub loop_induction :
    (c : Setup) (P : Run → Type 0)
    → ((e : CollectorEvent) (r : Run) → P r → P (step c e r))
    → (es : List CollectorEvent) (r : Run) → P r
    → P (loop c es r)
unfolding loop
loop_induction c P keep [] r h = h
loop_induction c P keep (e ∷ es) r h = loop_induction c P keep es (step c e r) (keep e r h)
