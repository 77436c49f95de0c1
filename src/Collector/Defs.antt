-- ===== src/Collector/Defs.antt =====
-- The collector's data: states, events, policy, and the variables of a run.
use marketpilot.Base.{
  timedelta, text_key, Bool, Dict, List, Option, String, [], contains, false, if◌then◌else◌, last,
  leb, ltb, max, min, none, not, put, some, true, ℕ, ◌&&◌, ◌*◌, ◌+◌, ◌-◌, ◌==◌, ◌^◌, ◌∷◌,
}
use marketpilot.Domain.Snapshot.{
  Json, text, null, instant, object, Fields, field, end, Platform, freeze_snapshot,
}
use marketpilot.Decision.{DataQuality, is_green}

pub data CollectorState : Type 0 where
  stopped connecting streaming backing_off rate_limited degraded halted : CollectorState

pub data CollectorEventKind : Type 0 where
  start connected quote heartbeat connection_lost limited schema_drift stop : CollectorEventKind

pub record CollectorPolicy : Type 0 where
  pub base_backoff : ℕ
  pub max_backoff : ℕ
  pub max_reconnect_attempts : ℕ
  pub allowed_lateness : ℕ
  pub freshness_limit : ℕ

-- `CollectorPolicy.__post_init__`; durations that are not negative by their type are not tested.
unfoldable pub is_valid_policy : CollectorPolicy → Bool
is_valid_policy p =
    ltb 0 p.base_backoff
    && leb p.base_backoff p.max_backoff
    && leb 1 p.max_reconnect_attempts
    && ltb 0 p.freshness_limit

-- `reconnect_delay`: nothing for a ValueError, and for the OverflowError of a duration that is built
-- before it is cut off at `max_backoff`.
unfoldable pub reconnect_delay : CollectorPolicy → ℕ → Option ℕ
unfolding timedelta
reconnect_delay p attempt =
    if ltb attempt 1 then none else elim (timedelta (p.base_backoff * 2 ^ (attempt - 1))) [
      | none ↦ none
      | some candidate ↦ some (min candidate p.max_backoff)
    ]

pub record QuoteObservation : Type 0 where
  pub source : String
  pub instrument_id : String
  pub source_ts : ℕ
  pub received_ts : ℕ
  pub bid : Option String
  pub ask : Option String
  pub bid_size : Option String
  pub ask_size : Option String
  pub field_timestamps : Dict String ℕ

-- `payload.get("retry_after_seconds")`: what the tests of the code tell apart. A number for which
-- `timedelta` raises is `not_a_duration`.
pub data RetryAfter : Type 0 where
  not_a_number : RetryAfter
  not_positive : RetryAfter
  not_a_duration : RetryAfter
  lasting : ℕ → RetryAfter

pub record CollectorEvent : Type 0 where
  pub event_id : String
  pub kind : CollectorEventKind
  pub published_at : ℕ
  pub first_seen_at : ℕ
  pub schema_version : String
  pub retry_after : RetryAfter
  pub observation : Option QuoteObservation

pub data Reason : Type 0 where
  duplicate_event event_time_regression drift collector_halted : Reason
  invalid_transition retry_too_early budget_exhausted invalid_retry_after : Reason
  not_streaming instrument_mismatch duplicate_observation out_of_order : Reason
  behind_watermark collector_stale : Reason
  collector_in : CollectorState → Reason
  not_configured unverified not_production_ready quality_not_green : Reason
  no_quality_report feed_not_green : Reason
  session quality : String → Reason

pub record FeedQualityReport : Type 0 where
  pub status : DataQuality
  pub freeze : Bool
  pub reasons : List String

-- `FeedQualityReport.permits_decision`
abbrev pub report_permits : FeedQualityReport → Bool
report_permits r = is_green r.status && not r.freeze

pub record CapabilityReport : Type 0 where
  pub configured : Bool
  pub verification_status : String
  pub production_ready : Bool
  pub quality : DataQuality

-- The arguments of the constructor. `evaluate` stands for the quote-quality evaluator and
-- `session_gate` for the optional callback.
pub record Setup : Type 0 where
  pub platform : Platform
  pub expected_schema_version : String
  pub expected_instrument_id : String
  pub capability : CapabilityReport
  pub policy : CollectorPolicy
  pub evaluate : List QuoteObservation → ℕ → FeedQualityReport
  pub session_gate : Option (ℕ → List String)

pub record CollectorTrace : Type 0 where
  pub event_id : String
  pub state : CollectorState
  pub accepted : Bool
  pub reasons : List Reason
  pub watermark : Option ℕ
  pub next_retry_at : Option ℕ
  pub reconnect_attempts : ℕ
  pub quality : DataQuality
  pub freeze : Bool

-- The input record of an event, and the output record of its trace.
pub data RunRecord : Type 0 where
  of_event : CollectorEvent → RunRecord
  of_trace : ℕ → CollectorTrace → RunRecord

-- The variables of `run`, and whether an exception has left it: nothing of such a run is returned.
pub record Run : Type 0 where
  pub state : CollectorState
  pub next_retry_at : Option ℕ
  pub attempts : ℕ
  pub watermark : Option ℕ
  pub last_observation_at : Option ℕ
  pub seen_events : List String
  pub seen_observations : List String
  pub latest_by_source : Dict String QuoteObservation
  pub records : List RunRecord
  pub traces : List CollectorTrace
  pub run_reasons : List Reason
  pub accepted_quotes : ℕ
  pub duplicate_events : ℕ
  pub duplicate_observations : ℕ
  pub out_of_order_observations : ℕ
  pub quality_report : Option FeedQualityReport
  pub previous_first_seen_at : Option ℕ
  pub raised : Bool

abbrev pub optional : Option String → Json
optional none = null
optional (some s) = text s

abbrev pub timestamps : Dict String ℕ → Fields
timestamps [] = end
timestamps ((name, t) ∷ rest) = field name (instant t) (timestamps rest)

-- `_observation_fingerprint`
unfoldable pub observation_fingerprint : Platform → QuoteObservation → String → String
unfolding freeze_snapshot
observation_fingerprint py o schema_version =
    (freeze_snapshot py (
      object (
        field "source" (text o.source) (
          field "instrument_id" (text o.instrument_id) (
            field "source_ts" (instant o.source_ts) (
              field "received_ts" (instant o.received_ts) (
                field "schema_version" (text schema_version) (
                  field "bid" (optional o.bid) (
                    field "ask" (optional o.ask) (
                      field "bid_size" (optional o.bid_size) (
                        field "ask_size" (optional o.ask_size) (
                          field "field_timestamps" (object (timestamps o.field_timestamps))
                            end)))))))))))).snapshot_id

-- `state in {STREAMING, DEGRADED}`
abbrev pub is_live : CollectorState → Bool
is_live streaming = true
is_live degraded = true
is_live _ = false

-- The states from which `CONNECTED` is a valid transition.
abbrev pub may_connect : CollectorState → Bool
may_connect connecting = true
may_connect backing_off = true
may_connect rate_limited = true
may_connect degraded = true
may_connect _ = false

abbrev pub too_early : ℕ → Option ℕ → Bool
too_early now none = false
too_early now (some t) = ltb now t

abbrev pub later : Option ℕ → ℕ → ℕ
later none t = t
later (some w) t = max w t

-- The variables after a lost connection, before the state is chosen.
abbrev pub dropped : Run → Run
dropped r = record r { latest_by_source = []; last_observation_at = none }

abbrev pub Applied : Type 0
Applied = Run × List Reason

unfoldable pub on_start : Run → Applied
on_start r = elim r.state [
  | stopped ↦ (record r { state = connecting }, [])
  | _ ↦ (r, invalid_transition ∷ [])
]

unfoldable pub on_connected : CollectorEvent → Run → Applied
on_connected e r =
    if may_connect r.state
    then (if too_early e.first_seen_at r.next_retry_at
        then (r, retry_too_early ∷ [])
        else (record r { state = streaming; next_retry_at = none; attempts = 0 }, []))
    else (r, invalid_transition ∷ [])

unfoldable pub on_connection_lost : CollectorPolicy → CollectorEvent → Run → Applied
unfolding reconnect_delay
on_connection_lost p e r =
    let attempts = r.attempts + 1 in
    if ltb p.max_reconnect_attempts attempts
    then (
      record (dropped r) { attempts = attempts; state = halted; next_retry_at = none },
      budget_exhausted ∷ [],
    )
    else elim (reconnect_delay p attempts) [
      | none ↦ (record (dropped r) { attempts = attempts; state = backing_off; raised = true }, [])
      | some delay ↦ (
        record (dropped r) {
          attempts = attempts;
          state = backing_off;
          next_retry_at = some (e.first_seen_at + delay);
        },
        [],
      )
    ]

unfoldable pub on_rate_limited : CollectorPolicy → CollectorEvent → Run → Applied
on_rate_limited p e r = elim e.retry_after [
  | lasting duration ↦ (
    record (dropped r) {
      state = rate_limited;
      next_retry_at = some (e.first_seen_at + max duration p.base_backoff);
    },
    [],
  )
  | not_a_duration ↦ (record (dropped r) { state = rate_limited; raised = true }, [])
  | _ ↦ (record (dropped r) { state = halted; next_retry_at = none }, invalid_retry_after ∷ [])
]

-- An observation that is behind the watermark, with what it is refused for.
abbrev pub late_reasons : CollectorPolicy → ℕ → ℕ → List Reason
late_reasons p watermark source_ts =
    if ltb (source_ts + p.allowed_lateness) watermark
    then out_of_order ∷ behind_watermark ∷ []
    else out_of_order ∷ []

unfoldable pub take_observation : CollectorEvent → QuoteObservation → Run → Run
take_observation e o r = record r {
  latest_by_source = put r.latest_by_source o.source o;
  watermark = some (later r.watermark o.source_ts);
  last_observation_at = some e.first_seen_at;
  accepted_quotes = r.accepted_quotes + 1;
  state = streaming;
}

unfoldable pub on_new_observation :
    CollectorPolicy → CollectorEvent → QuoteObservation → Run → Applied
unfolding take_observation
on_new_observation p e o r = elim r.watermark [
  | none ↦ (take_observation e o r, [])
  | some w ↦
      if ltb o.source_ts w
      then (
        record r { out_of_order_observations = r.out_of_order_observations + 1 },
        late_reasons p w o.source_ts,
      )
      else (take_observation e o r, [])
]

unfoldable pub on_observation : Setup → CollectorEvent → QuoteObservation → Run → Applied
unfolding on_new_observation observation_fingerprint
on_observation c e o r =
    let fingerprint = observation_fingerprint c.platform o e.schema_version in
    if o.instrument_id == c.expected_instrument_id
    then (if contains fingerprint r.seen_observations
        then (
          record r { duplicate_observations = r.duplicate_observations + 1 },
          duplicate_observation ∷ [],
        )
        else on_new_observation c.policy e o
            (record r { seen_observations = fingerprint ∷ r.seen_observations }))
    else (r, instrument_mismatch ∷ [])

-- The constructor of the event refuses a quote with no observation.
unfoldable pub on_quote : Setup → CollectorEvent → Run → Applied
unfolding on_observation
on_quote c e r =
    if is_live r.state
    then elim e.observation [ none ↦ (r, []) | some o ↦ on_observation c e o r ]
    else (r, not_streaming ∷ [])

-- `_apply_event`
unfoldable pub apply_event : Setup → CollectorEvent → Run → Applied
unfolding on_start on_connected on_connection_lost on_rate_limited on_quote
apply_event c e r = elim e.kind [
  | start ↦ on_start r
  | connected ↦ on_connected e r
  | connection_lost ↦ on_connection_lost c.policy e r
  | limited ↦ on_rate_limited c.policy e r
  | schema_drift ↦ (record r { state = halted }, drift ∷ [])
  | stop ↦ (record (dropped r) { state = stopped; next_retry_at = none }, [])
  | heartbeat ↦ if is_live r.state then (r, []) else (r, invalid_transition ∷ [])
  | quote ↦ on_quote c e r
]

-- `_apply_freshness`
unfoldable pub apply_freshness :
    CollectorPolicy → CollectorState → ℕ → Option ℕ → CollectorState × Option Reason
apply_freshness p state now last =
    if is_live state
    then elim last [
      | none ↦ (degraded, some collector_stale)
      | some t ↦
          if ltb (t + p.freshness_limit) now
          then (degraded, some collector_stale)
          else (state, none)
    ]
    else (state, none)
