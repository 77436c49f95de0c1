-- ===== src/RiskLock.antt =====
-- domain/events.py and events/risk_lock.py: event facts, their validation, and the assessment of the
-- risk lock at an instant. After validation an event holds UTC instants, so `normalized` is the
-- identity on it. Datetimes outside the range of Python's type are not modelled.
mod Checkpoints
pub mod State
mod Examples
unfoldable pub use Checkpoints.*
use marketpilot.Base.{
  text_key, Bool, Datetime, List, Option, Result, String, [], aware, err, false, if◌then◌else◌,
  is_some, ltb, minutes, naive, none, not, ok, some, true, ℕ, ◌&&◌, ◌++◌, ◌+◌, ◌||◌, ◌∷◌,
}
use marketpilot.Base.Fallible.{◌>>=◌, ◌>>◌, refuse_if}

pub data EventKind : Type 0 where
  scheduled social geopolitical disaster market_shock : EventKind

pub data EventSeverity : Type 0 where
  p0 p1 p2 : EventSeverity

pub data RiskLockState : Type 0 where
  locked stabilizing cleared : RiskLockState

-- The facts, with timestamps of type `T`.
pub record EventRecord (T : Type 0) : Type 0 where
  pub event_id : String
  pub kind : EventKind
  pub severity : EventSeverity
  pub scheduled_at : Option T
  pub source_published_at : T
  pub first_seen_at : T
  pub confirmed_at : Option T
  pub market_reaction_start_at : Option T
  pub session_close_at : Option T
  pub next_cash_open_at : Option T
  pub corroborating_sources : ℕ
  pub contradictory_evidence : Bool
  pub cross_asset_confirmed : Bool
  pub cross_asset_confirmed_at : Option T
  pub stable_since : Option T
  pub stable_observations : ℕ

pub data EventError : Type 0 where
  must_be_timezone_aware : String → EventError
  published_after_first_seen : EventError
  confirmed_before_first_seen : EventError
  cross_asset_disagrees : EventError
  cross_asset_before_first_seen : EventError
  cross_asset_before_confirmed : EventError
  stable_before_confirmation : EventError
  cash_open_before_close : EventError
  not_visible_at_as_of : EventError

abbrev instant_of : String → Datetime → Result EventError ℕ
instant_of name (naive _) = err (must_be_timezone_aware name)
instant_of _ (aware t) = ok t

abbrev instant_option : String → Option Datetime → Result EventError (Option ℕ)
instant_option _ none = ok none
instant_option name (some t) = do u ← instant_of name t; ok (some u)

-- `a < b`, where both are there
abbrev before : Option ℕ → Option ℕ → Bool
before (some a) (some b) = ltb a b
before _ _ = false

abbrev pub or_else : Option ℕ → ℕ → ℕ
or_else none d = d
or_else (some t) _ = t

unfoldable pub stability_floor : EventRecord ℕ → ℕ
stability_floor e = or_else e.cross_asset_confirmed_at (or_else e.confirmed_at e.first_seen_at)

agrees : Bool → Bool → Bool
agrees true b = b
agrees false b = not b

-- The order of the timestamps, in the order of the code's tests.
unfoldable pub check_timeline : EventRecord ℕ → Result EventError (Unit {0})
unfolding stability_floor agrees
check_timeline e = do
  refuse_if (ltb e.first_seen_at e.source_published_at) published_after_first_seen
  refuse_if (before e.confirmed_at (some e.first_seen_at)) confirmed_before_first_seen
  refuse_if (not (agrees e.cross_asset_confirmed (is_some e.cross_asset_confirmed_at)))
      cross_asset_disagrees
  refuse_if (before e.cross_asset_confirmed_at (some e.first_seen_at)) cross_asset_before_first_seen
  refuse_if (before e.cross_asset_confirmed_at e.confirmed_at) cross_asset_before_confirmed
  refuse_if (before e.stable_since (some (stability_floor e))) stable_before_confirmation
  refuse_if
      (is_some e.session_close_at
        && is_some e.next_cash_open_at
        && not (before e.session_close_at e.next_cash_open_at))
      cash_open_before_close

-- `EventRecord.validate_timeline`
unfoldable pub validate_timeline : EventRecord Datetime → Result EventError (EventRecord ℕ)
unfolding check_timeline
validate_timeline raw = do
  planned ← instant_option "scheduled_at" raw.scheduled_at
  published ← instant_of "source_published_at" raw.source_published_at
  seen ← instant_of "first_seen_at" raw.first_seen_at
  confirmed ← instant_option "confirmed_at" raw.confirmed_at
  reaction ← instant_option "market_reaction_start_at" raw.market_reaction_start_at
  close ← instant_option "session_close_at" raw.session_close_at
  cash_open ← instant_option "next_cash_open_at" raw.next_cash_open_at
  cross ← instant_option "cross_asset_confirmed_at" raw.cross_asset_confirmed_at
  stable ← instant_option "stable_since" raw.stable_since
  let event : EventRecord ℕ = record {
    event_id = raw.event_id;
    kind = raw.kind;
    severity = raw.severity;
    scheduled_at = planned;
    source_published_at = published;
    first_seen_at = seen;
    confirmed_at = confirmed;
    market_reaction_start_at = reaction;
    session_close_at = close;
    next_cash_open_at = cash_open;
    corroborating_sources = raw.corroborating_sources;
    contradictory_evidence = raw.contradictory_evidence;
    cross_asset_confirmed = raw.cross_asset_confirmed;
    cross_asset_confirmed_at = cross;
    stable_since = stable;
    stable_observations = raw.stable_observations;
  }
  check_timeline event
  ok event

pub record RiskLockPolicy : Type 0 where
  pub minimum_corroborating_sources : ℕ
  pub minimum_stable_observations : ℕ
  pub stability_window : ℕ

abbrev pub default_policy : RiskLockPolicy
default_policy = record {
  minimum_corroborating_sources = 2;
  minimum_stable_observations = 3;
  stability_window = minutes 2;
}

pub data Reason : Type 0 where
  contradictory_evidence event_not_confirmed insufficient_corroboration : Reason
  cross_asset_not_confirmed stability_window_not_started stability_window_incomplete : Reason
  insufficient_stable_observations event_stable : Reason

pub record RiskLockAssessment : Type 0 where
  pub event_id : String
  pub state : RiskLockState
  pub assessed_at : ℕ
  pub reasons : List Reason
  pub rerun_at : Option ℕ
  pub next_checkpoint : String

-- `x is None or x > as_of`
abbrev pub missing_at : ℕ → Option ℕ → Bool
missing_at now none = true
missing_at now (some t) = ltb now t

abbrev when : Bool → Reason → List Reason
when c r = if c then r ∷ [] else []

unfoldable pub lock_reasons : RiskLockPolicy → EventRecord ℕ → ℕ → List Reason
lock_reasons policy event now =
    when event.contradictory_evidence contradictory_evidence
    ++ (when (missing_at now event.confirmed_at) event_not_confirmed
        ++ (when (ltb event.corroborating_sources policy.minimum_corroborating_sources)
              insufficient_corroboration
            ++ when
                (not event.cross_asset_confirmed || missing_at now event.cross_asset_confirmed_at)
                cross_asset_not_confirmed))

abbrev window_reasons : RiskLockPolicy → Option ℕ → ℕ → List Reason
window_reasons policy none now = stability_window_not_started ∷ []
window_reasons policy (some since) now =
    if ltb now since
    then stability_window_not_started ∷ []
    else when (ltb now (since + policy.stability_window)) stability_window_incomplete

unfoldable pub stability_reasons : RiskLockPolicy → EventRecord ℕ → ℕ → List Reason
stability_reasons policy event now =
    window_reasons policy event.stable_since now
    ++ when (ltb event.stable_observations policy.minimum_stable_observations)
        insufficient_stable_observations

abbrev stable_until : RiskLockPolicy → Option ℕ → Option ℕ
stable_until policy none = none
stable_until policy (some since) = some (since + policy.stability_window)

-- `_assessment`
unfoldable pub assessment :
    EventRecord ℕ → ℕ → RiskLockState → List Reason → Option ℕ → RiskLockAssessment
unfolding next_checkpoint
assessment event now state reasons rerun_at = record {
  event_id = event.event_id;
  state = state;
  assessed_at = now;
  reasons = reasons;
  rerun_at = rerun_at;
  next_checkpoint =
      next_checkpoint (or_else event.scheduled_at event.first_seen_at) event.session_close_at
        event.next_cash_open_at now;
}

assess_at : RiskLockPolicy → EventRecord ℕ → ℕ → RiskLockAssessment
unfolding assessment lock_reasons stability_reasons
assess_at policy event now = elim (lock_reasons policy event now) [
  | ◌∷◌ r rs ↦ assessment event now locked (r ∷ rs) none
  | [] ↦ elim (stability_reasons policy event now) [
    | ◌∷◌ r rs ↦ assessment event now stabilizing (r ∷ rs) (stable_until policy event.stable_since)
    | [] ↦ assessment event now cleared (event_stable ∷ []) none
  ]
]

-- `RiskLockEngine.assess`
unfoldable pub assess :
    RiskLockPolicy → EventRecord ℕ → Datetime → Result EventError RiskLockAssessment
unfolding assess_at
assess policy event as_of = do
  now ← instant_of "as_of" as_of
  refuse_if (ltb now event.first_seen_at) not_visible_at_as_of
  ok (assess_at policy event now)
