-- ===== src/Alerts/Records.antt =====
-- domain/alerts.py. The patterns of the identifiers, which pydantic tests, are not modelled; what the
-- engine only passes on is kept as text.

use marketpilot.Base.{List, Option, String, ℕ}

pub data AlertPriority : Type 0 where
  p0 p1 p2 : AlertPriority

pub data AlertStatus : Type 0 where
  opened acknowledged dismissed : AlertStatus

pub data AlertDirection : Type 0 where
  upside downside two_sided non_directional : AlertDirection

pub data AlertAction : Type 0 where
  no_trade risk_lock rerun : AlertAction

pub data FeedbackKind : Type 0 where
  acknowledgement dismissal false_positive manual_judgment execution fill : FeedbackKind

-- A constructed candidate: `timezone_required` leaves only aware instants.
pub record AlertCandidate : Type 0 where
  pub fingerprint : String
  pub priority : AlertPriority
  pub direction : AlertDirection
  pub observed_at : ℕ
  pub evidence : List String
  pub event_id : Option String
  pub snapshot_id : String
  pub model_version : String
  pub rules_version : String
  pub action : AlertAction
  pub invalidation_conditions : List String
  pub rerun_trigger : String

pub record AlertRecord : Type 0 where
  pub alert_id : String
  pub candidate : AlertCandidate
  pub created_at : ℕ
  pub status : AlertStatus
  pub deduplicated_count : ℕ
  pub escalation_level : ℕ

pub record AlertFeedback : Type 0 where
  pub feedback_id : String
  pub alert_id : String
  pub kind : FeedbackKind
  pub recorded_at : ℕ
  pub actor : String
  pub note : Option String
