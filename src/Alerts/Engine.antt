-- ===== src/Alerts/Engine.antt =====
-- alerts/engine.py: `AlertPolicy` and `class AlertEngine`. An id that `uuid4` draws is an argument, and
-- the durations of a policy are at least 0.
use marketpilot.Base.{
  text_key, flipped_order, Bool, Datetime, Dict, Exec, List, Option, Result, String, [], aware, err,
  false, get, if◌then◌else◌, leb, ltb, naive, nat_eq, none, ok, pop, put, select, some, sort,
  text_length, true, values, ℕ, ◌&&◌, ◌++◌, ◌+◌, ◌==◌, ◌||◌, ◌∷◌,
}
use marketpilot.Base.Fallible.{◌>>◌, refuse_if}
use marketpilot.Alerts.Records.{
  AlertCandidate, AlertFeedback, AlertPriority, AlertRecord, AlertStatus, FeedbackKind,
  acknowledged, acknowledgement, dismissed, dismissal, false_positive, opened, p0,
}

pub record AlertPolicy : Type 0 where
  pub hysteresis_observations : ℕ
  pub cooldown : ℕ
  pub p0_escalation_after : ℕ

pub data AlertError : Type 0 where
  observation_moved_backward : AlertError
  unknown_alert : String → AlertError
  cannot_compare_naive_and_aware : AlertError
  feedback_predates_alert : AlertError
  invalid_feedback : AlertError
  as_of_must_be_timezone_aware : AlertError

pub record AlertEngine : Type 0 where
  pub observations : Dict String ℕ
  pub alerts : Dict String AlertRecord
  pub latest_by_fingerprint : Dict String String
  pub feedback : List AlertFeedback

-- `__init__`
abbrev pub new_engine : AlertEngine
new_engine = record { observations = []; alerts = []; latest_by_fingerprint = []; feedback = [] }

abbrev pub count_of : Option ℕ → ℕ
count_of none = 0
count_of (some n) = n

abbrev pub found : Dict String AlertRecord → Option String → Option AlertRecord
found alerts none = none
found alerts (some alert_id) = get alerts alert_id

-- `_latest`
abbrev pub latest : AlertEngine → String → Option AlertRecord
latest s fingerprint = found s.alerts (get s.latest_by_fingerprint fingerprint)

abbrev pub record_of : String → AlertCandidate → AlertRecord
record_of fresh c = record {
  alert_id = fresh;
  candidate = c;
  created_at = c.observed_at;
  status = opened;
  deduplicated_count = 0;
  escalation_level = 0;
}

-- The end of `observe`: a new record.
abbrev pub raise_alert : String → AlertCandidate → AlertEngine → AlertEngine
raise_alert fresh c s = record s {
  alerts = put s.alerts fresh (record_of fresh c);
  latest_by_fingerprint = put s.latest_by_fingerprint c.fingerprint fresh;
}

abbrev pub deduplicated : AlertRecord → AlertRecord
deduplicated a = record a { deduplicated_count = a.deduplicated_count + 1 }

abbrev pub keep_alert : AlertRecord → AlertEngine → AlertEngine
keep_alert a s = record s { alerts = put s.alerts a.alert_id a }

-- `observe` from `previous` on.
unfoldable pub emit :
    AlertPolicy
    → String
    → AlertCandidate
    → Option AlertRecord
    → Exec AlertEngine AlertError (Option AlertRecord)
emit policy fresh c none s = (ok (some (record_of fresh c)), raise_alert fresh c s)
emit policy fresh c (some previous) s =
    if ltb c.observed_at previous.created_at
    then (err observation_moved_backward, s)
    else if ltb c.observed_at (previous.created_at + policy.cooldown)
    then (ok (some (deduplicated previous)), keep_alert (deduplicated previous) s)
    else (ok (some (record_of fresh c)), raise_alert fresh c s)

unfoldable pub observe :
    AlertPolicy → String → AlertCandidate → Bool → Exec AlertEngine AlertError (Option AlertRecord)
unfolding emit
observe policy fresh c false s =
    (ok none, record s { observations = pop s.observations c.fingerprint })
observe policy fresh c true s =
    let count = count_of (get s.observations c.fingerprint) + 1 in
    let counted = record s { observations = put s.observations c.fingerprint count } in
    if ltb count policy.hysteresis_observations
    then (ok none, counted)
    else emit policy fresh c (latest counted c.fingerprint) counted

-- `_status_for`
abbrev pub status_for : FeedbackKind → Option AlertStatus
status_for acknowledgement = some acknowledged
status_for dismissal = some dismissed
status_for false_positive = some dismissed
status_for _ = none

abbrev long_note : Option String → Bool
long_note none = false
long_note (some comment) = ltb 1000 (text_length comment)

-- The comparison with the alert, and what `AlertFeedback` asks of its fields.
abbrev pub check_feedback : AlertRecord → Datetime → String → Option String → Result AlertError ℕ
check_feedback a (naive _) actor comment = err cannot_compare_naive_and_aware
check_feedback a (aware t) actor comment = do
  refuse_if (ltb t a.created_at) feedback_predates_alert
  refuse_if (nat_eq (text_length actor) 0 || ltb 100 (text_length actor) || long_note comment)
      invalid_feedback
  ok t

-- `if status is not None`
abbrev pub with_status : String → AlertRecord → Option AlertStatus → AlertEngine → AlertEngine
with_status alert_id a none s = s
with_status alert_id a (some status) s = record s {
  alerts = put s.alerts alert_id (record a { status = status });
}

-- `record_feedback` after its checks.
unfoldable pub file_feedback :
    String
    → String
    → FeedbackKind
    → String
    → Option String
    → AlertRecord
    → Result AlertError ℕ
    → Exec AlertEngine AlertError AlertFeedback
file_feedback fresh alert_id kind actor comment a (err e) s = (err e, s)
file_feedback fresh alert_id kind actor comment a (ok t) s =
    let item : AlertFeedback = record {
      feedback_id = fresh;
      alert_id = alert_id;
      kind = kind;
      recorded_at = t;
      actor = actor;
      note = comment;
    } in
    let kept = record s { feedback = s.feedback ++ item ∷ [] } in
    (ok item, with_status alert_id a (status_for kind) kept)

unfoldable pub feedback_for :
    String
    → String
    → FeedbackKind
    → String
    → Datetime
    → Option String
    → Option AlertRecord
    → Exec AlertEngine AlertError AlertFeedback
feedback_for fresh alert_id kind actor recorded_at comment none s =
    (err (unknown_alert alert_id), s)
feedback_for fresh alert_id kind actor recorded_at comment (some a) s =
    file_feedback fresh alert_id kind actor comment a (check_feedback a recorded_at actor comment) s

unfoldable pub record_feedback :
    String
    → String
    → FeedbackKind
    → String
    → Datetime
    → Option String
    → Exec AlertEngine AlertError AlertFeedback
unfolding feedback_for
record_feedback fresh alert_id kind actor recorded_at comment s =
    feedback_for fresh alert_id kind actor recorded_at comment (get s.alerts alert_id) s

abbrev is_p0 : AlertPriority → Bool
is_p0 p0 = true
is_p0 _ = false

abbrev is_open : AlertStatus → Bool
is_open opened = true
is_open _ = false

abbrev pub is_due : AlertPolicy → ℕ → AlertRecord → Bool
is_due policy as_of a =
    is_p0 a.candidate.priority
    && is_open a.status
    && leb (a.created_at + policy.p0_escalation_after) as_of

abbrev pub escalated : AlertRecord → AlertRecord
escalated a = record a { escalation_level = a.escalation_level + 1 }

-- The loop of `due_escalations` over a copy of the items: the list `due` and the alerts after it.
unfoldable pub escalate_each :
    AlertPolicy
    → ℕ
    → List (String × AlertRecord)
    → Dict String AlertRecord
    → List AlertRecord × Dict String AlertRecord
escalate_each policy as_of [] alerts = ([], alerts)
escalate_each policy as_of ((alert_id, a) ∷ items) alerts = elim (is_due policy as_of a) [
  | true ↦
      let (due, after) = escalate_each policy as_of items (put alerts alert_id (escalated a)) in
      (escalated a ∷ due, after)
  | false ↦ escalate_each policy as_of items alerts
]

unfoldable pub due_escalations :
    AlertPolicy → Datetime → Exec AlertEngine AlertError (List AlertRecord)
unfolding escalate_each
due_escalations policy (naive _) s = (err as_of_must_be_timezone_aware, s)
due_escalations policy (aware t) s =
    let (due, after) = escalate_each policy t s.alerts s.alerts in
    (ok due, record s { alerts = after })

-- `alerts()`: the newest first
unfoldable pub all_alerts : AlertEngine → List AlertRecord
unfolding sort
all_alerts s = sort ⦃o = flipped_order⦄ (λ (a : AlertRecord). a.created_at) (values s.alerts)

-- `feedback(alert_id)`
unfoldable pub feedback_on : Option String → AlertEngine → List AlertFeedback
feedback_on none s = s.feedback
feedback_on (some alert_id) s = select (λ (f : AlertFeedback). f.alert_id == alert_id) s.feedback
