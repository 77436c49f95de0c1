-- ===== src/Alerts/Examples.antt =====
-- Four observations of one condition: a first one, an alert, a repeat of it, a second alert.
use marketpilot.Base.{
  text_key, Dict, IsKeyed, List, String, [], arith, aware, eq_iff, get, none, ok, put, refl, some,
  true, ℕ, ◌++◌, ◌+◌, ◌∷◌, ◌≡◌, ◌≢◌, ◌≤◌, ◌⊎◌,
}
use marketpilot.Alerts.{
  AlertCandidate, AlertEngine, AlertFeedback, AlertPolicy, AlertRecord, due_escalations, new_engine,
  observe, record_feedback, record_of, deduplicated, acknowledgement, no_trade, p0, upside,
}
use marketpilot.Alerts.Escalation.{due_escalations_lem, Escalates}
use marketpilot.Alerts.Reach.{Reachable, alerts_spaced, next, observed, recorded, start}
use marketpilot.Alerts.Streaks.{alert_needs_streak, begin, seen, streak}
use marketpilot.Alerts.Evidence.{Keeps, evidence_is_append_only}

abbrev policy : AlertPolicy
policy = record { hysteresis_observations = 2; cooldown = 300; p0_escalation_after = 120 }

abbrev candidate : ℕ → AlertCandidate
candidate t = record {
  fingerprint = "spread";
  priority = p0;
  direction = upside;
  observed_at = t;
  evidence = [];
  event_id = none;
  snapshot_id = "snapshot-1";
  model_version = "m1";
  rules_version = "r1";
  action = no_trade;
  invalidation_conditions = [];
  rerun_trigger = "manual";
}

abbrev call : String → ℕ → AlertEngine → AlertEngine
call fresh t s = (observe policy fresh (candidate t) true s).1

abbrev first : AlertEngine
first = call "a0" 0 new_engine

abbrev second : AlertEngine
second = call "a1" 10 first

abbrev third : AlertEngine
third = call "a2" 20 second

abbrev fourth : AlertEngine
fourth = call "a3" 400 third

abbrev fifth : AlertEngine
fifth = (record_feedback "f1" "a1" acknowledgement "trader" (aware 50) none fourth).1

first_step : Reachable policy first
unfolding observe get
first_step = next new_engine _ start (observed "a0" (candidate 0) true new_engine refl)

second_step : Reachable policy second
unfolding observe get
second_step = next first _ first_step (observed "a1" (candidate 10) true first refl)

third_step : Reachable policy third
unfolding observe get put
third_step = next second _ second_step (observed "a2" (candidate 20) true second refl)

fourth_step : Reachable policy fourth
unfolding observe get put
fourth_step = next third _ third_step (observed "a3" (candidate 400) true third refl)

fifth_step : Reachable policy fifth
fifth_step =
    next fourth _ fourth_step (recorded "f1" "a1" acknowledgement "trader" (aware 50) none fourth)

abbrev alert_1 : AlertRecord
alert_1 = deduplicated (record_of "a1" (candidate 10))

abbrev alert_2 : AlertRecord
alert_2 = record_of "a3" (candidate 400)

first_there : get fourth.alerts "a1" ≡ some alert_1
unfolding observe get put
first_there = refl

second_there : get fourth.alerts "a3" ≡ some alert_2
unfolding observe get put
second_there = refl

abbrev id_1 : String
id_1 = "a1"

apart : id_1 ≢ "a3"
apart h = ground (arith, eq_iff id_1 "a3", h)

alerts_spaced_example : (10 + 300 ≤ 400) ⊎ (400 + 300 ≤ 10)
alerts_spaced_example =
    alerts_spaced policy fourth "a1" "a3" alert_1 alert_2 fourth_step first_there second_there apart
      refl

returned :
    (observe policy "a1" (candidate 10) true first).0 ≡ ok (some (record_of "a1" (candidate 10)))
unfolding observe get put
returned = refl

alert_needs_streak_example :
    (true ≡ true) × (2 ≤ streak "spread" (("spread", true) ∷ ("spread", true) ∷ []))
alert_needs_streak_example =
    alert_needs_streak policy (("spread", true) ∷ []) first "a1" (candidate 10) true
      (record_of "a1" (candidate 10)) (seen [] new_engine "a0" (candidate 0) true begin) returned

IsKeyed-fourth : IsKeyed fourth.alerts
unfolding observe get put
IsKeyed-fourth = (refl, (refl, tt))

due_escalations_lem_example :
    (due : List AlertRecord) × (after : Dict String AlertRecord) × (due_escalations policy
        (aware 130)
        fourth
      ≡ (ok due, record fourth { alerts = after }))
    × Escalates policy 130 fourth.alerts after due
due_escalations_lem_example = due_escalations_lem policy 130 fourth IsKeyed-fourth

evidence_is_append_only_example :
    Keeps fourth fifth
    × ((extra : List AlertFeedback) × (fifth.feedback ≡ fourth.feedback ++ extra))
evidence_is_append_only_example =
    evidence_is_append_only policy fourth fifth fourth_step
      (recorded "f1" "a1" acknowledgement "trader" (aware 50) none fourth)
