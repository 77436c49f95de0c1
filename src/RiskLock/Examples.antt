-- ===== src/RiskLock/Examples.antt =====
-- A consumer-price release: confirmed, corroborated, and stable from 120 seconds on.
use marketpilot.Base.{
  text_key, arith, aware, false, minutes, none, ok, refl, some, true, ℕ, ◌<◌, ◌≡◌,
}
use marketpilot.RiskLock.{
  EventRecord, RiskLockAssessment, EventKind, EventSeverity, default_policy, assess, assess_at,
  stabilizing, cleared,
}
use marketpilot.RiskLock.State.{IsExact, assess-IsExact, rerun_clears}

abbrev release : EventRecord ℕ
release = record {
  event_id = "cpi";
  kind = EventKind.scheduled;
  severity = EventSeverity.p0;
  scheduled_at = some (minutes 60);
  source_published_at = minutes 60;
  first_seen_at = minutes 60;
  confirmed_at = some (minutes 61);
  market_reaction_start_at = none;
  session_close_at = none;
  next_cash_open_at = none;
  corroborating_sources = 3;
  contradictory_evidence = false;
  cross_asset_confirmed = true;
  cross_asset_confirmed_at = some (minutes 62);
  stable_since = some (minutes 63);
  stable_observations = 4;
}

abbrev at_64 : RiskLockAssessment
at_64 = assess_at default_policy release (minutes 64)

at_64_state : at_64.state ≡ stabilizing
unfolding assess_at
at_64_state = refl

at_64_checkpoint : at_64.next_checkpoint ≡ "T+5m"
unfolding assess_at
at_64_checkpoint = refl

assess-IsExact_example :
    (a : RiskLockAssessment) × (assess default_policy release (aware (minutes 64)) ≡ ok a)
    × IsExact default_policy release (minutes 64) a
assess-IsExact_example = assess-IsExact default_policy release (minutes 64) (omega arith)

rerun_clears_example :
    (minutes 64 < minutes 65)
    × ((b : RiskLockAssessment) × (assess default_policy release (aware (minutes 65)) ≡ ok b)
        × (b.state ≡ cleared))
unfolding assess
rerun_clears_example =
    rerun_clears default_policy release (minutes 64) (minutes 65) at_64 refl refl refl (omega arith)
