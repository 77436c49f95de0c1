-- ===== src/Readiness/Examples.antt =====
-- A manifest with all its evidence and a ledger with one session that passes both drills.
use marketpilot.Base.{
  text_key, All, List, [], aware, get, none, ok, put, refl, some, true, ◌∷◌, ◌≡◌,
}
use marketpilot.Fixtures.{toy}
use marketpilot.Readiness.{
  EvidenceRequirement, EvidenceAuthority, ReadinessEvidence, ReadinessManifest, ReadinessGateReport,
  ShadowLedger, ShadowLedgerEntry, ShadowSession, Thresholds, check_evidence, check_manifest,
  check_session, unverified_template, evaluate_readiness, gate_report, manifest_digest, next_entry,
  sessions_for, shadow_report, verified, approval_authority, authorized_provider,
  independent_licensee, infrastructure_control, webull_account_entitlement,
  licensed_market_data_coverage, point_in_time_timestamp_semantics, expired_spxw_nbbo_history,
  live_event_source_coverage, production_security_and_recovery, untouched_holdout_approval,
}
use marketpilot.Readiness.Admission.{IsAmong, IsProof, admission_needs_evidence}
use marketpilot.Readiness.Sessions.{IsAdmitted, admission_needs_sessions}

abbrev proof_of : EvidenceRequirement → EvidenceAuthority → ReadinessEvidence
proof_of r a = record {
  requirement = r;
  status = verified;
  authority = a;
  issuer = some "issuer";
  observed_at = some 5;
  expires_at = some 100;
  artifact_sha256 = some "artifact";
  review_id = some "review";
  scope = some "scope";
  redactions_confirmed = true;
}

abbrev manifest : ReadinessManifest
manifest = record {
  generated_at = 10;
  environment = "staging";
  evidence =
      proof_of webull_account_entitlement authorized_provider
      ∷ proof_of licensed_market_data_coverage independent_licensee
      ∷ proof_of point_in_time_timestamp_semantics authorized_provider
      ∷ proof_of expired_spxw_nbbo_history independent_licensee
      ∷ proof_of live_event_source_coverage independent_licensee
      ∷ proof_of production_security_and_recovery infrastructure_control
      ∷ proof_of untouched_holdout_approval approval_authority
      ∷ [];
}

abbrev session : ShadowSession
session = record {
  session_id = "session-1";
  trading_date = 1;
  started_at = 20;
  ended_at = 30;
  environment = "staging";
  readiness_manifest_sha256 = manifest_digest toy manifest;
  capability_report_ids = "report-1" ∷ [];
  exact_es_contract = some "ESZ6";
  code_version = "v1";
  rules_version = "v1";
  model_version = "v1";
  audit_export_sha256 = "audit";
  operator_review_id = "operator";
  decision_count = 3;
  no_trade_count = 2;
  wait_count = 1;
  audit_integrity_passed = true;
  source_degradation_drill_passed = true;
  recovery_drill_passed = true;
  source_degradation_evidence_sha256 = some "degraded";
  recovery_evidence_sha256 = some "recovered";
  incident_ids = [];
}

abbrev entries : List ShadowLedgerEntry
entries = next_entry toy [] session ∷ []

abbrev file : ShadowLedger
file = record { lines = entries }

abbrev thresholds : Thresholds
thresholds = record {
  expected_code_version = none;
  minimum_sessions = 1;
  minimum_trading_dates = 1;
}

abbrev admitting_report : ReadinessGateReport
admitting_report =
    gate_report toy manifest 40 (shadow_report thresholds 10 40 entries (session ∷ []))

manifest-made : All (λ e. check_evidence e ≡ ok tt) manifest.evidence
unfolding check_evidence
manifest-made = (refl, (refl, (refl, (refl, (refl, (refl, (refl, tt)))))))

admits : evaluate_readiness toy thresholds manifest entries (aware 40) ≡ ok admitting_report
unfolding evaluate_readiness
admits = refl

is_ready : admitting_report.shadow_admission_ready ≡ true
unfolding gate_report shadow_report get put
is_ready = refl

admission_needs_evidence_example :
    (e : ReadinessEvidence) × IsAmong e manifest.evidence × IsProof untouched_holdout_approval 40 e
admission_needs_evidence_example =
    admission_needs_evidence toy thresholds manifest entries 40 admitting_report
      untouched_holdout_approval manifest-made admits is_ready

admission_needs_sessions_example :
    IsAdmitted thresholds 10 40 (sessions_for (manifest_digest toy manifest) entries)
admission_needs_sessions_example =
    admission_needs_sessions toy thresholds manifest entries 40 admitting_report admits is_ready

template_run : check_manifest (unverified_template 10 "staging") ≡ ok tt
unfolding check_manifest unverified_template
template_run = refl

session_run : check_session (λ t. 1) session ≡ ok tt
unfolding check_session
session_run = refl
