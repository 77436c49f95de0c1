-- ===== src/Readiness/Gate.antt =====
-- `evaluate_shadow_evidence` and `evaluate_readiness`. A blocker is a constructor in place of its text.
use marketpilot.Base.{
  text_key, nat_key, Bool, Datetime, Dict, List, Option, Result, String, [], any, aware, contains,
  err, false, get, if◌then◌else◌, is_some, last, leb, length, ltb, map, naive, nat_eq, none, not,
  ok, put, select, some, true, ℕ, ◌&&◌, ◌++◌, ◌==◌, ◌∷◌, ◌||◌,
}
use marketpilot.Base.Fallible.{◌>>=◌, ◌>>◌, refuse_if}
use marketpilot.Domain.Snapshot.{Platform}
use marketpilot.Readiness.Evidence.{
  EvidenceRequirement, EvidenceStatus, ReadinessEvidence, ReadinessManifest, requirement_key,
  is_verified, manifest_digest, required_external_evidence,
}
use marketpilot.Readiness.Ledger.{ShadowLedgerEntry, ShadowSession}

pub data GateError : Type 0 where
  thresholds_must_be_positive : GateError
  must_be_timezone_aware : String → GateError

pub data ShadowBlocker : Type 0 where
  session_time_window code_version_mismatch shadow_session_count : ShadowBlocker
  shadow_trading_date_count source_degradation_drill recovery_drill : ShadowBlocker

pub data Blocker : Type 0 where
  manifest_generated_in_future : Blocker
  evidence_missing evidence_expired : EvidenceRequirement → Blocker
  evidence_not_verified : EvidenceStatus → EvidenceRequirement → Blocker
  shadow : ShadowBlocker → Blocker

pub record ShadowEvidenceReport : Type 0 where
  pub chain_valid : Bool
  pub ledger_head_sha256 : Option String
  pub recorded_sessions : ℕ
  pub qualifying_sessions : ℕ
  pub qualifying_trading_dates : ℕ
  pub rejected_time_window_sessions : ℕ
  pub degradation_drill_observed : Bool
  pub recovery_drill_observed : Bool
  pub blockers : List ShadowBlocker

-- The fields that can have one value only are left out.
pub record ReadinessGateReport : Type 0 where
  pub evaluated_at : ℕ
  pub manifest_sha256 : String
  pub evidence_complete : Bool
  pub shadow_evidence : ShadowEvidenceReport
  pub shadow_admission_ready : Bool
  pub blockers : List Blocker

-- The arguments that the calls share.
pub record Thresholds : Type 0 where
  pub expected_code_version : Option String
  pub minimum_sessions : ℕ
  pub minimum_trading_dates : ℕ

-- `{item.trading_date for item in ...}`
unfoldable pub distinct : List ℕ → List ℕ
distinct [] = []
distinct (d ∷ ds) = let rest = distinct ds in if contains d rest then rest else d ∷ rest

abbrev pub code_matches : Option String → ShadowSession → Bool
code_matches none s = true
code_matches (some version) s = s.code_version == version

-- The window that a session must lie in.
abbrev pub in_window : ℕ → ℕ → ShadowSession → Bool
in_window generated now s = leb generated s.started_at && leb s.ended_at now

unfoldable pub is_qualifying : Thresholds → ℕ → ℕ → ShadowSession → Bool
is_qualifying t generated now s =
    in_window generated now s
    && code_matches t.expected_code_version s
    && s.audit_integrity_passed
    && is_some s.exact_es_contract
    && not (nat_eq (length s.capability_report_ids) 0)
    && ltb 0 s.decision_count

unfoldable pub sessions_for : String → List ShadowLedgerEntry → List ShadowSession
sessions_for digest entries =
    select (λ (s : ShadowSession). s.readiness_manifest_sha256 == digest)
      (map (λ (e : ShadowLedgerEntry). e.session) entries)

abbrev pub when : {A : Type 0} → Bool → A → List A
when c b = if c then b ∷ [] else []

abbrev hash_of : Option ShadowLedgerEntry → Option String
hash_of none = none
hash_of (some e) = some e.entry_hash

-- The body of `evaluate_shadow_evidence`, from the list `matching_manifest` on.
unfoldable pub shadow_report :
    Thresholds → ℕ → ℕ → List ShadowLedgerEntry → List ShadowSession → ShadowEvidenceReport
unfolding distinct is_qualifying
shadow_report t generated now entries matching =
    let outside = select (λ s. ltb s.started_at generated || ltb now s.ended_at) matching in
    let mismatched = select (λ s. not (code_matches t.expected_code_version s)) matching in
    let qualifying = select (is_qualifying t generated now) matching in
    let dates = distinct (map (λ (s : ShadowSession). s.trading_date) qualifying) in
    let degradation = any (λ (s : ShadowSession). s.source_degradation_drill_passed) qualifying in
    let recovery = any (λ (s : ShadowSession). s.recovery_drill_passed) qualifying in
    record {
      chain_valid = true;
      ledger_head_sha256 = hash_of (last entries);
      recorded_sessions = length entries;
      qualifying_sessions = length qualifying;
      qualifying_trading_dates = length dates;
      rejected_time_window_sessions = length outside;
      degradation_drill_observed = degradation;
      recovery_drill_observed = recovery;
      blockers =
          when (ltb 0 (length outside)) session_time_window
          ++ (when (ltb 0 (length mismatched)) code_version_mismatch
              ++ (when (ltb (length qualifying) t.minimum_sessions) shadow_session_count
                  ++ (when (ltb (length dates) t.minimum_trading_dates) shadow_trading_date_count
                      ++ (when (not degradation) source_degradation_drill
                          ++ when (not recovery) recovery_drill))));
    }

unfoldable pub evaluate_shadow_evidence :
    Thresholds
    → String
    → Datetime
    → Datetime
    → List ShadowLedgerEntry
    → Result GateError ShadowEvidenceReport
unfolding shadow_report sessions_for
evaluate_shadow_evidence t digest (naive _) now entries = do
  refuse_if (nat_eq t.minimum_sessions 0 || nat_eq t.minimum_trading_dates 0)
      thresholds_must_be_positive
  err (must_be_timezone_aware "manifest_generated_at")
evaluate_shadow_evidence t digest (aware generated) (naive _) entries = do
  refuse_if (nat_eq t.minimum_sessions 0 || nat_eq t.minimum_trading_dates 0)
      thresholds_must_be_positive
  err (must_be_timezone_aware "evaluated_at")
evaluate_shadow_evidence t digest (aware generated) (aware now) entries = do
  refuse_if (nat_eq t.minimum_sessions 0 || nat_eq t.minimum_trading_dates 0)
      thresholds_must_be_positive
  ok (shadow_report t generated now entries (sessions_for digest entries))

-- `{item.requirement: item for item in manifest.evidence}`
unfoldable pub by_requirement :
    List ReadinessEvidence
    → Dict EvidenceRequirement ReadinessEvidence
    → Dict EvidenceRequirement ReadinessEvidence
by_requirement [] d = d
by_requirement (e ∷ es) d = by_requirement es (put d e.requirement e)

abbrev is_expired : ℕ → Option ℕ → Bool
is_expired now none = true
is_expired now (some t) = leb t now

unfoldable pub evidence_blockers : ℕ → EvidenceRequirement → Option ReadinessEvidence → List Blocker
evidence_blockers now r none = evidence_missing r ∷ []
evidence_blockers now r (some e) =
    if not (is_verified e.status)
    then evidence_not_verified e.status r ∷ []
    else when (is_expired now e.expires_at) (evidence_expired r)

-- The loop over the requirements.
unfoldable pub requirement_blockers :
    ℕ → Dict EvidenceRequirement ReadinessEvidence → List EvidenceRequirement → List Blocker
unfolding evidence_blockers
requirement_blockers now d [] = []
requirement_blockers now d (r ∷ rs) =
    evidence_blockers now r (get d r) ++ requirement_blockers now d rs

-- `item.startswith(("EVIDENCE_", "MANIFEST_"))`
abbrev is_evidence : Blocker → Bool
is_evidence (shadow _) = false
is_evidence _ = true

-- The list `blockers` of `evaluate_readiness`.
unfoldable pub gate_blockers : ReadinessManifest → ℕ → ShadowEvidenceReport → List Blocker
unfolding by_requirement requirement_blockers
gate_blockers m now report =
    when (ltb now m.generated_at) manifest_generated_in_future
    ++ (requirement_blockers now (by_requirement m.evidence []) required_external_evidence
        ++ map shadow report.blockers)

unfoldable pub gate_report :
    Platform → ReadinessManifest → ℕ → ShadowEvidenceReport → ReadinessGateReport
unfolding gate_blockers manifest_digest
gate_report py m now report =
    let found = gate_blockers m now report in
    record {
      evaluated_at = now;
      manifest_sha256 = manifest_digest py m;
      evidence_complete = not (any is_evidence found);
      shadow_evidence = report;
      shadow_admission_ready = nat_eq (length found) 0;
      blockers = found;
    }

unfoldable pub evaluate_readiness :
    Platform
    → Thresholds
    → ReadinessManifest
    → List ShadowLedgerEntry
    → Datetime
    → Result GateError ReadinessGateReport
unfolding evaluate_shadow_evidence gate_report
evaluate_readiness py t m entries (naive _) = err (must_be_timezone_aware "evaluated_at")
evaluate_readiness py t m entries (aware now) = do
  report ←
      evaluate_shadow_evidence t (manifest_digest py m) (aware m.generated_at) (aware now) entries
  ok (gate_report py m now report)
