-- ===== src/Readiness/Evidence.antt =====
-- domain/readiness.py: what evidence must show to count as verified, and the manifest of it. The
-- field patterns that pydantic tests are not modelled.
use marketpilot.Base.{
  map, text_key, Bool, Key, List, Option, Result, String, [], any, arith, false, if◌then◌else◌,
  is_some, leb, ltb, nat_eq, none, not, ok, some, true, ℕ, ◌&&◌, ◌||◌, ◌↔◌, ◌∷◌, ◌≡◌,
}
use marketpilot.Base.Fallible.{◌>>◌, refuse_if}
use marketpilot.Domain.Snapshot.{
  Json, null, flag, text, instant, list, object, Items, nil, cons, end, field, Platform,
  freeze_snapshot,
}

pub data EvidenceRequirement : Type 0 where
  webull_account_entitlement licensed_market_data_coverage : EvidenceRequirement
  point_in_time_timestamp_semantics expired_spxw_nbbo_history : EvidenceRequirement
  live_event_source_coverage production_security_and_recovery : EvidenceRequirement
  untouched_holdout_approval : EvidenceRequirement

abbrev requirement_index : EvidenceRequirement → ℕ
requirement_index webull_account_entitlement = 0
requirement_index licensed_market_data_coverage = 1
requirement_index point_in_time_timestamp_semantics = 2
requirement_index expired_spxw_nbbo_history = 3
requirement_index live_event_source_coverage = 4
requirement_index production_security_and_recovery = 5
requirement_index untouched_holdout_approval = 6

abbrev pub requirement_eq : EvidenceRequirement → EvidenceRequirement → Bool
requirement_eq a b = nat_eq (requirement_index a) (requirement_index b)

pub requirement_eq_iff : (a b : EvidenceRequirement) → (requirement_eq a b ≡ true) ↔ (a ≡ b)
requirement_eq_iff a b = ground arith

instance abbrev pub requirement_key : Key EvidenceRequirement
requirement_key = record { equal = requirement_eq; equal_iff = requirement_eq_iff }

-- `REQUIRED_EXTERNAL_EVIDENCE`
abbrev pub required_external_evidence : List EvidenceRequirement
required_external_evidence =
    webull_account_entitlement ∷ licensed_market_data_coverage ∷ point_in_time_timestamp_semantics
    ∷ expired_spxw_nbbo_history ∷ live_event_source_coverage ∷ production_security_and_recovery
    ∷ untouched_holdout_approval ∷ []

pub data EvidenceStatus : Type 0 where
  unverified verified failed : EvidenceStatus

pub data EvidenceAuthority : Type 0 where
  authorized_provider independent_licensee infrastructure_control : EvidenceAuthority
  approval_authority local_simulation : EvidenceAuthority

-- `ALLOWED_EVIDENCE_AUTHORITIES`
unfoldable pub allows : EvidenceRequirement → EvidenceAuthority → Bool
allows webull_account_entitlement authorized_provider = true
allows licensed_market_data_coverage independent_licensee = true
allows point_in_time_timestamp_semantics authorized_provider = true
allows point_in_time_timestamp_semantics independent_licensee = true
allows expired_spxw_nbbo_history independent_licensee = true
allows live_event_source_coverage independent_licensee = true
allows production_security_and_recovery infrastructure_control = true
allows untouched_holdout_approval approval_authority = true
allows _ _ = false

pub record ReadinessEvidence : Type 0 where
  pub requirement : EvidenceRequirement
  pub status : EvidenceStatus
  pub authority : EvidenceAuthority
  pub issuer : Option String
  pub observed_at : Option ℕ
  pub expires_at : Option ℕ
  pub artifact_sha256 : Option String
  pub review_id : Option String
  pub scope : Option String
  pub redactions_confirmed : Bool

pub data EvidenceError : Type 0 where
  based_on_local_simulation : EvidenceError
  cannot_verify : EvidenceError
  evidence_is_missing_fields : EvidenceError
  redactions_not_confirmed : EvidenceError
  expiry_precedes_observation : EvidenceError
  requirements_not_unique : EvidenceError
  manifest_predates_evidence : EvidenceError

abbrev pub is_verified : EvidenceStatus → Bool
is_verified verified = true
is_verified _ = false

abbrev is_local : EvidenceAuthority → Bool
is_local local_simulation = true
is_local _ = false

-- `expires_at <= observed_at`, where both are there
abbrev expires_early : Option ℕ → Option ℕ → Bool
expires_early (some expires) (some observed) = leb expires observed
expires_early _ _ = false

-- `verified_evidence_requires_external_review`
unfoldable pub check_evidence : ReadinessEvidence → Result EvidenceError (Unit {0})
unfolding allows
check_evidence e = if not (is_verified e.status) then ok tt else (do
  refuse_if (is_local e.authority) based_on_local_simulation
  refuse_if (not (allows e.requirement e.authority)) cannot_verify
  refuse_if
      (not (
        is_some e.issuer
        && is_some e.observed_at
        && is_some e.expires_at
        && is_some e.artifact_sha256
        && is_some e.review_id
        && is_some e.scope))
      evidence_is_missing_fields
  refuse_if (not e.redactions_confirmed) redactions_not_confirmed
  refuse_if (expires_early e.expires_at e.observed_at) expiry_precedes_observation)

pub record ReadinessManifest : Type 0 where
  pub generated_at : ℕ
  pub environment : String
  pub evidence : List ReadinessEvidence

abbrev unverified_evidence : EvidenceRequirement → ReadinessEvidence
unverified_evidence r = record {
  requirement = r;
  status = unverified;
  authority = local_simulation;
  issuer = none;
  observed_at = none;
  expires_at = none;
  artifact_sha256 = none;
  review_id = none;
  scope = none;
  redactions_confirmed = false;
}

unfoldable pub unverified_template : ℕ → String → ReadinessManifest
unverified_template generated_at environment = record {
  generated_at = generated_at;
  environment = environment;
  evidence = map unverified_evidence required_external_evidence;
}

abbrev repeats : List ReadinessEvidence → Bool
repeats [] = false
repeats (e ∷ es) =
    any (λ (d : ReadinessEvidence). requirement_eq d.requirement e.requirement) es || repeats es

abbrev observed_later : ℕ → Option ℕ → Bool
observed_later t none = false
observed_later t (some observed) = ltb t observed

-- `requirements_are_unique`
unfoldable pub check_manifest : ReadinessManifest → Result EvidenceError (Unit {0})
check_manifest m = do
  refuse_if (repeats m.evidence) requirements_not_unique
  refuse_if
      (any (λ (e : ReadinessEvidence). observed_later m.generated_at e.observed_at) m.evidence)
      manifest_predates_evidence

abbrev requirement_value : EvidenceRequirement → String
requirement_value webull_account_entitlement = "WEBULL_ACCOUNT_ENTITLEMENT"
requirement_value licensed_market_data_coverage = "LICENSED_MARKET_DATA_COVERAGE"
requirement_value point_in_time_timestamp_semantics = "POINT_IN_TIME_TIMESTAMP_SEMANTICS"
requirement_value expired_spxw_nbbo_history = "EXPIRED_SPXW_NBBO_HISTORY"
requirement_value live_event_source_coverage = "LIVE_EVENT_SOURCE_COVERAGE"
requirement_value production_security_and_recovery = "PRODUCTION_SECURITY_AND_RECOVERY"
requirement_value untouched_holdout_approval = "UNTOUCHED_HOLDOUT_APPROVAL"

abbrev status_value : EvidenceStatus → String
status_value unverified = "UNVERIFIED"
status_value verified = "VERIFIED"
status_value failed = "FAILED"

abbrev authority_value : EvidenceAuthority → String
authority_value authorized_provider = "AUTHORIZED_PROVIDER"
authority_value independent_licensee = "INDEPENDENT_LICENSEE"
authority_value infrastructure_control = "INFRASTRUCTURE_CONTROL"
authority_value approval_authority = "APPROVAL_AUTHORITY"
authority_value local_simulation = "LOCAL_SIMULATION"

abbrev pub text_or_null : Option String → Json
text_or_null none = null
text_or_null (some s) = text s

abbrev instant_or_null : Option ℕ → Json
instant_or_null none = null
instant_or_null (some t) = instant t

abbrev evidence_json : ReadinessEvidence → Json
evidence_json e = object (
    field "requirement" (text (requirement_value e.requirement)) (
      field "status" (text (status_value e.status)) (
        field "authority" (text (authority_value e.authority)) (
          field "issuer" (text_or_null e.issuer) (
            field "observed_at" (instant_or_null e.observed_at) (
              field "expires_at" (instant_or_null e.expires_at) (
                field "artifact_sha256" (text_or_null e.artifact_sha256) (
                  field "review_id" (text_or_null e.review_id) (
                    field "scope" (text_or_null e.scope) (
                      field "redactions_confirmed" (flag e.redactions_confirmed)
                        (field "raw_payload_included" (flag false) end)))))))))))

abbrev evidence_items : List ReadinessEvidence → Items
evidence_items [] = nil
evidence_items (e ∷ es) = cons (evidence_json e) (evidence_items es)

-- `digest()`; the platform stands for this module's own call of `json.dumps`
unfoldable pub manifest_digest : Platform → ReadinessManifest → String
unfolding freeze_snapshot
manifest_digest py m =
    let payload = object (
      field "manifest_version" (text "1") (
        field "generated_at" (instant m.generated_at) (
          field "environment" (text m.environment) (
            field "evidence" (list (evidence_items m.evidence)) (
              field "manual_webull_execution_only" (flag true)
                (field "automated_order_submission" (flag false) end)))))) in
    (freeze_snapshot py payload).snapshot_id
