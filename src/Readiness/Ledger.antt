-- ===== src/Readiness/Ledger.antt =====
-- The ledger of shadow sessions: `ShadowSession`, `ShadowLedgerEntry` and `class ShadowLedger`. The
-- file is the list of its entries; what the code asks of its kind and permissions is not modelled.
use marketpilot.Base.{
  leb, ◌&&◌, true, text_key, Bool, Exec, List, Option, Result, String, [], any, contains, err,
  false, if◌then◌else◌, last, length, nat_eq, none, not, ok, some, ℕ, ◌++◌, ◌+◌, ◌==◌, ◌||◌, ◌∷◌,
}
use marketpilot.Base.Fallible.{◌>>◌, refuse_if}
use marketpilot.Domain.Snapshot.{
  Json, flag, text, number, instant, day, list, object, Items, nil, cons, end, field, Platform,
  freeze_snapshot,
}
use marketpilot.Readiness.Evidence.{text_or_null}

-- A constructed session, with the exact contract normalised. A date is its ordinal. The fields that
-- can have one value only are left out.
pub record ShadowSession : Type 0 where
  pub session_id : String
  pub trading_date : ℕ
  pub started_at : ℕ
  pub ended_at : ℕ
  pub environment : String
  pub readiness_manifest_sha256 : String
  pub capability_report_ids : List String
  pub exact_es_contract : Option String
  pub code_version : String
  pub rules_version : String
  pub model_version : String
  pub audit_export_sha256 : String
  pub operator_review_id : String
  pub decision_count : ℕ
  pub no_trade_count : ℕ
  pub wait_count : ℕ
  pub audit_integrity_passed : Bool
  pub source_degradation_drill_passed : Bool
  pub recovery_drill_passed : Bool
  pub source_degradation_evidence_sha256 : Option String
  pub recovery_evidence_sha256 : Option String
  pub incident_ids : List String

pub data SessionError : Type 0 where
  must_end_after_start : SessionError
  trading_date_must_match : SessionError
  decisions_must_be_counted : SessionError
  degradation_drill_requires_evidence : SessionError
  recovery_drill_requires_evidence : SessionError

-- `not value`, of a text that may be `None`
abbrev is_absent : Option String → Bool
is_absent none = true
is_absent (some s) = s == ""

-- `validate_counts_and_window`; the date in New York of an instant is a parameter
unfoldable pub check_session : (ℕ → ℕ) → ShadowSession → Result SessionError (Unit {0})
check_session new_york_date s = do
  refuse_if (leb s.ended_at s.started_at) must_end_after_start
  refuse_if (not (nat_eq s.trading_date (new_york_date s.started_at))) trading_date_must_match
  refuse_if (not (nat_eq (s.no_trade_count + s.wait_count) s.decision_count))
      decisions_must_be_counted
  refuse_if (s.source_degradation_drill_passed && is_absent s.source_degradation_evidence_sha256)
      degradation_drill_requires_evidence
  refuse_if (s.recovery_drill_passed && is_absent s.recovery_evidence_sha256)
      recovery_drill_requires_evidence

pub record ShadowLedgerEntry : Type 0 where
  pub sequence : ℕ
  pub previous_hash : String
  pub session : ShadowSession
  pub entry_hash : String

abbrev pub texts : List String → Items
texts [] = nil
texts (s ∷ ss) = cons (text s) (texts ss)

-- `session.model_dump(mode="json")`
abbrev pub session_json : ShadowSession → Json
session_json s = object (
    field "session_id" (text s.session_id) (
      field "trading_date" (day s.trading_date) (
        field "started_at" (instant s.started_at) (
          field "ended_at" (instant s.ended_at) (
            field "environment" (text s.environment) (
              field "readiness_manifest_sha256" (text s.readiness_manifest_sha256) (
                field "capability_report_ids" (list (texts s.capability_report_ids)) (
                  field "exact_es_contract" (text_or_null s.exact_es_contract) (
                    field "code_version" (text s.code_version) (
                      field "rules_version" (text s.rules_version) (
                        field "model_version" (text s.model_version) (
                          field "audit_export_sha256" (text s.audit_export_sha256) (
                            field "operator_review_id" (text s.operator_review_id) (
                              field "decision_count" (number s.decision_count) (
                                field "no_trade_count" (number s.no_trade_count) (
                                  field "wait_count" (number s.wait_count) (
                                    field "audit_integrity_passed" (flag s.audit_integrity_passed) (
                                      field "source_degradation_drill_passed"
                                        (flag s.source_degradation_drill_passed)
                                        (field "recovery_drill_passed"
                                          (flag s.recovery_drill_passed)
                                          (field "source_degradation_evidence_sha256"
                                            (text_or_null s.source_degradation_evidence_sha256)
                                            (field "recovery_evidence_sha256"
                                              (text_or_null s.recovery_evidence_sha256)
                                              (field "incident_ids" (list (texts s.incident_ids)) (
                                                field "execution_enabled" (flag false) (
                                                  field "automated_orders_created" (number 0) (
                                                    field "raw_licensed_payloads_included"
                                                      (flag false) end)))))))))))))))))))))))))

abbrev pub entry_payload : ShadowLedgerEntry → Json
entry_payload e = object (
    field "sequence" (number e.sequence)
      (field "previous_hash" (text e.previous_hash) (field "session" (session_json e.session) end)))

-- `_entry_hash`
unfoldable pub entry_hash_of : Platform → ShadowLedgerEntry → String
unfolding freeze_snapshot
entry_hash_of py e = (freeze_snapshot py (entry_payload e)).snapshot_id

pub data ReadinessEvidenceError : Type 0 where
  chain_is_discontinuous : ReadinessEvidenceError
  hash_verification_failed : ReadinessEvidenceError
  duplicate_session_id : ReadinessEvidenceError
  session_id_exists : ReadinessEvidenceError

pub record ShadowLedger : Type 0 where
  pub lines : List ShadowLedgerEntry

abbrev pub previous_of : Option ShadowLedgerEntry → String
previous_of none = "GENESIS"
previous_of (some e) = e.entry_hash

module _ (py : Platform) where
  -- The loop of `_verify`: the sequence number expected, the digest before, the ids met.
  unfoldable pub verify_from :
      ℕ → String → List String → List ShadowLedgerEntry → Result ReadinessEvidenceError (Unit {0})
  unfolding entry_hash_of
  verify_from expected previous ids [] = ok tt
  verify_from expected previous ids (e ∷ es) = do
    refuse_if (not (nat_eq e.sequence expected) || not (e.previous_hash == previous))
        chain_is_discontinuous
    refuse_if (not (e.entry_hash == entry_hash_of py e)) hash_verification_failed
    refuse_if (contains e.session.session_id ids) duplicate_session_id
    verify_from (expected + 1) e.entry_hash (e.session.session_id ∷ ids) es

  unfoldable pub load : ShadowLedger → Result ReadinessEvidenceError (List ShadowLedgerEntry)
  unfolding verify_from
  load f = do verify_from 1 "GENESIS" [] f.lines; ok f.lines

  abbrev unhashed : List ShadowLedgerEntry → ShadowSession → ShadowLedgerEntry
  unhashed entries session = record {
    sequence = length entries + 1;
    previous_hash = previous_of (last entries);
    session = session;
    entry_hash = "";
  }

  abbrev pub next_entry : List ShadowLedgerEntry → ShadowSession → ShadowLedgerEntry
  next_entry entries session = record (unhashed entries session) {
    entry_hash = entry_hash_of py (unhashed entries session);
  }

  -- `append`, under the lock of the file
  unfoldable pub append : ShadowSession → Exec ShadowLedger ReadinessEvidenceError ShadowLedgerEntry
  unfolding load entry_hash_of
  append session f = elim (load f) [
    | err e ↦ (err e, f)
    | ok entries ↦
        if any (λ (e : ShadowLedgerEntry). e.session.session_id == session.session_id) entries
        then (err session_id_exists, f)
        else (
          ok (next_entry entries session),
          record { lines = f.lines ++ next_entry entries session ∷ [] },
        )
  ]
