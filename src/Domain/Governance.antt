-- ===== src/Domain/Governance.antt =====
-- domain/governance.py: model versions, approvals whose id is the digest of their content, and
-- audit events. A message of `GovernanceError` is a constructor of the type of that name.
use marketpilot.Base.{
  text_key, ℕ, String, Option, none, some, Bool, ◌==◌, if◌then◌else◌, Result, ok, err, Datetime,
  naive, aware, strip, is_blank,
}
use marketpilot.Base.Fallible.{◌>>=◌}
use marketpilot.Domain.Snapshot.{
  Json, null, text, instant, object, end, field, Platform, freeze_snapshot,
}

pub data GovernanceError : Type 0 where
  must_not_be_blank : String → GovernanceError
  must_be_timezone_aware : String → GovernanceError
  identity_mismatch : GovernanceError
  version_already_registered : GovernanceError
  unknown_parent_version : GovernanceError
  unknown_model_version : GovernanceError
  approval_already_used : GovernanceError
  approval_does_not_match : GovernanceError
  no_validation_report : GovernanceError
  evidence_does_not_match : GovernanceError
  approval_predates_challenger : GovernanceError
  lineage_must_descend_from_champion : GovernanceError
  no_champion : GovernanceError
  already_the_champion : GovernanceError
  lineage_cycle : GovernanceError
  -- the fuel of the loop in `lineage` ran out, which no run of the code shows
  lineage_did_not_end : GovernanceError

-- `_required`
unfoldable pub required : String → String → Result GovernanceError String
unfolding strip is_blank
required value field_name =
    if is_blank value then err (must_not_be_blank field_name) else ok (strip value)

-- `_utc`
unfoldable pub utc : Datetime → String → Result GovernanceError ℕ
utc (naive _) field_name = err (must_be_timezone_aware field_name)
utc (aware t) _ = ok t

abbrev pub required_option : Option String → String → Result GovernanceError (Option String)
required_option none _ = ok none
required_option (some value) field_name = do v ← required value field_name; ok (some v)

pub record ModelVersion : Type 0 where
  pub model_id : String
  pub version : String
  pub artifact_hash : String
  pub data_manifest_hash : String
  pub trained_at : ℕ
  pub validation_report_hash : Option String
  pub parent_version : Option String

-- The constructor with `ModelVersion.__post_init__`.
unfoldable pub model_version :
    String
    → String
    → String
    → String
    → Datetime
    → Option String
    → Option String
    → Result GovernanceError ModelVersion
unfolding required utc
model_version model_id version artifact_hash data_manifest_hash trained_at report parent = do
  m ← required model_id "model_id"
  v ← required version "version"
  a ← required artifact_hash "artifact_hash"
  d ← required data_manifest_hash "data_manifest_hash"
  t ← utc trained_at "trained_at"
  r ← required_option report "validation_report_hash"
  p ← required_option parent "parent_version"
  ok (record {
    model_id = m;
    version = v;
    artifact_hash = a;
    data_manifest_hash = d;
    trained_at = t;
    validation_report_hash = r;
    parent_version = p;
  })

pub data ApprovalAction : Type 0 where
  promote rollback : ApprovalAction

abbrev pub action_value : ApprovalAction → String
action_value promote = "PROMOTE"
action_value rollback = "ROLLBACK"

abbrev pub optional_text : Option String → Json
optional_text none = null
optional_text (some s) = text s

pub record GovernanceApproval : Type 0 where
  pub approval_id : String
  pub action : ApprovalAction
  pub model_id : String
  pub source_version : Option String
  pub target_version : String
  pub approved_by : String
  pub approved_at : ℕ
  pub evidence_hash : String
  pub note : String

abbrev pub approval_payload :
    ApprovalAction → String → Option String → String → String → ℕ → String → String → Json
approval_payload action model_id source target by at evidence note = object (
    field "action" (text (action_value action)) (
      field "model_id" (text model_id) (
        field "source_version" (optional_text source) (
          field "target_version" (text target) (
            field "approved_by" (text by) (
              field "approved_at" (instant at)
                (field "evidence_hash" (text evidence) (field "note" (text note) end))))))))

-- The payload that `verify` digests again.
abbrev pub payload_of : GovernanceApproval → Json
payload_of a =
    approval_payload a.action a.model_id a.source_version a.target_version a.approved_by
      a.approved_at a.evidence_hash a.note

-- An absent or empty `source_version` is no source.
abbrev pub required_source : Option String → Result GovernanceError (Option String)
required_source none = ok none
required_source (some source) =
    if source == "" then ok none else do v ← required source "source_version"; ok (some v)

module _ (py : Platform) where
  -- `GovernanceApproval.create`
  unfoldable pub create :
      ApprovalAction
      → String
      → Option String
      → String
      → String
      → Datetime
      → String
      → String
      → Result GovernanceError GovernanceApproval
  unfolding required utc freeze_snapshot
  create action model_id source_version target_version approved_by approved_at evidence_hash note =
      do
        at ← utc approved_at "approved_at"
        m ← required model_id "model_id"
        t ← required target_version "target_version"
        by ← required approved_by "approved_by"
        e ← required evidence_hash "evidence_hash"
        n ← required note "note"
        s ← required_source source_version
        ok (record {
          approval_id = (freeze_snapshot py (approval_payload action m s t by at e n)).snapshot_id;
          action = action;
          model_id = m;
          source_version = s;
          target_version = t;
          approved_by = by;
          approved_at = at;
          evidence_hash = e;
          note = n;
        })

  -- `GovernanceApproval.verify`: false where the code raises
  unfoldable pub verify : GovernanceApproval → Bool
  unfolding freeze_snapshot
  verify a = (freeze_snapshot py (payload_of a)).snapshot_id == a.approval_id

pub record GovernanceEvent : Type 0 where
  pub action : ApprovalAction
  pub model_id : String
  pub source_version : Option String
  pub target_version : String
  pub approval_id : String
  pub occurred_at : ℕ
