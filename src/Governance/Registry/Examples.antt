-- ===== src/Governance/Registry/Examples.antt =====
-- A registry with two versions, a promotion of each, and a rollback.
use marketpilot.Base.{
  text_key, pair_key, List, Option, String, [], err, inl, none, ok, refl, some, ℕ, ◌↔◌, ◌∷◌, ◌≡◌,
  ◌≢◌, get, is_blank, setdefault,
}
use marketpilot.Fixtures.{toy}
use marketpilot.Domain.Snapshot.{freeze_snapshot}
use marketpilot.Domain.Governance.{
  ModelVersion, ApprovalAction, GovernanceApproval, GovernanceError, approval_payload,
}
use marketpilot.Governance.Registry.{
  Registry, empty, find, register_challenger, promote, rollback, freeze_session, champion, lineage,
  get_version, validate_approval, record_approval, versions_of,
}
use marketpilot.Governance.Registry.Actions.{
  approved, Promotable, Restorable, promote_exactly, rollback_exactly,
}
use marketpilot.Governance.Registry.Steps.{Call, registering, promoting, rolling_back, apply, run}
use marketpilot.Governance.Registry.Sessions.{session_stays_frozen, approval_used_once}
use marketpilot.Governance.Registry.Audit.{IsAudited, audit_tells_champions}
use marketpilot.Governance.Registry.Lineage.{Descends, lineage_reaches_root}

abbrev first_model : ModelVersion
first_model = record {
  model_id = "ic";
  version = "v1";
  artifact_hash = "a1";
  data_manifest_hash = "d1";
  trained_at = 10;
  validation_report_hash = some "r1";
  parent_version = none;
}

abbrev second_model : ModelVersion
second_model = record {
  model_id = "ic";
  version = "v2";
  artifact_hash = "a2";
  data_manifest_hash = "d2";
  trained_at = 30;
  validation_report_hash = some "r2";
  parent_version = some "v1";
}

abbrev genuine : ApprovalAction → Option String → String → ℕ → String → GovernanceApproval
genuine action source target at evidence = record {
  approval_id =
      (freeze_snapshot toy
        (approval_payload action "ic" source target "risk" at evidence "ok")).snapshot_id;
  action = action;
  model_id = "ic";
  source_version = source;
  target_version = target;
  approved_by = "risk";
  approved_at = at;
  evidence_hash = evidence;
  note = "ok";
}

abbrev to_first : GovernanceApproval
to_first = genuine ApprovalAction.promote none "v1" 20 "r1"

abbrev to_second : GovernanceApproval
to_second = genuine ApprovalAction.promote (some "v1") "v2" 40 "r2"

abbrev back_to_first : GovernanceApproval
back_to_first = genuine ApprovalAction.rollback (some "v2") "v1" 50 "r1"

abbrev before : List Call
before = registering first_model ∷ registering second_model ∷ []

abbrev promoted : List Call
promoted = registering first_model ∷ promoting "ic" "v1" to_first ∷ registering second_model ∷ []

abbrev later : List Call
later =
    promoting "ic" "v2" to_second
    ∷ rolling_back "ic" "v1" back_to_first
    ∷ promoting "ic" "v2" to_second
    ∷ []

-- The second use of `to_second` is refused, so the champion is "v1" at the end.
reuse_refused : (champion "ic" none (run toy later (run toy promoted empty))).0 ≡ ok first_model
unfolding champion get_version run apply promote rollback register_challenger validate_approval
    record_approval find freeze_snapshot get versions_of setdefault
reuse_refused = refl

abbrev stage : Registry
stage = run toy promoted empty

session_stays_frozen_example :
    champion "ic" (some "day") (run toy later (freeze_session "ic" "day" stage).1)
    ≡ (ok first_model, run toy later (freeze_session "ic" "day" stage).1)
unfolding freeze_session get_version run apply promote register_challenger validate_approval
    record_approval find freeze_snapshot is_blank get versions_of setdefault
session_stays_frozen_example =
    session_stays_frozen toy "ic" "day" first_model stage (freeze_session "ic" "day" stage).1 later
      refl

approval_used_once_example :
    ((promote toy "ic" "v1" to_first
        (run toy later (promote toy "ic" "v1" to_first (run toy before empty)).1)).0
      ≢ ok first_model)
    × ((rollback toy "ic" "v1" to_first
          (run toy later (promote toy "ic" "v1" to_first (run toy before empty)).1)).0
        ≢ ok first_model)
unfolding run apply promote register_challenger get_version validate_approval record_approval find
    freeze_snapshot get versions_of setdefault
approval_used_once_example =
    approval_used_once toy "ic" "v1" to_first first_model (run toy before empty)
      (promote toy "ic" "v1" to_first (run toy before empty)).1 later "ic" "v1" first_model
      (inl refl)

audit_tells_champions_example : IsAudited (run toy later empty)
audit_tells_champions_example = audit_tells_champions toy later

lineage_reaches_root_example :
    (l : List ModelVersion) × (lineage "ic" "v2" stage ≡ (ok l, stage))
    × Descends stage "ic" second_model l
unfolding run apply promote register_challenger get_version validate_approval record_approval find
    freeze_snapshot get versions_of setdefault
lineage_reaches_root_example = lineage_reaches_root toy promoted "ic" "v2" second_model refl

promote_exactly_example :
    (((promote toy "ic" "v2" to_second stage).0 ≡ ok second_model)
      ↔ Promotable toy "ic" "v2" to_second stage second_model)
    × (Promotable toy "ic" "v2" to_second stage second_model
        → promote toy "ic" "v2" to_second stage
          ≡ (ok second_model, approved to_second "ic" "v2" stage))
    × ((e : GovernanceError)
        → (promote toy "ic" "v2" to_second stage).0 ≡ err e
        → (promote toy "ic" "v2" to_second stage).1 ≡ stage)
promote_exactly_example = promote_exactly toy "ic" "v2" to_second stage second_model

rollback_exactly_example :
    (((rollback toy "ic" "v1" back_to_first stage).0 ≡ ok first_model)
      ↔ ((current : String) × Restorable toy "ic" "v1" back_to_first stage first_model current))
    × ((e : GovernanceError)
        → (rollback toy "ic" "v1" back_to_first stage).0 ≡ err e
        → (rollback toy "ic" "v1" back_to_first stage).1 ≡ stage)
rollback_exactly_example = rollback_exactly toy "ic" "v1" back_to_first stage first_model
