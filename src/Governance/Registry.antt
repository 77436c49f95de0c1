-- ===== src/Governance/Registry.antt =====
-- governance/registry.py: `class FrozenChampionRegistry`, method by method.
pub mod Actions
pub mod Steps
pub mod Valid
pub mod Sessions
pub mod Audit
pub mod Lineage
mod Examples
use marketpilot.Base.{
  text_key, pair_key, Bool, Dict, Exec, List, Option, Result, String, [], contains, err, false, get,
  gets, is_blank, is_some, length, lift, ltb, modify, none, not, ok, or_raise, pure, put, raise_if,
  setdefault, some, suc, true, zero, ℕ, ◌&&◌, ◌++◌, ◌==◌, ◌>>=◌, ◌>>◌, ◌∷◌,
}
use marketpilot.Domain.Snapshot.{Platform}
use marketpilot.Domain.Governance.{
  GovernanceError, version_already_registered, unknown_parent_version, unknown_model_version,
  approval_already_used, approval_does_not_match, no_validation_report, evidence_does_not_match,
  approval_predates_challenger, lineage_must_descend_from_champion, no_champion,
  already_the_champion, must_not_be_blank, identity_mismatch, ModelVersion, ApprovalAction,
  promote as promoting, rollback as rolling_back, GovernanceApproval, GovernanceEvent, verify,
  lineage_did_not_end, lineage_cycle,
}

pub record Registry : Type 0 where
  pub versions : Dict String (Dict String ModelVersion)
  pub champions : Dict String String
  pub session_champions : Dict (String × String) String
  pub events : List GovernanceEvent
  pub used_approvals : List String

abbrev pub empty : Registry
empty = record {
  versions = [];
  champions = [];
  session_champions = [];
  events = [];
  used_approvals = [];
}

abbrev pub Method : Type 0 → Type 0
Method A = Exec Registry GovernanceError A

-- `self._versions.get(model_id, {})`
unfoldable pub versions_of : Registry → String → Dict String ModelVersion
versions_of s model_id = elim (get s.versions model_id) [ none ↦ [] | some vs ↦ vs ]

-- `self._versions[model_id][version]`
unfoldable pub find : Registry → String → String → Option ModelVersion
find s model_id version = get (versions_of s model_id) version

-- `_get`
unfoldable pub get_version : String → String → Method ModelVersion
get_version model_id version s = or_raise (find s model_id version) unknown_model_version s

abbrev pub is_missing : Option String → Dict String ModelVersion → Bool
is_missing none _ = false
is_missing (some parent) versions = not (is_some (get versions parent))

unfoldable pub register_challenger : ModelVersion → Method (Unit {0})
register_challenger model = do
  modify (λ s. record s { versions = setdefault s.versions model.model_id [] })
  versions ← gets (λ s. versions_of s model.model_id)
  raise_if (is_some (get versions model.version)) version_already_registered
  raise_if (is_missing model.parent_version versions) unknown_parent_version
  modify (λ s. record s {
    versions = put s.versions model.model_id (put versions model.version model);
  })

unfoldable pub same_action : ApprovalAction → ApprovalAction → Bool
same_action promoting promoting = true
same_action rolling_back rolling_back = true
same_action _ _ = false

unfoldable pub same_option : Option String → Option String → Bool
same_option none none = true
same_option (some a) (some b) = a == b
same_option _ _ = false

-- `actual == expected`
unfoldable pub matches :
    GovernanceApproval → ApprovalAction → String → Option String → String → Bool
unfolding same_action same_option
matches approval action model_id source target =
    same_action approval.action action
    && (approval.model_id == model_id)
    && same_option approval.source_version source
    && (approval.target_version == target)

abbrev pub event_of : GovernanceApproval → GovernanceEvent
event_of a = record {
  action = a.action;
  model_id = a.model_id;
  source_version = a.source_version;
  target_version = a.target_version;
  approval_id = a.approval_id;
  occurred_at = a.approved_at;
}

-- `_record`
unfoldable pub record_approval : GovernanceApproval → Method (Unit {0})
record_approval approval = modify λ s. record s {
  used_approvals = approval.approval_id ∷ s.used_approvals;
  events = s.events ++ event_of approval ∷ [];
}

-- the lineage test of `promote`
abbrev pub breaks_lineage : Option String → ModelVersion → Bool
breaks_lineage none _ = false
breaks_lineage (some current) candidate = elim candidate.parent_version [
  | none ↦ true
  | some parent ↦ not (parent == current)
]

module _ (py : Platform) where
  -- `_validate_approval`
  unfoldable pub validate_approval :
      GovernanceApproval → ApprovalAction → String → Option String → String → Method (Unit {0})
  unfolding matches verify
  validate_approval approval action model_id source target = do
    raise_if (not (verify py approval)) identity_mismatch
    used ← gets (λ s. s.used_approvals)
    raise_if (contains approval.approval_id used) approval_already_used
    raise_if (not (matches approval action model_id source target)) approval_does_not_match

  unfoldable pub promote : String → String → GovernanceApproval → Method ModelVersion
  promote model_id version approval = do
    candidate ← get_version model_id version
    current ← gets (λ s. get s.champions model_id)
    validate_approval approval promoting model_id current version
    report ← or_raise candidate.validation_report_hash no_validation_report
    raise_if (not (approval.evidence_hash == report)) evidence_does_not_match
    raise_if (ltb approval.approved_at candidate.trained_at) approval_predates_challenger
    raise_if (breaks_lineage current candidate) lineage_must_descend_from_champion
    modify (λ s. record s { champions = put s.champions model_id version })
    record_approval approval
    pure candidate

  unfoldable pub rollback : String → String → GovernanceApproval → Method ModelVersion
  rollback model_id target_version approval = do
    target ← get_version model_id target_version
    champion ← gets (λ s. get s.champions model_id)
    current ← or_raise champion no_champion
    raise_if (target_version == current) already_the_champion
    validate_approval approval rolling_back model_id (some current) target_version
    modify (λ s. record s { champions = put s.champions model_id target_version })
    record_approval approval
    pure target

unfoldable pub freeze_session : String → String → Method ModelVersion
freeze_session model_id session_id = do
  raise_if (is_blank session_id) (must_not_be_blank "session_id")
  champion ← gets (λ s. get s.champions model_id)
  current ← or_raise champion no_champion
  modify (λ s. record s {
    session_champions = setdefault s.session_champions (model_id, session_id) current;
  })
  frozen ← gets (λ s. get s.session_champions (model_id, session_id))
  version ← or_raise frozen no_champion
  get_version model_id version

abbrev pub frozen_for : Registry → String → Option String → Option String
frozen_for s model_id none = none
frozen_for s model_id (some session_id) = get s.session_champions (model_id, session_id)

unfoldable pub champion : String → Option String → Method ModelVersion
champion model_id session_id s = elim (frozen_for s model_id session_id) [
  | some frozen ↦ get_version model_id frozen s
  | none ↦
      (do
        current ← gets (λ r. get r.champions model_id)
        version ← or_raise current no_champion
        get_version model_id version)
        s
]

abbrev pub prepend :
    ModelVersion
    → Result GovernanceError (List ModelVersion)
    → Result GovernanceError (List ModelVersion)
prepend model (ok rest) = ok (model ∷ rest)
prepend model (err e) = err e

-- The loop of `lineage`, on fuel.
unfoldable pub lineage_loop :
    Registry → String → ℕ → List String → ModelVersion → Result GovernanceError (List ModelVersion)
lineage_loop s model_id zero seen current = err lineage_did_not_end
lineage_loop s model_id (suc fuel) seen current = elim (contains current.version seen) [
  | true ↦ err lineage_cycle
  | false ↦ elim current.parent_version [
    | none ↦ ok (current ∷ [])
    | some parent ↦ elim (find s model_id parent) [
      | none ↦ err unknown_model_version
      | some next ↦ prepend current (lineage_loop s model_id fuel (current.version ∷ seen) next)
    ]
  ]
]

-- Each round takes a version that no earlier round took, so one more round than there are versions
-- is enough.
unfoldable pub lineage : String → String → Method (List ModelVersion)
unfolding lineage_loop
lineage model_id version = do
  current ← get_version model_id version
  gets (λ s. s) >>= λ s.
      lift (lineage_loop s model_id (suc (length (versions_of s model_id))) [] current)
