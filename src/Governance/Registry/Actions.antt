-- ===== src/Governance/Registry/Actions.antt =====
-- When `promote` and `rollback` go through, and what they then write.
use marketpilot.Base.{
  text_key, Option-cases, String, [], ap, arith, contains, eq_iff, err, false, get, inl, inr, ltb,
  ok, put, some, true, ◌++◌, ◌==◌, ◌↔◌, ◌∷◌, ◌≡◌,
}
use marketpilot.Domain.Snapshot.{Platform}
use marketpilot.Domain.Governance.{
  ModelVersion, promote as promoting, rollback as rolling_back, GovernanceError, GovernanceApproval,
  verify,
}
use marketpilot.Governance.Registry.{
  event_of, rollback, Registry, find, get_version, matches, record_approval, breaks_lineage,
  validate_approval, promote,
}

-- The registry after an approved change of champion.
abbrev pub approved : GovernanceApproval → String → String → Registry → Registry
approved a model_id version s = record s {
  champions = put s.champions model_id version;
  used_approvals = a.approval_id ∷ s.used_approvals;
  events = s.events ++ event_of a ∷ [];
}

-- The approval is genuine, unused, and names exactly this change.
abbrev pub Approves : Platform → GovernanceApproval → Registry → Type 0
Approves py a s = (verify py a ≡ true) × (contains a.approval_id s.used_approvals ≡ false)

abbrev pub Promotable :
    Platform → String → String → GovernanceApproval → Registry → ModelVersion → Type 0
Promotable py m v a s x =
    (find s m v ≡ some x)
    × (verify py a ≡ true)
    × (contains a.approval_id s.used_approvals ≡ false)
    × (matches a promoting m (get s.champions m) v ≡ true)
    × (x.validation_report_hash ≡ some a.evidence_hash)
    × (ltb a.approved_at x.trained_at ≡ false)
    × (breaks_lineage (get s.champions m) x ≡ false)

module _ (py : Platform) (m v : String) (a : GovernanceApproval) (s : Registry) where
  pub promote_when :
      (x : ModelVersion) → Promotable py m v a s x → promote py m v a s ≡ (ok x, approved a m v s)
  unfolding promote get_version validate_approval record_approval
  promote_when x h = ground (arith, eq_iff a.evidence_hash a.evidence_hash)

  pub promote_only_when :
      (x : ModelVersion) → (promote py m v a s).0 ≡ ok x → Promotable py m v a s x
  unfolding promote get_version validate_approval record_approval
  promote_only_when x h = elim (Option-cases x.validation_report_hash) [
    | inl missing ↦ ground arith
    | inr (report, e) ↦ ground (arith, eq_iff a.evidence_hash report)
  ]

  pub promote_atomic :
      {e : GovernanceError} → (promote py m v a s).0 ≡ err e → (promote py m v a s).1 ≡ s
  unfolding promote get_version validate_approval record_approval
  promote_atomic h = ground arith

-- What `rollback` asks for.
abbrev pub Restorable :
    Platform → String → String → GovernanceApproval → Registry → ModelVersion → String → Type 0
Restorable py m v a s x current =
    (find s m v ≡ some x)
    × (get s.champions m ≡ some current)
    × ((v == current) ≡ false)
    × (verify py a ≡ true)
    × (contains a.approval_id s.used_approvals ≡ false)
    × (matches a rolling_back m (some current) v ≡ true)

module _ (py : Platform) (m v : String) (a : GovernanceApproval) (s : Registry) where
  pub rollback_when :
      (x : ModelVersion) (current : String)
      → Restorable py m v a s x current
      → rollback py m v a s ≡ (ok x, approved a m v s)
  unfolding rollback get_version validate_approval record_approval
  rollback_when x current h = ground arith

  pub rollback_only_when :
      (x : ModelVersion)
      → (rollback py m v a s).0 ≡ ok x
      → (current : String) × Restorable py m v a s x current
  unfolding rollback get_version validate_approval record_approval
  rollback_only_when x h = elim (Option-cases (get s.champions m)) [
    | inl missing ↦ ground arith
    | inr (current, e) ↦ (current, ground arith)
  ]

  pub rollback_atomic :
      {e : GovernanceError} → (rollback py m v a s).0 ≡ err e → (rollback py m v a s).1 ≡ s
  unfolding rollback get_version validate_approval record_approval
  rollback_atomic h = ground arith

-- `promote` returns a version exactly when that version is registered with a validation report, the
-- approval is genuine, unused, names this promotion from the present champion and carries the
-- report's hash, was given no earlier than the training, and the version descends from the present
-- champion if there is one. It then writes the champion, the approval and the event, and nothing
-- else; when it raises, the registry is as before.
pub promote_exactly :
    (py : Platform) (m v : String) (a : GovernanceApproval) (s : Registry) (x : ModelVersion)
    → (((promote py m v a s).0 ≡ ok x) ↔ Promotable py m v a s x)
      × (Promotable py m v a s x → promote py m v a s ≡ (ok x, approved a m v s))
      × ((e : GovernanceError) → (promote py m v a s).0 ≡ err e → (promote py m v a s).1 ≡ s)
promote_exactly py m v a s x = (
  (promote_only_when py m v a s x, λ h. ap (λ r. r.0) (promote_when py m v a s x h)),
  promote_when py m v a s x,
  λ e h. promote_atomic py m v a s h,
)

-- `rollback` returns a version exactly when that version is registered, there is a present champion
-- and it is another version, and the approval is genuine, unused and names this rollback from the
-- present champion. When it raises, the registry is as before.
pub rollback_exactly :
    (py : Platform) (m v : String) (a : GovernanceApproval) (s : Registry) (x : ModelVersion)
    → (((rollback py m v a s).0 ≡ ok x) ↔ ((current : String) × Restorable py m v a s x current))
      × ((e : GovernanceError) → (rollback py m v a s).0 ≡ err e → (rollback py m v a s).1 ≡ s)
rollback_exactly py m v a s x = (
  (rollback_only_when py m v a s x, λ h. ap (λ r. r.0) (rollback_when py m v a s x h.0 h.1)),
  λ e h. rollback_atomic py m v a s h,
)
