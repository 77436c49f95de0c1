-- ===== src/Governance/Registry/Valid.antt =====
-- What each call leaves alone: registered versions, frozen sessions and used approvals stay.
use marketpilot.Base.{
  text_key, pair_key, Bool, Dict, Option-cases, Result, String, [], ap, arith, contains, eq_iff,
  err, get, get-put, get-setdefault, get-setdefault_kept, if◌then◌else◌, inl, inr, is_some, not, ok,
  put, refl, setdefault, some, true, ◌&&◌, ◌==◌, ◌∙◌, ◌≡◌, ◌⊎◌,
}
use marketpilot.Domain.Snapshot.{Platform}
use marketpilot.Domain.Governance.{ModelVersion, GovernanceApproval}
use marketpilot.Governance.Registry.{
  Registry, find, get_version, register_challenger, promote, rollback, freeze_session, versions_of,
  is_missing,
}
use marketpilot.Governance.Registry.Actions.{
  approved, promote_only_when, promote_when, promote_atomic, rollback_atomic, rollback_only_when,
  rollback_when,
}
use marketpilot.Governance.Registry.Steps.{
  Call, registering, promoting, rolling_back, freezing, apply,
}

pub Result-cases :
    {E A : Type 0} (r : Result E A) → ((a : A) × (r ≡ ok a)) ⊎ ((e : E) × (r ≡ err e))
Result-cases (ok a) = inl (a, refl)
Result-cases (err e) = inr (e, refl)

-- The shape of the registry after any promotion or rollback.
module _ (py : Platform) (m v : String) (a : GovernanceApproval) (s : Registry) where
  pub promote_result : ((promote py m v a s).1 ≡ s) ⊎ ((promote py m v a s).1 ≡ approved a m v s)
  promote_result = elim (Result-cases (promote py m v a s).0) [
    | inl (x, e) ↦
        inr (ap (λ r. r.1) (promote_when py m v a s x (promote_only_when py m v a s x e)))
    | inr (e, h) ↦ inl (promote_atomic py m v a s h)
  ]

  pub rollback_result : ((rollback py m v a s).1 ≡ s) ⊎ ((rollback py m v a s).1 ≡ approved a m v s)
  rollback_result = elim (Result-cases (rollback py m v a s).0) [
    | inl (x, e) ↦
        let (current, h) = rollback_only_when py m v a s x e in
        inr (ap (λ r. r.1) (rollback_when py m v a s x current h))
    | inr (e, h) ↦ inl (rollback_atomic py m v a s h)
  ]

-- The two conditions of `register_challenger`.
abbrev pub accepts : ModelVersion → Registry → Bool
accepts model s =
    not (is_some (find s model.model_id model.version))
    && not (is_missing model.parent_version (versions_of s model.model_id))

module _ (model : ModelVersion) (s : Registry) where
  versions_of-setdefault :
      (m : String)
      → versions_of (record s { versions = setdefault s.versions model.model_id [] }) m
        ≡ versions_of s m
  unfolding versions_of
  versions_of-setdefault m =
      ground (arith, get-setdefault s.versions model.model_id m [], eq_iff model.model_id m)

  versions_of-put :
      (vs : Dict String (Dict String ModelVersion)) (m : String) (d : Dict String ModelVersion)
      → versions_of (record s { versions = put vs model.model_id d }) m
        ≡ (if model.model_id == m then d else versions_of (record s { versions = vs }) m)
  unfolding versions_of
  versions_of-put vs m d = ground (arith, get-put vs model.model_id m d)

  pub versions_of-register :
      (m : String)
      → versions_of (register_challenger model s).1 m ≡ (
          if accepts model s && (model.model_id == m)
          then put (versions_of s m) model.version model
          else versions_of s m)
  unfolding register_challenger find
  versions_of-register m = ground (
    arith,
    versions_of-setdefault m,
    versions_of-setdefault model.model_id,
    versions_of-put (setdefault s.versions model.model_id []) m
        (put (versions_of s model.model_id) model.version model),
    eq_iff model.model_id m,
  )

  pub find-register :
      (m v : String)
      → find (register_challenger model s).1 m v ≡ (
          if accepts model s && (model.model_id == m) && (model.version == v)
          then some model
          else find s m v)
  unfolding find
  find-register m v =
      ground (arith, versions_of-register m, get-put (versions_of s m) model.version v model)

find_same : (t s : Registry) (m v : String) → t.versions ≡ s.versions → find t m v ≡ find s m v
unfolding find versions_of
find_same t s m v e = rw e

pub versions-freeze :
    (m session : String) (s : Registry) → (freeze_session m session s).1.versions ≡ s.versions
unfolding freeze_session get_version
versions-freeze m session s = ground arith

-- Registration keeps what was registered; the other calls do not touch it.
pub find-apply :
    (py : Platform) (c : Call) (m v : String) (x : ModelVersion) (s : Registry)
    → find s m v ≡ some x
    → find (apply py c s) m v ≡ some x
unfolding apply
find-apply py (registering model) m v x s h =
    ground (arith, find-register model s m v, eq_iff model.model_id m, eq_iff model.version v)
find-apply py (promoting n w a) m v x s h = elim (promote_result py n w a s) [
  | inl e ↦ rw e h
  | inr e ↦ rw e (find_same (approved a n w s) s m v refl ∙ h)
]
find-apply py (rolling_back n w a) m v x s h = elim (rollback_result py n w a s) [
  | inl e ↦ rw e h
  | inr e ↦ rw e (find_same (approved a n w s) s m v refl ∙ h)
]
find-apply py (freezing n session) m v x s h =
    find_same (freeze_session n session s).1 s m v (versions-freeze n session s) ∙ h

-- A frozen session keeps its version.
frozen-freeze :
    (m session n other v : String) (s : Registry)
    → get s.session_champions (m, session) ≡ some v
    → get (freeze_session n other s).1.session_champions (m, session) ≡ some v
unfolding freeze_session get_version
frozen-freeze m session n other v s h = elim (Option-cases (get s.champions n)) [
  | inl missing ↦ ground arith
  | inr (c, e) ↦
      ground (arith, get-setdefault_kept s.session_champions (n, other) (m, session) c v h)
]

sessions-register :
    (model : ModelVersion) (s : Registry) (k : String × String) {v : String}
    → get s.session_champions k ≡ some v
    → get (register_challenger model s).1.session_champions k ≡ some v
unfolding register_challenger
sessions-register model s k h = ground arith

used-register :
    (model : ModelVersion) (id : String) (s : Registry)
    → contains id s.used_approvals ≡ true
    → contains id (register_challenger model s).1.used_approvals ≡ true
unfolding register_challenger
used-register model id s h = ground arith

used-freeze :
    (m session id : String) (s : Registry)
    → contains id s.used_approvals ≡ true
    → contains id (freeze_session m session s).1.used_approvals ≡ true
unfolding freeze_session get_version
used-freeze m session id s h = ground arith

pub frozen-apply :
    (py : Platform) (c : Call) (m session v : String) (s : Registry)
    → get s.session_champions (m, session) ≡ some v
    → get (apply py c s).session_champions (m, session) ≡ some v
unfolding apply
frozen-apply py (registering model) m session v s h = sessions-register model s (m, session) h
frozen-apply py (promoting n w a) m session v s h = elim (promote_result py n w a s) [
  | inl e ↦ rw e h
  | inr e ↦ rw e h
]
frozen-apply py (rolling_back n w a) m session v s h = elim (rollback_result py n w a s) [
  | inl e ↦ rw e h
  | inr e ↦ rw e h
]
frozen-apply py (freezing n other) m session v s h = frozen-freeze m session n other v s h

-- An approval that has been used stays used.
pub used-apply :
    (py : Platform) (c : Call) (id : String) (s : Registry)
    → contains id s.used_approvals ≡ true
    → contains id (apply py c s).used_approvals ≡ true
unfolding apply
used-apply py (registering model) id s h = used-register model id s h
used-apply py (promoting n w a) id s h = elim (promote_result py n w a s) [
  | inl e ↦ rw e h
  | inr e ↦ rw e (ground arith)
]
used-apply py (rolling_back n w a) id s h = elim (rollback_result py n w a s) [
  | inl e ↦ rw e h
  | inr e ↦ rw e (ground arith)
]
used-apply py (freezing n other) id s h = used-freeze n other id s h
