-- ===== src/Governance/Registry/Sessions.antt =====
-- Frozen sessions and spent approvals over any later calls.
use marketpilot.Base.{
  text_key, pair_key, List, Option-cases, String, ap, arith, contains, eq_iff, get, inl, inr, ok,
  setdefault, some, sym, true, ◌∙◌, ◌≡◌, ◌≢◌, ◌⊎◌,
}
use marketpilot.Domain.Snapshot.{Platform}
use marketpilot.Domain.Governance.{ModelVersion, GovernanceApproval}
use marketpilot.Governance.Registry.{
  Registry, find, get_version, promote, rollback, freeze_session, champion,
}
use marketpilot.Governance.Registry.Actions.{
  approved, promote_only_when, promote_when, rollback_only_when, rollback_when,
}
use marketpilot.Governance.Registry.Steps.{Call, run, run_induction}
use marketpilot.Governance.Registry.Valid.{find-apply, frozen-apply, used-apply}

freeze_session_ok :
    (m session : String) (x : ModelVersion) (s t : Registry)
    → freeze_session m session s ≡ (ok x, t)
    → (v : String) × (get t.session_champions (m, session) ≡ some v) × (find t m v ≡ some x)
unfolding freeze_session get_version
freeze_session_ok m session x s t h = elim (Option-cases (get s.champions m)) [
  | inl missing ↦ ground arith
  | inr (c, e) ↦
      elim (Option-cases (get (setdefault s.session_champions (m, session) c) (m, session))) [
        | inl none_there ↦ ground arith
        | inr (v, there) ↦ (v, ground arith, ground arith)
      ]
]

-- Once a session is frozen at a model version, whatever calls follow, promotions and rollbacks of
-- that model included, asking for the champion of that session returns that same version and
-- changes nothing.
pub session_stays_frozen :
    (py : Platform) (m session : String) (x : ModelVersion) (s t : Registry) (cs : List Call)
    → freeze_session m session s ≡ (ok x, t)
    → champion m (some session) (run py cs t) ≡ (ok x, run py cs t)
session_stays_frozen py m session x s t cs h =
    let (v, frozen, found) = freeze_session_ok m session x s t h in
    let there =
      run_induction py
        (λ r. (get r.session_champions (m, session) ≡ some v) × (find r m v ≡ some x))
        (λ c r k. (frozen-apply py c m session v r k.0, find-apply py c m v x r k.1)) cs t
        (frozen, found) in
    unfold champion get_version in ground (arith, there)

-- A spent approval changes no champion again.
spent :
    (py : Platform) (n w : String) (a : GovernanceApproval) (y : ModelVersion) (t : Registry)
    → contains a.approval_id t.used_approvals ≡ true
    → ((promote py n w a t).0 ≢ ok y) × ((rollback py n w a t).0 ≢ ok y)
spent py n w a y t used = (
  λ h. let k = promote_only_when py n w a t y h in cc (k.2, used),
  λ h. let (c, k) = rollback_only_when py n w a t y h in cc (k.4, used),
)

used_after :
    (py : Platform) (m v : String) (a : GovernanceApproval) (x : ModelVersion) (s t : Registry)
    → (promote py m v a s ≡ (ok x, t)) ⊎ (rollback py m v a s ≡ (ok x, t))
    → contains a.approval_id t.used_approvals ≡ true
used_after py m v a x s t (inl h) =
    let e = promote_when py m v a s x (promote_only_when py m v a s x (ap (λ r. r.0) h)) in
    let same : t ≡ approved a m v s = ap (λ r. r.1) (sym h ∙ e) in
    rw same (ground (arith, eq_iff a.approval_id a.approval_id))
used_after py m v a x s t (inr h) =
    let (c, k) = rollback_only_when py m v a s x (ap (λ r. r.0) h) in
    let same : t ≡ approved a m v s = ap (λ r. r.1) (sym h ∙ rollback_when py m v a s x c k) in
    rw same (ground (arith, eq_iff a.approval_id a.approval_id))

-- When an approval has carried one promotion or rollback, then after any further calls it carries
-- none: neither `promote` nor `rollback` of any model and version returns.
pub approval_used_once :
    (py : Platform) (m v : String) (a : GovernanceApproval) (x : ModelVersion) (s t : Registry)
    (cs : List Call) (n w : String) (y : ModelVersion)
    → (promote py m v a s ≡ (ok x, t)) ⊎ (rollback py m v a s ≡ (ok x, t))
    → ((promote py n w a (run py cs t)).0 ≢ ok y) × ((rollback py n w a (run py cs t)).0 ≢ ok y)
approval_used_once py m v a x s t cs n w y h = spent py n w a y (run py cs t) (
    run_induction py (λ r. contains a.approval_id r.used_approvals ≡ true)
      (λ c r k. used-apply py c a.approval_id r k) cs t (used_after py m v a x s t h))
