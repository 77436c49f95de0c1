-- ===== src/Governance/Registry/Steps.antt =====
-- The calls that change the registry, as values, and any sequence of them. A call that raises is
-- caught by the caller, who keeps the registry that it left.
use marketpilot.Base.{text_key, List, String, [], ◌∷◌}
use marketpilot.Domain.Snapshot.{Platform}
use marketpilot.Domain.Governance.{ModelVersion, GovernanceApproval}
use marketpilot.Governance.Registry.{
  Registry, register_challenger, promote, rollback, freeze_session,
}

pub data Call : Type 0 where
  registering : ModelVersion → Call
  promoting : String → String → GovernanceApproval → Call
  rolling_back : String → String → GovernanceApproval → Call
  freezing : String → String → Call

unfoldable pub apply : Platform → Call → Registry → Registry
apply py (registering model) s = (register_challenger model s).1
apply py (promoting m v a) s = (promote py m v a s).1
apply py (rolling_back m v a) s = (rollback py m v a s).1
apply py (freezing m session) s = (freeze_session m session s).1

unfoldable pub run : Platform → List Call → Registry → Registry
unfolding apply
run py [] s = s
run py (c ∷ cs) s = run py cs (apply py c s)

-- Induction over the calls.
pub run_induction :
    (py : Platform) (P : Registry → Type 0)
    → ((c : Call) (s : Registry) → P s → P (apply py c s))
    → (cs : List Call) (s : Registry) → P s
    → P (run py cs s)
unfolding run
run_induction py P keep [] s h = h
run_induction py P keep (c ∷ cs) s h = run_induction py P keep cs (apply py c s) (keep c s h)
