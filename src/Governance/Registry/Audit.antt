-- ===== src/Governance/Registry/Audit.antt =====
-- The audit events against the champions.
use marketpilot.Base.{
  text_key, pair_key, List, Option, String, [], arith, eq_iff, get, get-put, inl, inr, last,
  last-select_snoc, none, refl, select, some, true, ◌++◌, ◌==◌, ◌∷◌, ◌≡◌,
}
use marketpilot.Domain.Snapshot.{Platform}
use marketpilot.Domain.Governance.{
  ModelVersion, ApprovalAction, GovernanceApproval, GovernanceEvent,
}
use marketpilot.Governance.Registry.{
  event_of, Registry, empty, matches, same_option, get_version, register_challenger, promote,
  rollback, freeze_session,
}
use marketpilot.Governance.Registry.Actions.{
  approved, promote_only_when, promote_when, promote_atomic, rollback_atomic, rollback_only_when,
  rollback_when,
}
use marketpilot.Governance.Registry.Steps.{
  Call, registering, promoting, rolling_back, freezing, apply, run, run_induction,
}
use marketpilot.Governance.Registry.Valid.{Result-cases}

abbrev pub target : Option GovernanceEvent → Option String
target none = none
target (some e) = some e.target_version

-- The version that the last event for a model installed.
abbrev pub audited_champion : List GovernanceEvent → String → Option String
audited_champion events model_id = target (last (select (λ e. e.model_id == model_id) events))

-- Every event starts from the champion that the events before it left.
pub data IsChained : List GovernanceEvent → Type 0 where
  start : IsChained []
  extend :
      {before : List GovernanceEvent}
      → IsChained before
      → (e : GovernanceEvent)
      → same_option e.source_version (audited_champion before e.model_id) ≡ true
      → IsChained (before ++ e ∷ [])

pub record IsAudited (s : Registry) : Type 0 where
  pub champions : (m : String) → get s.champions m ≡ audited_champion s.events m
  pub chained : IsChained s.events

matched :
    (a : GovernanceApproval) (act : ApprovalAction) (m v : String) (source : Option String)
    → matches a act m source v ≡ true
    → (a.model_id ≡ m) × (same_option a.source_version source ≡ true) × (a.target_version ≡ v)
unfolding matches
matched a act m v source h = ground (arith, eq_iff a.model_id m, eq_iff a.target_version v)

approved-IsAudited :
    (a : GovernanceApproval) (act : ApprovalAction) (m v : String) (s : Registry)
    → matches a act m (get s.champions m) v ≡ true
    → IsAudited s
    → IsAudited (approved a m v s)
approved-IsAudited a act m v s h i =
    let (same_model, same_source, same_target) = matched a act m v (get s.champions m) h in
    record {
      champions = λ n. ground (
        arith,
        get-put s.champions m n v,
        last-select_snoc (λ e. e.model_id == n) s.events (event_of a),
        i.champions n,
        eq_iff m n,
      );
      chained = extend i.chained _ (rw same_model (rw (← i.champions m) same_source));
    }

-- A call that changes neither the champions nor the events.
unchanged :
    (s t : Registry) → t.champions ≡ s.champions → t.events ≡ s.events → IsAudited s → IsAudited t
unchanged s t c e i = record {
  champions = λ m. rw (c, e) (i.champions m);
  chained = rw e i.chained;
}

promote-IsAudited :
    (py : Platform) (m v : String) (a : GovernanceApproval) (s : Registry)
    → IsAudited s
    → IsAudited (promote py m v a s).1
promote-IsAudited py m v a s i = elim (Result-cases (promote py m v a s).0) [
  | inl (x, h) ↦
      let k = promote_only_when py m v a s x h in
      rw (promote_when py m v a s x k) (approved-IsAudited a ApprovalAction.promote m v s k.3 i)
  | inr (e, h) ↦ rw (promote_atomic py m v a s h) i
]

rollback-IsAudited :
    (py : Platform) (m v : String) (a : GovernanceApproval) (s : Registry)
    → IsAudited s
    → IsAudited (rollback py m v a s).1
rollback-IsAudited py m v a s i = elim (Result-cases (rollback py m v a s).0) [
  | inl (x, h) ↦
      let (current, k) = rollback_only_when py m v a s x h in
      rw (rollback_when py m v a s x current k)
        (approved-IsAudited a ApprovalAction.rollback m v s (rw k.1 k.5) i)
  | inr (e, h) ↦ rw (rollback_atomic py m v a s h) i
]

register_keeps :
    (model : ModelVersion) (s : Registry)
    → ((register_challenger model s).1.champions ≡ s.champions)
      × ((register_challenger model s).1.events ≡ s.events)
unfolding register_challenger
register_keeps model s = ground arith

freeze_keeps :
    (m session : String) (s : Registry)
    → ((freeze_session m session s).1.champions ≡ s.champions)
      × ((freeze_session m session s).1.events ≡ s.events)
unfolding freeze_session get_version
freeze_keeps m session s = ground arith

apply-IsAudited : (py : Platform) (c : Call) (s : Registry) → IsAudited s → IsAudited (apply py c s)
unfolding apply
apply-IsAudited py (registering model) s i =
    let (c, e) = register_keeps model s in unchanged s (register_challenger model s).1 c e i
apply-IsAudited py (promoting m v a) s i = promote-IsAudited py m v a s i
apply-IsAudited py (rolling_back m v a) s i = rollback-IsAudited py m v a s i
apply-IsAudited py (freezing m session) s i =
    let (c, e) = freeze_keeps m session s in unchanged s (freeze_session m session s).1 c e i

-- After any calls on a new registry the audit events tell the whole history of each model: its
-- champion is the target of the last event for the model, and each event names as its source the
-- champion that the events before it left.
pub audit_tells_champions : (py : Platform) (cs : List Call) → IsAudited (run py cs empty)
audit_tells_champions py cs =
    run_induction py IsAudited (apply-IsAudited py) cs empty
      (record { champions = λ m. unfold get in refl; chained = start })
