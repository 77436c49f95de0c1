-- ===== src/Decision/Verdict.antt =====
-- When the runner trades, waits, or runs a model.
use marketpilot.Base.{
  text_key, Bool-cases, List, List-cases, Option, String, [], arith, eq_iff, false, get, inl, inr,
  none, ok, refl, some, true, ◌++◌, ◌↔◌, ◌∙◌, ◌∷◌, ◌≡◌, ◌≢◌,
}
use marketpilot.Domain.Snapshot.{Json, object, end}
use marketpilot.Decision.{
  green, DecisionGateContext, NoTradeReason, DecisionAction, enter, wait, no_trade, DecisionModel,
  DecisionResult, MarketSnapshot, ModelRegistry, ModelArtifactIdentity, artifact_identity,
  wrong_model, all_reasons, evaluate, run, outcome, get_model, model_version_not_loaded,
}

-- Every gate is open.
pub record IsClear (c : DecisionGateContext) : Type 0 where
  pub fresh : c.data_quality ≡ green
  pub matching : c.contract_matches ≡ true
  pub eventless : c.event_cleared ≡ true
  pub calm : c.unscheduled_shock ≡ false
  pub priced : c.option_chain_usable ≡ true
  pub bounded : c.tail_expanding ≡ false
  pub undisturbed : c.next_major_event_in_holding_period ≡ false
  pub edged : c.edge_ok ≡ true
  pub affordable : c.risk_budget_ok ≡ true

no_reason : (c : DecisionGateContext) → evaluate c ≡ [] → IsClear c
unfolding evaluate
no_reason c h = ground arith

no_reason_back : (c : DecisionGateContext) → IsClear c → evaluate c ≡ []
unfolding evaluate
no_reason_back c h = ground arith

-- The identity that was asked for is the one that is loaded.
abbrev pub IsLoaded : Option ModelArtifactIdentity → DecisionModel → Type 0
IsLoaded none model = Unit
IsLoaded (some required) model = required ≡ artifact_identity model.descriptor

right_model :
    (required : Option ModelArtifactIdentity) (model : DecisionModel)
    → wrong_model required (artifact_identity model.descriptor) ≡ false
    → IsLoaded required model
right_model none model h = tt
right_model (some required) model h = ground (
  arith,
  eq_iff required.version model.descriptor.version,
  eq_iff required.artifact_hash model.descriptor.artifact_hash,
)

right_model_back :
    (required : Option ModelArtifactIdentity) (model : DecisionModel)
    → IsLoaded required model
    → wrong_model required (artifact_identity model.descriptor) ≡ false
right_model_back none model h = refl
right_model_back (some required) model h = rw h (
    ground (
      arith,
      eq_iff model.descriptor.version model.descriptor.version,
      eq_iff model.descriptor.artifact_hash model.descriptor.artifact_hash,
    ))

snoc_ne_nil : (xs : List NoTradeReason) (x : NoTradeReason) → (xs ++ x ∷ []) ≢ []
snoc_ne_nil [] x h = cc h
snoc_ne_nil (y ∷ xs) x h = cc h

all_gates_open :
    (c : DecisionGateContext) (required : Option ModelArtifactIdentity) (model : DecisionModel)
    → all_reasons c required model ≡ []
    → IsClear c × IsLoaded required model
all_gates_open c required model h =
    elim (Bool-cases (wrong_model required (artifact_identity model.descriptor))) [
      | inl wrong ↦ absurd (snoc_ne_nil (evaluate c) model_version_not_loaded (rw wrong at h))
      | inr right ↦ (no_reason c (rw right at h), right_model required model right)
    ]

clear_of_back :
    (c : DecisionGateContext) (required : Option ModelArtifactIdentity) (model : DecisionModel)
    → IsClear c × IsLoaded required model
    → all_reasons c required model ≡ []
clear_of_back c required model h = rw (right_model_back required model h.1) (no_reason_back c h.0)

-- What a returned decision says.
pub record IsSound (gates : DecisionGateContext) (required : Option ModelArtifactIdentity)
    (model : DecisionModel) (snapshot : MarketSnapshot) (r : DecisionResult) : Type 0 where
  pub never_enters : r.action ≢ enter
  pub waits : (r.action ≡ wait) ↔ (IsClear gates × IsLoaded required model)
  pub explains : (r.reasons ≡ []) ↔ (r.action ≡ wait)
  pub silent : r.action ≡ no_trade → r.output ≡ object end
  pub evaluated : r.action ≡ wait → model.evaluate snapshot ≡ ok r.output

module _ (model : DecisionModel) (snapshot : MarketSnapshot) where
  outcome_held :
      (x : NoTradeReason) (xs : List NoTradeReason) (action : DecisionAction) (out : Json)
      → outcome (x ∷ xs) model snapshot ≡ ok (action, out)
      → (action ≡ no_trade) × (out ≡ object end)
  outcome_held x xs action out h = ground arith

  outcome_free :
      (action : DecisionAction) (out : Json)
      → outcome [] model snapshot ≡ ok (action, out)
      → (action ≡ wait) × (model.evaluate snapshot ≡ ok out)
  outcome_free action out h = ground arith

  module _ (rules : String) (models : ModelRegistry) (id model_id : String)
      (gates : DecisionGateContext) (required : Option ModelArtifactIdentity) (r : DecisionResult)
      (found : get models model_id ≡ some model)
      (h : run rules models id model_id snapshot gates required ≡ ok r) where
    run_parts :
        (outcome (all_reasons gates required model) model snapshot ≡ ok (r.action, r.output))
        × (r.reasons ≡ all_reasons gates required model)
    unfolding run get_model
    run_parts = ground arith

-- A decision that the runner returns for a registered model never enters. It waits exactly when
-- every gate is open and the model loaded is the one required, if one is; its reasons are empty
-- exactly then; it waits with the output of the model on the snapshot, and otherwise its output is
-- empty.
pub run-IsSound :
    (rules : String) (models : ModelRegistry) (id model_id : String) (model : DecisionModel)
    (snapshot : MarketSnapshot) (gates : DecisionGateContext)
    (required : Option ModelArtifactIdentity) (r : DecisionResult)
    → get models model_id ≡ some model
    → run rules models id model_id snapshot gates required ≡ ok r
    → IsSound gates required model snapshot r
run-IsSound rules models id model_id model snapshot gates required r found h =
    let (result, reasons) =
      run_parts model snapshot rules models id model_id gates required r found h in
    elim (List-cases (all_reasons gates required model)) [
      | inr (x, xs, e) ↦
          let (held, empty) = outcome_held model snapshot x xs r.action r.output (rw e at result) in
          record {
            never_enters = λ k. cc (held, k);
            waits = (λ k. cc (held, k), λ k. cc (e, clear_of_back gates required model k));
            explains = (λ k. cc (k, reasons, e), λ k. cc (held, k));
            silent = λ _. empty;
            evaluated = λ k. cc (held, k);
          }
      | inl e ↦
          let (free, out) = outcome_free model snapshot r.action r.output (rw e at result) in
          record {
            never_enters = λ k. cc (free, k);
            waits = (λ _. all_gates_open gates required model e, λ _. free);
            explains = (λ _. free, λ _. reasons ∙ e);
            silent = λ k. cc (free, k);
            evaluated = λ _. out;
          }
    ]

abbrev refusal :
    String → String → DecisionModel → MarketSnapshot → List NoTradeReason → DecisionResult
refusal rules id model snapshot reasons = record {
  run_id = id;
  model_id = model.descriptor.model_id;
  model_version = model.descriptor.version;
  rules_version = rules;
  snapshot_id = snapshot.snapshot_id;
  data_as_of = snapshot.as_of;
  action = no_trade;
  reasons = reasons;
  output = object end;
}

-- A closed gate is enough: when a gate is closed or another model is required, the runner returns a
-- refusal whatever the registered model would do, also when its evaluation would raise.
run_refuses :
    (rules : String) (models : ModelRegistry) (id model_id : String) (model : DecisionModel)
    (snapshot : MarketSnapshot) (gates : DecisionGateContext)
    (required : Option ModelArtifactIdentity)
    → get models model_id ≡ some model
    → ¬ (IsClear gates × IsLoaded required model)
    → (r : DecisionResult) × (run rules models id model_id snapshot gates required ≡ ok r)
      × (r.action ≡ no_trade)
      × (r.reasons ≢ [])
unfolding run get_model
run_refuses rules models id model_id model snapshot gates required found shut =
    elim (List-cases (all_reasons gates required model)) [
      | inl e ↦ absurd (shut (all_gates_open gates required model e))
      | inr (x, xs, e) ↦
          (refusal rules id model snapshot (x ∷ xs), ground (arith, found, e), refl, λ k. cc k)
    ]
