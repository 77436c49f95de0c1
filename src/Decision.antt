-- ===== src/Decision.antt =====
-- decision/gates.py, decision/runner.py, and the registry of models that the runner asks. A model is
-- a descriptor with its `evaluate`, which may raise; the run id of `uuid4` is an argument.
pub mod Verdict
mod Examples
use marketpilot.Base.{
  text_key, Bool, Dict, Exec, List, Option, Result, String, [], err, false, get, gets,
  if◌then◌else◌, is_some, modify, none, not, ok, put, raise_if, some, true, ℕ, ◌&&◌, ◌++◌, ◌==◌,
  ◌>>=◌, ◌>>◌, ◌∷◌,
}
use marketpilot.Domain.Snapshot.{Json, object, end}

pub data DataQuality : Type 0 where
  green amber red : DataQuality

pub data NoTradeReason : Type 0 where
  stale_market_data contract_mismatch event_pending unscheduled_shock : NoTradeReason
  option_chain_unusable tail_expanding next_event_too_close negative_edge : NoTradeReason
  risk_budget_exceeded model_version_not_loaded : NoTradeReason

pub data DecisionAction : Type 0 where
  enter wait no_trade : DecisionAction

pub record DecisionGateContext : Type 0 where
  pub data_quality : DataQuality
  pub contract_matches : Bool
  pub event_cleared : Bool
  pub unscheduled_shock : Bool
  pub option_chain_usable : Bool
  pub tail_expanding : Bool
  pub next_major_event_in_holding_period : Bool
  pub edge_ok : Bool
  pub risk_budget_ok : Bool

abbrev pub is_green : DataQuality → Bool
is_green green = true
is_green _ = false

-- `if condition: reasons.append(reason)`, before the tests that follow
infixr 60 ◌▸◌
abbrev ◌▸◌ : Bool × NoTradeReason → List NoTradeReason → List NoTradeReason
(condition, reason) ▸ rest = if condition then reason ∷ rest else rest

-- `RiskGate.evaluate`
unfoldable pub evaluate : DecisionGateContext → List NoTradeReason
evaluate c =
    (not (is_green c.data_quality), stale_market_data)
    ▸ (not c.contract_matches, contract_mismatch)
    ▸ (not c.event_cleared, event_pending)
    ▸ (c.unscheduled_shock, unscheduled_shock)
    ▸ (not c.option_chain_usable, option_chain_unusable)
    ▸ (c.tail_expanding, tail_expanding)
    ▸ (c.next_major_event_in_holding_period, next_event_too_close)
    ▸ (not c.edge_ok, negative_edge)
    ▸ (not c.risk_budget_ok, risk_budget_exceeded)
    ▸ []

pub record ModelArtifactIdentity : Type 0 where
  pub version : String
  pub artifact_hash : String

pub record ModelDescriptor : Type 0 where
  pub model_id : String
  pub name : String
  pub version : String
  pub artifact_hash : String
  pub asset_scope : List String
  pub strategy_scope : List String
  pub input_contract_version : String
  pub output_contract_version : String

abbrev pub artifact_identity : ModelDescriptor → ModelArtifactIdentity
artifact_identity d = record { version = d.version; artifact_hash = d.artifact_hash }

pub record DataQualityReport : Type 0 where
  pub status : DataQuality
  pub stale_fields : List String
  pub violations : List String

pub record MarketSnapshot : Type 0 where
  pub snapshot_id : String
  pub as_of : ℕ
  pub quality : DataQualityReport
  pub values : Dict String Json

pub data DecisionError : Type 0 where
  model_already_registered unknown_model : DecisionError
  evaluation_failed : String → DecisionError

pub record DecisionModel : Type 0 where
  pub descriptor : ModelDescriptor
  pub evaluate : MarketSnapshot → Result DecisionError Json

abbrev pub ModelRegistry : Type 0
ModelRegistry = Dict String DecisionModel

-- `ModelRegistry.register`
unfoldable pub register : DecisionModel → Exec ModelRegistry DecisionError (Unit {0})
register model = do
  models ← gets (λ s. s)
  raise_if (is_some (get models model.descriptor.model_id)) model_already_registered
  modify (λ s. put s model.descriptor.model_id model)

-- `ModelRegistry.get`
unfoldable pub get_model : ModelRegistry → String → Result DecisionError DecisionModel
get_model models model_id = elim (get models model_id) [ none ↦ err unknown_model | some m ↦ ok m ]

pub record DecisionResult : Type 0 where
  pub run_id : String
  pub model_id : String
  pub model_version : String
  pub rules_version : String
  pub snapshot_id : String
  pub data_as_of : ℕ
  pub action : DecisionAction
  pub reasons : List NoTradeReason
  pub output : Json

abbrev pub same_identity : ModelArtifactIdentity → ModelArtifactIdentity → Bool
same_identity a b = (a.version == b.version) && (a.artifact_hash == b.artifact_hash)

-- `required is not None and required != loaded`
abbrev pub wrong_model : Option ModelArtifactIdentity → ModelArtifactIdentity → Bool
wrong_model none loaded = false
wrong_model (some required) loaded = not (same_identity required loaded)

abbrev pub all_reasons :
    DecisionGateContext → Option ModelArtifactIdentity → DecisionModel → List NoTradeReason
all_reasons gates required model =
    if wrong_model required (artifact_identity model.descriptor)
    then evaluate gates ++ model_version_not_loaded ∷ []
    else evaluate gates

-- the action and the output; the model runs only when there is no reason
abbrev outcome :
    List NoTradeReason
    → DecisionModel
    → MarketSnapshot
    → Result DecisionError (DecisionAction × Json)
outcome (r ∷ rs) model snapshot = ok (no_trade, object end)
outcome [] model snapshot = elim (model.evaluate snapshot) [
  | ok out ↦ ok (wait, out)
  | err e ↦ err e
]

-- `DecisionRunner.run`
unfoldable pub run :
    String
    → ModelRegistry
    → String
    → String
    → MarketSnapshot
    → DecisionGateContext
    → Option ModelArtifactIdentity
    → Result DecisionError DecisionResult
unfolding get_model
run rules_version models run_id model_id snapshot gates required =
    elim (get_model models model_id) [
      | err e ↦ err e
      | ok model ↦ elim (outcome (all_reasons gates required model) model snapshot) [
        | err e ↦ err e
        | ok (action, output) ↦ ok (record {
          run_id = run_id;
          model_id = model.descriptor.model_id;
          model_version = model.descriptor.version;
          rules_version = rules_version;
          snapshot_id = snapshot.snapshot_id;
          data_as_of = snapshot.as_of;
          action = action;
          reasons = all_reasons gates required model;
          output = output;
        })
      ]
    ]
