-- ===== src/Decision/Examples.antt =====
-- One registered model, with every gate open and with the event pending.
use marketpilot.Base.{text_key, [], err, false, get, if◌then◌else◌, none, ok, put, refl, true, ◌==◌}
use marketpilot.Domain.Snapshot.{text}
use marketpilot.Decision.{
  green, DecisionGateContext, DecisionModel, DecisionResult, wait, evaluation_failed,
  MarketSnapshot, ModelRegistry, run, register, get_model, evaluate,
}
use marketpilot.Decision.Verdict.{IsSound, IsClear, IsLoaded, run-IsSound}

abbrev condor : DecisionModel
condor = record {
  descriptor = record {
    model_id = "ic";
    name = "StrikePilot";
    version = "0.1.0";
    artifact_hash = "sha256:x";
    asset_scope = [];
    strategy_scope = [];
    input_contract_version = "1";
    output_contract_version = "1";
  };
  evaluate =
      λ s. if s.snapshot_id == "bad" then err (evaluation_failed "inputs") else ok (text "map");
}

abbrev models : ModelRegistry
models = (register condor []).1

abbrev open_gates : DecisionGateContext
open_gates = record {
  data_quality = green;
  contract_matches = true;
  event_cleared = true;
  unscheduled_shock = false;
  option_chain_usable = true;
  tail_expanding = false;
  next_major_event_in_holding_period = false;
  edge_ok = true;
  risk_budget_ok = true;
}

abbrev pending : DecisionGateContext
pending = record open_gates { event_cleared = false }

abbrev snapshot : MarketSnapshot
snapshot = record {
  snapshot_id = "s";
  as_of = 7;
  quality = record { status = green; stale_fields = []; violations = [] };
  values = [];
}

abbrev waiting : DecisionResult
waiting = record {
  run_id = "run";
  model_id = "ic";
  model_version = "0.1.0";
  rules_version = "rules-v1";
  snapshot_id = "s";
  data_as_of = 7;
  action = wait;
  reasons = [];
  output = text "map";
}

run-IsSound_example : IsSound open_gates none condor snapshot waiting
unfolding run get_model register get put evaluate
run-IsSound_example =
    run-IsSound "rules-v1" models "run" "ic" condor snapshot open_gates none waiting refl refl

shut_gate : ¬ (IsClear pending × IsLoaded none condor)
shut_gate h = cc (h.0.eventless)
