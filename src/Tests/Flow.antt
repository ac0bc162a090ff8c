-- ===== src/Tests/Flow.antt =====
-- The theorems on flows at concrete inputs.
use fintech_ecosystem.Base.{
  ℕ, ◌<◌, String, ◌≡◌, refl, ◌≢◌, true, false, none, [], ◌∷◌, str_eq, arith,
}
use fintech_ecosystem.Flow.Model.{
  NodeType, event_trigger, webhook, approval, text, ConditionConfig, Node, Flow, paused,
  FlowExecution, Repository,
}
use fintech_ecosystem.Flow.Runner.{FlowEnv, out_of_fuel, execute_node, execute}
use fintech_ecosystem.Flow.Approvals.{ApprovalLedgerEntry}
use fintech_ecosystem.Flow.Termination.{execute_ends}
use fintech_ecosystem.Flow.Loop.{self_loop_never_ends}

abbrev flow_env : FlowEnv
flow_env = record { show = λ _. ""; greater = λ _ _. false; refuses = λ _. none }

abbrev config : ConditionConfig
config = record { field = ""; operator = ""; value = text "" }

abbrev node : String → NodeType → Node
node id type = record { id = id; type = type; config = config }

abbrev flow : Flow
flow = record {
  id = "f1";
  zone_id = "z1";
  nodes = node "start" event_trigger ∷ node "ask" approval ∷ [];
  edges = record { source = "start"; target = "ask"; source_handle = "" } ∷ [];
}

abbrev rank : String → ℕ
rank id = elim (str_eq id "start") [ true ↦ 1 | false ↦ 0 ]

rank_bound : (id : String) → rank id < 2
rank_bound id = ground arith

abbrev execution : FlowExecution
execution = record {
  id = "x1";
  flow_id = "f1";
  status = paused;
  current_node_id = "ask";
  steps = [];
  metadata = none;
}

abbrev repository : Repository
repository = record { flows = flow ∷ []; executions = execution ∷ [] }

execute_ends_example : (execute flow_env 2 "x2" flow [] repository).0 ≢ out_of_fuel
execute_ends_example =
    execute_ends flow_env flow rank 2 "x2" [] repository (ground arith, tt) rank_bound

abbrev again : Node
again = node "again" webhook

-- A loop with a way out.
abbrev loop_flow : Flow
loop_flow = record {
  id = "f2";
  zone_id = "z1";
  nodes = again ∷ node "ask" approval ∷ [];
  edges =
      record { source = "again"; target = "again"; source_handle = "" }
      ∷ record { source = "again"; target = "ask"; source_handle = "" }
      ∷ [];
}

self_loop_never_ends_example :
    (execute_node flow_env loop_flow 100 again [] (execution, repository)).0 ≡ out_of_fuel
self_loop_never_ends_example =
    self_loop_never_ends flow_env loop_flow 100 again [] (execution, repository) refl
      (record {
        nodes = _;
        first_node = refl;
        loop = _;
        edges = _;
        first_edge = refl;
        from = refl;
        back = refl;
      })

abbrev entry : ApprovalLedgerEntry
entry = record {
  execution_id = "x1";
  node_id = "ask";
  flow_id = "f1";
  approver_user_id = "u9";
  required_role = "finance";
  approved = true;
  timestamp = "2026-01-01T00:00:00Z";
}
