-- ===== src/Flow/Runner.antt =====
-- internal/flow/domain/runner.go: `FlowRunner.Execute` and `executeNode` with the default handlers.
-- Hooks only observe, and none is registered by the constructor. The recursion of `executeNode`
-- follows the edges of the flow, so it takes fuel.
use fintech_ecosystem.Base.{
  ℕ, zero, suc, String, ◌<>◌, Bool, true, false, ◌&&◌, Option, none, some, List, [], ◌∷◌, ◌++◌,
  find, select, str_eq, if◌then◌else◌,
}
use fintech_ecosystem.Flow.Model.{
  NodeType, event_trigger, condition, webhook, approval, audit_log, Value, text, flag, Payload, get,
  ConditionConfig, Node, Edge, Flow, running, paused, completed, Step, FlowExecution, Repository,
}

-- What lies outside: Go's formatting of a value, the order of floats, and which writes the database
-- refuses.
pub record FlowEnv : Type 0 where
  pub show : Value → String
  pub greater : Value → Value → Bool
  pub refuses : FlowExecution → Option String

pub data Handled : Type 0 where
  output : Payload → Handled
  pause : Handled

abbrev pub compare_values : FlowEnv → ConditionConfig → Value → Bool
compare_values env c v =
    if str_eq c.operator "equals"
    then str_eq (env.show v) (env.show c.value)
    else (if str_eq c.operator "gt" then env.greater v c.value else false)

abbrev pub condition_result : FlowEnv → ConditionConfig → Option Value → Bool
condition_result env c none = false
condition_result env c (some v) = compare_values env c v

-- `ConditionHandler`, `WebhookHandler`, `ApprovalHandler`, `AuditHandler`, and no handler.
unfoldable pub handle : FlowEnv → NodeType → ConditionConfig → Payload → Handled
handle env condition c input =
    output (("result", flag (condition_result env c (get c.field input))) ∷ [])
handle env webhook c input = output (("status", text "sent") ∷ [])
handle env approval c input = pause
handle env audit_log c input = output input
handle env _ c input = output input

-- `output["result"].(bool)`, false if there is no such value.
abbrev pub bool_of : Option Value → Bool
bool_of (some (flag b)) = b
bool_of _ = false

abbrev pub is_condition : NodeType → Bool
is_condition condition = true
is_condition _ = false

-- Whether an edge is followed from a node with this output.
abbrev pub follows : Node → Payload → Edge → Bool
follows node out e =
    str_eq e.source node.id
    && (if is_condition node.type
        then (if bool_of (get "result" out)
            then str_eq e.source_handle "true"
            else str_eq e.source_handle "false")
        else true)

abbrev pub has_node_id : String → Node → Bool
has_node_id id n = str_eq n.id id

-- "Find next nodes"
unfoldable pub next_nodes : Flow → Node → Payload → List Edge → List Node
next_nodes flow node out [] = []
next_nodes flow node out (e ∷ es) =
    let rest = next_nodes flow node out es in
    if follows node out e then select (has_node_id e.target) flow.nodes ++ rest else rest

pub data Outcome : Type 0 where
  finished : Outcome
  stopped : Outcome
  errored : String → Outcome
  out_of_fuel : Outcome

abbrev pub World : Type 0
World = FlowExecution × Repository

-- `exec.Steps[len(exec.Steps)-1]`
abbrev pub set_last : (Step → Step) → List Step → List Step
set_last f [] = []
set_last f (s ∷ []) = f s ∷ []
set_last f (s ∷ t ∷ ss) = s ∷ set_last f (t ∷ ss)

abbrev pub replace : FlowExecution → List FlowExecution → List FlowExecution
replace x [] = []
replace x (y ∷ ys) = if str_eq y.id x.id then x ∷ replace x ys else y ∷ replace x ys

-- `UpdateExecution`: the row with the id of the execution.
abbrev pub update_execution : FlowEnv → Outcome → World → Outcome × World
update_execution env o (x, repo) = elim (env.refuses x) [
  | some e ↦ (errored e, (x, repo))
  | none ↦ (o, (x, record repo { executions = replace x repo.executions }))
]

abbrev pub begin_step : Node → Payload → FlowExecution → FlowExecution
begin_step node input x = record x {
  current_node_id = node.id;
  steps =
      x.steps
      ++ record { node_id = node.id; status = running; input = input; output = []; error = "" }
        ∷ [];
}

abbrev pub pause_step : FlowExecution → FlowExecution
pause_step x = record x {
  status = paused;
  steps = set_last (λ s. record s { status = paused }) x.steps;
}

abbrev pub complete_step : Payload → FlowExecution → FlowExecution
complete_step out x = record x {
  steps = set_last (λ s. record s { status = completed; output = out }) x.steps;
}

abbrev pub Visit : Type 0
Visit = Node → Payload → World → Outcome × World

-- The loop over the next nodes: it returns at the first that does not finish.
unfoldable pub visit_all : Visit → List Node → Payload → World → Outcome × World
visit_all visit [] out w = (finished, w)
visit_all visit (n ∷ ns) out w =
    let (o, w') = visit n out w in
    elim o [
      | finished ↦ visit_all visit ns out w'
      | stopped ↦ (stopped, w')
      | errored e ↦ (errored e, w')
      | out_of_fuel ↦ (out_of_fuel, w')
    ]

-- What `executeNode` does once its next nodes are done.
abbrev pub conclude : FlowEnv → Outcome × World → Outcome × World
conclude env (finished, w) = update_execution env finished w
conclude env (o, w) = (o, w)

abbrev pub after_handler : FlowEnv → Visit → Flow → Node → Handled → World → Outcome × World
after_handler env visit flow node pause (x, repo) =
    update_execution env stopped (pause_step x, repo)
after_handler env visit flow node (output out) (x, repo) =
    conclude env
      (visit_all visit (next_nodes flow node out flow.edges) out (complete_step out x, repo))

-- `FlowRunner.executeNode`
unfoldable pub execute_node : FlowEnv → Flow → ℕ → Node → Payload → World → Outcome × World
execute_node env flow zero node input w = (out_of_fuel, w)
execute_node env flow (suc fuel) node input (x, repo) =
    after_handler env (execute_node env flow fuel) flow node
      (handle env node.type node.config input) (begin_step node input x, repo)

abbrev pub is_trigger : Node → Bool
is_trigger n = elim n.type [ event_trigger ↦ true | _ ↦ false ]

abbrev pub no_trigger : Flow → String
no_trigger flow = "no trigger node found in flow " <> flow.id

-- The end of `Execute` and of `Resume`: a pause is no error, and the end is stored.
abbrev pub finish : FlowEnv → Outcome × World → Outcome × World
finish env (finished, (x, repo)) =
    update_execution env finished (record x { status = completed }, repo)
finish env (o, w) = (o, w)

abbrev pub start_at : FlowEnv → ℕ → Flow → Option Node → Payload → World → Outcome × World
start_at env fuel flow none input w = (errored (no_trigger flow), w)
start_at env fuel flow (some node) input w = finish env (execute_node env flow fuel node input w)

abbrev pub new_execution : String → Flow → FlowExecution
new_execution id flow = record {
  id = id;
  flow_id = flow.id;
  status = running;
  current_node_id = "";
  steps = [];
  metadata = none;
}

-- `FlowRunner.Execute`, on the id that the clock gives.
unfoldable pub execute : FlowEnv → ℕ → String → Flow → Payload → Repository → Outcome × World
execute env fuel id flow input repo =
    let x = new_execution id flow in
    elim (env.refuses x) [
      | some e ↦ (errored e, (x, repo))
      | none ↦
          start_at env fuel flow (find is_trigger flow.nodes) input
            (x, record repo { executions = repo.executions ++ x ∷ [] })
    ]
