-- ===== src/Flow/Resume.antt =====
-- internal/flow/domain/runner.go: `FlowRunner.Resume`, with the approval ledger of a runner that has
-- one. Reads of the repository do not fail for other reasons than a missing row.
use fintech_ecosystem.Base.{
  ℕ, String, ◌<>◌, Bool, true, false, Option, none, some, List, [], ◌∷◌, ◌++◌, find, select, str_eq,
  if◌then◌else◌,
}
use fintech_ecosystem.Ledger.Store.{Env}
use fintech_ecosystem.Ledger.Service.{LedgerService}
use fintech_ecosystem.Flow.Model.{
  Payload, Node, Edge, Flow, Status, pending, running, paused, completed, failed, Decision,
  FlowExecution, Repository,
}
use fintech_ecosystem.Flow.Runner.{
  FlowEnv, Outcome, finished, errored, World, update_execution, visit_all, execute_node,
  has_node_id,
}
use fintech_ecosystem.Flow.Approvals.{ApprovalLedgerEntry, record_approval_decision}

-- The overrides, which the next nodes take as their input, with what is read of their
-- "approvalData": none if it is absent or no object.
pub record Overrides : Type 0 where
  pub values : Payload
  pub approval_data : Option Decision

-- The optional approval ledger, and the time as it is written.
pub record Approver : Type 0 where
  pub env : Env
  pub now : String

abbrev pub zone_of : Option Flow → String
zone_of none = ""
zone_of (some flow) = flow.zone_id

abbrev pub has_id : String → FlowExecution → Bool
has_id id x = str_eq x.id id

abbrev pub has_flow_id : String → Flow → Bool
has_flow_id id flow = str_eq flow.id id

abbrev pub entry_of : Approver → FlowExecution → Decision → ApprovalLedgerEntry
entry_of a x d = record {
  execution_id = x.id;
  node_id = x.current_node_id;
  flow_id = x.flow_id;
  approver_user_id = d.approver_user_id;
  required_role = d.required_role;
  approved = d.approved;
  timestamp = a.now;
}

-- The ledger call of an approval: its error is logged and dropped.
unfoldable pub record_decision :
    Approver → FlowExecution → Decision → Repository → Option LedgerService → Option LedgerService
record_decision a x d repo none = none
record_decision a x d repo (some s) =
    some
      (record_approval_decision a.env (entry_of a x d)
        (zone_of (find (has_flow_id x.flow_id) repo.flows)) "live" s).1

-- "Continue from next nodes": every edge of the node is followed, whatever its handle is.
unfoldable pub all_next : Flow → Node → List Edge → List Node
all_next flow node [] = []
all_next flow node (e ∷ es) =
    let rest = all_next flow node es in
    if str_eq e.source node.id then select (has_node_id e.target) flow.nodes ++ rest else rest

-- A further pause ends the call without an error; the end is stored.
abbrev pub finish_resume : FlowEnv → Outcome × World → Outcome × World
finish_resume env (finished, (x, repo)) =
    update_execution env finished (record x { status = completed }, repo)
finish_resume env (o, w) = (o, w)

abbrev pub continue_from : FlowEnv → ℕ → Flow → Node → Payload → Outcome × World → Outcome × World
continue_from env fuel flow node input (finished, w) =
    finish_resume env
      (visit_all (execute_node env flow fuel) (all_next flow node flow.edges) input w)
continue_from env fuel flow node input (o, w) = (o, w)

abbrev pub resume_node :
    FlowEnv → ℕ → Flow → Payload → Option Node → FlowExecution → Repository → Outcome × World
resume_node env fuel flow input none x repo =
    (errored ("current node " <> x.current_node_id <> " not found"), (x, repo))
resume_node env fuel flow input (some node) x repo =
    continue_from env fuel flow node input
      (update_execution env finished (record x { status = running }, repo))

abbrev pub no_rows : String
no_rows = "sql: no rows in result set"

abbrev pub resume_flow :
    FlowEnv → ℕ → Payload → Option Flow → FlowExecution → Repository → Outcome × World
resume_flow env fuel input none x repo = (errored no_rows, (x, repo))
resume_flow env fuel input (some flow) x repo =
    resume_node env fuel flow input (find (has_node_id x.current_node_id) flow.nodes) x repo

abbrev pub rejected : String
rejected = "execution rejected by approver"

-- The check of the approval: `false` is a rejection.
unfoldable pub resume_decided :
    FlowEnv → ℕ → Overrides → Option Decision → FlowExecution → Repository → Outcome × World
resume_decided env fuel o none x repo =
    resume_flow env fuel o.values (find (has_flow_id x.flow_id) repo.flows) x repo
resume_decided env fuel o (some d) x repo =
    let y : FlowExecution = record x { metadata = some d } in
    if d.approved
    then resume_flow env fuel o.values (find (has_flow_id x.flow_id) repo.flows) y repo
    else update_execution env (errored rejected) (record y { status = failed }, repo)

abbrev pub is_paused : Status → Bool
is_paused paused = true
is_paused _ = false

abbrev pub approve :
    Approver
    → Option Decision
    → FlowExecution
    → Repository
    → Option LedgerService
    → Option LedgerService
approve a none x repo s = s
approve a (some d) x repo s = record_decision a x d repo s

abbrev pub execution_not_found : String
execution_not_found = "execution not found"

abbrev pub status_text : Status → String
status_text pending = "pending"
status_text running = "running"
status_text paused = "paused"
status_text completed = "completed"
status_text failed = "failed"

abbrev pub not_paused : FlowExecution → String
not_paused x = "execution " <> x.id <> " is not paused (status: " <> status_text x.status <> ")"

-- The result of `Resume` is the outcome with the tables it leaves, and the ledger.
abbrev pub Resumed : Type 0
Resumed = (Outcome × Repository) × Option LedgerService

abbrev pub outside : Outcome × World → Outcome × Repository
outside (o, (x, repo)) = (o, repo)

abbrev pub resume_found :
    FlowEnv
    → Approver
    → ℕ
    → Overrides
    → Option FlowExecution
    → Repository
    → Option LedgerService
    → Resumed
resume_found env a fuel o none repo s = ((errored execution_not_found, repo), s)
resume_found env a fuel o (some x) repo s =
    if is_paused x.status
    then (
      outside (resume_decided env fuel o o.approval_data x repo),
      approve a o.approval_data x repo s,
    )
    else ((errored (not_paused x), repo), s)

-- `FlowRunner.Resume`
unfoldable pub resume :
    FlowEnv → Approver → ℕ → String → Overrides → Repository → Option LedgerService → Resumed
resume env a fuel id o repo s = resume_found env a fuel o (find (has_id id) repo.executions) repo s
