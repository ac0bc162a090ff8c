-- ===== src/Flow/Decisions.antt =====
-- What `Resume` does on a rejection, and where it asks for no decision at all.
use fintech_ecosystem.Base.{ℕ, String, ◌≡◌, false, Option, none, some, [], find, arith}
use fintech_ecosystem.Ledger.Service.{LedgerService}
use fintech_ecosystem.Flow.Model.{
  Node, Flow, paused, completed, failed, running, Decision, FlowExecution, Repository,
}
use fintech_ecosystem.Flow.Runner.{FlowEnv, finished, errored, replace, visit_all, has_node_id}
use fintech_ecosystem.Flow.Resume.{
  Overrides, Approver, has_id, has_flow_id, all_next, rejected, resume, resume_decided,
  record_decision,
}

-- A paused execution whose approver rejects it, in a database that takes the update: `Resume` ends
-- in the rejection error, runs no node, and stores the execution as failed with the decision; the
-- other executions and the flows stay.
pub resume-rejected :
    (env : FlowEnv) (a : Approver) (fuel : ℕ) (id : String) (o : Overrides) (repo : Repository)
    (s : Option LedgerService) (x : FlowExecution) (d : Decision)
    → find (has_id id) repo.executions ≡ some x
    → x.status ≡ paused
    → o.approval_data ≡ some d
    → d.approved ≡ false
    → env.refuses (record x { metadata = some d; status = failed }) ≡ none
    → (resume env a fuel id o repo s).0 ≡ (
      errored rejected,
      record repo {
        executions = replace (record x { metadata = some d; status = failed }) repo.executions;
      },
    )
unfolding resume resume_decided record_decision
resume-rejected env a fuel id o repo s x d found p q n r = ground (arith, found, p, q, n, r)

-- A paused execution needs no decision to go on: without "approvalData" in the overrides, and where
-- no edge leaves its node, `Resume` ends without an error, stores the execution as completed with
-- the metadata it had, and tells the approval ledger nothing.
pub resume_without_decision :
    (env : FlowEnv) (a : Approver) (fuel : ℕ) (id : String) (o : Overrides) (repo : Repository)
    (s : Option LedgerService) (x : FlowExecution) (flow : Flow) (node : Node)
    → find (has_id id) repo.executions ≡ some x
    → x.status ≡ paused
    → o.approval_data ≡ none
    → find (has_flow_id x.flow_id) repo.flows ≡ some flow
    → find (has_node_id x.current_node_id) flow.nodes ≡ some node
    → all_next flow node flow.edges ≡ []
    → env.refuses (record x { status = running }) ≡ none
    → env.refuses (record x { status = completed }) ≡ none
    → resume env a fuel id o repo s ≡ (
      (
        finished,
        record repo {
          executions =
              replace
                (record x { status = completed })
                (replace (record x { status = running }) repo.executions);
        },
      ),
      s,
    )
unfolding resume resume_decided visit_all
resume_without_decision env a fuel id o repo s x flow node found p q f n e r1 r2 =
    ground (arith, found, p, q, f, n, e, r1, r2)
