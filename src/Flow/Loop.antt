-- ===== src/Flow/Loop.antt =====
-- A flow with a cycle (internal/flow/domain/runner.go, `executeNode`).
use fintech_ecosystem.Base.{
  ℕ, zero, suc, ◌≡◌, refl, ap, ◌∙◌, List, [], ◌∷◌, str_eq_self, true, select, ◌++◌, arith,
}
use fintech_ecosystem.Flow.Model.{
  NodeType, webhook, text, Payload, Node, Edge, Flow, FlowExecution, Repository,
}
use fintech_ecosystem.Flow.Runner.{
  FlowEnv, output, out_of_fuel, World, handle, next_nodes, Visit, follows, has_node_id, visit_all,
  conclude, after_handler, begin_step, complete_step, execute_node,
}

-- The first edge of the flow leads from the first node back to it.
pub record LoopsAt (flow : Flow) (n : Node) : Type 0 where
  pub nodes : List Node
  pub first_node : flow.nodes ≡ n ∷ nodes
  pub loop : Edge
  pub edges : List Edge
  pub first_edge : flow.edges ≡ loop ∷ edges
  pub from : loop.source ≡ n.id
  pub back : loop.target ≡ n.id

next_nodes_loop :
    (flow : Flow) (n : Node) (out : Payload)
    → n.type ≡ webhook
    → LoopsAt flow n
    → (rest : List Node) × (next_nodes flow n out flow.edges ≡ n ∷ rest)
unfolding next_nodes
next_nodes_loop flow n out h loops =
    let followed : follows n out loops.loop ≡ true =
      ground (arith, h, loops.from, str_eq_self n.id) in
    let target = loops.loop.target in
    let own : has_node_id target n ≡ true = ground (arith, loops.back, str_eq_self n.id) in
    let seen : select (has_node_id target) flow.nodes
        ≡ n ∷ select (has_node_id target) loops.nodes =
      rw loops.first_node (ground (arith, own)) in
    (
      select (has_node_id loops.loop.target) loops.nodes ++ next_nodes flow n out loops.edges,
      rw (loops.first_edge, followed, seen) refl,
    )

conclude_loop :
    (env : FlowEnv) (visit : Visit) (n : Node) (rest : List Node) (out : Payload) (w : World)
    → (visit n out w).0 ≡ out_of_fuel
    → (conclude env (visit_all visit (n ∷ rest) out w)).0 ≡ out_of_fuel
unfolding visit_all
conclude_loop env visit n rest out w h = ground (arith, h)

-- `executeNode` on a webhook node, given the nodes that follow.
execute_webhook :
    (env : FlowEnv) (flow : Flow) (fuel : ℕ) (n : Node) (input : Payload) (x : FlowExecution)
    (repo : Repository)
    → n.type ≡ webhook
    → let out : Payload = ("status", text "sent") ∷ [] in
      (execute_node env flow (suc fuel) n input (x, repo))
      ≡ conclude env (
          visit_all
            (execute_node env flow fuel)
            (next_nodes flow n out flow.edges)
            out
            (complete_step out (begin_step n input x), repo))
unfolding execute_node handle
execute_webhook env flow fuel n input x repo h =
    ap (λ r. after_handler env (execute_node env flow fuel) flow n r (begin_step n input x, repo))
      (handled n.type h)
  where
    handled :
        (t : NodeType)
        → t ≡ webhook
        → handle env t n.config input ≡ output (("status", text "sent") ∷ [])
    handled t e = rw e refl

-- The runner never ends on a webhook node that is the first of its flow and from which the flow's
-- first edge leads back to it, whatever other nodes and edges the flow has: `executeNode` runs out
-- of whatever fuel it is given.
pub self_loop_never_ends :
    (env : FlowEnv) (flow : Flow) (fuel : ℕ) (n : Node) (input : Payload) (w : World)
    → n.type ≡ webhook
    → LoopsAt flow n
    → (execute_node env flow fuel n input w).0 ≡ out_of_fuel
unfolding execute_node
self_loop_never_ends env flow zero n input w h loops = refl
self_loop_never_ends env flow (suc fuel) n input (x, repo) h loops =
    let out : Payload = ("status", text "sent") ∷ [] in
    let (rest, next) = next_nodes_loop flow n out h loops in
    ap (λ r. r.0) (execute_webhook env flow fuel n input x repo h)
    ∙ rw next (
        conclude_loop env (execute_node env flow fuel) n rest out _
          (self_loop_never_ends env flow fuel n out _ h loops))
