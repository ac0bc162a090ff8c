-- ===== src/Flow/Termination.antt =====
-- Whether the recursion of `executeNode` ends: it follows the edges of the flow and keeps no track
-- of the nodes it has seen.
use fintech_ecosystem.Base.{
  ℕ, zero, suc, ◌<◌, String, ◌≡◌, sym, subst, ◌≢◌, inl, inr, Option, none, some, List, [], ◌∷◌, All,
  All-append, Bool-cases, Option-cases, select, find, str_eq, eq_iff, arith,
}
use fintech_ecosystem.Flow.Model.{Payload, Node, Edge, Flow, Repository}
use fintech_ecosystem.Flow.Runner.{
  FlowEnv, Handled, output, pause, Outcome, finished, stopped, errored, out_of_fuel, World, handle,
  follows, has_node_id, next_nodes, Visit, visit_all, conclude, after_handler, begin_step,
  complete_step, pause_step, update_execution, execute_node, execute, start_at, finish,
  new_execution, is_trigger,
}

-- Every edge goes to a node of a lower rank, as it does where the edges form no cycle.
abbrev pub IsRanked : (String → ℕ) → List Edge → Type 0
IsRanked rank es = All (λ e. rank e.target < rank e.source) es

select-target :
    (rank : String → ℕ) (id : String) (k : ℕ) (ns : List Node)
    → rank id < k
    → All (λ n. rank n.id < k) (select (has_node_id id) ns)
select-target rank id k [] h = tt
select-target rank id k (n ∷ ns) h = elim (Bool-cases (str_eq n.id id)) [
  | inl e ↦
      let same : n.id ≡ id = ground (arith, eq_iff n.id id) in
      rw (e, All) (subst (λ i. rank i < k) (sym same) h, select-target rank id k ns h)
  | inr e ↦ rw (e, All) (select-target rank id k ns h)
]

next_nodes-lower :
    (rank : String → ℕ) (flow : Flow) (node : Node) (out : Payload) (es : List Edge)
    → IsRanked rank es
    → All (λ n. rank n.id < rank node.id) (next_nodes flow node out es)
unfolding next_nodes
next_nodes-lower rank flow node out [] h = tt
next_nodes-lower rank flow node out (e ∷ es) h =
    let rest = next_nodes-lower rank flow node out es h.1 in
    elim (Bool-cases (follows node out e)) [
      | inl f ↦
          let same : e.source ≡ node.id = ground (arith, f, eq_iff e.source node.id) in
          rw f (
            All-append (λ n. rank n.id < rank node.id) (select (has_node_id e.target) flow.nodes)
              (next_nodes flow node out es)
              (select-target rank e.target (rank node.id) flow.nodes
                (subst (λ i. rank e.target < rank i) same h.0))
              rest)
      | inr f ↦ rw f rest
    ]

-- The recursion ended by itself.
abbrev Ends : Outcome × World → Type 0
Ends r = r.0 ≢ out_of_fuel

visit_all-Ends :
    (P : Node → Type 0) (visit : Visit)
    → ((n : Node) (out : Payload) (w : World) → P n → Ends (visit n out w))
    → (ns : List Node) (out : Payload) (w : World) → All P ns
    → Ends (visit_all visit ns out w)
unfolding visit_all
visit_all-Ends P visit v [] out w h = ground arith
visit_all-Ends P visit v (n ∷ ns) out w h =
    go (λ w'. visit_all-Ends P visit v ns out w' h.1) (visit n out w) (v n out w h.0)
  where
    go :
        ((w' : World) → Ends (visit_all visit ns out w'))
        → (r : Outcome × World) → Ends r
        → Ends (elim r.0 [
          | finished ↦ visit_all visit ns out r.1
          | stopped ↦ (stopped, r.1)
          | errored e ↦ (errored e, r.1)
          | out_of_fuel ↦ (out_of_fuel, r.1)
        ])
    go rest (finished, w') e = rest w'
    go rest (stopped, w') e = e
    go rest (errored x, w') e = e
    go rest (out_of_fuel, w') e = e

update_execution-Ends :
    (env : FlowEnv) (o : Outcome) (w : World) → o ≢ out_of_fuel → Ends (update_execution env o w)
update_execution-Ends env o (x, repo) h = ground arith

conclude-Ends : (env : FlowEnv) (r : Outcome × World) → Ends r → Ends (conclude env r)
conclude-Ends env (finished, w) h = update_execution-Ends env finished w h
conclude-Ends env (stopped, w) h = h
conclude-Ends env (errored x, w) h = h
conclude-Ends env (out_of_fuel, w) h = h

after_handler-Ends :
    (env : FlowEnv) (visit : Visit) (flow : Flow) (rank : String → ℕ) (node : Node)
    → IsRanked rank flow.edges
    → ((n : Node) (out : Payload) (w : World) → rank n.id < rank node.id → Ends (visit n out w))
    → (r : Handled) (w : World) → Ends (after_handler env visit flow node r w)
after_handler-Ends env visit flow rank node h v pause (x, repo) =
    update_execution-Ends env stopped (pause_step x, repo) (ground arith)
after_handler-Ends env visit flow rank node h v (output out) (x, repo) = conclude-Ends env _ (
    visit_all-Ends (λ n. rank n.id < rank node.id) visit v (next_nodes flow node out flow.edges) out
      (complete_step out x, repo) (next_nodes-lower rank flow node out flow.edges h))

-- In a flow whose edges all go to a node of a lower rank, `executeNode` ends by itself once the fuel
-- is greater than the rank of its node: it finishes, is stopped by a pause or ends in an error.
pub execute_node_ends :
    (env : FlowEnv) (flow : Flow) (rank : String → ℕ) (fuel : ℕ) (node : Node) (input : Payload)
    (w : World)
    → IsRanked rank flow.edges
    → rank node.id < fuel
    → (execute_node env flow fuel node input w).0 ≢ out_of_fuel
unfolding execute_node
execute_node_ends env flow rank zero node input w h f = absurd (omega arith)
execute_node_ends env flow rank (suc fuel) node input (x, repo) h f =
    after_handler-Ends env (execute_node env flow fuel) flow rank node h
      (λ n o w l. execute_node_ends env flow rank fuel n o w h (omega (arith, l, f)))
      (handle env node.type node.config input) (begin_step node input x, repo)

finish-Ends : (env : FlowEnv) (r : Outcome × World) → Ends r → Ends (finish env r)
finish-Ends env (finished, (x, repo)) h = update_execution-Ends env finished _ h
finish-Ends env (stopped, w) h = h
finish-Ends env (errored x, w) h = h
finish-Ends env (out_of_fuel, w) h = h

start_at-Ends :
    (env : FlowEnv) (flow : Flow) (rank : String → ℕ) (fuel : ℕ) (node : Option Node)
    (input : Payload) (w : World)
    → IsRanked rank flow.edges
    → ((n : String) → rank n < fuel)
    → Ends (start_at env fuel flow node input w)
start_at-Ends env flow rank fuel none input w h f = ground arith
start_at-Ends env flow rank fuel (some node) input w h f =
    finish-Ends env _ (execute_node_ends env flow rank fuel node input w h (f node.id))

-- `Execute` ends by itself on a flow whose edges all go to a node of a lower rank, once the fuel is
-- greater than the rank of every node, whatever the input and the database are.
pub execute_ends :
    (env : FlowEnv) (flow : Flow) (rank : String → ℕ) (fuel : ℕ) (id : String) (input : Payload)
    (repo : Repository)
    → IsRanked rank flow.edges
    → ((n : String) → rank n < fuel)
    → (execute env fuel id flow input repo).0 ≢ out_of_fuel
unfolding execute
execute_ends env flow rank fuel id input repo h f =
    elim (Option-cases (env.refuses (new_execution id flow))) [
      | inl e ↦
          rw (e, execute)
            (start_at-Ends env flow rank fuel (find is_trigger flow.nodes) input _ h f)
      | inr (x, e) ↦ rw (e, execute) (ground arith)
    ]
