-- ===== src/Traversal/Branch.antt =====
-- graph_traversal/edge_processor.py: the completion of a node over the engine's state.
use graphon.Prelude.{
  ℕ, ◌≤◌, String, ◌≡◌, refl, false, none, some, List, [], ◌∷◌, All, All-map, ◌==◌,
}
use graphon.Exec.{ok}
use graphon.Exec.Triple.{
  Triple, Triple-bind, Triple-if, Triple-raise, Triple-require, Keeps, Keeps-bind, Keeps-pure,
  Keeps-raise, Keeps-require, Keeps-if, Total, Total-bind, Total-require, Total-for_each, Total-if,
}
use graphon.Dict
use graphon.Enums.{is_branch}
use graphon.Pool.{VariablePool}
use graphon.Graph.{Graph, States, Node, Edge, IsWellFormed, get_outgoing_edges}
use graphon.StateManager.{StateManager, mark_edge_taken, is_node_ready, categorize_branch_edges}
use graphon.Engine.{ResponseCoordinator, Engine}
use graphon.Engine.Lift.{
  Keeps-on_manager, Triple-on_manager, Total-on_manager, Keeps-on_coordinator,
}
use graphon.Events.{Event}
use graphon.Traversal.Edges.{
  is_selected, process_taken_edge, process_taken_edges, process_non_branch_node_edges,
  process_selected_edges, process_branch_node_edges, process_node_success, handle_branch_completion,
}
use graphon.Traversal.Closure.{IsClosed}
use graphon.Traversal.Stable.{IsSkippedEdge}
use graphon.Traversal.Termination.{IsRanked, skip_branch_paths-Total, mark_edge_skipped-Total}
use graphon.Traversal.Completion.{
  categorize-All, taken-IsClosed, for_each-marked_again, skip_branch_paths_lem,
}

edges_found :
    {V : Type 0} (graph : Graph V)
    → IsWellFormed graph
    → (n h : String)
    → All (λ (e : Edge). Dict.get graph.edges e.id ≡ some e) (categorize_branch_edges graph n h).0
      × All (λ (e : Edge). Dict.get graph.edges e.id ≡ some e) (categorize_branch_edges graph n h).1
unfolding categorize_branch_edges
edges_found graph wf n h =
    categorize-All _ h (get_outgoing_edges graph n)
      (All-map _ _ (get_outgoing_edges graph n) (λ e at. at.1) (wf.outgoing n))

unselected_found :
    {V : Type 0} (graph : Graph V)
    → IsWellFormed graph
    → (n h : String)
    → All (λ (e : Edge). Dict.get graph.edges e.id ≡ some e) (categorize_branch_edges graph n h).1
unselected_found graph wf n h = (edges_found graph wf n h).1

module _ {V U C : Type 0} (graph : Graph V) (coordinator : ResponseCoordinator V U C) where
  abbrev pub IsClosedEngine : Engine V U C → Type 0
  IsClosedEngine s = IsClosed graph s.manager

  is_ready-Keeps : (n : String) {P : StateManager → Type 0} → Keeps P (is_node_ready graph n)
  unfolding is_node_ready
  is_ready-Keeps n = record { at = λ s h. h }

  taken_edge-IsClosed : (e : Edge) → Keeps IsClosedEngine (process_taken_edge graph coordinator e)
  unfolding process_taken_edge
  taken_edge-IsClosed e = Keeps-bind _ _ (Keeps-on_manager _ (taken-IsClosed graph e.id)) λ _.
      Keeps-bind _ _
        (Keeps-on_coordinator (IsClosed graph)
          (λ s. coordinator.on_edge_taken s.manager.states s.runtime.variable_pool e.id))
        λ events. Keeps-bind _ _ (Keeps-on_manager _ (is_ready-Keeps e.head)) λ ready. Keeps-pure _

  taken_edges-IsClosed :
      (es : List Edge) → Keeps IsClosedEngine (process_taken_edges graph coordinator es)
  unfolding process_taken_edges
  taken_edges-IsClosed [] = Keeps-pure _
  taken_edges-IsClosed (e ∷ es) = Keeps-bind _ _ (taken_edge-IsClosed e) λ (nodes, events).
      Keeps-bind _ _ (taken_edges-IsClosed es) λ (more, more_events). Keeps-pure _

  non_branch-IsClosed :
      (n : String) → Keeps IsClosedEngine (process_non_branch_node_edges graph coordinator n)
  unfolding process_non_branch_node_edges
  non_branch-IsClosed n = taken_edges-IsClosed (get_outgoing_edges graph n)

  -- The edges that the handle does not select.
  abbrev unselected : String → String → List Edge
  unselected n h = (categorize_branch_edges graph n h).1

  selected_edges-IsClosed :
      (n h : String)
      → Triple
          (λ (s : Engine V U C).
            IsClosed graph s.manager
            × All (λ (e : Edge). IsSkippedEdge graph e.id s.manager) (unselected n h))
          (process_selected_edges graph coordinator n h)
          (λ _. IsClosedEngine)
  unfolding process_selected_edges
  selected_edges-IsClosed n h =
      Triple-bind _ _ {Q = λ _. IsClosedEngine}
        (record {
          run = λ s (closed, skips) a e.
              rw (for_each-marked_again graph (unselected n h) s.manager skips) closed;
        })
        λ _. record {
          run = λ s closed a e.
              (taken_edges-IsClosed (categorize_branch_edges graph n h).0).at s closed;
        }

  success-IsClosed :
      (n h : String)
      → Triple
          (λ (s : Engine V U C).
            IsClosed graph s.manager
            × All (λ (e : Edge). IsSkippedEdge graph e.id s.manager) (unselected n h))
          (process_node_success graph coordinator n (some h))
          (λ _. IsClosedEngine)
  unfolding process_node_success process_branch_node_edges
  success-IsClosed n h = Triple-bind _ _ (Triple-require n (Dict.get graph.nodes n)) λ node.
      Triple-if (is_branch node.execution_type) _ _
        (Triple-if (is_selected (some h)) _ _ (selected_edges-IsClosed n h) (Triple-raise _))
        (record { run = λ s (closed, skips) a e. (non_branch-IsClosed n).at s closed })

branch_completion-IsClosed :
    {V U C : Type 0} (graph : Graph V) (coordinator : ResponseCoordinator V U C) (depth : ℕ)
    (n h : String)
    → IsWellFormed graph
    → Triple
        (IsClosedEngine graph coordinator)
        (handle_branch_completion graph coordinator depth n (some h))
        (λ _. IsClosedEngine graph coordinator)
unfolding handle_branch_completion
branch_completion-IsClosed graph coordinator depth n h wf =
    Triple-if (is_selected (some h)) _ _
      (Triple-bind _ _
        (Triple-on_manager _ (
          skip_branch_paths_lem graph depth (categorize_branch_edges graph n h).1 wf
            (unselected_found graph wf n h)))
        λ _. success-IsClosed graph coordinator n h)
      (Triple-raise _)

-- Whatever becomes of it, the completion of a node that chooses no branch leaves a state where
-- every node all of whose incoming edges are skipped is itself skipped, if it began in one.
pub node_success-IsClosed :
    {V U C : Type 0} (graph : Graph V) (coordinator : ResponseCoordinator V U C) (n : String)
    (s : Engine V U C)
    → IsClosed graph s.manager
    → IsClosed graph (process_node_success graph coordinator n none s).1.manager
unfolding process_node_success process_branch_node_edges
node_success-IsClosed graph coordinator n =
    (Keeps-bind _ _ (Keeps-require n (Dict.get graph.nodes n)) λ node.
      Keeps-if (is_branch node.execution_type) _ _ (Keeps-raise _)
        (non_branch-IsClosed graph coordinator n)).at

module _ {V U C : Type 0} (graph : Graph V) (coordinator : ResponseCoordinator V U C)
    (answers : (st : States) (pool : VariablePool V) (x : String)
      → Total (coordinator.on_edge_taken st pool x)) where
  taken_edge-Total :
      (e : Edge)
      → Dict.get graph.edges e.id ≡ some e
      → Total (process_taken_edge graph coordinator e)
  unfolding process_taken_edge is_node_ready mark_edge_taken
  taken_edge-Total e found =
      Total-bind _ _
        (Total-on_manager _ (Total-require e.id _ e _ found (record { at = λ s. (tt, refl) })))
        λ _.
          Total-bind _ _
            (record {
              at = λ s. (answers s.manager.states s.runtime.variable_pool e.id).at s.coordinator;
            })
            λ events.
              Total-bind _ _ (Total-on_manager _ (record { at = λ s. (_, refl) }))
                λ r. record { at = λ s. (_, refl) }

  taken_edges-Total :
      (es : List Edge)
      → All (λ (e : Edge). Dict.get graph.edges e.id ≡ some e) es
      → Total (process_taken_edges graph coordinator es)
  unfolding process_taken_edges
  taken_edges-Total [] found = record { at = λ s. (_, refl) }
  taken_edges-Total (e ∷ es) found =
      Total-bind _ _ (taken_edge-Total e found.0)
        λ p. Total-bind _ _ (taken_edges-Total es found.1) λ q. record { at = λ s. (_, refl) }

  selected_edges-Total :
      (n h : String) → IsWellFormed graph → Total (process_selected_edges graph coordinator n h)
  unfolding process_selected_edges
  selected_edges-Total n h wf =
      let (chosen, others) = edges_found graph wf n h in
      Total-bind _ _
        (Total-on_manager _ (
          Total-for_each _ _ (categorize_branch_edges graph n h).1 others
            λ e at. mark_edge_skipped-Total graph e at))
        λ _. taken_edges-Total (categorize_branch_edges graph n h).0 chosen

branch_completion-Total :
    {V U C : Type 0} (graph : Graph V) (coordinator : ResponseCoordinator V U C) (rank : String → ℕ)
    (bound depth : ℕ) (n h : String) (node : Node V)
    → IsWellFormed graph
    → IsRanked graph rank bound
    → ((st : States) (pool : VariablePool V) (x : String)
        → Total (coordinator.on_edge_taken st pool x))
    → Dict.get graph.nodes n ≡ some node
    → (h == "") ≡ false
    → bound ≤ depth
    → Total (handle_branch_completion graph coordinator depth n (some h))
unfolding handle_branch_completion process_node_success process_branch_node_edges
    process_non_branch_node_edges
branch_completion-Total graph coordinator rank bound depth n h node wf ranked answers found named
      enough =
    let (chosen, others) = edges_found graph wf n h in
    rw named (
      Total-bind _ _
        (Total-on_manager _ (
          skip_branch_paths-Total graph rank bound depth (categorize_branch_edges graph n h).1 wf
            ranked others enough))
        λ _. Total-require n _ node _ found (
          Total-if (is_branch node.execution_type) _ _
            (selected_edges-Total graph coordinator answers n h wf)
            (taken_edges-Total graph coordinator answers (get_outgoing_edges graph n)
              (All-map _ _ (get_outgoing_edges graph n) (λ e at. at.1) (wf.outgoing n)))))

-- On a well-formed graph without cycles, with edges that end at nodes, with a coordinator that does
-- not raise, a handle that is not empty and a depth of recursion of at least the bound of the
-- ranks: from a state where each node all of whose incoming edges are skipped (one at least) is
-- itself skipped, the completion of a node of the graph returns, and leaves a state of that kind.
pub branch_completion_correct :
    {V U C : Type 0} (graph : Graph V) (coordinator : ResponseCoordinator V U C) (rank : String → ℕ)
    (bound depth : ℕ) (n h : String) (node : Node V) (s : Engine V U C)
    → IsWellFormed graph
    → IsRanked graph rank bound
    → ((st : States) (pool : VariablePool V) (x : String)
        → Total (coordinator.on_edge_taken st pool x))
    → Dict.get graph.nodes n ≡ some node
    → (h == "") ≡ false
    → bound ≤ depth
    → IsClosed graph s.manager
    → (p : List String × List (Event V U)) × ((handle_branch_completion graph coordinator depth n
          (some h)
          s).0
        ≡ ok p)
      × IsClosed graph (handle_branch_completion graph coordinator depth n (some h) s).1.manager
branch_completion_correct graph coordinator rank bound depth n h node s wf ranked answers found
      named enough closed =
    let (p, returned) =
      (branch_completion-Total graph coordinator rank bound depth n h node wf ranked answers found
          named enough).at
        s in
    (
      p,
      returned,
      (branch_completion-IsClosed graph coordinator depth n h wf).run s closed p returned,
    )
