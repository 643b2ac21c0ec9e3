-- ===== src/Traversal/Aside.antt =====
-- graph_engine/graph_traversal/edge_processor.py: what it keeps of the execution.
use graphon.Prelude.{ℕ, String, Option, none, some, List, [], ◌∷◌}
use graphon.Exec.Triple.{Keeps, Keeps-bind, Keeps-pure, Keeps-if, Keeps-require, Keeps-raise}
use graphon.Dict
use graphon.Enums.{is_branch}
use graphon.Graph.{Graph, Edge, get_outgoing_edges}
use graphon.StateManager.{categorize_branch_edges}
use graphon.Execution.{GraphExecution}
use graphon.Engine.{ResponseCoordinator, Engine}
use graphon.Traversal.Edges.{
  is_selected, process_taken_edge, process_taken_edges, process_selected_edges,
  process_non_branch_node_edges, process_branch_node_edges, process_node_success,
  handle_branch_completion,
}

module _ {V U C : Type 0} (graph : Graph V) (coordinator : ResponseCoordinator V U C) (depth : ℕ)
    (P : GraphExecution → Type 0) where
  abbrev pub Steady : Engine V U C → Type 0
  Steady s = P s.execution

  taken_edge-Steady : (e : Edge) → Keeps Steady (process_taken_edge graph coordinator e)
  unfolding process_taken_edge
  taken_edge-Steady e =
      Keeps-bind _ _ (record { at = λ s h. h })
        λ _.
          Keeps-bind _ _ (record { at = λ s h. h })
            λ events. Keeps-bind _ _ (record { at = λ s h. h }) λ ready. Keeps-pure _

  taken_edges-Steady : (es : List Edge) → Keeps Steady (process_taken_edges graph coordinator es)
  unfolding process_taken_edges
  taken_edges-Steady [] = Keeps-pure _
  taken_edges-Steady (e ∷ es) =
      Keeps-bind _ _ (taken_edge-Steady e)
        λ p. Keeps-bind _ _ (taken_edges-Steady es) λ q. Keeps-pure _

  branch-Steady :
      (n : String) (handle : Option String)
      → Keeps Steady (process_branch_node_edges graph coordinator n handle)
  unfolding process_branch_node_edges process_selected_edges
  branch-Steady n none = Keeps-raise _
  branch-Steady n (some handle) =
      Keeps-if (is_selected (some handle)) _ _
        (Keeps-bind _ _ (record { at = λ s h. h })
          λ _. taken_edges-Steady (categorize_branch_edges graph n handle).0)
        (Keeps-raise _)

  pub success-Steady :
      (n : String) (handle : Option String)
      → Keeps Steady (process_node_success graph coordinator n handle)
  unfolding process_node_success process_non_branch_node_edges
  success-Steady n handle = Keeps-bind _ _ (Keeps-require n (Dict.get graph.nodes n)) λ node.
      Keeps-if (is_branch node.execution_type) _ _ (branch-Steady n handle)
        (taken_edges-Steady (get_outgoing_edges graph n))

  pub completion-Steady :
      (n : String) (handle : Option String)
      → Keeps Steady (handle_branch_completion graph coordinator depth n handle)
  unfolding handle_branch_completion
  completion-Steady n none = Keeps-raise _
  completion-Steady n (some handle) =
      Keeps-if (is_selected (some handle)) _ _
        (Keeps-bind _ _ (record { at = λ s h. h }) λ _. success-Steady n (some handle))
        (Keeps-raise _)
