-- ===== src/Traversal/Skip.antt =====
-- graph_engine/graph_traversal/skip_propagator.py. `depth` is how many calls of
-- propagate_skip_from_edge the interpreter allows within one another; each takes two of its frames,
-- its own and that of _propagate_skip_to_node. A chain of skips that is longer ends with a
-- RecursionError.
use graphon.Prelude.{ℕ, zero, suc, String, List, if◌then◌else◌}
use graphon.Exec.{Exec, pure, raise, require, recursion_error, for_each, ◌>>=◌, ◌>>◌}
use graphon.Dict
use graphon.Graph.{Graph, Edge, get_incoming_edges, get_outgoing_edges}
use graphon.StateManager.{
  StateManager, analyze_edge_states, enqueue_node, start_execution, mark_node_skipped,
  mark_edge_skipped,
}

module _ {V : Type 0} (graph : Graph V) where
  -- _propagate_skip_to_node; `from_edge` is the recursive call.
  unfoldable pub skip_node : (String → Exec StateManager Unit) → String → Exec StateManager Unit
  skip_node from_edge node_id = do
    mark_node_skipped graph node_id
    for_each (λ edge. mark_edge_skipped graph edge.id >> from_edge edge.id)
        (get_outgoing_edges graph node_id)

  -- The part of propagate_skip_from_edge behind the look-up of the downstream node.
  unfoldable pub visit_downstream :
      (String → Exec StateManager Unit) → String → Exec StateManager Unit
  visit_downstream from_edge downstream_node_id m =
      let edge_states = analyze_edge_states m (get_incoming_edges graph downstream_node_id) in
      (if edge_states.has_unknown
          then pure tt
          else if edge_states.has_taken
          then enqueue_node graph downstream_node_id >> start_execution downstream_node_id
          else if edge_states.all_skipped
          then skip_node from_edge downstream_node_id
          else pure tt)
        m

  unfoldable pub propagate_skip_from_edge : ℕ → String → Exec StateManager Unit
  unfolding visit_downstream
  propagate_skip_from_edge zero edge_id = raise recursion_error
  propagate_skip_from_edge (suc depth) edge_id = do
    edge ← require edge_id (Dict.get graph.edges edge_id)
    visit_downstream (propagate_skip_from_edge depth) edge.head

  unfoldable pub propagate_skip_to_node : ℕ → String → Exec StateManager Unit
  unfolding skip_node
  propagate_skip_to_node depth = skip_node (propagate_skip_from_edge depth)

  unfoldable pub skip_branch_paths : ℕ → List Edge → Exec StateManager Unit
  skip_branch_paths depth unselected_edges =
      for_each (λ edge. mark_edge_skipped graph edge.id >> propagate_skip_from_edge depth edge.id)
        unselected_edges
