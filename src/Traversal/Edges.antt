-- ===== src/Traversal/Edges.antt =====
-- graph_engine/graph_traversal/edge_processor.py: which nodes become ready when a node ends.
use graphon.Prelude.{
  ℕ, String, Bool, false, Option, none, some, List, [], ◌∷◌, ◌++◌, any, ◌==◌, not, if◌then◌else◌,
}
use graphon.Exec.{Exec, value_error, pure, raise, require, for_each, ◌>>=◌, ◌>>◌}
use graphon.Dict
use graphon.Enums.{is_branch}
use graphon.Graph.{Graph, Edge, get_outgoing_edges}
use graphon.StateManager.{
  is_node_ready, mark_edge_taken, mark_edge_skipped, categorize_branch_edges,
}
use graphon.Traversal.Skip.{skip_branch_paths}
use graphon.Events.{Event}
use graphon.Engine.{ResponseCoordinator, Engine, on_manager, on_coordinator}

-- `if not selected_handle`: None or the empty text.
abbrev pub is_selected : Option String → Bool
is_selected none = false
is_selected (some h) = not (h == "")

module _ {V U C : Type 0} (graph : Graph V) (coordinator : ResponseCoordinator V U C) where
  -- The nodes that are ready now, and the stream events.
  abbrev pub Progress : Type 0
  Progress = List String × List (Event V U)

  unfoldable pub process_taken_edge : Edge → Exec (Engine V U C) Progress
  process_taken_edge edge = do
    on_manager (mark_edge_taken graph edge.id)
    streaming_events ←
        on_coordinator
          (λ s. coordinator.on_edge_taken s.manager.states s.runtime.variable_pool edge.id)
    is_ready ← on_manager (is_node_ready graph edge.head)
    pure (if is_ready then edge.head ∷ [] else [], streaming_events)

  -- The loop over the edges, with the two lists that it extends.
  unfoldable pub process_taken_edges : List Edge → Exec (Engine V U C) Progress
  unfolding process_taken_edge
  process_taken_edges [] = pure ([], [])
  process_taken_edges (edge ∷ rest) = do
    (nodes, events) ← process_taken_edge edge
    (more_nodes, more_events) ← process_taken_edges rest
    pure (nodes ++ more_nodes, events ++ more_events)

  unfoldable pub process_non_branch_node_edges : String → Exec (Engine V U C) Progress
  unfolding process_taken_edges
  process_non_branch_node_edges node_id = process_taken_edges (get_outgoing_edges graph node_id)

  unfoldable pub process_selected_edges : String → String → Exec (Engine V U C) Progress
  unfolding process_taken_edges
  process_selected_edges node_id handle =
      let (selected_edges, unselected_edges) = categorize_branch_edges graph node_id handle in
      on_manager (for_each (λ edge. mark_edge_skipped graph edge.id) unselected_edges)
      >> process_taken_edges selected_edges

  unfoldable pub process_branch_node_edges : String → Option String → Exec (Engine V U C) Progress
  unfolding process_selected_edges
  process_branch_node_edges node_id none = raise (value_error "did not select any edge")
  process_branch_node_edges node_id (some handle) =
      if is_selected (some handle)
      then process_selected_edges node_id handle
      else raise (value_error "did not select any edge")

  unfoldable pub process_node_success : String → Option String → Exec (Engine V U C) Progress
  unfolding process_branch_node_edges process_non_branch_node_edges
  process_node_success node_id selected_handle = do
    node ← require node_id (Dict.get graph.nodes node_id)
    if is_branch node.execution_type
        then process_branch_node_edges node_id selected_handle
        else process_non_branch_node_edges node_id

  unfoldable pub handle_branch_completion :
      ℕ → String → Option String → Exec (Engine V U C) Progress
  unfolding process_node_success
  handle_branch_completion depth node_id none =
      raise (value_error "completed without selecting a branch")
  handle_branch_completion depth node_id (some handle) =
      let (selected_edges, unselected_edges) = categorize_branch_edges graph node_id handle in
      if is_selected (some handle)
      then on_manager (skip_branch_paths graph depth unselected_edges)
        >> process_node_success node_id (some handle)
      else raise (value_error "completed without selecting a branch")

  unfoldable pub validate_branch_selection : String → String → Bool
  validate_branch_selection node_id selected_handle =
      any (λ edge. edge.source_handle == selected_handle) (get_outgoing_edges graph node_id)
