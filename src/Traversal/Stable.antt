-- ===== src/Traversal/Stable.antt =====
-- A skipped edge stays skipped, whatever is propagated.
use graphon.Prelude.{
  ℕ, zero, suc, String, ◌≡◌, Bool, true, false, inl, inr, arith, Option-cases, if◌then◌else◌,
}
use graphon.Exec.{Exec, pure, recursion_error, ◌>>=◌, ◌>>◌}
use graphon.Exec.Triple.{Keeps, Keeps-bind, Keeps-for_each, Keeps-raise, Keeps-require}
use graphon.Dict
use graphon.Enums.{skipped}
use graphon.Graph.{Graph, get_incoming_edges, get_outgoing_edges}
use graphon.StateManager.{
  StateManager, analyze_edge_states, enqueue_node, start_execution, mark_node_skipped,
  mark_edge_skipped,
}
use graphon.Traversal.Skip.{skip_node, visit_downstream, propagate_skip_from_edge}

module _ {V : Type 0} (graph : Graph V) (x : String) where
  abbrev pub IsSkippedEdge : StateManager → Type 0
  IsSkippedEdge m = m.edge_state x ≡ skipped

  pub mark-IsSkippedEdge : (y : String) → Keeps IsSkippedEdge (mark_edge_skipped graph y)
  unfolding mark_edge_skipped ◌>>=◌
  mark-IsSkippedEdge y = record {
    at = λ m h. elim (Option-cases (Dict.get graph.edges y)) [
      | inl missing ↦ rw missing h
      | inr (e, found) ↦ rw found (ground arith)
    ];
  }

  mark_node-IsSkippedEdge : (n : String) → Keeps IsSkippedEdge (mark_node_skipped graph n)
  unfolding mark_node_skipped ◌>>=◌
  mark_node-IsSkippedEdge n = record {
    at = λ m h. elim (Option-cases (Dict.get graph.nodes n)) [
      | inl missing ↦ rw missing h
      | inr (e, found) ↦ rw found h
    ];
  }

  enqueue-IsSkippedEdge :
      (n : String) → Keeps IsSkippedEdge (enqueue_node graph n >> start_execution n)
  unfolding enqueue_node start_execution ◌>>=◌
  enqueue-IsSkippedEdge n = record {
    at = λ m h. elim (Option-cases (Dict.get graph.nodes n)) [
      | inl missing ↦ rw missing h
      | inr (e, found) ↦ rw found h
    ];
  }

  skip_node-IsSkippedEdge :
      (from_edge : String → Exec StateManager Unit)
      → ((y : String) → Keeps IsSkippedEdge (from_edge y))
      → (n : String) → Keeps IsSkippedEdge (skip_node graph from_edge n)
  unfolding skip_node
  skip_node-IsSkippedEdge from_edge k n = Keeps-bind _ _ (mark_node-IsSkippedEdge n) λ _.
      Keeps-for_each _ (get_outgoing_edges graph n)
        λ e. Keeps-bind _ _ (mark-IsSkippedEdge e.id) (λ _. k e.id)

  visit_downstream-IsSkippedEdge :
      (from_edge : String → Exec StateManager Unit)
      → ((y : String) → Keeps IsSkippedEdge (from_edge y))
      → (n : String) → Keeps IsSkippedEdge (visit_downstream graph from_edge n)
  unfolding visit_downstream
  visit_downstream-IsSkippedEdge from_edge k n = record {
    at = λ m h.
        let a = analyze_edge_states m (get_incoming_edges graph n) in
        go m h a.has_unknown a.has_taken a.all_skipped;
  }
    where
      go :
          (m : StateManager)
          → IsSkippedEdge m
          → (u t s : Bool)
          → IsSkippedEdge
              ((if u
                  then pure tt
                  else if t
                  then enqueue_node graph n >> start_execution n
                  else if s
                  then skip_node graph from_edge n
                  else pure tt)
                m).1
      go m h true t s = h
      go m h false true s = (enqueue-IsSkippedEdge n).at m h
      go m h false false true = (skip_node-IsSkippedEdge from_edge k n).at m h
      go m h false false false = h

  pub propagate-IsSkippedEdge :
      (depth : ℕ) (y : String) → Keeps IsSkippedEdge (propagate_skip_from_edge graph depth y)
  unfolding propagate_skip_from_edge
  propagate-IsSkippedEdge zero y = Keeps-raise recursion_error
  propagate-IsSkippedEdge (suc depth) y =
      Keeps-bind _ _ (Keeps-require y (Dict.get graph.edges y)) λ edge.
        visit_downstream-IsSkippedEdge (propagate_skip_from_edge graph depth)
          (propagate-IsSkippedEdge depth) edge.head
