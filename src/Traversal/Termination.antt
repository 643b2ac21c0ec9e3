-- ===== src/Traversal/Termination.antt =====
-- graph_traversal/skip_propagator.py: when the propagation ends, and how deep it goes.
use graphon.Prelude.{
  ℕ, zero, suc, ◌+◌, ◌≤◌, ◌<◌, String, ◌≡◌, refl, Bool, true, false, some, List, All, arith,
  if◌then◌else◌,
}
use graphon.Exec.{Exec, ok, pure, ◌>>=◌, ◌>>◌}
use graphon.Exec.Triple.{Total, Total-bind, Total-require, Total-for_each}
use graphon.Dict
use graphon.Graph.{Graph, Node, Edge, IsWellFormed, get_outgoing_edges, get_incoming_edges}
use graphon.StateManager.{
  StateManager, enqueue_node, start_execution, mark_node_skipped, mark_edge_skipped,
  analyze_edge_states,
}
use graphon.Traversal.Skip.{
  skip_node, visit_downstream, propagate_skip_from_edge, skip_branch_paths,
}

-- `rank` grows along every edge and stays within `bound`, and the target of every edge exists.
pub record IsRanked {V : Type 0} (graph : Graph V) (rank : String → ℕ) (bound : ℕ) : Type 0 where
  pub grows : (e : Edge) → Dict.get graph.edges e.id ≡ some e → rank e.tail < rank e.head
  pub within : (e : Edge) → Dict.get graph.edges e.id ≡ some e → rank e.head ≤ bound
  pub target :
      (e : Edge)
      → Dict.get graph.edges e.id ≡ some e
      → (n : Node V) × (Dict.get graph.nodes e.head ≡ some n)

module _ {V : Type 0} (graph : Graph V) where
  pub mark_edge_skipped-Total :
      (e : Edge) → Dict.get graph.edges e.id ≡ some e → Total (mark_edge_skipped graph e.id)
  unfolding mark_edge_skipped
  mark_edge_skipped-Total e found = Total-require e.id _ e _ found (record { at = λ s. (tt, refl) })

  mark_node_skipped-Total :
      (n : String) (node : Node V)
      → Dict.get graph.nodes n ≡ some node
      → Total (mark_node_skipped graph n)
  unfolding mark_node_skipped
  mark_node_skipped-Total n node found =
      Total-require n _ node _ found (record { at = λ s. (tt, refl) })

  enqueue-Total :
      (n : String) (node : Node V)
      → Dict.get graph.nodes n ≡ some node
      → Total (enqueue_node graph n >> start_execution n)
  unfolding enqueue_node start_execution ◌>>=◌
  enqueue-Total n node found = record { at = λ s. (tt, rw found) }

module _ {V : Type 0} (graph : Graph V) (wf : IsWellFormed graph) (rank : String → ℕ) (bound : ℕ)
    (ranked : IsRanked graph rank bound) where
  Reached : ℕ → Edge → Type 0
  Reached depth e = (Dict.get graph.edges e.id ≡ some e) × (bound < depth + rank e.head)

  skip_node-Total :
      (depth : ℕ) (from_edge : String → Exec StateManager Unit)
      → ((e : Edge)
          → Dict.get graph.edges e.id ≡ some e
          → bound < depth + rank e.head
          → Total (from_edge e.id))
      → (n : String) (node : Node V) → Dict.get graph.nodes n ≡ some node
      → bound < suc depth + rank n
      → Total (skip_node graph from_edge n)
  unfolding skip_node
  skip_node-Total depth from_edge k n node found room =
      Total-bind _ _ (mark_node_skipped-Total graph n node found) λ _.
        Total-for_each _ _ (get_outgoing_edges graph n) (wf.outgoing n) λ e at.
          Total-bind _ _ (mark_edge_skipped-Total graph e at.1) λ _.
            k e at.1
              (let up : rank n < rank e.head = rw (← at.0) (ranked.grows e at.1) in omega arith)

  visit_downstream-Total :
      (depth : ℕ) (from_edge : String → Exec StateManager Unit)
      → ((e : Edge)
          → Dict.get graph.edges e.id ≡ some e
          → bound < depth + rank e.head
          → Total (from_edge e.id))
      → (n : String) (node : Node V) → Dict.get graph.nodes n ≡ some node
      → bound < suc depth + rank n
      → Total (visit_downstream graph from_edge n)
  unfolding visit_downstream
  visit_downstream-Total depth from_edge k n node found room = record {
    at = λ m.
        let a = analyze_edge_states m (get_incoming_edges graph n) in
        go m a.has_unknown a.has_taken a.all_skipped;
  }
    where
      go :
          (m : StateManager) (u t s : Bool)
          → (x : Unit {0}) × (((if u
                  then pure tt
                  else if t
                  then enqueue_node graph n >> start_execution n
                  else if s
                  then skip_node graph from_edge n
                  else pure tt)
                m).0
              ≡ ok x)
      go m true t s = (tt, refl)
      go m false true s = (enqueue-Total graph n node found).at m
      go m false false true = (skip_node-Total depth from_edge k n node found room).at m
      go m false false false = (tt, refl)

  propagate-Total :
      (depth : ℕ) (e : Edge)
      → Dict.get graph.edges e.id ≡ some e
      → bound < depth + rank e.head
      → Total (propagate_skip_from_edge graph depth e.id)
  unfolding propagate_skip_from_edge
  propagate-Total zero e found room = absurd (let w = ranked.within e found in omega arith)
  propagate-Total (suc depth) e found room =
      let (node, at) = ranked.target e found in
      Total-require e.id _ e _ found (
        visit_downstream-Total depth (propagate_skip_from_edge graph depth) (propagate-Total depth)
          e.head node at room)

-- On a ranked graph, where at least `bound` calls of propagate_skip_from_edge may stand within one
-- another (two frames of the interpreter each), `skip_branch_paths` returns from every state for
-- edges of the graph.
pub skip_branch_paths-Total :
    {V : Type 0} (graph : Graph V) (rank : String → ℕ) (bound depth : ℕ) (edges : List Edge)
    → IsWellFormed graph
    → IsRanked graph rank bound
    → All (λ (e : Edge). Dict.get graph.edges e.id ≡ some e) edges
    → bound ≤ depth
    → Total (skip_branch_paths graph depth edges)
unfolding skip_branch_paths
skip_branch_paths-Total graph rank bound depth edges wf ranked found enough =
    Total-for_each _ _ edges found λ e at. Total-bind _ _ (mark_edge_skipped-Total graph e at) λ _.
      propagate-Total graph wf rank bound ranked depth e at
        (let up = ranked.grows e at in omega arith)
