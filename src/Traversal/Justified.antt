-- ===== src/Traversal/Justified.antt =====
-- graph_traversal/skip_propagator.py: the edges into a node that is marked as skipped.
use graphon.Prelude.{
  ℕ, zero, suc, String, ◌≡◌, refl, Bool, true, false, inl, inr, List, [], ◌∷◌, all, any, arith,
  Option-cases, string_cases, if◌then◌else◌,
}
use graphon.Exec.{Exec, pure, recursion_error, ◌>>=◌, ◌>>◌}
use graphon.Exec.Triple.{
  Keeps, Keeps-bind_from, Keeps-bind, Keeps-for_each, Keeps-raise, Keeps-require,
}
use graphon.Dict
use graphon.Enums.{NodeState, skipped, is_skipped, is_unknown, is_taken}
use graphon.Graph.{Graph, Edge, update, get_incoming_edges, get_outgoing_edges}
use graphon.StateManager.{
  StateManager, analyze_edge_states, enqueue_node, start_execution, mark_node_skipped,
  mark_edge_skipped,
}
use graphon.Traversal.Skip.{
  skip_node, visit_downstream, propagate_skip_from_edge, skip_branch_paths,
}

module _ {V : Type 0} (graph : Graph V) where
  -- A skipped node has no edge that is taken or unknown.
  abbrev pub IsJustifiedAt : StateManager → String → Type 0
  IsJustifiedAt m n =
      m.node_state n ≡ skipped
      → all (λ e. is_skipped (m.edge_state e.id)) (get_incoming_edges graph n) ≡ true

  abbrev pub IsJustified : StateManager → Type 0
  IsJustified m = (n : String) → IsJustifiedAt m n

-- One more skipped edge leaves a list of skipped edges one.
mark-all_skipped :
    (f : String → NodeState) (x : String) (es : List Edge)
    → all (λ e. is_skipped (f e.id)) es ≡ true
    → all (λ e. is_skipped (update f x skipped e.id)) es ≡ true
mark-all_skipped f x [] h = refl
mark-all_skipped f x (e ∷ es) h = ground (arith, mark-all_skipped f x es)

module _ {V : Type 0} (graph : Graph V) where
  mark_edge-IsJustified : (x : String) → Keeps (IsJustified graph) (mark_edge_skipped graph x)
  unfolding mark_edge_skipped ◌>>=◌
  mark_edge-IsJustified x = record {
    at = λ m just n. elim (Option-cases (Dict.get graph.edges x)) [
      | inl missing ↦ rw missing (just n)
      | inr (edge, found) ↦
          rw found
            λ skips. mark-all_skipped m.edge_state x (get_incoming_edges graph n) (just n skips)
    ];
  }

  enqueue-IsJustified :
      (x : String) → Keeps (IsJustified graph) (enqueue_node graph x >> start_execution x)
  unfolding enqueue_node start_execution ◌>>=◌
  enqueue-IsJustified x = record {
    at = λ m just n. elim (Option-cases (Dict.get graph.nodes x)) [
      | inl missing ↦ rw missing (just n)
      | inr (node, found) ↦ rw found λ skips. just n (ground arith)
    ];
  }

  mark_node-IsJustified :
      (x : String) (m : StateManager)
      → all (λ e. is_skipped (m.edge_state e.id)) (get_incoming_edges graph x) ≡ true
      → IsJustified graph m
      → IsJustified graph (mark_node_skipped graph x m).1
  unfolding mark_node_skipped ◌>>=◌
  mark_node-IsJustified x m skips just n = elim (Option-cases (Dict.get graph.nodes x)) [
    | inl missing ↦ rw missing (just n)
    | inr (node, found) ↦ rw found (elim (string_cases x n) [
      | inl same ↦ λ _. rw (← same) skips
      | inr other ↦ λ now. just n (rw other at now)
    ])
  ]

  skip_node-IsJustified :
      (from_edge : String → Exec StateManager Unit)
      → ((x : String) → Keeps (IsJustified graph) (from_edge x))
      → (n : String) (m : StateManager)
      → all (λ e. is_skipped (m.edge_state e.id)) (get_incoming_edges graph n) ≡ true
      → IsJustified graph m
      → IsJustified graph (skip_node graph from_edge n m).1
  unfolding skip_node
  skip_node-IsJustified from_edge k n m skips just =
      Keeps-bind_from (mark_node_skipped graph n) _ m (mark_node-IsJustified n m skips just) λ _.
        Keeps-for_each _ (get_outgoing_edges graph n)
          λ e. Keeps-bind _ _ (mark_edge-IsJustified e.id) (λ _. k e.id)

  visit_downstream-IsJustified :
      (from_edge : String → Exec StateManager Unit)
      → ((x : String) → Keeps (IsJustified graph) (from_edge x))
      → (n : String) → Keeps (IsJustified graph) (visit_downstream graph from_edge n)
  unfolding visit_downstream analyze_edge_states
  visit_downstream-IsJustified from_edge k n = record {
    at = λ m just.
        let es = get_incoming_edges graph n in
        go m just (any (λ e. is_unknown (m.edge_state e.id)) es)
          (any (λ e. is_taken (m.edge_state e.id)) es)
          (all (λ e. is_skipped (m.edge_state e.id)) es) refl;
  }
    where
      go :
          (m : StateManager)
          → IsJustified graph m
          → (u t s : Bool)
          → all (λ e. is_skipped (m.edge_state e.id)) (get_incoming_edges graph n) ≡ s
          → IsJustified graph
              ((if u
                  then pure tt
                  else if t
                  then enqueue_node graph n >> start_execution n
                  else if s
                  then skip_node graph from_edge n
                  else pure tt)
                m).1
      go m just true t s e = just
      go m just false true s e = (enqueue-IsJustified n).at m just
      go m just false false true e = skip_node-IsJustified from_edge k n m e just
      go m just false false false e = just

  propagate-IsJustified :
      (depth : ℕ) (x : String) → Keeps (IsJustified graph) (propagate_skip_from_edge graph depth x)
  unfolding propagate_skip_from_edge
  propagate-IsJustified zero x = Keeps-raise recursion_error
  propagate-IsJustified (suc depth) x =
      Keeps-bind _ _ (Keeps-require x (Dict.get graph.edges x)) λ edge.
        visit_downstream-IsJustified (propagate_skip_from_edge graph depth)
          (propagate-IsJustified depth) edge.head

-- If each skipped node has only skipped edges into it, this is so after `skip_branch_paths`, also
-- when it raises, on any graph and with any depth of recursion.
pub skip_branch_paths-IsJustified :
    {V : Type 0} (graph : Graph V) (depth : ℕ) (edges : List Edge) (m : StateManager)
    → IsJustified graph m
    → IsJustified graph (skip_branch_paths graph depth edges m).1
unfolding skip_branch_paths
skip_branch_paths-IsJustified graph depth edges m just =
    (Keeps-for_each _ edges λ e.
        Keeps-bind _ _ (mark_edge-IsJustified graph e.id)
          (λ _. propagate-IsJustified graph depth e.id)).at
      m just
