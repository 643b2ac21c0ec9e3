-- ===== src/Traversal/Closure.antt =====
-- graph_traversal/skip_propagator.py: the nodes all of whose incoming edges are skipped.
use graphon.Prelude.{
  ℕ, zero, suc, String, ◌≡◌, ◌≢◌, refl, sym, ap, ◌∙◌, Bool, true, false, inl, inr, some, List, [],
  ◌∷◌, ◌&&◌, Option-cases, ne_of_eq-false, any, all, is_nil, All, arith, eq_iff, eq_refl,
  string_cases, if◌then◌else◌,
}
use graphon.Exec.{Exec, Exception, err, ok, pure, ◌>>=◌, ◌>>◌}
use graphon.Exec.Triple.{Triple, Triple-bind, Triple-for_each_All}
use graphon.Dict
use graphon.Enums.{NodeState, skipped, is_unknown, is_taken, is_skipped}
use graphon.Graph.{Graph, Edge, IsWellFormed, update, get_incoming_edges, get_outgoing_edges}
use graphon.StateManager.{
  StateManager, analyze_edge_states, enqueue_node, start_execution, mark_node_skipped,
  mark_edge_skipped,
}
use graphon.Traversal.Skip.{
  skip_node, visit_downstream, propagate_skip_from_edge, skip_branch_paths,
}

module _ {V : Type 0} (graph : Graph V) where
  -- If all edges into the node are skipped, and there is one, the node is skipped.
  abbrev pub IsClosedAt : StateManager → String → Type 0
  IsClosedAt m n =
      all (λ e. is_skipped (m.edge_state e.id)) (get_incoming_edges graph n) ≡ true
      → is_nil (get_incoming_edges graph n) ≡ false
      → m.node_state n ≡ skipped

  abbrev pub IsClosed : StateManager → Type 0
  IsClosed m = (n : String) → IsClosedAt m n

  -- Closed everywhere but perhaps at one node.
  abbrev pub IsClosedBut : String → StateManager → Type 0
  IsClosedBut x m = (n : String) → n ≢ x → IsClosedAt m n

-- An edge that is not skipped shows in the list.
not_all_skipped :
    (f : String → NodeState) (es : List Edge)
    → any (λ e. is_taken (f e.id)) es ≡ true
    → all (λ e. is_skipped (f e.id)) es ≡ true
    → ⊥
not_all_skipped f [] h k = cc
not_all_skipped f (e ∷ es) h k = ground (arith, not_all_skipped f es)

not_all_skipped_unknown :
    (f : String → NodeState) (es : List Edge)
    → any (λ e. is_unknown (f e.id)) es ≡ true
    → all (λ e. is_skipped (f e.id)) es ≡ true
    → ⊥
not_all_skipped_unknown f [] h k = cc
not_all_skipped_unknown f (e ∷ es) h k = ground (arith, not_all_skipped_unknown f es)

pub err≢ok : (a : Unit {0}) {x : Exception} → err x ≢ ok a
err≢ok a e = cc

module _ {V : Type 0} (graph : Graph V) (wf : IsWellFormed graph) where
  -- Marking one edge shows only at the node where it ends.
  mark_elsewhere :
      (edge : Edge) (f : String → NodeState) (v : NodeState) (n : String) (es : List Edge)
      → Dict.get graph.edges edge.id ≡ some edge
      → n ≢ edge.head
      → All (λ (e : Edge). (e.head ≡ n) × (Dict.get graph.edges e.id ≡ some e)) es
      → all (λ e. is_skipped (update f edge.id v e.id)) es ≡ all (λ e. is_skipped (f e.id)) es
  mark_elsewhere edge f v n [] found other ins = refl
  mark_elsewhere edge f v n (e ∷ es) found other ins = elim (string_cases edge.id e.id) [
    | inl same ↦ absurd (other (cc (found, ins.0.0, ins.0.1, same)))
    | inr different ↦
        rw different
          (ap (λ b. is_skipped (f e.id) && b) (mark_elsewhere edge f v n es found other ins.1))
  ]

  pub mark-IsClosedBut :
      (edge : Edge)
      → Dict.get graph.edges edge.id ≡ some edge
      → Triple (IsClosed graph) (mark_edge_skipped graph edge.id) (λ _. IsClosedBut graph edge.head)
  unfolding mark_edge_skipped ◌>>=◌
  mark-IsClosedBut edge found = record {
    run = λ m closed a e. rw found λ n other skips. closed n (
        rw
          (mark_elsewhere edge m.edge_state skipped n (get_incoming_edges graph n) found other
            (wf.incoming n))
          at skips);
  }

  enqueue_edge_state :
      (n : String) (m : StateManager)
      → ((enqueue_node graph n >> start_execution n) m).1.edge_state ≡ m.edge_state
  unfolding enqueue_node start_execution ◌>>=◌
  enqueue_edge_state n m = elim (Option-cases (Dict.get graph.nodes n)) [
    | inl e ↦ rw e
    | inr (node, e) ↦ rw e
  ]

  enqueue_node_state :
      (n j : String) (m : StateManager)
      → n ≢ j
      → ((enqueue_node graph n >> start_execution n) m).1.node_state j ≡ m.node_state j
  unfolding enqueue_node start_execution ◌>>=◌
  enqueue_node_state n j m h = elim (Option-cases (Dict.get graph.nodes n)) [
    | inl e ↦ rw e
    | inr (node, e) ↦ rw e (ground (arith, eq_iff n j))
  ]

  enqueue-IsClosed :
      (n : String) (m : StateManager)
      → any (λ e. is_taken (m.edge_state e.id)) (get_incoming_edges graph n) ≡ true
      → IsClosedBut graph n m
      → IsClosed graph ((enqueue_node graph n >> start_execution n) m).1
  enqueue-IsClosed n m live closed j = rw (enqueue_edge_state n m) λ skips some_edge.
      elim (string_cases n j) [
        | inl same ↦
            absurd (not_all_skipped m.edge_state (get_incoming_edges graph n) live (rw same skips))
        | inr other ↦
            let ne : n ≢ j = ne_of_eq-false n j other in
            enqueue_node_state n j m ne ∙ closed j (λ e. ne (sym e)) skips some_edge
      ]

  skip_mark-IsClosed :
      (n : String) → Triple (IsClosedBut graph n) (mark_node_skipped graph n) (λ _. IsClosed graph)
  unfolding mark_node_skipped ◌>>=◌
  skip_mark-IsClosed n = record {
    run = λ m closed a e j skips some_edge. elim (Option-cases (Dict.get graph.nodes n)) [
      | inl missing ↦ absurd (err≢ok a (rw missing at e))
      | inr (node, found) ↦ rw found (elim (string_cases n j) [
        | inl same ↦ rw same (rw (eq_refl j))
        | inr other ↦
            rw other
              (closed j (λ e. ne_of_eq-false n j other (sym e)) (rw found at skips) some_edge)
      ])
    ];
  }

  skip_node-IsClosed :
      (from_edge : String → Exec StateManager Unit)
      → ((edge : Edge)
          → Dict.get graph.edges edge.id ≡ some edge
          → Triple (IsClosedBut graph edge.head) (from_edge edge.id) (λ _. IsClosed graph))
      → (n : String)
      → Triple (IsClosedBut graph n) (skip_node graph from_edge n) (λ _. IsClosed graph)
  unfolding skip_node
  skip_node-IsClosed from_edge k n =
      Triple-bind (mark_node_skipped graph n) _ (skip_mark-IsClosed n) λ _.
        Triple-for_each_All (λ (e : Edge). (e.tail ≡ n) × (Dict.get graph.edges e.id ≡ some e)) _
          (get_outgoing_edges graph n) (wf.outgoing n)
          λ edge found.
            Triple-bind (mark_edge_skipped graph edge.id) _ (mark-IsClosedBut edge found.1)
              λ _. k edge found.1

  -- The three tests of `propagate_skip_from_edge`, and their branches.
  visit_downstream-IsClosed :
      (from_edge : String → Exec StateManager Unit)
      → ((edge : Edge)
          → Dict.get graph.edges edge.id ≡ some edge
          → Triple (IsClosedBut graph edge.head) (from_edge edge.id) (λ _. IsClosed graph))
      → (n : String)
      → Triple (IsClosedBut graph n) (visit_downstream graph from_edge n) (λ _. IsClosed graph)
  unfolding visit_downstream analyze_edge_states
  visit_downstream-IsClosed from_edge k n = record {
    run = λ m closed a.
        let f = m.edge_state in
        let es = get_incoming_edges graph n in
        go m closed a (any (λ e. is_unknown (f e.id)) es) (any (λ e. is_taken (f e.id)) es)
          (all (λ e. is_skipped (f e.id)) es) refl refl refl;
  }
    where
      unmoved :
          (m : StateManager)
          → IsClosedBut graph n m
          → (all (λ e. is_skipped (m.edge_state e.id)) (get_incoming_edges graph n) ≡ true → ⊥)
          → IsClosed graph m
      unmoved m closed open_edge j skips = elim (string_cases n j) [
        | inl same ↦ absurd (open_edge (rw same skips))
        | inr other ↦ closed j (λ e. ne_of_eq-false n j other (sym e)) skips
      ]

      go :
          (m : StateManager)
          → IsClosedBut graph n m
          → (a : Unit {0}) → (u t s : Bool)
          → any (λ e. is_unknown (m.edge_state e.id)) (get_incoming_edges graph n) ≡ u
          → any (λ e. is_taken (m.edge_state e.id)) (get_incoming_edges graph n) ≡ t
          → all (λ e. is_skipped (m.edge_state e.id)) (get_incoming_edges graph n) ≡ s
          → ((if u
                then pure tt
                else if t
                then enqueue_node graph n >> start_execution n
                else if s
                then skip_node graph from_edge n
                else pure tt)
              m).0
            ≡ ok a
          → IsClosed graph
              ((if u
                  then pure tt
                  else if t
                  then enqueue_node graph n >> start_execution n
                  else if s
                  then skip_node graph from_edge n
                  else pure tt)
                m).1
      go m closed a true t s hu ht hs e =
          unmoved m closed (not_all_skipped_unknown m.edge_state (get_incoming_edges graph n) hu)
      go m closed a false true s hu ht hs e = enqueue-IsClosed n m ht closed
      go m closed a false false true hu ht hs e =
          (skip_node-IsClosed from_edge k n).run m closed a e
      go m closed a false false false hu ht hs e = unmoved m closed (λ h. cc (hs, h))

  pub propagate-IsClosed :
      (depth : ℕ) (edge : Edge)
      → Dict.get graph.edges edge.id ≡ some edge
      → Triple
          (IsClosedBut graph edge.head)
          (propagate_skip_from_edge graph depth edge.id)
          (λ _. IsClosed graph)
  unfolding propagate_skip_from_edge ◌>>=◌
  propagate-IsClosed zero edge found = record { run = λ m closed a e. absurd (err≢ok a e) }
  propagate-IsClosed (suc depth) edge found = record {
    run = λ m closed a. rw found (
        (visit_downstream-IsClosed (propagate_skip_from_edge graph depth) (propagate-IsClosed depth)
            edge.head).run
          m closed a);
  }

-- On a well-formed graph, from a state where every node all of whose incoming edges are skipped
-- (one at least) is itself skipped, a return of `skip_branch_paths` for edges of the graph leaves a
-- state of that kind.
pub skip_branch_paths-IsClosed :
    {V : Type 0} (graph : Graph V) (depth : ℕ) (edges : List Edge) (m : StateManager)
    → IsWellFormed graph
    → All (λ (e : Edge). Dict.get graph.edges e.id ≡ some e) edges
    → IsClosed graph m
    → (skip_branch_paths graph depth edges m).0 ≡ ok tt
    → IsClosed graph (skip_branch_paths graph depth edges m).1
unfolding skip_branch_paths
skip_branch_paths-IsClosed graph depth edges m wf found closed =
    (Triple-for_each_All (λ (e : Edge). Dict.get graph.edges e.id ≡ some e) _ edges found
        λ edge at.
          Triple-bind (mark_edge_skipped graph edge.id) _ (mark-IsClosedBut graph wf edge at)
            λ _. propagate-IsClosed graph wf depth edge at).run
      m closed tt
