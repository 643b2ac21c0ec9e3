-- ===== src/Traversal/Completion.antt =====
-- graph_traversal/edge_processor.py: the edges of a branch node, and the states they are left in.
use graphon.Prelude.{
  ℕ, String, ◌≡◌, refl, sym, ap, fun_ext, eq_refl, true, inl, inr, some, List, [], ◌∷◌, All, all,
  arith, Option-cases, string_cases,
}
use graphon.Exec.{Result, ok, err, continue, for_each, ◌>>=◌}
use graphon.Exec.Triple.{Triple, Triple-bind, Triple-for_each_each, Triple-Keeps, Keeps, Keeps-bind}
use graphon.Dict
use graphon.Enums.{NodeState, taken, skipped, is_skipped}
use graphon.Graph.{Graph, Edge, IsWellFormed, update, get_incoming_edges}
use graphon.StateManager.{StateManager, mark_edge_taken, mark_edge_skipped, categorize}
use graphon.Traversal.Skip.{skip_branch_paths}
use graphon.Traversal.Closure.{err≢ok, IsClosed, mark-IsClosedBut, propagate-IsClosed}
use graphon.Traversal.Stable.{IsSkippedEdge, mark-IsSkippedEdge, propagate-IsSkippedEdge}

-- categorize splits a list: what holds of all edges holds of both parts.
pub categorize-All :
    (P : Edge → Type 0) (h : String) (es : List Edge)
    → All P es
    → All P (categorize h es).0 × All P (categorize h es).1
unfolding categorize
categorize-All P h [] a = (tt, tt)
categorize-All P h (e ∷ es) a = ground (arith, categorize-All P h es a.1)

module _ {V : Type 0} (graph : Graph V) where
  marked-IsSkippedEdge :
      (x : String) (m : StateManager) (a : Unit {0})
      → (mark_edge_skipped graph x m).0 ≡ ok a
      → IsSkippedEdge graph x (mark_edge_skipped graph x m).1
  unfolding mark_edge_skipped ◌>>=◌
  marked-IsSkippedEdge x m a e = elim (Option-cases (Dict.get graph.edges x)) [
    | inl missing ↦ absurd (err≢ok a (rw missing at e))
    | inr (edge, found) ↦ rw found (rw (eq_refl x))
  ]

  -- Marking a skipped edge once more changes nothing.
  mark_again :
      (x : String) (m : StateManager)
      → IsSkippedEdge graph x m
      → (mark_edge_skipped graph x m).1 ≡ m
  unfolding mark_edge_skipped ◌>>=◌
  mark_again x m h = elim (Option-cases (Dict.get graph.edges x)) [
    | inl missing ↦ rw missing
    | inr (edge, found) ↦ rw found (
        ap (λ (f : String → NodeState). record m { states = record m.states { edge_state = f } })
          (fun_ext same))
  ]
    where
      same : (j : String) → update m.edge_state x skipped j ≡ m.edge_state j
      same j = elim (string_cases x j) [
        | inl e ↦ rw (← e) (rw (eq_refl x) (sym h))
        | inr ne ↦ rw ne
      ]

  pub for_each-marked_again :
      (es : List Edge) (m : StateManager)
      → All (λ (e : Edge). IsSkippedEdge graph e.id m) es
      → (for_each (λ (e : Edge). mark_edge_skipped graph e.id) es m).1 ≡ m
  unfolding for_each ◌>>=◌
  for_each-marked_again [] m h = refl
  for_each-marked_again (e ∷ es) m h =
      let (r, m') = mark_edge_skipped graph e.id m in
      go r m' (mark_again e.id m h.0) (for_each-marked_again es m h.1)
    where
      go :
          (r : Result (Unit {0})) (m' : StateManager)
          → m' ≡ m
          → (for_each (λ (e : Edge). mark_edge_skipped graph e.id) es m).1 ≡ m
          → (continue r (λ _. for_each (λ (e : Edge). mark_edge_skipped graph e.id) es) m').1 ≡ m
      go (ok a) m' same rest = rw same rest
      go (err x) m' same rest = same

  -- A taken edge cannot complete a list of skipped edges.
  pub taken-IsClosed : (x : String) → Keeps (IsClosed graph) (mark_edge_taken graph x)
  unfolding mark_edge_taken ◌>>=◌
  taken-IsClosed x = record {
    at = λ m closed n. elim (Option-cases (Dict.get graph.edges x)) [
      | inl missing ↦ rw missing (closed n)
      | inr (edge, found) ↦
          rw found λ skips. closed n (before m.edge_state (get_incoming_edges graph n) skips)
    ];
  }
    where
      before :
          (f : String → NodeState) (es : List Edge)
          → all (λ e. is_skipped (update f x taken e.id)) es ≡ true
          → all (λ e. is_skipped (f e.id)) es ≡ true
      before f [] h = refl
      before f (e ∷ es) h = ground (arith, before f es)

  -- After `skip_branch_paths` no node is left open, and the edges that it was given are skipped.
  pub skip_branch_paths_lem :
      (depth : ℕ) (es : List Edge)
      → IsWellFormed graph
      → All (λ (e : Edge). Dict.get graph.edges e.id ≡ some e) es
      → Triple
          (IsClosed graph)
          (skip_branch_paths graph depth es)
          (λ _ m. IsClosed graph m × All (λ (e : Edge). IsSkippedEdge graph e.id m) es)
  unfolding skip_branch_paths
  skip_branch_paths_lem depth es wf found =
      Triple-for_each_each (λ (e : Edge). Dict.get graph.edges e.id ≡ some e) _ _ _ es found
        (λ e at.
          Triple-bind (mark_edge_skipped graph e.id) _
            (record {
              run = λ m closed a r. (
                (mark-IsClosedBut graph wf e at).run m closed a r,
                marked-IsSkippedEdge e.id m a r,
              );
            })
            λ _.
              Triple-Keeps _ (propagate-IsClosed graph wf depth e at)
                (propagate-IsSkippedEdge graph e.id depth e.id))
        λ e y.
          Keeps-bind _ _ (mark-IsSkippedEdge graph y.id e.id)
            (λ _. propagate-IsSkippedEdge graph y.id depth e.id)
