-- ===== src/Graph/Roots.antt =====
-- graph/graph.py: the branches that start at roots which are not active are skipped beforehand.
-- `depth` is the depth of recursion that the interpreter allows.
pub mod Skipped
use graphon.Prelude.{
  ℕ, zero, suc, String, Bool, true, ◌&&◌, ◌||◌, not, List, [], ◌∷◌, length, contains, select, map,
  leb, ◌==◌, if◌then◌else◌,
}
use graphon.Exec.{Exec, pure, raise, modify, gets, require, recursion_error, for_each, ◌>>=◌, ◌>>◌}
use graphon.Dict
use graphon.Dict.{Dict}
use graphon.Enums.{skipped, is_skipped, is_root}
use graphon.Graph.{Node, Edge, States, update}

module _ {V : Type 0} (nodes : Dict (Node V)) (edges : Dict Edge)
    (in_edges out_edges : Dict (List String)) where
  abbrev skip_node_state : String → Exec States (Unit {0})
  skip_node_state n = modify (λ st. record st { node_state = update st.node_state n skipped })

  -- `all(edges[eid].state == SKIPPED ...)`: an id without an edge is a KeyError.
  unfoldable pub all_in_skipped : List String → Exec States Bool
  all_in_skipped [] = pure true
  all_in_skipped (eid ∷ rest) = do
    require eid (Dict.get edges eid)
    others ← all_in_skipped rest
    gets (λ st. is_skipped (st.edge_state eid) && others)

  -- What follows for the target of one edge that has been skipped.
  unfoldable pub settle_target : (String → Exec States (Unit {0})) → String → Exec States (Unit {0})
  settle_target downstream target = do
    target_node ← require target (Dict.get nodes target)
    settled ← all_in_skipped (Dict.get_or in_edges target [])
    if settled then skip_node_state target >> downstream target else pure tt

  -- One round of the loop over the outgoing edges of a skipped node.
  unfoldable pub skip_edge : (String → Exec States (Unit {0})) → String → Exec States (Unit {0})
  unfolding settle_target
  skip_edge downstream edge_id = do
    edge ← require edge_id (Dict.get edges edge_id)
    modify (λ st. record st { edge_state = update st.edge_state edge_id skipped })
    settle_target downstream edge.head

  unfoldable pub mark_downstream : ℕ → String → Exec States (Unit {0})
  unfolding skip_edge
  mark_downstream zero node_id = raise recursion_error
  mark_downstream (suc depth) node_id = do
    require node_id (Dict.get nodes node_id)
    state ← gets (λ st. st.node_state node_id)
    if is_skipped state
        then for_each (skip_edge (mark_downstream depth)) (Dict.get_or out_edges node_id [])
        else pure tt

  -- The nodes whose execution type is ROOT.
  unfoldable pub top_level_roots : List String
  top_level_roots = map (λ n. n.id) (select (λ n. is_root n.execution_type) (Dict.values nodes))

  unfoldable pub inactive_roots : String → List String
  unfolding top_level_roots
  inactive_roots active_root_id = select (λ r. not (r == active_root_id)) top_level_roots

  unfoldable pub mark_inactive_root_branches : ℕ → String → Exec States (Unit {0})
  unfolding mark_downstream inactive_roots
  mark_inactive_root_branches depth active_root_id =
      if leb (length top_level_roots) 1 || not (contains top_level_roots active_root_id)
      then pure tt
      else for_each (λ r. λ st. (if Dict.has nodes r then skip_node_state r else pure tt) st)
          (inactive_roots active_root_id)
        >> for_each (mark_downstream depth) (inactive_roots active_root_id)
