-- ===== src/Samples/Branches.antt =====
-- The marking of inactive root branches at a concrete input.
use graphon.Prelude.{String, ◌≡◌, refl, List, [], ◌∷◌}
use graphon.Exec.{for_each, ◌>>=◌}
use graphon.Dict
use graphon.Dict.{Dict}
use graphon.Enums.{skipped, unknown, NodeExecutionType}
use graphon.Graph.{Node, Edge, initial_states}
use graphon.Graph.Roots.{
  inactive_roots, mark_inactive_root_branches, top_level_roots, mark_downstream, skip_edge,
  settle_target, all_in_skipped,
}
use graphon.Graph.Roots.Skipped.{IsRootOrClosed, mark_inactive-IsRootOrClosed}
use graphon.Samples.{sample_node}

-- Two roots: "start", which is active, leads to "right", and "hook" leads to "left".
abbrev two_roots : Dict (Node String)
two_roots =
    ("start", sample_node "start" NodeExecutionType.root)
    ∷ ("hook", sample_node "hook" NodeExecutionType.root)
    ∷ ("left", sample_node "left" NodeExecutionType.executable)
    ∷ ("right", sample_node "right" NodeExecutionType.executable)
    ∷ []

abbrev two_edges : Dict Edge
two_edges =
    ("edge_0", record { id = "edge_0"; tail = "hook"; head = "left"; source_handle = "source" })
    ∷ ("edge_1", record { id = "edge_1"; tail = "start"; head = "right"; source_handle = "source" })
    ∷ []

abbrev into_nodes : Dict (List String)
into_nodes = ("left", "edge_0" ∷ []) ∷ ("right", "edge_1" ∷ []) ∷ []

abbrev out_of_nodes : Dict (List String)
out_of_nodes = ("hook", "edge_0" ∷ []) ∷ ("start", "edge_1" ∷ []) ∷ []

mark_inactive-IsRootOrClosed_example :
    IsRootOrClosed two_roots two_edges into_nodes out_of_nodes
      (inactive_roots two_roots two_edges into_nodes out_of_nodes "start")
      (mark_inactive_root_branches two_roots two_edges into_nodes out_of_nodes 4 "start"
        initial_states).1
mark_inactive-IsRootOrClosed_example =
    mark_inactive-IsRootOrClosed two_roots two_edges into_nodes out_of_nodes 4 "start"

left_skipped :
    let st =
      (mark_inactive_root_branches two_roots two_edges into_nodes out_of_nodes 4 "start"
        initial_states).1 in
    (st.node_state "left" ≡ skipped) × (st.node_state "right" ≡ unknown)
unfolding mark_inactive_root_branches inactive_roots top_level_roots mark_downstream skip_edge
    settle_target all_in_skipped for_each ◌>>=◌ Dict.get Dict.get_or Dict.has Dict.values
left_skipped = (refl, refl)
