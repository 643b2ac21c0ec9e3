-- ===== src/Samples/Examples.antt =====
-- The properties of the engine's parts at concrete inputs.
use graphon.Prelude.{ℕ, String, ◌≡◌, refl, none, some, List, [], ◌∷◌, arith}
use graphon.Exec.{ok}
use graphon.Exec.Triple.{Total}
use graphon.Dict
use graphon.Dict.{Dict}
use graphon.Enums.{NodeExecutionType}
use graphon.Graph.{Edge}
use graphon.Graph.Build.{build_edges, edge_id}
use graphon.Events.{Event}
use graphon.Traversal.Skip.{skip_branch_paths}
use graphon.Traversal.Edges.{handle_branch_completion, process_node_success}
use graphon.Traversal.Closure.{IsClosed, skip_branch_paths-IsClosed}
use graphon.Traversal.Justified.{IsJustified, skip_branch_paths-IsJustified}
use graphon.Traversal.Termination.{skip_branch_paths-Total}
use graphon.Traversal.Branch.{branch_completion_correct, node_success-IsClosed}
use graphon.Samples.{
  sample_node, sample_graph, sample_graph-IsWellFormed, sample_rank, sample_graph-IsRanked,
  new_manager, new_manager-IsClosed, new_manager-IsJustified, sample_coordinator,
  sample_coordinator-Total, sample_engine,
}

-- The edge to `left`, which is not taken when `check` chooses "false".
abbrev pub to_left : Edge
to_left = record { id = "edge_1"; tail = "check"; head = "left"; source_handle = "true" }

to_left-found : Dict.get sample_graph.edges "edge_1" ≡ some to_left
unfolding sample_graph build_edges Dict.get Dict.put edge_id
to_left-found = refl

skip_branch_paths-Total_example : Total (skip_branch_paths sample_graph 3 (to_left ∷ []))
skip_branch_paths-Total_example =
    skip_branch_paths-Total sample_graph sample_rank 3 3 (to_left ∷ []) sample_graph-IsWellFormed
      sample_graph-IsRanked (to_left-found, tt) (omega arith)

left_returns : (skip_branch_paths sample_graph 3 (to_left ∷ []) new_manager).0 ≡ ok tt
left_returns = (skip_branch_paths-Total_example.at new_manager).1

skip_branch_paths-IsClosed_example :
    IsClosed sample_graph (skip_branch_paths sample_graph 3 (to_left ∷ []) new_manager).1
skip_branch_paths-IsClosed_example =
    skip_branch_paths-IsClosed sample_graph 3 (to_left ∷ []) new_manager sample_graph-IsWellFormed
      (to_left-found, tt) (new_manager-IsClosed sample_graph) left_returns

skip_branch_paths-IsJustified_example :
    IsJustified sample_graph (skip_branch_paths sample_graph 3 (to_left ∷ []) new_manager).1
skip_branch_paths-IsJustified_example =
    skip_branch_paths-IsJustified sample_graph 3 (to_left ∷ []) new_manager
      (new_manager-IsJustified sample_graph)

check_found :
    Dict.get sample_graph.nodes "check" ≡ some (sample_node "check" NodeExecutionType.branch)
unfolding sample_graph Dict.get
check_found = refl

branch_completion_correct_example :
    (p : List String × List (Event String ℕ)) × ((handle_branch_completion sample_graph
        sample_coordinator 3 "check"
        (some "false")
        sample_engine).0
      ≡ ok p)
    × IsClosed sample_graph
        (handle_branch_completion sample_graph sample_coordinator 3 "check"
          (some "false")
          sample_engine).1.manager
branch_completion_correct_example =
    branch_completion_correct sample_graph sample_coordinator sample_rank 3 3 "check" "false"
      (sample_node "check" NodeExecutionType.branch) sample_engine sample_graph-IsWellFormed
      sample_graph-IsRanked sample_coordinator-Total check_found refl (omega arith)
      (new_manager-IsClosed sample_graph)

node_success-IsClosed_example :
    IsClosed sample_graph
      (process_node_success sample_graph sample_coordinator "left" none sample_engine).1.manager
node_success-IsClosed_example =
    node_success-IsClosed sample_graph sample_coordinator "left" sample_engine
      (new_manager-IsClosed sample_graph)
