-- ===== src/Graph/Build.antt =====
-- graph/graph.py: how a configuration becomes the edges and the adjacency maps of a graph.
pub mod Indexed
pub mod Edges
use Prim.Native.String.{◌++◌ as str_append}
use graphon.Prelude.{
  ℕ, suc, String, ◌≡◌, Bool, true, false, Option, none, some, List, [], ◌∷◌, ◌++◌, ◌==◌,
  if◌then◌else◌, not,
}
use graphon.Prelude.Decimal.{decimal}
use graphon.Dict
use graphon.Dict.{Dict}
use graphon.Enums.{ErrorStrategy, fail_branch, branch}
use graphon.Graph.{Node, Edge}

-- The value of an edge's "sourceHandle": missing, a text, or something else.
pub data HandleField : Type 0 where
  absent : HandleField
  text : String → HandleField
  other : HandleField

-- One edge of the configuration. A source or target that is missing or no text is `none`.
pub record EdgeConfig : Type 0 where
  pub source : Option String
  pub target : Option String
  pub source_handle : HandleField

-- The variables of the loop of `_build_edges`.
pub record Built : Type 0 where
  pub edges : Dict Edge
  pub in_edges : Dict (List String)
  pub out_edges : Dict (List String)
  pub edge_counter : ℕ

abbrev pub nothing_built : Built
nothing_built = record { edges = []; in_edges = []; out_edges = []; edge_counter = 0 }

-- f"edge_{edge_counter}"
unfoldable pub edge_id : ℕ → String
unfolding decimal
edge_id n = str_append "edge_" (decimal n)

-- d[key].append(item) on a defaultdict(list)
unfoldable pub append_to : Dict (List String) → String → String → Dict (List String)
append_to d key item = Dict.put d key (Dict.get_or d key [] ++ item ∷ [])

abbrev pub add_edge : String → String → String → Built → Built
add_edge source target handle b =
    let eid = edge_id b.edge_counter in
    record {
      edges =
          Dict.put b.edges eid
            (record { id = eid; tail = source; head = target; source_handle = handle });
      in_edges = append_to b.in_edges target eid;
      out_edges = append_to b.out_edges source eid;
      edge_counter = suc b.edge_counter;
    }

-- The body of the loop behind the test of source and target.
abbrev pub with_handle : HandleField → String → String → Built → Built
with_handle absent source target b = add_edge source target "source" b
with_handle (text handle) source target b = add_edge source target handle b
with_handle other source target b = record b { edge_counter = suc b.edge_counter }

abbrev pub with_ends : Option String → Option String → HandleField → Built → Built
with_ends (some source) (some target) handle b = with_handle handle source target b
with_ends _ _ handle b = b

unfoldable pub build_from : List EdgeConfig → Built → Built
build_from [] b = b
build_from (config ∷ rest) b =
    build_from rest (with_ends config.source config.target config.source_handle b)

unfoldable pub build_edges : List EdgeConfig → Built
unfolding build_from
build_edges configs = build_from configs nothing_built

-- The configurations that are no notes of the editor: `node_config.get("type", "") == "custom-note"`.
unfoldable pub filter_canvas_only_nodes :
    {N : Type 0} (type_of : N → Option String) → List N → List N
filter_canvas_only_nodes type_of [] = []
filter_canvas_only_nodes type_of (config ∷ rest) =
    let kept = filter_canvas_only_nodes type_of rest in
    if Dict.or_else (type_of config) "" == "custom-note" then kept else config ∷ kept

-- A node that fails to a branch chooses between branches.
abbrev pub promoted : {V : Type 0} → Node V → Option ErrorStrategy → Node V
promoted node (some fail_branch) = record node { execution_type = branch }
promoted node _ = node

unfoldable pub promote_fail_branch_nodes : {V : Type 0} → Dict (Node V) → Dict (Node V)
promote_fail_branch_nodes [] = []
promote_fail_branch_nodes ((node_id, node) ∷ rest) =
    (node_id, promoted node node.error_strategy) ∷ promote_fail_branch_nodes rest
