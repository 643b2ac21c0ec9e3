-- ===== src/Graph.antt =====
-- graph/graph.py and graph/edge.py. What a graph holds once it is built: its nodes, its edges and
-- the two adjacency maps. The mutable `state` field of nodes and edges is kept apart, as one map
-- for the nodes and one for the edges (States), so that the graph itself never changes.
pub mod Build
pub mod Roots
pub mod Validation
use graphon.Prelude.{
  ℕ, String, ◌≡◌, Bool, Option, none, some, List, [], ◌∷◌, All, ◌==◌, if◌then◌else◌,
}
use graphon.Dict
use graphon.Dict.{Dict}
use graphon.Enums.{NodeState, unknown, NodeExecutionType, ErrorStrategy}

-- The fields of a node that the engine reads. `V` is the type of the values in its outputs.
pub record Node (V : Type 0) : Type 0 where
  pub id : String
  pub node_type : String
  pub title : String
  pub execution_type : NodeExecutionType
  pub error_strategy : Option ErrorStrategy
  pub retry : Bool
  pub max_retries : ℕ
  pub default_value_dict : Dict V

pub record Edge : Type 0 where
  pub id : String
  -- The source node and the target node.
  pub tail : String
  pub head : String
  pub source_handle : String

pub record Graph (V : Type 0) : Type 0 where
  pub nodes : Dict (Node V)
  pub edges : Dict Edge
  pub in_edges : Dict (List String)
  pub out_edges : Dict (List String)
  pub root_node : Node V

-- The `state` fields, by node id and by edge id; each object starts as UNKNOWN.
pub record States : Type 0 where
  pub node_state : String → NodeState
  pub edge_state : String → NodeState

abbrev pub initial_states : States
initial_states = record { node_state = λ _. unknown; edge_state = λ _. unknown }

-- The assignment to one object's field.
abbrev pub update : (String → NodeState) → String → NodeState → String → NodeState
update f k v j = if k == j then v else f j

abbrev pub with_found : Option Edge → List Edge → List Edge
with_found none rest = rest
with_found (some e) rest = e ∷ rest

-- [self.edges[eid] for eid in edge_ids if eid in self.edges]
unfoldable pub edges_of : Dict Edge → List String → List Edge
edges_of edges [] = []
edges_of edges (eid ∷ ids) = with_found (Dict.get edges eid) (edges_of edges ids)

module _ {V : Type 0} (graph : Graph V) where
  unfoldable pub get_outgoing_edges : String → List Edge
  get_outgoing_edges node_id = edges_of graph.edges (Dict.get_or graph.out_edges node_id [])

  unfoldable pub get_incoming_edges : String → List Edge
  get_incoming_edges node_id = edges_of graph.edges (Dict.get_or graph.in_edges node_id [])

  -- The adjacency maps and the edges agree: an edge that is listed for a node ends there (or
  -- begins there), and stands in `edges` under its own id.
  pub record IsWellFormed : Type 0 where
    pub incoming :
        (n : String)
        → All
            (λ (e : Edge). (e.head ≡ n) × (Dict.get graph.edges e.id ≡ some e))
            (get_incoming_edges n)
    pub outgoing :
        (n : String)
        → All
            (λ (e : Edge). (e.tail ≡ n) × (Dict.get graph.edges e.id ≡ some e))
            (get_outgoing_edges n)
