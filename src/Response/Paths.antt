-- ===== src/Response/Paths.antt =====
-- response_coordinator/path.py, and the registration of response nodes in coordinator.py: all
-- paths from the root to a response node, and on each the edges that hold the node back.
pub mod Loop
pub mod Simple
pub mod Depth
use graphon.Prelude.{
  ℕ, zero, suc, String, Bool, true, false, ◌||◌, Option, none, some, List, [], ◌∷◌, ◌++◌, map,
  length, nat_eq, ◌==◌, contains, any, if◌then◌else◌,
}
use graphon.Exec.{
  Exec, Result, ok, err, recursion_error, type_error, pure, raise, require, gets, modify,
  from_result, ◌>>=◌, ◌>>◌,
}
use graphon.Dict
use graphon.Dict.{Dict}
use graphon.Enums.{NodeExecutionType, executable, response, branch, container, root}
use graphon.Graph.{Graph, Node, Edge, get_outgoing_edges}
use graphon.Response.{TemplateSegment, text_segment, variable_segment, ResponseSession, ResponseOps}
use graphon.Response.Flush.{Coordinator, Method}

-- xs.remove(x): the first occurrence
abbrev pub without : List String → String → List String
without [] x = []
without (y ∷ ys) x = let rest = without ys x in if y == x then ys else y ∷ rest

-- Path.contains_edge
unfoldable pub contains_edge : List String → String → Bool
contains_edge edges edge_id = contains edges edge_id

-- Path.remove_edge
unfoldable pub remove_edge : List String → String → List String
unfolding contains_edge
remove_edge edges edge_id = if contains_edge edges edge_id then without edges edge_id else edges

-- Path.is_empty
unfoldable pub is_empty : List String → Bool
is_empty edges = nat_eq (length edges) 0

abbrev joined :
    Result (List (List String)) → Result (List (List String)) → Result (List (List String))
joined (ok first) (ok rest) = ok (first ++ rest)
joined (ok first) (err e) = err e
joined (err e) _ = err e

-- The loop over the outgoing edges of a node: `step` finds the paths behind an edge.
abbrev pub through_edges :
    (Edge → Result (List (List String))) → List String → List Edge → Result (List (List String))
through_edges step visited [] = ok []
through_edges step visited (edge ∷ edges) =
    let rest = through_edges step visited edges in
    if contains visited edge.head then rest else joined (step edge) rest

-- NodeExecutionType.BRANCH, CONTAINER, RESPONSE
abbrev pub holds_back : NodeExecutionType → Bool
holds_back branch = true
holds_back container = true
holds_back response = true
holds_back executable = false
holds_back root = false

-- tuple(segment.selector[:2])
abbrev first_two : List String → List String
first_two (x ∷ y ∷ _) = x ∷ y ∷ []
first_two selector = selector

abbrev pub variable_selectors : List TemplateSegment → List (List String)
variable_selectors [] = []
variable_selectors (text_segment _ ∷ rest) = variable_selectors rest
variable_selectors (variable_segment selector ∷ rest) = first_two selector ∷ variable_selectors rest

module _ {V : Type 0} (graph : Graph V) where
  -- `depth` is the depth of recursion that the interpreter allows.
  unfoldable pub find_all_paths :
      ℕ → String → String → List String → List String → Result (List (List String))
  unfolding get_outgoing_edges
  find_all_paths zero current target current_path visited = err recursion_error
  find_all_paths (suc depth) current target current_path visited =
      let found =
        through_edges
          (λ edge.
            find_all_paths depth edge.head target (current_path ++ edge.id ∷ [])
              (current ∷ visited))
          (current ∷ visited) (get_outgoing_edges graph current) in
      if current == target then ok (current_path ∷ []) else found

module _ {V : Type 0} (ops : ResponseOps V) (graph : Graph V) (depth : ℕ) where
  abbrev session_of : Node V → Option (List TemplateSegment) → Method ResponseSession
  session_of node none =
      raise
        (type_error "ResponseSession.from_node requires get_streaming_template() on response nodes")
  session_of node (some template) =
      pure (record { node_id = node.id; template = template; index = 0 })

  -- ResponseSession.from_node
  unfoldable pub from_node : Node V → Method ResponseSession
  from_node node = session_of node (ops.get_streaming_template node)

  -- The set of selectors as a list.
  unfoldable pub get_response_variable_selectors : String → Method (List (List String))
  unfolding from_node
  get_response_variable_selectors response_node_id = do
    node ← require response_node_id (Dict.get graph.nodes response_node_id)
    session ← from_node node
    pure (variable_selectors session.template)

  unfoldable pub is_blocking_edge : String → List (List String) → Method Bool
  is_blocking_edge edge_id selectors = do
    edge ← require edge_id (Dict.get graph.edges edge_id)
    source ← require edge.tail (Dict.get graph.nodes edge.tail)
    pure (holds_back source.execution_type || ops.blocks_variable_output source selectors)

  unfoldable pub get_blocking_edges : List String → List (List String) → Method (List String)
  unfolding is_blocking_edge
  get_blocking_edges [] selectors = pure []
  get_blocking_edges (edge_id ∷ path) selectors = do
    blocking ← is_blocking_edge edge_id selectors
    rest ← get_blocking_edges path selectors
    pure (if blocking then edge_id ∷ rest else rest)

  abbrev blocking_paths : List (List String) → List (List String) → Method (List (List String))
  blocking_paths [] selectors = pure []
  blocking_paths (path ∷ paths) selectors = do
    edges ← get_blocking_edges path selectors
    rest ← blocking_paths paths selectors
    pure (edges ∷ rest)

  unfoldable pub build_paths_map : String → Method (List (List String))
  unfolding get_response_variable_selectors get_blocking_edges find_all_paths
  build_paths_map response_node_id =
      if graph.root_node.id == response_node_id then pure ([] ∷ []) else (do
        selectors ← get_response_variable_selectors response_node_id
        paths ← from_result (find_all_paths graph depth graph.root_node.id response_node_id [] [])
        blocking_paths paths selectors)

  abbrev add_new : String → Method Unit
  add_new response_node_id = do
    modify (λ c. record c { response_nodes = c.response_nodes ++ response_node_id ∷ [] })
    paths_map ← build_paths_map response_node_id
    modify (λ c. record c { paths_maps = Dict.put c.paths_maps response_node_id paths_map })
    node ← require response_node_id (Dict.get graph.nodes response_node_id)
    session ← from_node node
    modify (λ c. record c {
      response_sessions = Dict.put c.response_sessions response_node_id session;
    })

  unfoldable pub register : String → Method Unit
  unfolding from_node build_paths_map
  register response_node_id = do
    known ← gets (λ c. contains c.response_nodes response_node_id)
    if known then pure tt else add_new response_node_id
