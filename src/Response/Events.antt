-- ===== src/Response/Events.antt =====
-- response_coordinator/coordinator.py: what the engine tells the coordinator, the edges that are
-- taken and the events of nodes.
pub mod Taken
pub mod Removal
pub mod Settling
pub mod Round
pub mod Joined
pub mod Effect
use graphon.Prelude.{
  ℕ, String, Bool, true, false, ◌||◌, Option, none, some, List, [], ◌∷◌, ◌++◌, if◌then◌else◌,
}
use graphon.Exec.{Exec, Result, ok, err, pure, gets, modify, ◌>>=◌, ◌>>◌}
use graphon.Dict
use graphon.Dict.{Dict}
use graphon.Graph.{Graph, States}
use graphon.Pool.{VariablePool}
use graphon.Response.{StreamChunk, ResponseSession, ResponseOps}
use graphon.Response.Streams.{Streams, append_stream_chunk, close_stream}
use graphon.Response.Flush.{Coordinator, Method, try_flush}
use graphon.Response.Paths.{remove_edge, is_empty}

unfoldable pub track_node_execution : String → String → Coordinator → Coordinator
track_node_execution node_id execution_id c = record c {
  node_execution_ids = Dict.put c.node_execution_ids node_id execution_id;
}

unfoldable pub activate_session : ResponseSession → Method Unit
activate_session session = modify (λ c. record c { active_session = some session })

-- The taken edge is removed from every path. Returns the paths that are left, and whether one of
-- them is empty.
unfoldable pub take_edge : String → List (List String) → List (List String) × Bool
unfolding remove_edge is_empty
take_edge edge_id [] = ([], false)
take_edge edge_id (path ∷ paths) =
    let (rest, reachable) = take_edge edge_id paths in
    let left = remove_edge path edge_id in (left ∷ rest, is_empty left || reachable)

abbrev pub sent : List String → StreamChunk → Method Unit
sent selector event c =
    let (r, streams) = append_stream_chunk selector event c.streams in
    (r, record c { streams = streams })

module _ {V : Type 0} (ops : ResponseOps V) (graph : Graph V) (states : States)
    (pool : VariablePool V) (depth : ℕ) where
  abbrev start_or_queue : ResponseSession → Option ResponseSession → Method (List StreamChunk)
  start_or_queue session none =
      modify (λ c. record c { active_session = some session })
      >> try_flush ops graph states pool depth
  start_or_queue session (some _) = do
    modify (λ c. record c { waiting_sessions = c.waiting_sessions ++ session ∷ [] })
    pure []

  abbrev take_session : String → Option ResponseSession → Method (List StreamChunk)
  take_session node_id none = pure []
  take_session node_id (some session) = do
    modify (λ c. record c { response_sessions = Dict.remove c.response_sessions node_id })
    active ← gets (λ c. c.active_session)
    start_or_queue session active

  unfoldable pub active_or_queue_session : String → Method (List StreamChunk)
  unfolding try_flush
  active_or_queue_session node_id c = take_session node_id (Dict.get c.response_sessions node_id) c

  -- One round of the loop of on_edge_taken.
  abbrev reach : String → String → Option (List (List String)) → Method (List StreamChunk)
  reach edge_id node_id none = pure []
  reach edge_id node_id (some paths) = do
    let (left, reachable) = take_edge edge_id paths
    modify (λ c. record c { paths_maps = Dict.put c.paths_maps node_id left })
    if reachable then active_or_queue_session node_id else pure []

  -- The loop over the set of response nodes, in the order of the list.
  unfoldable pub reach_all : String → List String → Method (List StreamChunk)
  unfolding active_or_queue_session take_edge
  reach_all edge_id [] = pure []
  reach_all edge_id (node_id ∷ rest) = do
    paths ← gets (λ c. Dict.get c.paths_maps node_id)
    events ← reach edge_id node_id paths
    more ← reach_all edge_id rest
    pure (events ++ more)

  unfoldable pub on_edge_taken : String → Method (List StreamChunk)
  unfolding reach_all
  on_edge_taken edge_id = do nodes ← gets (λ c. c.response_nodes); reach_all edge_id nodes

  -- intercept_event for a chunk of a stream.
  unfoldable pub intercept_chunk : StreamChunk → Method (List StreamChunk)
  unfolding try_flush append_stream_chunk close_stream
  intercept_chunk event = do
    sent event.selector event
    modify (λ c.
        if event.is_final then record c { streams = close_stream event.selector c.streams } else c)
    try_flush ops graph states pool depth

  -- intercept_event for the success of a node.
  unfoldable pub intercept_success : Method (List StreamChunk)
  unfolding try_flush
  intercept_success = try_flush ops graph states pool depth
