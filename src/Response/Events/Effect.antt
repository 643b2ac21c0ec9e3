-- ===== src/Response/Events/Effect.antt =====
-- response_coordinator/coordinator.py: what on_edge_taken does to each response node.
use graphon.Prelude.{String, ◌≡◌, ◌&&◌, none, List, contains, if◌then◌else◌}
use graphon.Exec.Returns.{Returns}
use graphon.Dict
use graphon.Dict.{Dict}
use graphon.Graph.{Graph}
use graphon.Response.Flush.{Coordinator}
use graphon.Response.Events.Round.{is_reached, taken_from}

-- Paths and session of a node, once the edge is taken for the listed nodes.
record Moved (edge_id : String) (nodes : List String) (node_id : String) (c c' : Coordinator)
    : Type 0 where
  paths : Dict.get c'.paths_maps node_id ≡ (
      if contains nodes node_id
      then taken_from edge_id (Dict.get c.paths_maps node_id)
      else Dict.get c.paths_maps node_id)
  session : Dict.get c'.response_sessions node_id ≡ (
      if contains nodes node_id && is_reached edge_id (Dict.get c.paths_maps node_id)
      then none
      else Dict.get c.response_sessions node_id)
