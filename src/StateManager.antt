-- ===== src/StateManager.antt =====
-- graph_engine/graph_state_manager.py. One record for the manager and the objects that it mutates:
-- the states of nodes and edges, the ready queue, and the set of executing nodes. Each method runs
-- under the manager's reentrant lock, so a method is one step of this model.
use graphon.Prelude.{
  ℕ, ◌+◌, String, Bool, true, false, ◌&&◌, not, List, [], ◌∷◌, ◌++◌, any, all, is_nil, select,
  length, contains, ◌==◌, if◌then◌else◌,
}
use graphon.Exec.{Exec, ok, gets, modify, require, ◌>>◌}
use graphon.Dict
use graphon.Enums.{NodeState, taken, skipped, is_unknown, is_taken, is_skipped}
use graphon.Graph.{Graph, Node, Edge, States, update, get_incoming_edges, get_outgoing_edges}

pub record StateManager : Type 0 where
  pub states : States
  pub open states use *
  pub ready_queue : List String
  pub executing_nodes : List String

abbrev pub set_node_state : String → NodeState → StateManager → StateManager
set_node_state n v m = record m {
  states = record m.states { node_state = update m.node_state n v };
}

abbrev pub set_edge_state : String → NodeState → StateManager → StateManager
set_edge_state e v m = record m {
  states = record m.states { edge_state = update m.edge_state e v };
}

-- The flags of `EdgeStateAnalysis`.
pub record EdgeStateAnalysis : Type 0 where
  pub has_unknown : Bool
  pub has_taken : Bool
  pub all_skipped : Bool

pub record ExecutionStats : Type 0 where
  pub queue_depth : ℕ
  pub executing : ℕ
  pub taken_nodes : ℕ
  pub skipped_nodes : ℕ
  pub unknown_nodes : ℕ

-- The loop over the outgoing edges: the selected ones, and the others.
unfoldable pub categorize : String → List Edge → List Edge × List Edge
categorize selected_handle [] = ([], [])
categorize selected_handle (edge ∷ rest) =
    let (chosen, others) = categorize selected_handle rest in
    if edge.source_handle == selected_handle
    then (edge ∷ chosen, others)
    else (chosen, edge ∷ others)

-- How many nodes are in a state that passes the test.
unfoldable pub count_states : {V : Type 0} → (NodeState → Bool) → StateManager → List (Node V) → ℕ
count_states p m [] = 0
count_states p m (node ∷ rest) =
    let n = count_states p m rest in if p (m.node_state node.id) then n + 1 else n

module _ {V : Type 0} (graph : Graph V) where
  unfoldable pub enqueue_node : String → Exec StateManager Unit
  enqueue_node node_id = do
    require node_id (Dict.get graph.nodes node_id)
    modify (set_node_state node_id taken)
    modify (λ m. record m { ready_queue = m.ready_queue ++ node_id ∷ [] })

  unfoldable pub mark_node_skipped : String → Exec StateManager Unit
  mark_node_skipped node_id = do
    require node_id (Dict.get graph.nodes node_id)
    modify (set_node_state node_id skipped)

  unfoldable pub mark_edge_taken : String → Exec StateManager Unit
  mark_edge_taken edge_id = do
    require edge_id (Dict.get graph.edges edge_id)
    modify (set_edge_state edge_id taken)

  unfoldable pub mark_edge_skipped : String → Exec StateManager Unit
  mark_edge_skipped edge_id = do
    require edge_id (Dict.get graph.edges edge_id)
    modify (set_edge_state edge_id skipped)

  unfoldable pub is_node_ready : String → Exec StateManager Bool
  is_node_ready node_id m =
      let incoming_edges = get_incoming_edges graph node_id in
      (
        ok (
            if is_nil incoming_edges
            then true
            else if any (λ e. is_unknown (m.edge_state e.id)) incoming_edges
            then false
            else any (λ e. is_taken (m.edge_state e.id)) incoming_edges),
        m,
      )

  unfoldable pub get_node_state : String → Exec StateManager NodeState
  get_node_state node_id = do
    require node_id (Dict.get graph.nodes node_id)
    gets (λ m. m.node_state node_id)

  unfoldable pub get_edge_state : String → Exec StateManager NodeState
  get_edge_state edge_id = do
    require edge_id (Dict.get graph.edges edge_id)
    gets (λ m. m.edge_state edge_id)

  unfoldable pub categorize_branch_edges : String → String → List Edge × List Edge
  unfolding categorize
  categorize_branch_edges node_id selected_handle =
      categorize selected_handle (get_outgoing_edges graph node_id)

  unfoldable pub get_execution_stats : StateManager → ExecutionStats
  unfolding count_states
  get_execution_stats m = record {
    queue_depth = length m.ready_queue;
    executing = length m.executing_nodes;
    taken_nodes = count_states is_taken m (Dict.values graph.nodes);
    skipped_nodes = count_states is_skipped m (Dict.values graph.nodes);
    unknown_nodes = count_states is_unknown m (Dict.values graph.nodes);
  }

-- `states == {SKIPPED}`, or no edge at all.
unfoldable pub analyze_edge_states : StateManager → List Edge → EdgeStateAnalysis
analyze_edge_states m edges = record {
  has_unknown = any (λ e. is_unknown (m.edge_state e.id)) edges;
  has_taken = any (λ e. is_taken (m.edge_state e.id)) edges;
  all_skipped = all (λ e. is_skipped (m.edge_state e.id)) edges;
}

-- A set of texts is a list; `add` keeps it free of repetitions.
abbrev pub set_add : String → List String → List String
set_add x xs = if contains xs x then xs else xs ++ x ∷ []

abbrev pub set_discard : String → List String → List String
set_discard x xs = select (λ y. not (y == x)) xs

unfoldable pub start_execution : String → Exec StateManager Unit
start_execution node_id =
    modify (λ m. record m { executing_nodes = set_add node_id m.executing_nodes })

unfoldable pub finish_execution : String → Exec StateManager Unit
finish_execution node_id =
    modify (λ m. record m { executing_nodes = set_discard node_id m.executing_nodes })

unfoldable pub is_executing : StateManager → String → Bool
is_executing m node_id = contains m.executing_nodes node_id

unfoldable pub get_executing_count : StateManager → ℕ
get_executing_count m = length m.executing_nodes

unfoldable pub clear_executing : Exec StateManager Unit
clear_executing = modify (λ m. record m { executing_nodes = [] })

unfoldable pub is_execution_complete : StateManager → Bool
is_execution_complete m = is_nil m.ready_queue && is_nil m.executing_nodes

unfoldable pub get_queue_depth : StateManager → ℕ
get_queue_depth m = length m.ready_queue
