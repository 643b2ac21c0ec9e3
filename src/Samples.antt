-- ===== src/Samples.antt =====
-- A small graph, built as graph/graph.py builds it, and the state of an engine that has just begun.
pub mod Examples
pub mod Handling
pub mod Control
pub mod Branches
pub mod Responses
pub mod Choices
pub mod Lists
pub mod Loops
use graphon.Prelude.{
  ℕ, ◌+◌, zero, suc, ◌≤◌, ◌<◌, String, ◌≡◌, refl, Bool, true, false, Option, none, some, List, [],
  ◌∷◌, All, all, is_nil, arith, ◌==◌, if◌then◌else◌, ◌&&◌, not,
}
use Prim.Native.String.{◌++◌ as str_append}
use graphon.Exec.{Exec, Result, ok, err, pure}
use graphon.Exec.Triple.{Total}
use graphon.Dict
use graphon.Dict.{Dict, get-All}
use graphon.Enums.{
  NodeState, unknown, taken, skipped, is_skipped, NodeExecutionType, ErrorStrategy, executable,
  root, branch, fail_branch,
}
use graphon.Graph.{Graph, Node, Edge, States, IsWellFormed, initial_states, get_incoming_edges}
use graphon.Graph.Build.{EdgeConfig, HandleField, edge_id, build_edges}
use graphon.Graph.Build.Edges.{build_edges-IsWellFormed}
use graphon.Pool.{SegmentFactory, VariablePool}
use graphon.StateManager.{StateManager}
use graphon.Execution.{GraphExecution, new_execution}
use graphon.Events.{NodeStatus, NodeRunResult, EventKind, Event}
use graphon.Runtime.{RuntimeState, UsageOps, ValueOps}
use graphon.Engine.{ResponseCoordinator, Collaborators, Engine}
use graphon.Traversal.Closure.{IsClosed}
use graphon.Traversal.Justified.{IsJustified}
use graphon.Traversal.Termination.{IsRanked}

abbrev pub sample_node : String → NodeExecutionType → Node String
sample_node node_id execution_type = record {
  id = node_id;
  node_type = "code";
  title = node_id;
  execution_type = execution_type;
  error_strategy = none;
  retry = true;
  max_retries = 2;
  default_value_dict = [];
}

-- start → check, which chooses between left and right; both lead to end.
abbrev pub sample_nodes : Dict (Node String)
sample_nodes =
    ("start", sample_node "start" root)
    ∷ ("check", sample_node "check" branch)
    ∷ ("left", sample_node "left" executable)
    ∷ ("right", sample_node "right" executable)
    ∷ ("end", sample_node "end" executable)
    ∷ []

abbrev edge_config : String → String → HandleField → EdgeConfig
edge_config source target handle = record {
  source = some source;
  target = some target;
  source_handle = handle;
}

abbrev pub sample_configs : List EdgeConfig
sample_configs =
    edge_config "start" "check" HandleField.absent
    ∷ edge_config "check" "left" (HandleField.text "true")
    ∷ edge_config "check" "right" (HandleField.text "false")
    ∷ edge_config "left" "end" HandleField.absent
    ∷ edge_config "right" "end" HandleField.absent
    ∷ []

unfoldable pub sample_graph : Graph String
unfolding build_edges
sample_graph =
    let b = build_edges sample_configs in
    record {
      nodes = sample_nodes;
      edges = b.edges;
      in_edges = b.in_edges;
      out_edges = b.out_edges;
      root_node = sample_node "start" root;
    }

pub sample_graph-IsWellFormed : IsWellFormed sample_graph
unfolding sample_graph
sample_graph-IsWellFormed =
    (build_edges-IsWellFormed sample_nodes (sample_node "start" root) sample_configs).0

abbrev pub sample_rank : String → ℕ
sample_rank n = if n == "start" then 0 else if n == "check" then 1 else if n == "end" then 3 else 2

pub sample_graph-IsRanked : IsRanked sample_graph sample_rank 3
unfolding sample_graph build_edges Dict.get Dict.put Dict.values edge_id
sample_graph-IsRanked = record {
  grows = λ e.
      get-All (λ (e : Edge). sample_rank e.tail < sample_rank e.head) sample_graph.edges e.id e
        (omega arith, (omega arith, (omega arith, (omega arith, (omega arith, tt)))));
  within = λ e.
      get-All (λ (e : Edge). sample_rank e.head ≤ 3) sample_graph.edges e.id e
        (omega arith, (omega arith, (omega arith, (omega arith, (omega arith, tt)))));
  target = λ e.
      get-All (λ (e : Edge). (n : Node String) × (Dict.get sample_nodes e.head ≡ some n))
        sample_graph.edges e.id e
        ((_, refl), ((_, refl), ((_, refl), ((_, refl), ((_, refl), tt)))));
}

abbrev pub new_manager : StateManager
new_manager = record { states = initial_states; ready_queue = []; executing_nodes = [] }

pub new_manager-IsClosed : {V : Type 0} (graph : Graph V) → IsClosed graph new_manager
new_manager-IsClosed graph n = go (get_incoming_edges graph n)
  where
    go : (es : List Edge) → all (λ e. false) es ≡ true → is_nil es ≡ false → unknown ≡ skipped
    go [] h k = cc
    go (e ∷ es) h k = cc

pub new_manager-IsJustified : {V : Type 0} (graph : Graph V) → IsJustified graph new_manager
new_manager-IsJustified graph n h = cc

abbrev pub sample_event : String → EventKind String → Event String ℕ
sample_event node_id kind = record {
  id = "run-1";
  node_id = node_id;
  node_type = "code";
  in_iteration_id = none;
  in_loop_id = none;
  node_run_result = record {
    status = NodeStatus.succeeded;
    inputs = [];
    process_data = [];
    outputs = ("text", "hello") ∷ [];
    error_strategy = none;
    llm_usage = 7;
    edge_source_handle = "true";
    error = "boom";
    error_type = "ValueError";
  };
  kind = kind;
}

-- A coordinator that reports one event for each taken edge and each completion.
abbrev pub sample_coordinator : ResponseCoordinator String ℕ ℕ
sample_coordinator = record {
  track_node_execution = λ node_id execution_id c. suc c;
  on_edge_taken = λ st pool edge_id c. (ok (sample_event edge_id EventKind.started ∷ []), suc c);
  intercept_event = λ st pool event c. (ok (event ∷ []), suc c);
}

pub sample_coordinator-Total :
    (st : States) (pool : VariablePool String) (x : String)
    → Total (sample_coordinator.on_edge_taken st pool x)
sample_coordinator-Total st pool x = record { at = λ c. (_, refl) }

abbrev pub sample_factory : SegmentFactory String
sample_factory = record {
  is_segment = λ v. false;
  build_segment = λ v. ok v;
  segment_to_variable = λ v selector. ok v;
}

abbrev pub sample_env : Collaborators String ℕ ℕ
sample_env = record {
  factory = sample_factory;
  values = record { text = λ s. s; is_truthy = λ v. not (v == ""); format_pair = str_append };
  usage = record { total_tokens = λ u. u; plus = λ a b. a + b; empty_usage = 0 };
  coordinator = sample_coordinator;
}

-- An execution that has begun.
abbrev pub sample_engine : Engine String ℕ ℕ
sample_engine = record {
  manager = new_manager;
  execution = record (new_execution "workflow-1") { started = true };
  runtime = record {
    variable_pool = [];
    total_tokens = 0;
    llm_usage = 0;
    outputs = [];
    node_run_steps = 0;
    paused_nodes = [];
    deferred_nodes = [];
  };
  coordinator = 0;
  events = [];
}
