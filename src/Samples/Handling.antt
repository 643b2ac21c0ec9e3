-- ===== src/Samples/Handling.antt =====
-- The properties of executions, of the event handlers, of graphs and of the variable pool at
-- concrete inputs.
use graphon.Prelude.{
  ◌↔◌, ℕ, All, ◌+◌, String, ◌≡◌, refl, true, false, none, some, [], ◌∷◌, ◌++◌, length, arith, ◌==◌,
  if◌then◌else◌, ◌&&◌,
}
use graphon.Exec.{ok, runtime_error}
use graphon.Dict
use graphon.Dict.{Dict}
use graphon.Enums.{NodeExecutionType, taken, root}
use graphon.Graph.{Edge, IsWellFormed}
use graphon.Graph.Build.{EdgeConfig, build_edges}
use graphon.Graph.Build.Edges.{usable_handle, IsPresent, build_edges-IsWellFormed}
use graphon.Graph.Build.Indexed.{IsListed}
use graphon.Pool.{to_variable, get_variable, remove, add}
use graphon.Pool.Laws.{pair, get_variable-add, get_variable-remove}
use graphon.StateManager.{is_execution_complete, is_executing, set_discard}
use graphon.Execution.{node_execution, PauseReason}
use graphon.Events.{Event, EventKind}
use graphon.Engine.{Engine}
use graphon.Handlers.{handle_failed, handle_succeeded}
use graphon.Handlers.Failure.{failure_retried, failure_aborts, fail_times, failure_after_retries}
use graphon.Handlers.Paused.{paused-success}
use graphon.Graph.Validation.{validate, validate_iff, IsValidGraph}
use graphon.Samples.{
  sample_node, sample_nodes, sample_configs, sample_graph, sample_event, sample_factory, sample_env,
  sample_engine,
}

-- The edge to `left`, which is not taken when `check` chooses "false".
-- "left" fails.
abbrev boom : Event String ℕ
boom = sample_event "left" (EventKind.node_failed "boom")

left_found :
    Dict.get sample_graph.nodes "left" ≡ some (sample_node "left" NodeExecutionType.executable)
unfolding sample_graph Dict.get
left_found = refl

no_retry_yet : (node_execution sample_engine.execution "left").retry_count ≡ 0
unfolding node_execution Dict.get_or Dict.get
no_retry_yet = refl

-- Two retries have been used.
abbrev after_retries : Engine String ℕ ℕ
after_retries = record sample_engine {
  execution = record sample_engine.execution {
    node_executions =
        (
          "left",
          record {
            node_id = "left";
            state = taken;
            retry_count = 2;
            execution_id = none;
            error = some "boom";
          },
        )
        ∷ [];
  };
}

two_retries : (node_execution after_retries.execution "left").retry_count ≡ 2
unfolding node_execution Dict.get_or Dict.get
two_retries = refl

failure_retried_example :
    let t = (handle_failed sample_env sample_graph 3 boom "boom" sample_engine).1 in
    ((handle_failed sample_env sample_graph 3 boom "boom" sample_engine).0 ≡ ok tt)
    × (t.manager.ready_queue ≡ sample_engine.manager.ready_queue ++ "left" ∷ [])
    × (is_executing t.manager "left" ≡ true)
    × (is_execution_complete t.manager ≡ false)
    × (t.execution.completed ≡ sample_engine.execution.completed)
    × (t.execution.exceptions_count ≡ sample_engine.execution.exceptions_count + 1)
    × ((node_execution t.execution "left").retry_count
        ≡ (node_execution sample_engine.execution "left").retry_count + 1)
failure_retried_example =
    failure_retried sample_env sample_graph 3 boom "boom"
      (sample_node "left" NodeExecutionType.executable) sample_engine left_found refl
      (let none_yet = no_retry_yet in omega arith)

failure_aborts_example :
    let t = (handle_failed sample_env sample_graph 3 boom "boom" after_retries).1 in
    ((handle_failed sample_env sample_graph 3 boom "boom" after_retries).0 ≡ ok tt)
    × (t.execution.completed ≡ true)
    × (t.execution.error ≡ some (runtime_error "boom"))
    × (t.manager.ready_queue ≡ after_retries.manager.ready_queue)
    × (t.manager.executing_nodes ≡ set_discard "left" after_retries.manager.executing_nodes)
    × (t.events ≡ after_retries.events ++ boom ∷ [])
failure_aborts_example =
    failure_aborts sample_env sample_graph 3 boom "boom"
      (sample_node "left" NodeExecutionType.executable) after_retries left_found
      (let used = two_retries in omega arith) refl

failure_after_retries_example :
    ((fail_times sample_env sample_graph 3 boom "boom" 2 sample_engine).execution.completed ≡ false)
    × (length (fail_times sample_env sample_graph 3 boom "boom" 2 sample_engine).manager.ready_queue
        ≡ length sample_engine.manager.ready_queue + 2)
    × ((fail_times sample_env sample_graph 3 boom "boom" 3 sample_engine).execution.completed
        ≡ true)
failure_after_retries_example =
    failure_after_retries sample_env sample_graph 3 boom "boom"
      (sample_node "left" NodeExecutionType.executable) 2 sample_engine left_found refl refl
      no_retry_yet refl (omega arith)

-- A pause was requested before "left" succeeds.
abbrev paused_engine : Engine String ℕ ℕ
paused_engine = record sample_engine {
  execution = record sample_engine.execution {
    paused = true;
    pause_reasons = PauseReason.scheduling_pause "wait" ∷ [];
  };
}

paused-success_example :
    let t =
      (handle_succeeded sample_env sample_graph 3
        (sample_event "left" EventKind.node_succeeded)
        paused_engine).1 in
    (t.manager.ready_queue ≡ paused_engine.manager.ready_queue) × (t.execution.paused ≡ true)
paused-success_example =
    paused-success sample_env sample_graph 3 (sample_event "left" EventKind.node_succeeded)
      (sample_node "left" NodeExecutionType.executable) paused_engine left_found refl refl

build_edges-IsWellFormed_example :
    let b = build_edges sample_configs in
    IsWellFormed (record {
      nodes = sample_nodes;
      edges = b.edges;
      in_edges = b.in_edges;
      out_edges = b.out_edges;
      root_node = sample_node "start" root;
    })
    × ((x : String) (e : Edge) → Dict.get b.edges x ≡ some e → IsListed b.in_edges b.out_edges x e)
    × All
        (λ (c : EdgeConfig). IsPresent b.edges c.source c.target (usable_handle c.source_handle))
        sample_configs
build_edges-IsWellFormed_example =
    build_edges-IsWellFormed sample_nodes (sample_node "start" root) sample_configs

validate_iff_example : (validate sample_graph ≡ []) ↔ IsValidGraph sample_graph
validate_iff_example = validate_iff sample_graph

get_variable-add_example :
    ((add sample_factory (pair "left" "text") "hello" []).0 ≡ ok tt)
    × ((m y : String)
        → get_variable (add sample_factory (pair "left" "text") "hello" []).1 (pair m y)
          ≡ (if "left" == m && "text" == y then some "hello" else get_variable [] (pair m y)))
unfolding to_variable
get_variable-add_example = get_variable-add sample_factory [] "left" "text" "hello" "hello" refl

get_variable-remove_example :
    get_variable
      (remove (("left", ("text", "hello") ∷ []) ∷ []) (pair "left" "text"))
      (pair "left" "text")
    ≡ (if "left" == "left" && "text" == "text"
        then none
        else get_variable {V = String} (("left", ("text", "hello") ∷ []) ∷ []) (pair "left" "text"))
get_variable-remove_example =
    get_variable-remove (("left", ("text", "hello") ∷ []) ∷ []) "left" "text" "left" "text"
