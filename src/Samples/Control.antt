-- ===== src/Samples/Control.antt =====
-- The properties of commands, limits and the ready queue at concrete inputs, and runs that show
-- what a pause does not hold back.
use graphon.Prelude.{
  ℕ, sym, ap, ◌∙◌, inl, String, ◌≡◌, refl, true, false, ◌||◌, none, some, List, [], ◌∷◌, any, arith,
}
use graphon.Exec.{ok, err, runtime_error, for_each, ◌>>=◌}
use graphon.Dict
use graphon.Enums.{NodeExecutionType, ErrorStrategy}
use graphon.Graph.{Graph, get_outgoing_edges, get_incoming_edges, edges_of}
use graphon.StateManager.{
  mark_edge_taken, is_node_ready, enqueue_node, start_execution, finish_execution,
}
use graphon.Execution.{
  GraphExecution, new_execution, new_node_execution, mark_failed, has_error, is_running,
  PauseReason, change_node_execution, node_execution,
}
use graphon.Events.{EventKind}
use graphon.Engine.{Engine, collect}
use graphon.Pool.{add, to_variable, store, node_map, store_result}
use graphon.Runtime.{accumulate_node_usage, add_tokens}
use graphon.Traversal.Edges.{
  process_node_success, process_non_branch_node_edges, process_taken_edge, process_taken_edges,
  process_branch_node_edges,
}
use graphon.Handlers.{handle_exception, route_exception, enqueue_ready, store_node_outputs}
use graphon.ReadyQueue.{StateCodec, InMemoryReadyQueue, new_queue, dumps, loads, drain, put}
use graphon.ReadyQueue.RoundTrip.{loads-dumps, saved_state}
use graphon.Commands.{abort_command, pause_command, Control, process_commands}
use graphon.Commands.Abort.{is_abort, process_commands-aborted}
use graphon.Limits.{ExecutionLimitsLayer, on_graph_start, on_event}
use graphon.Limits.Once.{HasAbort, on_events, sends_once}
use graphon.Sorting.TextOrder.{text_lt}
use graphon.Execution.Snapshot.{
  GraphExecutionErrorState, GraphExecutionState, SnapshotOps, node_state_of, state_of,
  dump_execution, load_execution,
}
use graphon.Execution.Lifecycle.{
  Call, perform_all, IsConsistent, IsSound, calls-IsConsistent, stopped_stays,
}
use graphon.Execution.Restored.{named, load_execution-dump_execution}
use graphon.Prelude.Decimal.{decimal}
use graphon.Samples.{sample_node, sample_factory, sample_env, sample_engine, sample_event}

abbrev two_waiting : InMemoryReadyQueue
two_waiting = record { items = "left" ∷ "right" ∷ []; unfinished_tasks = 2 }

-- A conversion that is right for this queue.
abbrev sample_codec : StateCodec
sample_codec = record {
  model_dump_json = λ state. "saved";
  model_validate_json = λ text. ok (saved_state ("left" ∷ "right" ∷ []));
}

loads-dumps_example :
    ((dumps sample_codec two_waiting).1.items ≡ two_waiting.items)
    × ((saved : String) × ((dumps sample_codec two_waiting).0 ≡ ok saved)
        × ((loads sample_codec saved new_queue).0 ≡ ok tt)
        × ((loads sample_codec saved new_queue).1.items ≡ two_waiting.items))
loads-dumps_example = loads-dumps sample_codec two_waiting new_queue refl

-- Saving counts every waiting item once more among the unfinished tasks.
dumps_unfinished : (dumps sample_codec two_waiting).1.unfinished_tasks ≡ 4
unfolding dumps drain put for_each ◌>>=◌
dumps_unfinished = refl

abbrev one_command : Control String
one_command = record {
  channel = pause_command "wait" ∷ abort_command (some "enough") ∷ pause_command "again" ∷ [];
  execution = new_execution "workflow-1";
  variable_pool = [];
}

process_commands-aborted_example :
    let t = (process_commands sample_factory one_command).1 in
    ((process_commands sample_factory one_command).0 ≡ ok tt)
    × (t.channel ≡ [])
    × (t.execution.aborted ≡ (any is_abort one_command.channel || one_command.execution.aborted))
process_commands-aborted_example = process_commands-aborted sample_factory one_command

abbrev one_step : ExecutionLimitsLayer String
one_step = record {
  max_steps = 1;
  max_time = 60;
  start_time = none;
  step_count = 0;
  execution_started = false;
  execution_ended = false;
  abort_sent = false;
  command_channel = some [];
}

abbrev two_starts : List (EventKind String × ℕ)
two_starts = (EventKind.started, 11) ∷ (EventKind.node_succeeded, 12) ∷ (EventKind.started, 13) ∷ []

abbrev more_events : List (EventKind String × ℕ)
more_events = (EventKind.started, 80) ∷ (EventKind.node_succeeded, 90) ∷ []

sends_once_example : HasAbort decimal (
    on_events decimal more_events (
      on_event decimal EventKind.node_succeeded 14
        (on_events decimal two_starts (on_graph_start 10 one_step))))
sends_once_example = sends_once decimal one_step 10 14 two_starts more_events refl (omega arith)

-- "left" falls back to default values, and leads to "end".
abbrev fallback_graph : Graph String
fallback_graph =
    let left = record (sample_node "left" NodeExecutionType.executable) {
      error_strategy = some ErrorStrategy.default_value;
    } in
    record {
      nodes = ("left", left) ∷ ("end", sample_node "end" NodeExecutionType.executable) ∷ [];
      edges =
          (
            "edge_0",
            record { id = "edge_0"; tail = "left"; head = "end"; source_handle = "source" },
          )
          ∷ [];
      in_edges = ("end", "edge_0" ∷ []) ∷ [];
      out_edges = ("left", "edge_0" ∷ []) ∷ [];
      root_node = left;
    }

abbrev paused_engine : Engine String ℕ ℕ
paused_engine = record sample_engine {
  execution = record sample_engine.execution {
    paused = true;
    pause_reasons = PauseReason.scheduling_pause "wait" ∷ [];
  };
}

-- A paused execution puts a node into the queue nevertheless, when a failed node goes on.
exception_while_paused :
    let t =
      (handle_exception sample_env fallback_graph 3
        (sample_event "left" (EventKind.node_exception "boom"))
        paused_engine).1 in
    (t.execution.paused ≡ true)
    × (t.manager.ready_queue ≡ "end" ∷ [])
    × (t.runtime.deferred_nodes ≡ [])
unfolding handle_exception ◌>>=◌ change_node_execution store_node_outputs for_each add Dict.get
    route_exception process_node_success get_outgoing_edges edges_of Dict.get_or mark_edge_taken
    is_node_ready collect enqueue_ready get_incoming_edges enqueue_node start_execution
    finish_execution Dict.put store node_map store_result to_variable accumulate_node_usage
    add_tokens process_branch_node_edges process_non_branch_node_edges process_taken_edge
    process_taken_edges node_execution
exception_while_paused = (refl, refl, refl)

-- An execution that has failed, with two nodes.
abbrev failed_execution : GraphExecution
failed_execution = record (new_execution "workflow-1") {
  started = true;
  completed = true;
  error = some (runtime_error "boom");
  node_executions =
      ("start", new_node_execution "start")
      ∷ ("check", mark_failed "boom" (new_node_execution "check"))
      ∷ [];
  exceptions_count = 1;
}

-- A JSON conversion that is right for this execution.
abbrev sample_description : GraphExecutionErrorState
sample_description = record {
  error_module = "builtins";
  qualname = "RuntimeError";
  message = some "boom";
}

abbrev sample_snapshots : SnapshotOps
sample_snapshots = record {
  model_dump_json = λ state. "saved";
  model_validate_json = λ text. ok (record {
    type_name = "GraphExecution";
    version = "1.0";
    workflow_id = "workflow-1";
    started = true;
    completed = true;
    aborted = false;
    paused = false;
    pause_reasons = [];
    error = some sample_description;
    exceptions_count = 1;
    node_executions =
        node_state_of ("check", mark_failed "boom" (new_node_execution "check"))
        ∷ node_state_of ("start", new_node_execution "start")
        ∷ [];
  });
  describe = λ e. sample_description;
  instantiate = λ state. some (runtime_error "boom");
}

right_state :
    sample_snapshots.model_validate_json
      (sample_snapshots.model_dump_json (state_of sample_snapshots failed_execution))
    ≡ ok (state_of sample_snapshots failed_execution)
unfolding state_of text_lt
right_state = refl

load_execution-dump_execution_example :
    let t =
      (load_execution sample_snapshots
        (dump_execution sample_snapshots failed_execution)
        (new_execution "workflow-1")).1 in
    ((load_execution sample_snapshots
        (dump_execution sample_snapshots failed_execution)
        (new_execution "workflow-1")).0
      ≡ ok tt)
    × (t.started ≡ true)
    × (t.completed ≡ true)
    × (t.aborted ≡ false)
    × (t.paused ≡ false)
    × (t.pause_reasons ≡ [])
    × (t.exceptions_count ≡ 1)
    × (has_error t ≡ has_error failed_execution)
    × ((k : String)
        → Dict.get t.node_executions k ≡ named k (Dict.get failed_execution.node_executions k) none)
unfolding Dict.get
load_execution-dump_execution_example =
    load_execution-dump_execution sample_snapshots failed_execution (new_execution "workflow-1")
      refl (refl, (refl, tt)) right_state

failed-IsConsistent : IsConsistent failed_execution
unfolding has_error
failed-IsConsistent = record {
  completed_after = λ e. inl refl;
  aborted_error = λ e. cc;
  paused_reason = λ e. absurd (let clash : false ≡ true = e in cc);
}

-- Paused, resumed, and then replaced by what was saved.
abbrev sample_calls : List Call
sample_calls =
    Call.start
    ∷ Call.pause (PauseReason.scheduling_pause "wait")
    ∷ Call.run
    ∷ Call.loads "saved"
    ∷ []

saved-IsSound : IsSound sample_snapshots (Call.loads "saved")
saved-IsSound state is =
    (failed_execution, failed-IsConsistent, result_injective (sym is ∙ right_state))
  where
    result_injective : {s t : GraphExecutionState} → ok s ≡ ok t → s ≡ t
    result_injective {s} {t} e = ap (λ r. elim r [ ok x ↦ x | err _ ↦ s ]) e

calls-IsConsistent_example :
    IsConsistent (perform_all sample_snapshots sample_calls (new_execution "workflow-1"))
calls-IsConsistent_example =
    calls-IsConsistent sample_snapshots "workflow-1" sample_calls
      (tt, (tt, (tt, (saved-IsSound, tt))))

failed_runs_not : is_running failed_execution ≡ false
unfolding is_running
failed_runs_not = refl

stopped_stays_example :
    is_running (
      perform_all sample_snapshots
        (Call.run ∷ Call.start ∷ Call.abort "stop" ∷ [])
        failed_execution)
    ≡ false
stopped_stays_example =
    stopped_stays sample_snapshots failed_execution (Call.run ∷ Call.start ∷ Call.abort "stop" ∷ [])
      refl failed_runs_not refl refl
