-- ===== src/Samples/Loops.antt =====
-- The dispatcher's loop from an execution that has begun, and the loop node.
use graphon.Prelude.{
  ℕ, ◌≤◌, String, ◌≡◌, refl, nat_eq, ◌++◌, if◌then◌else◌, true, false, ◌||◌, none, some, List, [],
  ◌∷◌,
}
use graphon.Exec.{ok, err, value_error, runtime_error, for_each, ◌>>=◌}
use graphon.Dict
use graphon.Pool.Nested
use graphon.Runtime.{merge_response_outputs}
use graphon.Conditions.{ℤ, pos}
use graphon.Conditions.Entities.{logical_and}
use graphon.Loop.{
  LoopNodeData, constant, node_event, LoopCompletedReason, loop_completed, LoopEvent,
  loop_succeeded, LoopState, LoopOps,
}
use graphon.Loop.Run.{run_rounds, rounds, count_after, evaluate_suppressed, accumulated}
use graphon.Loop.Run.Rounds.{next_indices, up_from}
use graphon.Loop.Run.Ends.{IsEnded, run_rounds-IsNumbered, run_rounds-IsEnded}
use graphon.Samples.Choices.{sample_py, sample_variables}
use graphon.Execution.{is_running}
use graphon.Events.{EventKind}
use graphon.Commands.{abort_command}
use graphon.Coordination.{WorkerOps}
use graphon.Dispatcher.{
  Dispatcher, Arrivals, emitter_end, process_trigger, main_loop, work, dispatcher_loop,
}
use graphon.Dispatcher.Ending.{error_left, dispatcher_loop-ends, abort-leaves_loop}
use graphon.Samples.{sample_graph, sample_factory, sample_env, sample_engine, sample_event}

abbrev idle_workers : WorkerOps Unit
idle_workers = record { check_and_scale = λ w. w; stop = λ w. w }

abbrev new_dispatcher : Dispatcher String ℕ ℕ Unit
new_dispatcher = record {
  engine = sample_engine;
  channel = [];
  worker_pool = tt;
  event_queue = sample_event "check" EventKind.started ∷ [];
  unfinished_tasks = 1;
  event_emitter = some false;
}

abbrev aborted_dispatcher : Dispatcher String ℕ ℕ Unit
aborted_dispatcher = record new_dispatcher { channel = abort_command none ∷ [] }

-- Nothing at first, then the success of a node.
abbrev sample_arrivals : List (Arrivals String ℕ)
sample_arrivals =
    record { new_events = []; new_commands = [] }
    ∷ record { new_events = sample_event "left" EventKind.node_succeeded ∷ []; new_commands = [] }
    ∷ []

dispatcher_loop-ends_example :
    let t =
      (dispatcher_loop sample_env sample_graph 5 idle_workers sample_arrivals []
        new_dispatcher).1 in
    ((dispatcher_loop sample_env sample_graph 5 idle_workers sample_arrivals [] new_dispatcher).0
      ≡ ok tt)
    × (is_running t.engine.execution ≡ false)
    × ((t.engine.execution.completed || t.engine.execution.paused) ≡ true)
    × (t.engine.execution.error
        ≡ error_left
            (work sample_env sample_graph 5 idle_workers sample_arrivals [] new_dispatcher))
    × (t.event_emitter ≡ emitter_end (some false))
dispatcher_loop-ends_example =
    dispatcher_loop-ends sample_env sample_graph 5 idle_workers sample_arrivals [] new_dispatcher
      refl

abort-leaves_loop_example :
    let s1 = (process_trigger sample_env sample_graph 5 idle_workers none aborted_dispatcher).1 in
    (main_loop sample_env sample_graph 5 idle_workers sample_arrivals s1
      ≡ (ok (false, sample_arrivals), s1))
    × ((dispatcher_loop sample_env sample_graph 5 idle_workers sample_arrivals []
          aborted_dispatcher).1.engine.execution.aborted
        ≡ true)
abort-leaves_loop_example =
    abort-leaves_loop sample_env sample_graph 5 idle_workers sample_arrivals [] aborted_dispatcher
      refl

abbrev loop_ops : LoopOps String ℕ ℕ String
loop_ops = record {
  factory = sample_factory;
  segments = record {
    is_file = λ v. false;
    file_attr = λ v key. err (value_error key);
    object_value = λ v. none;
    build_segment = λ v. ok v;
  };
  values = sample_env.values;
  usage = sample_env.usage;
  py = sample_py;
  condition_pool = λ pool. sample_variables;
  segment_for_constant = λ var_type v. ok v;
  value_of = λ v. v;
  none_value = "None";
  number = λ z. "number";
  run_child = λ i root runtime. ok (record {
    events =
        node_event
          (record { event = sample_event "inner" EventKind.node_succeeded; loop_info = none })
        ∷ [];
    ending = if nat_eq i 2 then err (runtime_error "boom") else ok tt;
    variable_pool = runtime.variable_pool;
    llm_usage = 5;
    outputs = [];
  });
}

abbrev loop_data : LoopNodeData String ℕ String
loop_data = record {
  start_node_id = some "loop-start";
  loop_count = pos 5;
  break_conditions = [];
  logical_operator = logical_and;
  loop_variables = record { label = "word"; var_type = "string"; value = constant "x" } ∷ [];
}

abbrev loop_state : LoopState String ℕ
loop_state = record {
  runtime = sample_engine.runtime;
  outputs = [];
  loop_usage = 0;
  iteration_usage = none;
  single_loop_variable_map = [];
  events = [];
}

-- The third round fails: two are announced, and the usage of all three counts.
two_announced :
    let t = (run_rounds loop_ops "loop" loop_data [] "loop-start" [] loop_state).1 in
    (next_indices t.events ≡ 1 ∷ 2 ∷ []) × (t.runtime.llm_usage ≡ 15)
unfolding run_rounds ◌>>=◌ for_each Nested.get Dict.get merge_response_outputs
two_announced = (refl, refl)

-- A round that ends at a loop end: the end of the whole is reported as completed.
abbrev break_ops : LoopOps String ℕ ℕ String
break_ops = record loop_ops {
  run_child = λ i root runtime. ok (record {
    events =
        node_event (record {
          event = record (sample_event "stop" EventKind.node_succeeded) { node_type = "loop-end" };
          loop_info = none;
        })
        ∷ [];
    ending = ok tt;
    variable_pool = runtime.variable_pool;
    llm_usage = 5;
    outputs = [];
  });
}

abbrev reasons : List (LoopEvent String ℕ) → List (ℤ × LoopCompletedReason)
reasons [] = []
reasons (loop_succeeded steps reason report ∷ es) = (steps, reason) ∷ reasons es
reasons (_ ∷ es) = reasons es

broken_by_node :
    reasons (run_rounds break_ops "loop" loop_data [] "loop-start" [] loop_state).1.events
    ≡ (pos 5, loop_completed) ∷ []
unfolding run_rounds ◌>>=◌ for_each Nested.get Dict.get merge_response_outputs
broken_by_node = refl

run_rounds-IsNumbered_example :
    let count =
      count_after loop_ops "loop" loop_data []
        (evaluate_suppressed loop_ops "loop" loop_data [] loop_state).0 in
    let t = (run_rounds loop_ops "loop" loop_data [] "loop-start" [] loop_state).1 in
    (k : ℕ) × (k ≤ rounds count) × (next_indices t.events ≡ [] ++ up_from 0 k)
run_rounds-IsNumbered_example =
    run_rounds-IsNumbered loop_ops "loop" loop_data [] "loop-start" [] loop_state

run_rounds-IsEnded_example :
    let t = (run_rounds loop_ops "loop" loop_data [] "loop-start" [] loop_state).1 in
    ((run_rounds loop_ops "loop" loop_data [] "loop-start" [] loop_state).0 ≡ ok tt)
    × IsEnded [] t
    × (t.runtime.llm_usage ≡ accumulated loop_ops.usage 0 t.loop_usage)
run_rounds-IsEnded_example =
    run_rounds-IsEnded loop_ops "loop" loop_data [] "loop-start" [] loop_state
