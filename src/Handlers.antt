-- ===== src/Handlers.antt =====
-- graph_engine/event_management/event_handlers.py: the handler of each class of event, over the
-- state that they share.
pub mod Failure
pub mod Paused
pub mod Steady
use graphon.Prelude.{
  ℕ, String, Bool, true, false, ◌&&◌, ◌||◌, not, Option, none, some, List, [], ◌∷◌, ◌==◌, nat_eq,
  if◌then◌else◌,
}
use graphon.Exec.{
  Exec, runtime_error, not_implemented_error, pure, raise, require, gets, modify, for_each, ◌>>=◌,
  ◌>>◌,
}
use graphon.Dict
use graphon.Dict.{Dict}
use graphon.Enums.{
  NodeState, unknown, NodeExecutionType, ErrorStrategy, fail_branch, default_value, is_branch,
  is_response,
}
use graphon.Graph.{Graph, Node}
use graphon.StateManager.{
  StateManager, set_node_state, enqueue_node, start_execution, finish_execution,
}
use graphon.Pool.{add}
use graphon.Execution.{
  PauseReason, get_or_create_node_execution, change_node_execution, mark_started, mark_taken,
  mark_failed, increment_retry, is_paused, pause, fail, record_node_failure,
}
use graphon.Events.{
  NodeRunResult, EventKind, forwarded, started, stream_chunk, variable_updated, node_succeeded,
  pause_requested, node_failed, node_exception, node_retry, unhandled, Event,
}
use graphon.Runtime.{
  accumulate_node_usage, increment_node_run_steps, register_paused_node, register_deferred_node,
  merge_response_outputs,
}
use graphon.Engine.{
  Collaborators, Engine, on_manager, on_execution, on_pool, on_coordinator, on_runtime, collect,
}
use graphon.Traversal.Edges.{Progress, process_node_success, handle_branch_completion}
use graphon.ErrorHandler.{handle_node_failure}

-- `if event.in_loop_id or event.in_iteration_id`
abbrev pub is_set : Option String → Bool
is_set none = false
is_set (some s) = not (s == "")

abbrev pub is_inner : {V U : Type 0} → Event V U → Bool
is_inner event = is_set event.in_loop_id || is_set event.in_iteration_id

module _ {V U C : Type 0} (env : Collaborators V U C) (graph : Graph V) (depth : ℕ) where
  abbrev pub Handler : Type 0
  Handler = Exec (Engine V U C) (Unit {0})

  -- _store_node_outputs
  unfoldable pub store_node_outputs : String → Dict V → Handler
  store_node_outputs node_id outputs =
      for_each (λ (name, value). on_pool (add env.factory (node_id ∷ name ∷ []) value)) outputs

  -- Ready nodes go to the queue, and count as executing from then on.
  unfoldable pub enqueue_ready : List String → Handler
  enqueue_ready = for_each (λ n. on_manager (enqueue_node graph n >> start_execution n))

  -- The same, except that a paused execution keeps them for later.
  unfoldable pub schedule_ready : List String → Handler
  unfolding enqueue_ready
  schedule_ready ready_nodes s =
      if is_paused s.execution
      then for_each (λ n. on_runtime (register_deferred_node n)) ready_nodes s
      else enqueue_ready ready_nodes s

  abbrev update_response_outputs : Node V → Event V U → Handler
  update_response_outputs node event =
      if is_response node.execution_type
      then on_runtime (merge_response_outputs env.values event.node_run_result.outputs)
      else pure tt

  abbrev intercept : Event V U → Exec (Engine V U C) (List (Event V U))
  intercept event =
      on_coordinator
        λ s. env.coordinator.intercept_event s.manager.states s.runtime.variable_pool event

  unfoldable pub handle_started : Event V U → Handler
  handle_started event = do
    node_execution ← on_execution (get_or_create_node_execution event.node_id)
    on_execution (change_node_execution event.node_id (mark_started event.id))
    on_runtime increment_node_run_steps
    on_coordinator (λ _. modify (env.coordinator.track_node_execution event.node_id event.id))
    if nat_eq node_execution.retry_count 0 then collect event else pure tt

  unfoldable pub handle_stream_chunk : Event V U → Handler
  handle_stream_chunk event = do
    streaming_events ← intercept event
    for_each collect streaming_events

  unfoldable pub handle_variable_updated : Event V U → List String → V → Handler
  handle_variable_updated event selector variable = do
    on_pool (add env.factory selector variable)
    collect event

  -- What both kinds of completion do first.
  abbrev note_completion : Event V U → Handler
  note_completion event = do
    on_execution (change_node_execution event.node_id mark_taken)
    on_runtime (accumulate_node_usage env.usage event.node_run_result.llm_usage)
    store_node_outputs event.node_id event.node_run_result.outputs

  abbrev route_success : Event V U → Node V → Exec (Engine V U C) (Progress graph env.coordinator)
  route_success event node =
      if is_branch node.execution_type
      then handle_branch_completion graph env.coordinator depth event.node_id
          (some event.node_run_result.edge_source_handle)
      else process_node_success graph env.coordinator event.node_id none

  unfoldable pub handle_succeeded : Event V U → Handler
  handle_succeeded event = do
    note_completion event
    streaming_events ← intercept event
    for_each collect streaming_events
    node ← require event.node_id (Dict.get graph.nodes event.node_id)
    (ready_nodes, edge_streaming_events) ← route_success event node
    for_each collect edge_streaming_events
    schedule_ready ready_nodes
    on_manager (finish_execution event.node_id)
    update_response_outputs node event
    collect event

  unfoldable pub handle_pause_requested : Event V U → PauseReason → Handler
  handle_pause_requested event reason = do
    on_execution (pause reason)
    on_manager (finish_execution event.node_id)
    if Dict.has graph.nodes event.node_id
        then on_manager (modify (set_node_state event.node_id unknown))
        else pure tt
    on_runtime (register_paused_node event.node_id)
    collect event

  -- The branches on the error strategy of the node.
  unfoldable pub route_exception :
      Event V U → Option ErrorStrategy → Exec (Engine V U C) (Progress graph env.coordinator)
  route_exception event (some default_value) =
      process_node_success graph env.coordinator event.node_id none
  route_exception event (some fail_branch) =
      handle_branch_completion graph env.coordinator depth event.node_id
        (some event.node_run_result.edge_source_handle)
  route_exception event none = raise (not_implemented_error "Unsupported error strategy")

  unfoldable pub handle_exception : Event V U → Handler
  handle_exception event = do
    note_completion event
    node ← require event.node_id (Dict.get graph.nodes event.node_id)
    (ready_nodes, edge_streaming_events) ← route_exception event node.error_strategy
    for_each collect edge_streaming_events
    enqueue_ready ready_nodes
    update_response_outputs node event
    on_manager (finish_execution event.node_id)
    collect event

  unfoldable pub handle_retry_event : Event V U → Handler
  handle_retry_event event = do
    on_execution (change_node_execution event.node_id increment_retry)
    on_manager (finish_execution event.node_id)
    collect event
    on_manager (enqueue_node graph event.node_id >> start_execution event.node_id)

  -- What `_dispatch` selects by the event's class, but for failures.
  unfoldable pub handle_kind : EventKind V → Event V U → Handler
  unfolding handle_started handle_stream_chunk handle_variable_updated handle_succeeded
      handle_pause_requested handle_exception handle_retry_event
  handle_kind started event = handle_started event
  handle_kind (stream_chunk _ _ _) event = handle_stream_chunk event
  handle_kind (variable_updated selector variable) event =
      handle_variable_updated event selector variable
  handle_kind node_succeeded event = handle_succeeded event
  handle_kind (pause_requested reason) event = handle_pause_requested event reason
  handle_kind (node_exception _) event = handle_exception event
  handle_kind (node_retry _ _) event = handle_retry_event event
  handle_kind (forwarded _) event = collect event
  handle_kind (unhandled _) event = collect event
  handle_kind (node_failed _) event = collect event

  -- The event that the error strategy gives is dispatched in its turn; it is a retry or an
  -- exception event, never a failure.
  unfoldable pub after_failure : Event V U → String → Option (Event V U) → Handler
  unfolding handle_kind
  after_failure event error (some next) =
      if is_inner next then collect next else handle_kind next.kind next
  after_failure event error none = do
    on_execution (fail (runtime_error error))
    collect event
    on_manager (finish_execution event.node_id)

  unfoldable pub handle_failed : Event V U → String → Handler
  unfolding after_failure
  handle_failed event error = do
    on_execution (get_or_create_node_execution event.node_id)
    on_execution (change_node_execution event.node_id (mark_failed error))
    on_execution record_node_failure
    on_runtime (accumulate_node_usage env.usage event.node_run_result.llm_usage)
    result ← on_execution (handle_node_failure graph env.values env.usage event error)
    after_failure event error result

  unfoldable pub dispatch_kind : EventKind V → Event V U → Handler
  unfolding handle_failed handle_kind
  dispatch_kind (node_failed error) event = handle_failed event error
  dispatch_kind kind event = handle_kind kind event

  abbrev pub is_variable_update : EventKind V → Bool
  is_variable_update (variable_updated _ _) = true
  is_variable_update _ = false

  -- Events of a loop or an iteration are only collected, unless they update a variable.
  unfoldable pub dispatch : Event V U → Handler
  unfolding dispatch_kind
  dispatch event =
      if not (is_variable_update event.kind) && is_inner event
      then collect event
      else dispatch_kind event.kind event
