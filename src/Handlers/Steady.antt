-- ===== src/Handlers/Steady.antt =====
-- What the event handlers keep of the execution.
use graphon.Prelude.{
  ℕ, String, Bool, true, false, Option, none, some, List, nat_eq, if◌then◌else◌, not, ◌&&◌,
}
use graphon.Exec.{Exec, Exception, runtime_error, for_each}
use graphon.Exec.Triple.{
  Keeps, Keeps-bind, Keeps-pure, Keeps-if, Keeps-require, Keeps-for_each, Keeps-raise,
}
use graphon.Dict
use graphon.Enums.{ErrorStrategy, fail_branch, default_value, is_branch, is_response}
use graphon.Graph.{Graph, Node}
use graphon.Runtime.{register_deferred_node}
use graphon.Execution.{
  PauseReason, NodeExecution, GraphExecution, get_or_create_node_execution, change_node_execution,
  mark_taken, mark_started, increment_retry, mark_failed, pause, fail, is_paused,
  record_node_failure,
}
use graphon.Events.{
  EventKind, forwarded, started, stream_chunk, variable_updated, node_succeeded, pause_requested,
  node_failed, node_exception, node_retry, unhandled, Event,
}
use graphon.Engine.{Collaborators, Engine, on_execution, on_runtime, collect}
use graphon.ErrorHandler.{handle_node_failure}
use graphon.Traversal.Aside.{success-Steady, completion-Steady}
use graphon.Handlers.{
  is_inner, is_variable_update, store_node_outputs, enqueue_ready, schedule_ready, handle_started,
  handle_stream_chunk, handle_variable_updated, handle_succeeded, handle_pause_requested,
  route_exception, handle_exception, handle_retry_event, handle_kind, after_failure, handle_failed,
  dispatch_kind, dispatch, note_completion, update_response_outputs,
}

-- A property of the execution that the changes to it which the handlers make do not destroy.
pub record IsSteady (P : GraphExecution → Type 0) : Type 0 where
  pub on_node :
      (n : String) (f : NodeExecution → NodeExecution) → Keeps P (change_node_execution n f)
  pub on_lookup : (n : String) → Keeps P (get_or_create_node_execution n)
  pub on_failure : Keeps P record_node_failure
  pub on_pause : (reason : PauseReason) → Keeps P (pause reason)
  pub on_fail : (e : Exception) → Keeps P (fail e)

module _ {V U C : Type 0} (env : Collaborators V U C) (graph : Graph V) (depth : ℕ)
    (P : GraphExecution → Type 0) (steady : IsSteady P) where
  abbrev pub Steady : Engine V U C → Type 0
  Steady s = P s.execution

  execution-Steady :
      {A : Type 0} (m : Exec GraphExecution A) → Keeps P m → Keeps Steady (on_execution m)
  execution-Steady m k = record { at = λ s h. k.at s.execution h }

  collect-Steady : (e : Event V U) → Keeps Steady (collect e)
  unfolding collect
  collect-Steady e = record { at = λ s h. h }

  collect_all-Steady : (es : List (Event V U)) → Keeps Steady (for_each collect es)
  collect_all-Steady es = Keeps-for_each _ es collect-Steady

  store-Steady :
      (n : String) (outputs : Dict.Dict V)
      → Keeps Steady (store_node_outputs env graph depth n outputs)
  unfolding store_node_outputs
  store-Steady n outputs = Keeps-for_each _ outputs λ o. record { at = λ s h. h }

  enqueue-Steady : (ns : List String) → Keeps Steady (enqueue_ready env graph depth ns)
  unfolding enqueue_ready
  enqueue-Steady ns = Keeps-for_each _ ns λ n. record { at = λ s h. h }

  deferred-Steady :
      (ns : List String)
      → Keeps Steady (for_each (λ n. on_runtime {C = C} (register_deferred_node n)) ns)
  deferred-Steady ns = Keeps-for_each _ ns λ n. record { at = λ s h. h }

  schedule-Steady : (ns : List String) → Keeps Steady (schedule_ready env graph depth ns)
  unfolding schedule_ready
  schedule-Steady ns = record { at = λ s h. go s h (is_paused s.execution) }
    where
      go :
          (s : Engine V U C)
          → Steady s
          → (b : Bool)
          → Steady
              (if b
                then for_each (λ n. on_runtime (register_deferred_node n)) ns s
                else enqueue_ready env graph depth ns s).1
      go s h true = (deferred-Steady ns).at s h
      go s h false = (enqueue-Steady ns).at s h

  note-Steady : (event : Event V U) → Keeps Steady (note_completion env graph depth event)
  note-Steady event =
      Keeps-bind _ _ (execution-Steady _ (steady.on_node event.node_id mark_taken)) λ _.
        Keeps-bind _ _ (record { at = λ s h. h })
          λ _. store-Steady event.node_id event.node_run_result.outputs

  response-Steady :
      (node : Node V) (event : Event V U)
      → Keeps Steady (update_response_outputs env graph depth node event)
  response-Steady node event =
      Keeps-if (is_response node.execution_type) _ _ (record { at = λ s h. h }) (Keeps-pure tt)

  succeeded-Steady : (event : Event V U) → Keeps Steady (handle_succeeded env graph depth event)
  unfolding handle_succeeded
  succeeded-Steady event = Keeps-bind _ _ (note-Steady event) λ _.
      Keeps-bind _ _ (record { at = λ s h. h })
        λ events. Keeps-bind _ _ (collect_all-Steady events) λ _.
          Keeps-bind _ _ (Keeps-require event.node_id (Dict.get graph.nodes event.node_id)) λ node.
            Keeps-bind _ _
              (Keeps-if (is_branch node.execution_type) _ _
                (completion-Steady graph env.coordinator depth P event.node_id
                  (some event.node_run_result.edge_source_handle))
                (success-Steady graph env.coordinator depth P event.node_id none))
              λ (nodes, more). Keeps-bind _ _ (collect_all-Steady more) λ _.
                Keeps-bind _ _ (schedule-Steady nodes) λ _.
                  Keeps-bind _ _ (record { at = λ s h. h })
                    λ _. Keeps-bind _ _ (response-Steady node event) λ _. collect-Steady event

  route-Steady :
      (event : Event V U) (strategy : Option ErrorStrategy)
      → Keeps Steady (route_exception env graph depth event strategy)
  unfolding route_exception
  route-Steady event (some default_value) =
      success-Steady graph env.coordinator depth P event.node_id none
  route-Steady event (some fail_branch) =
      completion-Steady graph env.coordinator depth P event.node_id
        (some event.node_run_result.edge_source_handle)
  route-Steady event none = Keeps-raise _

  exception-Steady : (event : Event V U) → Keeps Steady (handle_exception env graph depth event)
  unfolding handle_exception
  exception-Steady event = Keeps-bind _ _ (note-Steady event) λ _.
      Keeps-bind _ _ (Keeps-require event.node_id (Dict.get graph.nodes event.node_id)) λ node.
        Keeps-bind _ _ (route-Steady event node.error_strategy) λ (nodes, more).
          Keeps-bind _ _ (collect_all-Steady more) λ _. Keeps-bind _ _ (enqueue-Steady nodes) λ _.
            Keeps-bind _ _ (response-Steady node event)
              λ _. Keeps-bind _ _ (record { at = λ s h. h }) λ _. collect-Steady event

  started-Steady : (event : Event V U) → Keeps Steady (handle_started env graph depth event)
  unfolding handle_started
  started-Steady event = Keeps-bind _ _ (execution-Steady _ (steady.on_lookup event.node_id)) λ x.
      Keeps-bind _ _ (execution-Steady _ (steady.on_node event.node_id (mark_started event.id)))
        λ _.
          Keeps-bind _ _ (record { at = λ s h. h })
            λ _.
              Keeps-bind _ _ (record { at = λ s h. h })
                λ _. Keeps-if (nat_eq x.retry_count 0) _ _ (collect-Steady event) (Keeps-pure tt)

  chunk-Steady : (event : Event V U) → Keeps Steady (handle_stream_chunk env graph depth event)
  unfolding handle_stream_chunk
  chunk-Steady event = Keeps-bind _ _ (record { at = λ s h. h }) collect_all-Steady

  updated-Steady :
      (event : Event V U) (selector : List String) (variable : V)
      → Keeps Steady (handle_variable_updated env graph depth event selector variable)
  unfolding handle_variable_updated
  updated-Steady event selector variable =
      Keeps-bind _ _ (record { at = λ s h. h }) λ _. collect-Steady event

  pause-Steady :
      (event : Event V U) (reason : PauseReason)
      → Keeps Steady (handle_pause_requested env graph depth event reason)
  unfolding handle_pause_requested
  pause-Steady event reason = Keeps-bind _ _ (execution-Steady _ (steady.on_pause reason)) λ _.
      Keeps-bind _ _ (record { at = λ s h. h })
        λ _.
          Keeps-bind _ _
            (Keeps-if (Dict.has graph.nodes event.node_id) _ _ (record { at = λ s h. h })
              (Keeps-pure tt))
            λ _. Keeps-bind _ _ (record { at = λ s h. h }) λ _. collect-Steady event

  retry-Steady : (event : Event V U) → Keeps Steady (handle_retry_event env graph depth event)
  unfolding handle_retry_event
  retry-Steady event =
      Keeps-bind _ _ (execution-Steady _ (steady.on_node event.node_id increment_retry)) λ _.
        Keeps-bind _ _ (record { at = λ s h. h })
          λ _. Keeps-bind _ _ (collect-Steady event) λ _. record { at = λ s h. h }

  kind-Steady :
      (kind : EventKind V) (event : Event V U)
      → Keeps Steady (handle_kind env graph depth kind event)
  unfolding handle_kind
  kind-Steady started event = started-Steady event
  kind-Steady (stream_chunk _ _ _) event = chunk-Steady event
  kind-Steady (variable_updated selector variable) event = updated-Steady event selector variable
  kind-Steady node_succeeded event = succeeded-Steady event
  kind-Steady (pause_requested reason) event = pause-Steady event reason
  kind-Steady (node_exception _) event = exception-Steady event
  kind-Steady (node_retry _ _) event = retry-Steady event
  kind-Steady (forwarded _) event = collect-Steady event
  kind-Steady (unhandled _) event = collect-Steady event
  kind-Steady (node_failed _) event = collect-Steady event

  decision-Steady :
      (event : Event V U) (error : String)
      → Keeps P (handle_node_failure graph env.values env.usage event error)
  unfolding handle_node_failure
  decision-Steady event error =
      Keeps-bind _ _ (Keeps-require event.node_id (Dict.get graph.nodes event.node_id))
        λ node. Keeps-bind _ _ (steady.on_lookup event.node_id) λ x. Keeps-pure _

  after-Steady :
      (event : Event V U) (error : String) (next : Option (Event V U))
      → Keeps Steady (after_failure env graph depth event error next)
  unfolding after_failure
  after-Steady event error (some next) =
      Keeps-if (is_inner next) _ _ (collect-Steady next) (kind-Steady next.kind next)
  after-Steady event error none =
      Keeps-bind _ _ (execution-Steady _ (steady.on_fail (runtime_error error)))
        λ _. Keeps-bind _ _ (collect-Steady event) λ _. record { at = λ s h. h }

  failed-Steady :
      (event : Event V U) (error : String)
      → Keeps Steady (handle_failed env graph depth event error)
  unfolding handle_failed
  failed-Steady event error =
      Keeps-bind _ _ (execution-Steady _ (steady.on_lookup event.node_id)) λ _.
        Keeps-bind _ _ (execution-Steady _ (steady.on_node event.node_id (mark_failed error))) λ _.
          Keeps-bind _ _ (execution-Steady _ steady.on_failure) λ _.
            Keeps-bind _ _ (record { at = λ s h. h })
              λ _.
                Keeps-bind _ _ (execution-Steady _ (decision-Steady event error))
                  (after-Steady event error)

  dispatch_kind-Steady :
      (kind : EventKind V) (event : Event V U)
      → Keeps Steady (dispatch_kind env graph depth kind event)
  unfolding dispatch_kind
  dispatch_kind-Steady (node_failed error) event = failed-Steady event error
  dispatch_kind-Steady started event = kind-Steady started event
  dispatch_kind-Steady (stream_chunk a b c) event = kind-Steady (stream_chunk a b c) event
  dispatch_kind-Steady (variable_updated a b) event = kind-Steady (variable_updated a b) event
  dispatch_kind-Steady node_succeeded event = kind-Steady node_succeeded event
  dispatch_kind-Steady (pause_requested r) event = kind-Steady (pause_requested r) event
  dispatch_kind-Steady (node_exception e) event = kind-Steady (node_exception e) event
  dispatch_kind-Steady (node_retry e i) event = kind-Steady (node_retry e i) event
  dispatch_kind-Steady (forwarded t) event = kind-Steady (forwarded t) event
  dispatch_kind-Steady (unhandled t) event = kind-Steady (unhandled t) event

  -- What the changes to the execution keep, the dispatching of an event keeps, whether it returns
  -- or raises.
  pub dispatch-Steady : (event : Event V U) → Keeps Steady (dispatch env graph depth event)
  unfolding dispatch
  dispatch-Steady event =
      Keeps-if (not (is_variable_update env graph depth event.kind) && is_inner event) _ _
        (collect-Steady event) (dispatch_kind-Steady event.kind event)
