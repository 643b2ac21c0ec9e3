-- ===== src/ErrorHandler.antt =====
-- graph_engine/error_handler.py: what becomes of a node's failure. The wait between two attempts
-- (time.sleep) is left out.
use graphon.Prelude.{ℕ, ◌+◌, String, ◌&&◌, Option, none, some, [], ltb, if◌then◌else◌}
use graphon.Exec.{Exec, pure, require, ◌>>=◌}
use graphon.Dict
use graphon.Dict.{Dict}
use graphon.Enums.{ErrorStrategy, fail_branch, default_value}
use graphon.Graph.{Graph, Node}
use graphon.Execution.{GraphExecution, get_or_create_node_execution}
use graphon.Events.{NodeStatus, NodeRunResult, EventKind, node_exception, node_retry, Event}
use graphon.Runtime.{UsageOps, ValueOps}

module _ {V U : Type 0} (graph : Graph V) (values : ValueOps V) (usage : UsageOps U) where
  -- The keys that both strategies put into the outputs.
  abbrev pub put_error : NodeRunResult V U → Dict V → Dict V
  put_error result outputs =
      Dict.put (Dict.put outputs "error_message" (values.text result.error)) "error_type"
        (values.text result.error_type)

  -- A new event for the failed node; what is not given has its default.
  abbrev pub successor : Event V U → NodeRunResult V U → EventKind V → Event V U
  successor event result kind = record {
    id = event.id;
    node_id = event.node_id;
    node_type = event.node_type;
    in_iteration_id = none;
    in_loop_id = none;
    node_run_result = result;
    kind = kind;
  }

  abbrev pub exception_result : Event V U → ErrorStrategy → String → Dict V → NodeRunResult V U
  exception_result event strategy handle outputs = record {
    status = NodeStatus.exception;
    inputs = event.node_run_result.inputs;
    process_data = event.node_run_result.process_data;
    outputs = outputs;
    error_strategy = some strategy;
    llm_usage = usage.empty_usage;
    edge_source_handle = handle;
    error = "";
    error_type = "";
  }

  unfoldable pub handle_retry : Event V U → String → Node V → ℕ → Option (Event V U)
  handle_retry event error node retry_count =
      if node.retry && ltb retry_count node.max_retries
      then some (successor event event.node_run_result (node_retry error (retry_count + 1)))
      else none

  unfoldable pub handle_fail_branch : Event V U → String → Event V U
  handle_fail_branch event error =
      successor event
        (exception_result event fail_branch "fail-branch" (put_error event.node_run_result []))
        (node_exception error)

  unfoldable pub handle_default_value : Event V U → String → Node V → Event V U
  handle_default_value event error node =
      successor event
        (exception_result event default_value "source"
          (put_error event.node_run_result node.default_value_dict))
        (node_exception error)

  -- `match strategy`; the abort strategy returns None.
  unfoldable pub apply_strategy :
      Event V U → String → Node V → Option ErrorStrategy → Option (Event V U)
  unfolding handle_fail_branch handle_default_value
  apply_strategy event error node none = none
  apply_strategy event error node (some fail_branch) = some (handle_fail_branch event error)
  apply_strategy event error node (some default_value) =
      some (handle_default_value event error node)

  abbrev or_strategy : Option (Event V U) → Option (Event V U) → Option (Event V U)
  or_strategy (some e) other = some e
  or_strategy none other = other

  -- The decision of `handle_node_failure`, for the node and the retries made so far.
  unfoldable pub decide : Event V U → String → Node V → ℕ → Option (Event V U)
  unfolding handle_retry apply_strategy
  decide event error node retry_count =
      if node.retry && ltb retry_count node.max_retries
      then or_strategy (handle_retry event error node retry_count)
          (apply_strategy event error node node.error_strategy)
      else apply_strategy event error node node.error_strategy

  unfoldable pub handle_node_failure : Event V U → String → Exec GraphExecution (Option (Event V U))
  unfolding decide
  handle_node_failure event error = do
    node ← require event.node_id (Dict.get graph.nodes event.node_id)
    node_execution ← get_or_create_node_execution event.node_id
    pure (decide event error node node_execution.retry_count)
