-- ===== src/Execution/Snapshot.antt =====
-- graph_engine/domain/graph_execution.py, dumps and loads. The JSON conversion, the description of
-- an exception and the call of an exception's class are parameters.
use graphon.Prelude.{ℕ, String, Bool, not, Option, none, some, List, [], ◌∷◌, ◌==◌, if◌then◌else◌}
use Prim.Native.String.{◌++◌ as str_append}
use graphon.Exec.{Exception, runtime_error, value_error, Result, ok, err, Exec, raise}
use graphon.Dict
use graphon.Dict.{Dict}
use graphon.Enums.{NodeState}
use graphon.Sorting.{sort}
use graphon.Sorting.TextOrder.{text_lt}
use graphon.Execution.{NodeExecution, PauseReason, GraphExecution}

pub record GraphExecutionErrorState : Type 0 where
  pub error_module : String
  pub qualname : String
  pub message : Option String

pub record NodeExecutionState : Type 0 where
  pub node_id : String
  pub state : NodeState
  pub retry_count : ℕ
  pub execution_id : Option String
  pub error : Option String

pub record GraphExecutionState : Type 0 where
  pub type_name : String
  pub version : String
  pub workflow_id : String
  pub started : Bool
  pub completed : Bool
  pub aborted : Bool
  pub paused : Bool
  pub pause_reasons : List PauseReason
  pub error : Option GraphExecutionErrorState
  pub exceptions_count : ℕ
  pub node_executions : List NodeExecutionState

pub record SnapshotOps : Type 0 where
  pub model_dump_json : GraphExecutionState → String
  pub model_validate_json : String → Result GraphExecutionState
  -- The module and the name of an exception's class, and str(error)
  pub describe : Exception → GraphExecutionErrorState
  -- The class of a module and a name, called with the message, if there is one. It is none where
  -- one of the caught exceptions is raised; that another is raised is left out.
  pub instantiate : GraphExecutionErrorState → Option Exception

abbrev message_or : Option String → String → String
message_or none qualname = qualname
message_or (some message) qualname = message

abbrev or_runtime_error : Option Exception → GraphExecutionErrorState → Exception
or_runtime_error none state = runtime_error (message_or state.message state.qualname)
or_runtime_error (some e) state = e

abbrev pub entry_before : String × NodeExecution → String × NodeExecution → Bool
entry_before (j, m) (k, n) = text_lt j k

abbrev pub node_state_of : String × NodeExecution → NodeExecutionState
node_state_of (node_id, n) = record {
  node_id = node_id;
  state = n.state;
  retry_count = n.retry_count;
  execution_id = n.execution_id;
  error = n.error;
}

abbrev pub node_states : List (String × NodeExecution) → List NodeExecutionState
node_states [] = []
node_states (entry ∷ entries) = node_state_of entry ∷ node_states entries

abbrev pub node_of : NodeExecutionState → NodeExecution
node_of item = record {
  node_id = item.node_id;
  state = item.state;
  retry_count = item.retry_count;
  execution_id = item.execution_id;
  error = item.error;
}

-- {item.node_id: NodeExecution(...) for item in items}, behind the entries so far
unfoldable pub node_dict : List NodeExecutionState → Dict NodeExecution → Dict NodeExecution
node_dict [] entries = entries
node_dict (item ∷ items) entries = node_dict items (Dict.put entries item.node_id (node_of item))

module _ (ops : SnapshotOps) where
  unfoldable pub serialize_error : Option Exception → Option GraphExecutionErrorState
  serialize_error none = none
  serialize_error (some e) = some (ops.describe e)

  unfoldable pub deserialize_error : Option GraphExecutionErrorState → Option Exception
  deserialize_error none = none
  deserialize_error (some state) = some (or_runtime_error (ops.instantiate state) state)

  -- The state that dumps writes.
  unfoldable pub state_of : GraphExecution → GraphExecutionState
  unfolding serialize_error sort
  state_of x = record {
    type_name = "GraphExecution";
    version = "1.0";
    workflow_id = x.workflow_id;
    started = x.started;
    completed = x.completed;
    aborted = x.aborted;
    paused = x.paused;
    pause_reasons = x.pause_reasons;
    error = serialize_error x.error;
    exceptions_count = x.exceptions_count;
    node_executions = node_states (sort entry_before x.node_executions);
  }

  unfoldable pub dump_execution : GraphExecution → String
  unfolding state_of
  dump_execution x = ops.model_dump_json (state_of x)

  abbrev pub restored : GraphExecutionState → GraphExecution → GraphExecution
  restored state x = record x {
    started = state.started;
    completed = state.completed;
    aborted = state.aborted;
    paused = state.paused;
    pause_reasons = state.pause_reasons;
    error = deserialize_error state.error;
    exceptions_count = state.exceptions_count;
    node_executions = node_dict state.node_executions [];
  }

  abbrev pub load_state : Result GraphExecutionState → Exec GraphExecution (Unit {0})
  load_state (err e) x = (err e, x)
  load_state (ok state) x =
      if not (state.type_name == "GraphExecution")
      then raise (value_error (str_append "Invalid serialized data type: " state.type_name)) x
      else if not (state.version == "1.0")
      then raise (value_error (str_append "Unsupported serialized version: " state.version)) x
      else if not (x.workflow_id == state.workflow_id)
      then raise (value_error "Serialized workflow_id does not match aggregate identity") x
      else (ok tt, restored state x)

  unfoldable pub load_execution : String → Exec GraphExecution (Unit {0})
  unfolding deserialize_error node_dict
  load_execution data_text = load_state (ops.model_validate_json data_text)
