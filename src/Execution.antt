-- ===== src/Execution.antt =====
-- graph_engine/domain: NodeExecution and GraphExecution, the record of how far an execution is.
-- A method that raises leaves the object as its statements have left it so far.
pub mod Lifecycle
pub mod Snapshot
pub mod Restored
use Prim.Native.String.{◌++◌ as str_append}
use graphon.Prelude.{
  ℕ, ◌+◌, String, Bool, true, false, ◌&&◌, not, Option, none, some, List, [], ◌∷◌, ◌++◌,
  if◌then◌else◌,
}
use graphon.Exec.{Exception, runtime_error, Exec, pure, raise, gets, modify, ◌>>=◌, ◌>>◌}
use graphon.Dict
use graphon.Dict.{Dict}
use graphon.Enums.{NodeState, unknown, taken, skipped}

pub record NodeExecution : Type 0 where
  pub node_id : String
  pub state : NodeState
  pub retry_count : ℕ
  pub execution_id : Option String
  pub error : Option String

abbrev pub new_node_execution : String → NodeExecution
new_node_execution node_id = record {
  node_id = node_id;
  state = unknown;
  retry_count = 0;
  execution_id = none;
  error = none;
}

abbrev pub mark_started : String → NodeExecution → NodeExecution
mark_started execution_id n = record n { state = taken; execution_id = some execution_id }

abbrev pub mark_taken : NodeExecution → NodeExecution
mark_taken n = record n { state = taken; error = none }

abbrev pub mark_failed : String → NodeExecution → NodeExecution
mark_failed error n = record n { error = some error }

abbrev pub mark_skipped : NodeExecution → NodeExecution
mark_skipped n = record n { state = skipped }

abbrev pub increment_retry : NodeExecution → NodeExecution
increment_retry n = record n { retry_count = n.retry_count + 1 }

-- entities/pause_reason.py, with the identifying fields of the two kinds of form.
pub data PauseReason : Type 0 where
  human_input_required : (form_id node_id node_title : String) → PauseReason
  backend_input_required : (form_id node_id node_title : String) → PauseReason
  scheduling_pause : (message : String) → PauseReason

pub record GraphExecution : Type 0 where
  pub workflow_id : String
  pub started : Bool
  pub completed : Bool
  pub aborted : Bool
  pub paused : Bool
  pub pause_reasons : List PauseReason
  pub error : Option Exception
  pub node_executions : Dict NodeExecution
  pub exceptions_count : ℕ

abbrev pub new_execution : String → GraphExecution
new_execution workflow_id = record {
  workflow_id = workflow_id;
  started = false;
  completed = false;
  aborted = false;
  paused = false;
  pause_reasons = [];
  error = none;
  node_executions = [];
  exceptions_count = 0;
}

unfoldable pub start : Exec GraphExecution Unit
start x =
    if x.started
    then raise (runtime_error "Graph execution already started") x
    else modify (λ y. record y { started = true }) x

unfoldable pub complete : Exec GraphExecution Unit
complete x =
    if not x.started
    then raise (runtime_error "Cannot complete execution that hasn't started") x
    else if x.completed
    then raise (runtime_error "Graph execution already completed") x
    else modify (λ y. record y { completed = true }) x

unfoldable pub abort : String → Exec GraphExecution Unit
abort reason =
    modify (λ x. record x {
      aborted = true;
      error = some (runtime_error (str_append "Aborted: " reason));
    })

unfoldable pub pause : PauseReason → Exec GraphExecution Unit
pause reason x =
    if x.completed
    then raise (runtime_error "Cannot pause execution that has completed") x
    else if x.aborted
    then raise (runtime_error "Cannot pause execution that has been aborted") x
    else modify (λ y. record y { paused = true; pause_reasons = y.pause_reasons ++ reason ∷ [] }) x

unfoldable pub fail : Exception → Exec GraphExecution Unit
fail error = modify (λ x. record x { error = some error; completed = true })

-- `get_or_create_node_execution`: what is returned, and the dictionary that holds it.
unfoldable pub node_execution : GraphExecution → String → NodeExecution
node_execution x node_id = Dict.get_or x.node_executions node_id (new_node_execution node_id)

unfoldable pub get_or_create_node_execution : String → Exec GraphExecution NodeExecution
unfolding node_execution
get_or_create_node_execution node_id = do
  modify (λ x. record x {
    node_executions = Dict.put x.node_executions node_id (node_execution x node_id);
  })
  gets (λ x. node_execution x node_id)

-- A mutation of the object that `get_or_create_node_execution` returns.
unfoldable pub change_node_execution :
    String → (NodeExecution → NodeExecution) → Exec GraphExecution Unit
unfolding node_execution
change_node_execution node_id f = modify (λ x. record x {
  node_executions = Dict.put x.node_executions node_id (f (node_execution x node_id));
})

unfoldable pub is_running : GraphExecution → Bool
is_running x = x.started && (not x.completed && (not x.aborted && not x.paused))

unfoldable pub is_paused : GraphExecution → Bool
is_paused x = x.paused

unfoldable pub has_error : GraphExecution → Bool
has_error x = elim x.error [ none ↦ false | some _ ↦ true ]

unfoldable pub record_node_failure : Exec GraphExecution Unit
record_node_failure = modify (λ x. record x { exceptions_count = x.exceptions_count + 1 })
