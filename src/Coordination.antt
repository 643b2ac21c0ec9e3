-- ===== src/Coordination.antt =====
-- graph_engine/orchestration/execution_coordinator.py: what the dispatcher asks of the execution,
-- the state manager, the commands and the workers. The pool of workers is a parameter.
pub mod Ending
use graphon.Prelude.{ℕ, String, Bool, true, false, ◌||◌, not, ltb, List, [], ◌∷◌, if◌then◌else◌}
use graphon.Exec.{Exception, assertion_error, Exec, pure, raise, modify, ◌>>◌, ◌>>=◌}
use graphon.Pool.{SegmentFactory}
use graphon.StateManager.{StateManager, is_execution_complete, clear_executing, get_executing_count}
use graphon.Execution.{GraphExecution, complete, fail, is_paused, has_error}
use graphon.Commands.{Control, on_execution, process_commands}

-- WorkerPool: the methods that the coordinator calls.
pub record WorkerOps (W : Type 0) : Type 0 where
  pub check_and_scale : W → W
  pub stop : W → W

pub record ExecutionCoordinator (V W : Type 0) : Type 0 where
  pub control : Control V
  pub state_manager : StateManager
  pub worker_pool : W

abbrev pub Method : Type 0 → Type 0 → Type 0
Method V W = Exec (ExecutionCoordinator V W) (Unit {0})

module _ {V W : Type 0} where
  abbrev pub on_control : Exec (Control V) (Unit {0}) → Method V W
  on_control m c = let (r, control) = m c.control in (r, record c { control = control })

  unfoldable pub execution_complete : ExecutionCoordinator V W → Bool
  execution_complete c = is_execution_complete c.state_manager

  unfoldable pub aborted : ExecutionCoordinator V W → Bool
  aborted c = c.control.execution.aborted || has_error c.control.execution

  unfoldable pub paused : ExecutionCoordinator V W → Bool
  paused c = is_paused c.control.execution

  unfoldable pub mark_complete : Method V W
  mark_complete c =
      if is_paused c.control.execution
      then pure tt c
      else if not c.control.execution.completed
      then on_control (on_execution complete) c
      else pure tt c

  unfoldable pub mark_failed : Exception → Method V W
  mark_failed error = on_control (on_execution (fail error))

  unfoldable pub has_executing_nodes : Exec (ExecutionCoordinator V W) Bool
  has_executing_nodes c =
      if not (is_paused c.control.execution)
      then raise
          (assertion_error "has_executing_nodes should only be called after execution is paused") c
      else pure (ltb 0 (get_executing_count c.state_manager)) c

  module _ (factory : SegmentFactory V) where
    -- ExecutionCoordinator.process_commands
    unfoldable pub process_pending_commands : Method V W
    process_pending_commands = on_control (process_commands factory)

  module _ (workers : WorkerOps W) where
    unfoldable pub check_scaling : Method V W
    check_scaling = modify (λ c. record c { worker_pool = workers.check_and_scale c.worker_pool })

    -- What a pause and an abort have in common: the workers stop, and no node executes.
    unfoldable pub stop_all : Method V W
    stop_all c =
        let (r, manager) = clear_executing c.state_manager in
        (r, record c { worker_pool = workers.stop c.worker_pool; state_manager = manager })

    unfoldable pub handle_pause_if_needed : Method V W
    unfolding stop_all
    handle_pause_if_needed c = if not (is_paused c.control.execution) then pure tt c else stop_all c

    unfoldable pub handle_abort_if_needed : Method V W
    unfolding stop_all
    handle_abort_if_needed c = if not c.control.execution.aborted then pure tt c else stop_all c
