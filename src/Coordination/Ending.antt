-- ===== src/Coordination/Ending.antt =====
-- orchestration/execution_coordinator.py: how an execution ends.
use graphon.Prelude.{◌≡◌, true, false, arith, if◌then◌else◌}
use graphon.Exec.{Exception, ok}
use graphon.Execution.{is_running, is_paused, complete, fail}
use graphon.Coordination.{ExecutionCoordinator, mark_complete, mark_failed}

module _ {V W : Type 0} where
  -- The end of the dispatcher's loop, as it is or after an error: for a started execution it
  -- returns, and the execution does not run afterwards. A paused execution is left as it was, and
  -- any other is completed. After an error, it is completed in every case.
  mark_complete-stops :
      (c : ExecutionCoordinator V W) (error : Exception)
      → c.control.execution.started ≡ true
      → let t = (mark_complete c).1 in
        let u = (mark_complete (mark_failed error c).1).1 in
        ((mark_complete c).0 ≡ ok tt)
        × (is_running t.control.execution ≡ false)
        × (t.control.execution.completed
            ≡ (if c.control.execution.paused then c.control.execution.completed else true))
        × ((mark_complete (mark_failed error c).1).0 ≡ ok tt)
        × (u.control.execution.completed ≡ true)
  unfolding mark_complete mark_failed complete fail is_running is_paused
  mark_complete-stops c error begun = ground (arith, begun)
