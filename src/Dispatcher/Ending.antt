-- ===== src/Dispatcher/Ending.antt =====
-- graph_engine/orchestration/dispatcher.py: how the loop ends, and what an abort does to it.
use graphon.Prelude.{
  ℕ, ◌≡◌, refl, ap, Bool, true, false, ◌||◌, Option, none, some, List, [], ◌∷◌, any, arith,
}
use graphon.Exec.{Exception, Result, ok, err, ◌>>=◌}
use graphon.Graph.{Graph}
use graphon.Execution.{is_running, is_paused, complete, fail}
use graphon.Commands.Abort.{is_abort, process_commands-aborted}
use graphon.Coordination.{WorkerOps, aborted, process_pending_commands, mark_complete, mark_failed}
use graphon.Engine.{Collaborators}
use graphon.Dispatcher.{
  Dispatcher, Arrivals, coordinator_of, emitter_end, rescue, finish, if_raised, process_trigger,
  main_loop, work, dispatcher_loop,
}
use graphon.Dispatcher.Kept.{
  started-IsStable, aborted-IsStable, IsUnderWay, rest-IsUnderWay, work-IsUnderWay,
}

module _ {V U C W : Type 0} where
  -- The error that an execution has after the work: what was raised, or what it has anyway.
  abbrev pub error_left : Result (Unit {0}) × Dispatcher V U C W → Option Exception
  error_left (ok _, s) = s.engine.execution.error
  error_left (err e, s) = some e

module _ {V U C W : Type 0} (env : Collaborators V U C) (graph : Graph V) (depth : ℕ)
    (workers : WorkerOps W) where
  -- `except` and `finally`, after a work that ended so.
  abbrev after_work :
      Result (Unit {0}) → Dispatcher V U C W → Result (Unit {0}) × Dispatcher V U C W
  after_work r s1 =
      let (failure, s2) = rescue env graph depth workers r s1 in
      let (ending, s3) = finish env graph depth workers s2 in (if_raised ending failure, s3)

  abbrev IsEnd :
      Option Bool
      → Result (Unit {0}) × Dispatcher V U C W
      → Result (Unit {0}) × Dispatcher V U C W
      → Type 0
  IsEnd emitter worked ended =
      (ended.0 ≡ ok tt)
      × (is_running ended.1.engine.execution ≡ false)
      × ((ended.1.engine.execution.completed || ended.1.engine.execution.paused) ≡ true)
      × (ended.1.engine.execution.error ≡ error_left worked)
      × (ended.1.event_emitter ≡ emitter_end emitter)

  after_work-IsEnd :
      (emitter : Option Bool) (r : Result (Unit {0})) (s : Dispatcher V U C W)
      → IsUnderWay env graph depth workers emitter (λ x. x.started ≡ true) (started-IsStable env) s
      → IsEnd emitter (r, s) (after_work r s)
  unfolding mark_complete mark_failed complete fail is_running is_paused ◌>>=◌
  after_work-IsEnd emitter (ok _) s (begun, told) = ground (arith, begun, ap emitter_end told)
  after_work-IsEnd emitter (err e) s (begun, told) = ground (arith, begun, ap emitter_end told)

  -- Whatever arrives, and whatever the handlers raise, the dispatcher's loop returns for a started
  -- execution. Afterwards the execution does not run: it is completed or paused. Its error is what
  -- the work raised, or else what it was. The event emitter, if there is one, was told the end.
  pub dispatcher_loop-ends :
      (before after : List (Arrivals V U)) (s : Dispatcher V U C W)
      → s.engine.execution.started ≡ true
      → let t = (dispatcher_loop env graph depth workers before after s).1 in
        ((dispatcher_loop env graph depth workers before after s).0 ≡ ok tt)
        × (is_running t.engine.execution ≡ false)
        × ((t.engine.execution.completed || t.engine.execution.paused) ≡ true)
        × (t.engine.execution.error ≡ error_left (work env graph depth workers before after s))
        × (t.event_emitter ≡ emitter_end s.event_emitter)
  unfolding dispatcher_loop
  dispatcher_loop-ends before after s begun =
      let (r, s1) = work env graph depth workers before after s in
      after_work-IsEnd s.event_emitter r s1 (
        (work-IsUnderWay env graph depth workers s.event_emitter (λ x. x.started ≡ true)
            (started-IsStable env) before after).at
          s (begun, refl))

  after_work-aborted :
      (r : Result (Unit {0})) (s : Dispatcher V U C W)
      → s.engine.execution.aborted ≡ true
      → (after_work r s).1.engine.execution.aborted ≡ true
  unfolding mark_complete mark_failed complete fail is_paused ◌>>=◌
  after_work-aborted (ok _) s h = ground (arith, h)
  after_work-aborted (err e) s h = ground (arith, h)

  process-aborted :
      (s : Dispatcher V U C W)
      → any is_abort s.channel ≡ true
      → (process_trigger env graph depth workers none s).1.engine.execution.aborted ≡ true
  unfolding process_trigger process_pending_commands
  process-aborted s found =
      let (_, _, e) = process_commands-aborted env.factory (coordinator_of s).control in
      ground (arith, e, found)

  main_loop-aborted :
      (before : List (Arrivals V U)) (s : Dispatcher V U C W)
      → s.engine.execution.aborted ≡ true
      → main_loop env graph depth workers before s ≡ (ok (false, before), s)
  unfolding main_loop aborted
  main_loop-aborted [] s h = refl
  main_loop-aborted (a ∷ rest) s h = rw h refl

  -- An abort among the commands that wait when the dispatcher begins: the main loop takes no event,
  -- whatever arrives, and it leaves everything as the processing of the commands has left it. And
  -- at the end of the dispatcher the execution is aborted.
  pub abort-leaves_loop :
      (before after : List (Arrivals V U)) (s : Dispatcher V U C W)
      → any is_abort s.channel ≡ true
      → let s1 = (process_trigger env graph depth workers none s).1 in
        (main_loop env graph depth workers before s1 ≡ (ok (false, before), s1))
        × ((dispatcher_loop env graph depth workers before after s).1.engine.execution.aborted
            ≡ true)
  unfolding dispatcher_loop
  abort-leaves_loop before after s found =
      let stopped = process-aborted s found in
      let s1 = (process_trigger env graph depth workers none s).1 in
      let (r, s2) = work env graph depth workers before after s in
      (
        main_loop-aborted before s1 stopped,
        after_work-aborted r s2
            (rest-IsUnderWay env graph depth workers s1.event_emitter (λ x. x.aborted ≡ true)
              (aborted-IsStable env) before after s (stopped, refl)).0,
      )
