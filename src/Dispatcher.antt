-- ===== src/Dispatcher.antt =====
-- graph_engine/orchestration/dispatcher.py: the loop that takes events from the queue of the
-- workers, gives them to the handlers, and ends the execution. Its thread and the waiting times are
-- left out.
pub mod Kept
pub mod Ending
use graphon.Prelude.{
  ℕ, zero, suc, ◌-◌, ◌+◌, String, Bool, true, false, ◌||◌, not, Option, none, some, List, [], ◌∷◌,
  ◌++◌, length, if◌then◌else◌,
}
use graphon.Exec.{
  Exception, empty_error, value_error, Result, ok, err, Exec, pure, raise, gets, modify, ◌>>=◌,
  ◌>>◌,
}
use graphon.Graph.{Graph}
use graphon.Events.{EventKind, node_succeeded, node_failed, node_exception, Event}
use graphon.Commands.{GraphEngineCommand}
use graphon.Coordination.{
  WorkerOps, ExecutionCoordinator, execution_complete, aborted, paused, mark_complete, mark_failed,
  has_executing_nodes, process_pending_commands, check_scaling,
}
use graphon.Engine.{Collaborators, Engine}
use graphon.Handlers.{dispatch}

-- The objects that the dispatcher reaches.
pub record Dispatcher (V U C W : Type 0) : Type 0 where
  -- The event handler and what it shares with the execution coordinator.
  pub engine : Engine V U C
  pub channel : List (GraphEngineCommand V)
  pub worker_pool : W
  -- The event queue, with its count of unfinished tasks.
  pub event_queue : List (Event V U)
  pub unfinished_tasks : ℕ
  -- Whether the event emitter was told the end; none without an emitter.
  pub event_emitter : Option Bool

-- What the workers and the outside put into the two queues before the dispatcher waits for an event.
pub record Arrivals (V U : Type 0) : Type 0 where
  pub new_events : List (Event V U)
  pub new_commands : List (GraphEngineCommand V)

-- _COMMAND_TRIGGER_EVENTS
abbrev pub is_command_trigger : {V : Type 0} → EventKind V → Bool
is_command_trigger node_succeeded = true
is_command_trigger (node_failed _) = true
is_command_trigger (node_exception _) = true
is_command_trigger _ = false

-- `except queue.Empty`: whether the body ran to its end.
abbrev pub unless_empty : Result (Unit {0}) → Result Bool
unless_empty (ok _) = ok true
unless_empty (err empty_error) = ok false
unless_empty (err e) = err e

module _ {V U C W : Type 0} where
  -- What the execution coordinator sees.
  abbrev pub coordinator_of : Dispatcher V U C W → ExecutionCoordinator V W
  coordinator_of s = record {
    control = record {
      channel = s.channel;
      execution = s.engine.execution;
      variable_pool = s.engine.runtime.variable_pool;
    };
    state_manager = s.engine.manager;
    worker_pool = s.worker_pool;
  }

  abbrev pub put_coordinator : ExecutionCoordinator V W → Dispatcher V U C W → Dispatcher V U C W
  put_coordinator c s = record s {
    engine = record s.engine {
      manager = c.state_manager;
      execution = c.control.execution;
      runtime = record s.engine.runtime { variable_pool = c.control.variable_pool };
    };
    channel = c.control.channel;
    worker_pool = c.worker_pool;
  }

  abbrev pub with_coordinator :
      {A : Type 0} → Exec (ExecutionCoordinator V W) A → Exec (Dispatcher V U C W) A
  with_coordinator m s = let (r, c) = m (coordinator_of s) in (r, put_coordinator c s)

  abbrev pub on_engine : {A : Type 0} → Exec (Engine V U C) A → Exec (Dispatcher V U C W) A
  on_engine m s = let (r, engine) = m s.engine in (r, record s { engine = engine })

  abbrev pub arrive : Arrivals V U → Dispatcher V U C W → Dispatcher V U C W
  arrive a s = record s {
    event_queue = s.event_queue ++ a.new_events;
    unfinished_tasks = s.unfinished_tasks + length a.new_events;
    channel = s.channel ++ a.new_commands;
  }

  abbrev next_event : List (Event V U) → Exec (Dispatcher V U C W) (Event V U)
  next_event [] s = raise empty_error s
  next_event (event ∷ rest) s = (ok event, record s { event_queue = rest })

  -- self._event_queue.get, when it has waited long enough
  unfoldable pub get_event : Exec (Dispatcher V U C W) (Event V U)
  get_event s = next_event s.event_queue s

  abbrev one_done : ℕ → Exec (Dispatcher V U C W) (Unit {0})
  one_done zero s = raise (value_error "task_done() called too many times") s
  one_done (suc n) s = (ok tt, record s { unfinished_tasks = n })

  -- self._event_queue.task_done
  unfoldable pub event_done : Exec (Dispatcher V U C W) (Unit {0})
  event_done s = one_done s.unfinished_tasks s

-- EventManager.mark_complete, if there is an event manager.
abbrev pub emitter_end : Option Bool → Option Bool
emitter_end none = none
emitter_end (some _) = some true

-- An exception of `finally` takes the place of an earlier one.
abbrev pub if_raised : Result (Unit {0}) → Result (Unit {0}) → Result (Unit {0})
if_raised (err e) earlier = err e
if_raised (ok _) earlier = earlier

module _ {V U C W : Type 0} (env : Collaborators V U C) (graph : Graph V) (depth : ℕ)
    (workers : WorkerOps W) where
  abbrev pub Loop : Type 0 → Type 0
  Loop A = Exec (Dispatcher V U C W) A

  -- _process_commands(event)
  unfoldable pub process_trigger : Option (Event V U) → Loop (Unit {0})
  process_trigger none = with_coordinator (process_pending_commands env.factory)
  process_trigger (some event) =
      if is_command_trigger event.kind
      then with_coordinator (process_pending_commands env.factory)
      else pure tt

  -- get, dispatch and task_done
  unfoldable pub handle_next : Loop (Event V U)
  unfolding get_event event_done
  handle_next = do
    event ← get_event
    on_engine (dispatch env graph depth event)
    event_done
    pure event

  -- The body of a loop under `except queue.Empty`.
  abbrev pub attempt : Loop (Unit {0}) → Loop Bool
  attempt body s = let (r, s') = body s in (unless_empty r, s')

  unfoldable pub handle_and_process : Loop (Unit {0})
  unfolding handle_next process_trigger
  handle_and_process = handle_next >>= λ event. process_trigger (some event)

  -- aborted or execution_complete
  abbrev pub is_over : Dispatcher V U C W → Bool
  is_over s = aborted (coordinator_of s) || execution_complete (coordinator_of s)

  abbrev pub round : Arrivals V U → Loop Bool
  round a = do
    with_coordinator (check_scaling workers)
    modify (arrive a)
    attempt handle_and_process

  -- The loop: what arrives in each round until the stop event is set. It gives whether it ended by
  -- a pause, and what it has not come to.
  unfoldable pub main_loop : List (Arrivals V U) → Loop (Bool × List (Arrivals V U))
  unfolding handle_and_process
  main_loop [] s = (ok (false, []), s)
  main_loop (a ∷ rest) s =
      if is_over s
      then (ok (false, a ∷ rest), s)
      else if paused (coordinator_of s)
      then (ok (true, a ∷ rest), s)
      else (round a >>= λ _. main_loop rest) s

  -- The non-blocking drain once nothing arrives any more: at most one round for each event in the
  -- queue, and one that finds it empty.
  unfoldable pub drain_waiting : List (Event V U) → Loop (Unit {0})
  unfolding handle_next
  drain_waiting [] = attempt (handle_next >>= λ _. pure tt) >>= λ _. pure tt
  drain_waiting (_ ∷ rest) = attempt (handle_next >>= λ _. pure tt) >>= λ more.
      (if more then drain_waiting rest else pure tt)

  -- _drain_event_queue
  unfoldable pub drain_event_queue : List (Arrivals V U) → Loop (Unit {0})
  unfolding handle_next drain_waiting
  drain_event_queue [] s = drain_waiting s.event_queue s
  drain_event_queue (a ∷ rest) s =
      (attempt (handle_next >>= λ _. pure tt) >>= λ more.
      (if more then drain_event_queue rest else pure tt))
        (arrive a s)

  -- _drain_events_until_idle: what arrives before and after the stop event is set.
  unfoldable pub drain_events_until_idle :
      List (Arrivals V U) → List (Arrivals V U) → Loop (Unit {0})
  unfolding handle_and_process drain_event_queue
  drain_events_until_idle [] after = drain_event_queue after
  drain_events_until_idle (a ∷ rest) after =
      modify (arrive a) >> attempt handle_and_process >>= λ more.
      (if more
        then drain_events_until_idle rest after
        else with_coordinator has_executing_nodes >>= λ executing.
            (if executing
              then drain_events_until_idle rest after
              else drain_event_queue (rest ++ after)))

  abbrev pub drain_after : List (Arrivals V U) → Bool × List (Arrivals V U) → Loop (Unit {0})
  drain_after after (true, rest) = drain_events_until_idle rest after
  drain_after after (false, rest) = drain_event_queue (rest ++ after)

  -- What stands under `try`.
  unfoldable pub work : List (Arrivals V U) → List (Arrivals V U) → Loop (Unit {0})
  unfolding process_trigger main_loop drain_events_until_idle drain_event_queue
  work before after = do
    process_trigger none
    ended ← main_loop before
    process_trigger none
    drain_after after ended

  -- `except Exception as e`
  abbrev pub rescue : Result (Unit {0}) → Loop (Unit {0})
  rescue (ok _) = pure tt
  rescue (err e) = with_coordinator (mark_failed e)

  -- `finally`
  abbrev pub finish : Loop (Unit {0})
  finish =
      with_coordinator mark_complete
      >> modify (λ s. record s { event_emitter = emitter_end s.event_emitter })

  -- _dispatcher_loop
  unfoldable pub dispatcher_loop : List (Arrivals V U) → List (Arrivals V U) → Loop (Unit {0})
  unfolding work
  dispatcher_loop before after s =
      let (r, s1) = work before after s in
      let (failure, s2) = rescue r s1 in
      let (ending, s3) = finish s2 in (if_raised ending failure, s3)
