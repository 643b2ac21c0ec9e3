-- ===== src/Dispatcher/Kept.antt =====
-- graph_engine/orchestration/dispatcher.py: what the loop keeps until its end.
use graphon.Prelude.{
  ℕ, zero, suc, ◌≡◌, sym, subst, Bool, true, false, Option, none, some, List, [], ◌∷◌, ◌++◌, arith,
  if◌then◌else◌,
}
use graphon.Exec.{Exec, Result, ok, pure, ◌>>=◌}
use graphon.Exec.Triple.{Keeps, Keeps-bind, Keeps-bind_from, Keeps-pure, Keeps-if, Keeps-for_each}
use graphon.Graph.{Graph}
use graphon.Pool.{SegmentFactory}
use graphon.Execution.{
  GraphExecution, get_or_create_node_execution, change_node_execution, pause, fail, abort,
  record_node_failure,
}
use graphon.Events.{Event}
use graphon.Commands.{
  GraphEngineCommand, abort_command, pause_command, update_variables_command, other_command, handle,
  handle_command, fetch_commands, process_commands as process_control,
}
use graphon.Commands.Abort.{process_commands-aborted}
use graphon.Coordination.{
  WorkerOps, ExecutionCoordinator, has_executing_nodes, process_pending_commands, check_scaling,
  paused,
}
use graphon.Engine.{Collaborators}
use graphon.Handlers.Steady.{IsSteady, dispatch-Steady}
use graphon.Dispatcher.{
  Dispatcher, Arrivals, coordinator_of, put_coordinator, with_coordinator, get_event, next_event,
  event_done, one_done, is_command_trigger, process_trigger, handle_next, attempt,
  handle_and_process, is_over, round, main_loop, drain_waiting, drain_event_queue,
  drain_events_until_idle, drain_after, work, arrive,
}

started-IsSteady : IsSteady (λ x. x.started ≡ true)
unfolding change_node_execution get_or_create_node_execution record_node_failure pause fail ◌>>=◌
started-IsSteady = record {
  on_node = λ n f. record { at = λ x h. h };
  on_lookup = λ n. record { at = λ x h. h };
  on_failure = record { at = λ x h. h };
  on_pause = λ reason. record { at = λ x h. ground (arith, h) };
  on_fail = λ e. record { at = λ x h. h };
}

aborted-IsSteady : IsSteady (λ x. x.aborted ≡ true)
unfolding change_node_execution get_or_create_node_execution record_node_failure pause fail ◌>>=◌
aborted-IsSteady = record {
  on_node = λ n f. record { at = λ x h. h };
  on_lookup = λ n. record { at = λ x h. h };
  on_failure = record { at = λ x h. h };
  on_pause = λ reason. record { at = λ x h. ground (arith, h) };
  on_fail = λ e. record { at = λ x h. h };
}

-- Each of three ends.
three_ways :
    {A S : Type 0} (P : S → Type 0) (b c : Bool) (x y z : Result A × S)
    → P x.1
    → P y.1
    → P z.1
    → P (if b then x else if c then y else z).1
three_ways P true c x y z h k l = h
three_ways P false true x y z h k l = k
three_ways P false false x y z h k l = l

-- The question after executing nodes changes nothing.
executing-same : {V W : Type 0} (c : ExecutionCoordinator V W) → (has_executing_nodes c).1 ≡ c
unfolding has_executing_nodes
executing-same c = ground arith

-- A property of the execution that neither the handlers nor commands destroy.
pub record IsStable {V U C : Type 0} (env : Collaborators V U C) (P : GraphExecution → Type 0)
    : Type 0 where
  pub steady : IsSteady P
  pub commands : Keeps (λ c. P c.execution) (process_control env.factory)

module _ {V : Type 0} (factory : SegmentFactory V) where
  command-Started :
      (command : GraphEngineCommand V)
      → Keeps (λ c. c.execution.started ≡ true) (handle_command factory command)
  unfolding handle_command handle abort pause
  command-Started (abort_command reason) = record { at = λ c h. h }
  command-Started (pause_command reason) = record { at = λ c h. ground (arith, h) }
  command-Started (update_variables_command updates) = record { at = λ c h. h }
  command-Started (other_command t) = record { at = λ c h. h }

  commands-Started : Keeps (λ c. c.execution.started ≡ true) (process_control factory)
  unfolding process_control fetch_commands ◌>>=◌
  commands-Started = record {
    at = λ c h. (Keeps-for_each _ c.channel command-Started).at (record c { channel = [] }) h;
  }

pub started-IsStable :
    {V U C : Type 0} (env : Collaborators V U C) → IsStable env (λ x. x.started ≡ true)
started-IsStable env = record { steady = started-IsSteady; commands = commands-Started env.factory }

pub aborted-IsStable :
    {V U C : Type 0} (env : Collaborators V U C) → IsStable env (λ x. x.aborted ≡ true)
aborted-IsStable env = record {
  steady = aborted-IsSteady;
  commands = record {
    at = λ c h. let (_, _, e) = process_commands-aborted env.factory c in ground (arith, e, h);
  };
}

module _ {V U C W : Type 0} (env : Collaborators V U C) (graph : Graph V) (depth : ℕ)
    (workers : WorkerOps W) (emitter : Option Bool) (P : GraphExecution → Type 0)
    (stable : IsStable env P) where
  -- The property of the execution, and an event emitter that was told as much as this one.
  abbrev pub IsUnderWay : Dispatcher V U C W → Type 0
  IsUnderWay s = P s.engine.execution × (s.event_emitter ≡ emitter)

  process-IsUnderWay :
      (event : Option (Event V U))
      → Keeps IsUnderWay (process_trigger env graph depth workers event)
  unfolding process_trigger process_pending_commands
  process-IsUnderWay none = record {
    at = λ s h. (stable.commands.at (coordinator_of s).control h.0, h.1);
  }
  process-IsUnderWay (some event) =
      Keeps-if (is_command_trigger event.kind) _ _
        (record { at = λ s h. (stable.commands.at (coordinator_of s).control h.0, h.1) })
        (Keeps-pure tt)

  get-IsUnderWay : Keeps IsUnderWay get_event
  unfolding get_event
  get-IsUnderWay = record { at = λ s h. go s.event_queue s h }
    where
      go :
          (queue : List (Event V U)) (s : Dispatcher V U C W)
          → IsUnderWay s
          → IsUnderWay (next_event queue s).1
      go [] s h = h
      go (event ∷ rest) s h = h

  done-IsUnderWay : Keeps IsUnderWay event_done
  unfolding event_done
  done-IsUnderWay = record { at = λ s h. go s.unfinished_tasks s h }
    where
      go : (n : ℕ) (s : Dispatcher V U C W) → IsUnderWay s → IsUnderWay (one_done n s).1
      go zero s h = h
      go (suc n) s h = h

  next-IsUnderWay : Keeps IsUnderWay (handle_next env graph depth workers)
  unfolding handle_next
  next-IsUnderWay = Keeps-bind _ _ get-IsUnderWay λ event.
      Keeps-bind _ _
        (record {
          at =
              λ s h. ((dispatch-Steady env graph depth P stable.steady event).at s.engine h.0, h.1);
        })
        λ _. Keeps-bind _ _ done-IsUnderWay λ _. Keeps-pure event

  attempt-IsUnderWay :
      (m : Exec (Dispatcher V U C W) (Unit {0}))
      → Keeps IsUnderWay m
      → Keeps IsUnderWay (attempt env graph depth workers m)
  attempt-IsUnderWay m k = record { at = k.at }

  handle-IsUnderWay : Keeps IsUnderWay (handle_and_process env graph depth workers)
  unfolding handle_and_process
  handle-IsUnderWay = Keeps-bind _ _ next-IsUnderWay λ event. process-IsUnderWay (some event)

  round-IsUnderWay : (a : Arrivals V U) → Keeps IsUnderWay (round env graph depth workers a)
  unfolding check_scaling
  round-IsUnderWay a =
      Keeps-bind _ _ (record { at = λ s h. h })
        λ _. Keeps-bind _ _ (record { at = λ s h. h }) λ _. attempt-IsUnderWay _ handle-IsUnderWay

  main_loop-IsUnderWay :
      (before : List (Arrivals V U)) → Keeps IsUnderWay (main_loop env graph depth workers before)
  unfolding main_loop
  main_loop-IsUnderWay [] = record { at = λ s h. h }
  main_loop-IsUnderWay (a ∷ rest) = record {
    at = λ s h.
        three_ways IsUnderWay (is_over env graph depth workers s) (paused (coordinator_of s))
          (ok (false, a ∷ rest), s) (ok (true, a ∷ rest), s)
          ((round env graph depth workers a >>= λ _. main_loop env graph depth workers rest) s) h h
          ((Keeps-bind _ _ (round-IsUnderWay a) λ _. main_loop-IsUnderWay rest).at s h);
  }

  once-IsUnderWay :
      Keeps IsUnderWay
        (attempt env graph depth workers (handle_next env graph depth workers >>= λ _. pure tt))
  once-IsUnderWay = attempt-IsUnderWay _ (Keeps-bind _ _ next-IsUnderWay λ _. Keeps-pure tt)

  waiting-IsUnderWay :
      (queue : List (Event V U)) → Keeps IsUnderWay (drain_waiting env graph depth workers queue)
  unfolding drain_waiting
  waiting-IsUnderWay [] = Keeps-bind _ _ once-IsUnderWay λ _. Keeps-pure tt
  waiting-IsUnderWay (event ∷ rest) =
      Keeps-bind _ _ once-IsUnderWay
        λ more. Keeps-if more _ _ (waiting-IsUnderWay rest) (Keeps-pure tt)

  queue-IsUnderWay :
      (after : List (Arrivals V U))
      → Keeps IsUnderWay (drain_event_queue env graph depth workers after)
  unfolding drain_event_queue
  queue-IsUnderWay [] = record { at = λ s h. (waiting-IsUnderWay s.event_queue).at s h }
  queue-IsUnderWay (a ∷ rest) = record {
    at = λ s h.
        (Keeps-bind _ _ once-IsUnderWay
            λ more. Keeps-if more _ _ (queue-IsUnderWay rest) (Keeps-pure tt)).at
          (arrive a s) h;
  }

  executing-IsUnderWay : Keeps IsUnderWay (with_coordinator has_executing_nodes)
  unfolding has_executing_nodes
  executing-IsUnderWay = record {
    at = λ s h.
        subst (λ c. IsUnderWay (put_coordinator c s)) (sym (executing-same (coordinator_of s))) h;
  }

  idle-IsUnderWay :
      (before after : List (Arrivals V U))
      → Keeps IsUnderWay (drain_events_until_idle env graph depth workers before after)
  unfolding drain_events_until_idle
  idle-IsUnderWay [] after = queue-IsUnderWay after
  idle-IsUnderWay (a ∷ rest) after =
      Keeps-bind _ _
        (Keeps-bind _ _ (record { at = λ s h. h }) λ _. attempt-IsUnderWay _ handle-IsUnderWay)
        λ more. Keeps-if more _ _ (idle-IsUnderWay rest after) (
          Keeps-bind _ _ executing-IsUnderWay λ executing.
            Keeps-if executing _ _ (idle-IsUnderWay rest after) (queue-IsUnderWay (rest ++ after)))

  drain_after-IsUnderWay :
      (after : List (Arrivals V U)) (ended : Bool × List (Arrivals V U))
      → Keeps IsUnderWay (drain_after env graph depth workers after ended)
  drain_after-IsUnderWay after (true, rest) = idle-IsUnderWay rest after
  drain_after-IsUnderWay after (false, rest) = queue-IsUnderWay (rest ++ after)

  -- The work behind the first processing of commands.
  pub rest-IsUnderWay :
      (before after : List (Arrivals V U)) (s : Dispatcher V U C W)
      → IsUnderWay (process_trigger env graph depth workers none s).1
      → IsUnderWay (work env graph depth workers before after s).1
  unfolding work
  rest-IsUnderWay before after s h = Keeps-bind_from _ _ s h λ _.
      Keeps-bind _ _ (main_loop-IsUnderWay before)
        λ ended. Keeps-bind _ _ (process-IsUnderWay none) λ _. drain_after-IsUnderWay after ended

  pub work-IsUnderWay :
      (before after : List (Arrivals V U))
      → Keeps IsUnderWay (work env graph depth workers before after)
  work-IsUnderWay before after = record {
    at = λ s h. rest-IsUnderWay before after s ((process-IsUnderWay none).at s h);
  }
