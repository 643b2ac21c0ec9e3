-- ===== src/Engine.antt =====
-- The state that the event handlers of the engine share (graph_engine/graph_engine.py builds the
-- objects and hands each to the others), and the collaborators that are parameters of the model.
pub mod Lift
use graphon.Prelude.{String, Bool, Option, List, [], ◌∷◌, ◌++◌}
use graphon.Exec.{Exec, Result, ok, err, modify}
use graphon.Graph.{States}
use graphon.StateManager.{StateManager}
use graphon.Pool.{VariablePool, SegmentFactory}
use graphon.Execution.{GraphExecution}
use graphon.Events.{Event}
use graphon.Runtime.{RuntimeState, UsageOps, ValueOps}

-- ResponseStreamCoordinatorProtocol over a state `C`. A coordinator reads the states of the nodes
-- and the variable pool, and returns the stream events to collect.
pub record ResponseCoordinator (V U C : Type 0) : Type 0 where
  pub track_node_execution : String → String → C → C
  pub on_edge_taken : States → VariablePool V → String → Exec C (List (Event V U))
  pub intercept_event : States → VariablePool V → Event V U → Exec C (List (Event V U))

pub record Collaborators (V U C : Type 0) : Type 0 where
  pub factory : SegmentFactory V
  pub values : ValueOps V
  pub usage : UsageOps U
  pub coordinator : ResponseCoordinator V U C

pub record Engine (V U C : Type 0) : Type 0 where
  pub manager : StateManager
  pub execution : GraphExecution
  pub runtime : RuntimeState V U
  pub coordinator : C
  -- The events that the event manager has collected, oldest first.
  pub events : List (Event V U)

module _ {V U C : Type 0} where
  abbrev pub on_manager : {A : Type 0} → Exec StateManager A → Exec (Engine V U C) A
  on_manager m s = let (r, manager) = m s.manager in (r, record s { manager = manager })

  abbrev pub on_execution : {A : Type 0} → Exec GraphExecution A → Exec (Engine V U C) A
  on_execution m s = let (r, execution) = m s.execution in (r, record s { execution = execution })

  abbrev pub on_pool : {A : Type 0} → Exec (VariablePool V) A → Exec (Engine V U C) A
  on_pool m s =
      let (r, pool) = m s.runtime.variable_pool in
      (r, record s { runtime = record s.runtime { variable_pool = pool } })

  abbrev pub on_coordinator : {A : Type 0} → (Engine V U C → Exec C A) → Exec (Engine V U C) A
  on_coordinator m s = let (r, c) = m s s.coordinator in (r, record s { coordinator = c })

  abbrev pub on_runtime : (RuntimeState V U → RuntimeState V U) → Exec (Engine V U C) Unit
  on_runtime f = modify (λ s. record s { runtime = f s.runtime })

  -- EventManager.collect, without the layers that are notified of the event.
  unfoldable pub collect : Event V U → Exec (Engine V U C) Unit
  collect event = modify (λ s. record s { events = s.events ++ event ∷ [] })
