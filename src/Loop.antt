-- ===== src/Loop.antt =====
-- nodes/loop/loop_node.py and entities.py: the data of the loop node, and what it takes from its
-- surroundings. Times and durations are left out.
pub mod Iteration
pub mod Run
use graphon.Prelude.{ℕ, String, Bool, Option, List}
use graphon.Exec.{Exception, Result}
use graphon.Dict.{Dict}
use graphon.Conditions.{ℤ, PyOps}
use graphon.Conditions.Entities.{Logic, Condition, Pool}
use graphon.Events.{Event}
use graphon.Pool.{SegmentFactory, VariablePool}
use graphon.Pool.Nested.{SegmentOps}
use graphon.Runtime.{RuntimeState, UsageOps, ValueOps}

-- The value of a loop variable, by its value type. A selector that is not a list is none.
pub data LoopValue (V : Type 0) : Type 0 where
  constant : V → LoopValue V
  variable : Option (List String) → LoopValue V

pub record LoopVariableData (V : Type 0) : Type 0 where
  pub label : String
  pub var_type : String
  pub value : LoopValue V

pub record LoopNodeData (V F O : Type 0) : Type 0 where
  pub start_node_id : Option String
  pub loop_count : ℤ
  pub break_conditions : List (Condition F O)
  pub logical_operator : Logic
  -- loop_variables or []
  pub loop_variables : List (LoopVariableData V)

-- A node of the graph's configuration: its id, and the loop that its data name.
pub record NodeConfig : Type 0 where
  pub id : Option String
  pub loop_id : Option String

-- An event of a node of the loop, with the loop and the round that its metadata name.
pub record LoopNodeEvent (V U : Type 0) : Type 0 where
  pub event : Event V U
  pub loop_info : Option (String × ℕ)

-- What the engine of one round yields.
pub data ChildEvent (V U : Type 0) : Type 0 where
  node_event : LoopNodeEvent V U → ChildEvent V U
  run_aborted : (reason : Option String) → ChildEvent V U
  run_failed : (error : String) → ChildEvent V U
  other_event : ChildEvent V U

-- A run of the engine of one round, as far as its events are taken: the variable pool that it
-- shares, its usage and its outputs.
pub record ChildRun (V U : Type 0) : Type 0 where
  pub events : List (ChildEvent V U)
  -- How it ends behind the last event.
  pub ending : Result (Unit {0})
  pub variable_pool : VariablePool V
  pub llm_usage : U
  pub outputs : Dict V

pub data LoopCompletedReason : Type 0 where
  loop_break loop_completed : LoopCompletedReason

-- What the metadata of every end hold; the token count, price and currency are read from the usage.
pub record Metadata (V U : Type 0) : Type 0 where
  pub loop_usage : U
  pub single_loop_variable_map : Dict (Dict V)

-- What both events of a success report.
pub record Report (V U : Type 0) : Type 0 where
  pub inputs : Dict V
  pub outputs : Dict V
  pub metadata : Metadata V U

-- The events of the loop node itself, and those that it passes on.
pub data LoopEvent (V U : Type 0) : Type 0 where
  loop_started : (inputs : Dict V) (loop_length : ℤ) → LoopEvent V U
  inner : LoopNodeEvent V U → LoopEvent V U
  loop_next : (index : ℕ) (pre_loop_output : Dict V) → LoopEvent V U
  loop_succeeded : (steps : ℤ) (reason : LoopCompletedReason) (report : Report V U) → LoopEvent V U
  -- The source sends the text of the error.
  loop_failed :
      (inputs : Dict V) (steps : ℤ) (metadata : Metadata V U) (error : Exception) → LoopEvent V U
  -- StreamCompletedEvent, with the status SUCCEEDED or FAILED
  completed_succeeded : (report : Report V U) → LoopEvent V U
  completed_failed : (error : Exception) (metadata : Metadata V U) → LoopEvent V U

-- The runtime state, the data that the node changes, and what it has yielded.
pub record LoopState (V U : Type 0) : Type 0 where
  pub runtime : RuntimeState V U
  -- node_data.outputs
  pub outputs : Dict V
  pub loop_usage : U
  pub iteration_usage : Option U
  pub single_loop_variable_map : Dict (Dict V)
  pub events : List (LoopEvent V U)

-- Values, conditions, and the engines of the rounds.
pub record LoopOps (V U F O : Type 0) : Type 0 where
  pub factory : SegmentFactory V
  pub segments : SegmentOps V
  pub values : ValueOps V
  pub usage : UsageOps U
  pub py : PyOps F O
  -- The variable pool as the conditions read it.
  pub condition_pool : VariablePool V → Pool F O
  -- _get_segment_for_constant
  pub segment_for_constant : String → V → Result V
  -- segment.value, None and the numbers among the outputs
  pub value_of : V → V
  pub none_value : V
  pub number : ℤ → V
  -- The engine that is created for the root node in a round, run on the pool.
  pub run_child : ℕ → String → RuntimeState V U → Result (ChildRun V U)
