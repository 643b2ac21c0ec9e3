-- ===== src/Events.antt =====
-- graph_events: the events that the engine handles. `V` is the type of values, `U` that of the
-- usage of a language model. Time stamps, titles and other fields that the engine only carries
-- along are left out.
use graphon.Prelude.{ℕ, String, Bool, Option, List}
use graphon.Dict.{Dict}
use graphon.Enums.{ErrorStrategy}
use graphon.Execution.{PauseReason}

pub data NodeStatus : Type 0 where
  pending running succeeded failed exception stopped paused retry : NodeStatus

pub record NodeRunResult (V U : Type 0) : Type 0 where
  pub status : NodeStatus
  pub inputs : Dict V
  pub process_data : Dict V
  pub outputs : Dict V
  -- metadata[ERROR_STRATEGY]
  pub error_strategy : Option ErrorStrategy
  pub llm_usage : U
  pub edge_source_handle : String
  pub error : String
  pub error_type : String

-- The class of an event, with the fields that it adds to those of `GraphNodeEventBase`.
pub data EventKind (V : Type 0) : Type 0 where
  -- iteration, loop, agent log and retriever resource events
  forwarded : String → EventKind V
  started : EventKind V
  stream_chunk : (selector : List String) (chunk : String) (is_final : Bool) → EventKind V
  variable_updated : (selector : List String) (variable : V) → EventKind V
  node_succeeded : EventKind V
  pause_requested : PauseReason → EventKind V
  node_failed : (error : String) → EventKind V
  node_exception : (error : String) → EventKind V
  node_retry : (error : String) (retry_index : ℕ) → EventKind V
  -- classes with no handler of their own
  unhandled : String → EventKind V

pub record Event (V U : Type 0) : Type 0 where
  pub id : String
  pub node_id : String
  pub node_type : String
  pub in_iteration_id : Option String
  pub in_loop_id : Option String
  pub node_run_result : NodeRunResult V U
  pub kind : EventKind V
