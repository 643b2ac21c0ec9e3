-- ===== src/Commands.antt =====
-- graph_engine/command_processing, entities/commands.py and command_channels/in_memory_channel.py:
-- commands from outside, fetched from a channel and carried out. Exceptions are logged, not raised.
pub mod Abort
use graphon.Prelude.{
  String, ◌≡◌, Bool, Option, none, some, List, [], ◌∷◌, ◌++◌, ◌==◌, if◌then◌else◌,
}
use graphon.Exec.{
  Exception, Result, ok, err, value_error, Exec, pure, gets, modify, for_each, ◌>>=◌, ◌>>◌,
}
use graphon.Pool.{VariablePool, SegmentFactory, add}
use graphon.Execution.{PauseReason, scheduling_pause, GraphExecution, abort, pause}

-- `value`, with the selector that the variable carries.
pub record VariableUpdate (V : Type 0) : Type 0 where
  pub selector : List String
  pub value : V

pub data GraphEngineCommand (V : Type 0) : Type 0 where
  abort_command : (reason : Option String) → GraphEngineCommand V
  pause_command : (reason : String) → GraphEngineCommand V
  update_variables_command : (updates : List (VariableUpdate V)) → GraphEngineCommand V
  -- a class without a handler
  other_command : (command_type : String) → GraphEngineCommand V

-- What the processor reaches: its channel, the execution and the variable pool.
pub record Control (V : Type 0) : Type 0 where
  pub channel : List (GraphEngineCommand V)
  pub execution : GraphExecution
  pub variable_pool : VariablePool V

-- `except Exception`: what was done before stays done.
abbrev pub swallow : {S : Type 0} → Exec S (Unit {0}) → Exec S (Unit {0})
swallow m s = (ok tt, (m s).1)

-- `except ValueError`
abbrev pub unless_value_error : Result (Unit {0}) → Result (Unit {0})
unless_value_error (err (value_error _)) = ok tt
unless_value_error r = r

-- command.reason or "User requested abort"
abbrev pub abort_reason : Option String → String
abort_reason none = "User requested abort"
abort_reason (some reason) = if reason == "" then "User requested abort" else reason

module _ {V : Type 0} where
  -- InMemoryChannel
  unfoldable pub send_command : GraphEngineCommand V → Control V → Control V
  send_command command c = record c { channel = c.channel ++ command ∷ [] }

  unfoldable pub fetch_commands : Exec (Control V) (List (GraphEngineCommand V))
  fetch_commands c = (ok c.channel, record c { channel = [] })

  abbrev pub on_execution : Exec GraphExecution Unit → Exec (Control V) Unit
  on_execution m c = let (r, x) = m c.execution in (r, record c { execution = x })

  abbrev pub on_pool : Exec (VariablePool V) Unit → Exec (Control V) Unit
  on_pool m c = let (r, pool) = m c.variable_pool in (r, record c { variable_pool = pool })

  module _ (factory : SegmentFactory V) where
    -- The body of the loop of UpdateVariablesCommandHandler.
    unfoldable pub update_variable : VariableUpdate V → Exec (VariablePool V) Unit
    update_variable update pool =
        let (r, pool') = add factory update.selector update.value pool in
        (unless_value_error r, pool')

    -- The handlers that the engine registers, by the class of the command.
    unfoldable pub handle : GraphEngineCommand V → Exec (Control V) Unit
    unfolding update_variable
    handle (abort_command reason) = on_execution (abort (abort_reason reason))
    handle (pause_command reason) = on_execution (pause (scheduling_pause reason))
    handle (update_variables_command updates) = on_pool (for_each update_variable updates)
    handle (other_command _) = pure tt

    unfoldable pub handle_command : GraphEngineCommand V → Exec (Control V) Unit
    unfolding handle
    handle_command command = swallow (handle command)

    unfoldable pub process_commands : Exec (Control V) Unit
    unfolding fetch_commands handle_command
    process_commands = swallow (fetch_commands >>= for_each handle_command)
