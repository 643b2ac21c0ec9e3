-- ===== src/Commands/Abort.antt =====
-- What becomes of an abort among the commands.
use graphon.Prelude.{◌≡◌, refl, ◌∙◌, Bool, true, false, ◌||◌, List, [], ◌∷◌, any, arith}
use graphon.Exec.{ok, for_each, ◌>>=◌}
use graphon.Pool.{SegmentFactory}
use graphon.Execution.{abort, pause}
use graphon.Commands.{
  GraphEngineCommand, abort_command, pause_command, update_variables_command, other_command,
  Control, handle_command, process_commands, fetch_commands, handle,
}

abbrev pub is_abort : {V : Type 0} → GraphEngineCommand V → Bool
is_abort (abort_command _) = true
is_abort _ = false

module _ {V : Type 0} (factory : SegmentFactory V) where
  -- After one command, the execution is aborted if it was, or if the command is an abort.
  handle_command-aborted :
      (command : GraphEngineCommand V) (c : Control V)
      → (handle_command factory command c).1.execution.aborted
        ≡ (is_abort command || c.execution.aborted)
  unfolding handle_command handle abort pause
  handle_command-aborted (abort_command reason) c = refl
  handle_command-aborted (pause_command reason) c = ground arith
  handle_command-aborted (update_variables_command updates) c = refl
  handle_command-aborted (other_command t) c = refl

  handle_command-channel :
      (command : GraphEngineCommand V) (c : Control V)
      → (handle_command factory command c).1.channel ≡ c.channel
  unfolding handle_command handle
  handle_command-channel (abort_command reason) c = refl
  handle_command-channel (pause_command reason) c = refl
  handle_command-channel (update_variables_command updates) c = refl
  handle_command-channel (other_command t) c = refl

  each-aborted :
      (commands : List (GraphEngineCommand V)) (c : Control V)
      → let t = (for_each (handle_command factory) commands c).1 in
        (t.execution.aborted ≡ (any is_abort commands || c.execution.aborted))
        × (t.channel ≡ c.channel)
  unfolding handle_command for_each ◌>>=◌
  each-aborted [] c = (refl, refl)
  each-aborted (command ∷ rest) c =
      let (a, k) = each-aborted rest (handle_command factory command c).1 in
      (ground (arith, a, handle_command-aborted command c), k ∙ handle_command-channel command c)

  -- The processing of commands returns, empties the channel, and leaves the execution aborted
  -- exactly if it was aborted before or the channel held an abort, whatever the other commands are.
  pub process_commands-aborted :
      (c : Control V)
      → let t = (process_commands factory c).1 in
        ((process_commands factory c).0 ≡ ok tt)
        × (t.channel ≡ [])
        × (t.execution.aborted ≡ (any is_abort c.channel || c.execution.aborted))
  unfolding process_commands fetch_commands ◌>>=◌
  process_commands-aborted c =
      let (a, k) = each-aborted c.channel (record c { channel = [] }) in (refl, k, a)
