-- ===== src/Limits.antt =====
-- graph_engine/layers/execution_limits.py. The clock is read as a whole number of its ticks, and
-- the text of an elapsed time is a parameter.
pub mod Once
use Prim.Native.String.{◌++◌ as str_append}
use graphon.Prelude.{
  ℕ, zero, suc, ◌+◌, ◌-◌, String, ◌≡◌, Bool, true, false, ◌&&◌, ◌||◌, not, Option, none, some, List,
  [], ◌∷◌, ◌++◌, ltb, if◌then◌else◌,
}
use graphon.Prelude.Decimal.{decimal}
use graphon.Commands.{GraphEngineCommand, abort_command}
use graphon.Events.{EventKind, started, node_succeeded, node_failed}

pub data LimitType : Type 0 where
  step_limit time_limit : LimitType

pub record ExecutionLimitsLayer (V : Type 0) : Type 0 where
  pub max_steps : ℕ
  pub max_time : ℕ
  pub start_time : Option ℕ
  pub step_count : ℕ
  pub execution_started : Bool
  pub execution_ended : Bool
  pub abort_sent : Bool
  -- The commands sent over the engine's channel, once the layer has one.
  pub command_channel : Option (List (GraphEngineCommand V))

-- time.time() - self.start_time, and 0 without a start
abbrev pub elapsed : Option ℕ → ℕ → ℕ
elapsed none now = 0
elapsed (some start) now = now - start

module _ {V : Type 0} where
  unfoldable pub on_graph_start : ℕ → ExecutionLimitsLayer V → ExecutionLimitsLayer V
  on_graph_start now l = record l {
    start_time = some now;
    step_count = 0;
    execution_started = true;
    execution_ended = false;
    abort_sent = false;
  }

  unfoldable pub on_graph_end : ExecutionLimitsLayer V → ExecutionLimitsLayer V
  on_graph_end l =
      if l.execution_started && not l.execution_ended
      then record l { execution_ended = true }
      else l

  unfoldable pub reached_step_limitation : ExecutionLimitsLayer V → Bool
  reached_step_limitation l = ltb l.max_steps l.step_count

  unfoldable pub reached_time_limitation : ℕ → ExecutionLimitsLayer V → Bool
  reached_time_limitation now l = ltb l.max_time (elapsed l.start_time now)

  abbrev sent_over :
      Option (List (GraphEngineCommand V))
      → GraphEngineCommand V
      → ExecutionLimitsLayer V
      → ExecutionLimitsLayer V
  sent_over none command l = l
  sent_over (some channel) command l = record l {
    command_channel = some (channel ++ command ∷ []);
    abort_sent = true;
  }

  module _ (format_time : ℕ → String) where
    unfoldable pub build_abort_reason : LimitType → ℕ → ExecutionLimitsLayer V → String
    unfolding decimal
    build_abort_reason step_limit now l =
        str_append "Maximum execution steps exceeded: "
          (str_append (decimal l.step_count) (str_append " > " (decimal l.max_steps)))
    build_abort_reason time_limit now l = str_append "Maximum execution time exceeded: " (
        str_append (format_time (elapsed l.start_time now))
          (str_append "s > " (str_append (decimal l.max_time) "s")))

    unfoldable pub send_abort_command :
        LimitType → ℕ → ExecutionLimitsLayer V → ExecutionLimitsLayer V
    unfolding build_abort_reason
    send_abort_command limit_type now l =
        if not l.execution_started || (l.execution_ended || l.abort_sent)
        then l
        else sent_over l.command_channel
            (abort_command (some (build_abort_reason limit_type now l))) l

    -- NodeRunSucceededEvent and NodeRunFailedEvent
    unfoldable pub check_limits : ℕ → ExecutionLimitsLayer V → ExecutionLimitsLayer V
    unfolding reached_step_limitation reached_time_limitation send_abort_command
    check_limits now l =
        let l' = if reached_step_limitation l then send_abort_command step_limit now l else l in
        if reached_time_limitation now l' then send_abort_command time_limit now l' else l'

    abbrev pub match_event : EventKind V → ℕ → ExecutionLimitsLayer V → ExecutionLimitsLayer V
    match_event started now l = record l { step_count = l.step_count + 1 }
    match_event node_succeeded now l = check_limits now l
    match_event (node_failed _) now l = check_limits now l
    match_event _ now l = l

    unfoldable pub on_event : EventKind V → ℕ → ExecutionLimitsLayer V → ExecutionLimitsLayer V
    unfolding check_limits
    on_event event now l =
        if not l.execution_started || (l.execution_ended || l.abort_sent)
        then l
        else match_event event now l
