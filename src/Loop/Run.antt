-- ===== src/Loop/Run.antt =====
-- nodes/loop/loop_node.py, _run: the rounds until a break, and the two ends.
pub mod Rounds
pub mod Ends
use Prim.Native.String.{◌++◌ as str_append}
use graphon.Prelude.{
  ℕ, zero, suc, ◌+◌, String, Bool, true, false, not, ◌||◌, Option, none, some, List, [], ◌∷◌, ◌++◌,
  is_nil, nat_eq, ◌==◌, if◌then◌else◌,
}
use graphon.Exec.{
  Exception, value_error, list_operator_error, Result, ok, err, Exec, pure, raise, gets, modify,
  from_result, ◌>>=◌, ◌>>◌,
}
use graphon.Dict
use graphon.Dict.{Dict}
use graphon.Conditions.{ℤ, pos, negsuc}
use graphon.Conditions.Evaluators.{result_map}
use graphon.Conditions.Processor.{process_conditions}
use graphon.Runtime.{UsageOps, RuntimeState}
use graphon.Loop.{
  LoopNodeData, NodeConfig, LoopCompletedReason, loop_break, loop_completed, Metadata, Report,
  LoopEvent, loop_started, loop_next, loop_succeeded, loop_failed, completed_succeeded,
  completed_failed, LoopState, LoopOps,
}
use graphon.Loop.Iteration.{pool_of, emit, initialize_loop_variables, execute_loop_iteration}

module _ {U : Type 0} (usage : UsageOps U) where
  -- LLMUsageTrackingMixin._merge_usage
  abbrev pub merge_usage : U → Option U → U
  merge_usage current none = current
  merge_usage current (some new_usage) =
      if nat_eq (usage.total_tokens new_usage) 0
      then current
      else if nat_eq (usage.total_tokens current) 0
      then new_usage
      else usage.plus current new_usage

  -- LLMUsageTrackingMixin._accumulate_usage, on the usage of the runtime state
  abbrev pub accumulated : U → U → U
  accumulated current new_usage =
      if nat_eq (usage.total_tokens new_usage) 0
      then current
      else if nat_eq (usage.total_tokens current) 0
      then new_usage
      else usage.plus current new_usage

abbrev pub metadata_of : {V U : Type 0} → LoopState V U → Metadata V U
metadata_of s = record {
  loop_usage = s.loop_usage;
  single_loop_variable_map = s.single_loop_variable_map;
}

abbrev pub report_of : {V U : Type 0} → Dict V → LoopState V U → Report V U
report_of inputs s = record { inputs = inputs; outputs = s.outputs; metadata = metadata_of s }

abbrev pub reason_of : Bool → LoopCompletedReason
reason_of true = loop_break
reason_of false = loop_completed

-- range(count)
abbrev pub rounds : ℤ → ℕ
rounds (pos n) = n
rounds (negsuc n) = 0

-- contextlib.suppress(ValueError), and False behind it
abbrev pub suppressed : Result Bool → Result Bool
suppressed (err (value_error _)) = ok false
suppressed (err (list_operator_error _)) = ok false
suppressed r = r

module _ {V U F O : Type 0} (ops : LoopOps V U F O) (node_id : String)
    (node_data : LoopNodeData V F O) (config : List NodeConfig) where
  abbrev break_reached : LoopState V U → Result Bool
  break_reached s =
      if is_nil node_data.break_conditions
      then ok false
      else result_map (λ outcome. outcome.final_result)
          (process_conditions ops.py (ops.condition_pool (pool_of s)) node_data.logical_operator
            node_data.break_conditions)

  -- _evaluate_break_conditions, without suppress_errors
  unfoldable pub evaluate_break_conditions : Exec (LoopState V U) Bool
  evaluate_break_conditions s = (break_reached s, s)

  -- The same with suppress_errors=True
  unfoldable pub evaluate_suppressed : Exec (LoopState V U) Bool
  unfolding evaluate_break_conditions
  evaluate_suppressed s = (suppressed (evaluate_break_conditions s).0, s)

  -- An iteration with its own usage, and the usage that `finally` adds to that of the loop.
  unfoldable pub run_iteration : ℕ → String → Exec (LoopState V U) Bool
  unfolding execute_loop_iteration
  run_iteration i root_node_id s =
      let (r, s') =
        execute_loop_iteration ops node_id node_data config i root_node_id
          (record s { iteration_usage = none }) in
      (r, record s' { loop_usage = merge_usage ops.usage s'.loop_usage s'.iteration_usage })

  -- The rounds that are left, from an index on; it gives reach_break_condition.
  unfoldable pub iterate : ℕ → ℕ → String → Exec (LoopState V U) Bool
  unfolding run_iteration evaluate_break_conditions
  iterate zero i root_node_id = pure false
  iterate (suc left) i root_node_id = do
    reached_node ← run_iteration i root_node_id
    if reached_node then pure false else (do
      reached ← evaluate_break_conditions
      if reached then pure true else (do
        outputs ← gets (λ s. s.outputs)
        emit (loop_next (suc i) outputs)
        iterate left (suc i) root_node_id))

  abbrev accumulate_usage : Exec (LoopState V U) (Unit {0})
  accumulate_usage = modify (λ s. record s {
    runtime = record s.runtime {
      llm_usage = accumulated ops.usage s.runtime.llm_usage s.loop_usage;
    };
  })

  -- _yield_loop_success_events
  abbrev yield_success : ℤ → Dict V → Bool → Exec (LoopState V U) (Unit {0})
  yield_success steps inputs reached = do
    report ← gets (report_of inputs)
    emit (loop_succeeded steps (reason_of reached) report)
    emit (completed_succeeded report)

  -- _yield_loop_failure_events
  abbrev yield_failure : ℤ → Dict V → Exception → Exec (LoopState V U) (Unit {0})
  yield_failure steps inputs error = do
    metadata ← gets metadata_of
    emit (loop_failed inputs steps metadata error)
    emit (completed_failed error metadata)

  -- Both ends: the usage is added to that of the runtime state in either.
  abbrev pub end_loop : ℤ → Dict V → Result Bool → Exec (LoopState V U) (Unit {0})
  end_loop steps inputs (ok reached) = accumulate_usage >> yield_success steps inputs reached
  end_loop steps inputs (err error) = accumulate_usage >> yield_failure steps inputs error

  -- loop_count behind the conditions that are looked at first
  abbrev pub count_after : Result Bool → ℤ
  count_after (ok true) = pos 0
  count_after _ = node_data.loop_count

  abbrev rounds_after : String → Result Bool → Exec (LoopState V U) Bool
  rounds_after root_node_id (err error) = raise error
  rounds_after root_node_id (ok true) = pure true
  rounds_after root_node_id (ok false) = iterate (rounds node_data.loop_count) 0 root_node_id

  -- The try of _run.
  unfoldable pub run_rounds : String → Dict V → Exec (LoopState V U) (Unit {0})
  unfolding evaluate_suppressed iterate
  run_rounds root_node_id inputs s =
      let (first, s1) = evaluate_suppressed s in
      let (r, s2) = rounds_after root_node_id first s1 in end_loop (count_after first) inputs r s2

  abbrev no_start : String
  no_start = str_append "field start_node_id in loop " (str_append node_id " not found")

  abbrev root_of : Option String → Exec (LoopState V U) String
  root_of none = raise (value_error no_start)
  root_of (some start) = if start == "" then raise (value_error no_start) else pure start

  unfoldable pub run : Exec (LoopState V U) (Unit {0})
  unfolding initialize_loop_variables run_rounds
  run = do
    root_node_id ← root_of node_data.start_node_id
    inputs ←
        initialize_loop_variables ops node_id node_data config node_data.loop_variables
          (("loop_count", ops.number node_data.loop_count) ∷ [])
    modify (λ s. record s { loop_usage = ops.usage.empty_usage; single_loop_variable_map = [] })
    emit (loop_started inputs node_data.loop_count)
    run_rounds root_node_id inputs
