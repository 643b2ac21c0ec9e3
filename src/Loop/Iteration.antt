-- ===== src/Loop/Iteration.antt =====
-- nodes/loop/loop_node.py: the loop variables, and one round of the loop.
use graphon.Prelude.{
  ℕ, suc, String, Bool, true, false, Option, none, some, List, [], ◌∷◌, ◌++◌, contains, ◌==◌, ◌&&◌,
  if◌then◌else◌,
}
use graphon.Prelude.Decimal.{decimal}
use graphon.Exec.{
  value_error, runtime_error, Result, ok, err, Exec, pure, raise, gets, modify, from_result,
  for_each, ◌>>=◌, ◌>>◌,
}
use Prim.Native.String.{◌++◌ as str_append}
use graphon.Dict
use graphon.Dict.{Dict}
use graphon.Conditions.{pos}
use graphon.Events.{EventKind, node_succeeded}
use graphon.Pool.{VariablePool, remove, add}
use graphon.Pool.Nested
use graphon.Runtime.{merge_response_outputs}
use graphon.Loop.{
  LoopValue, constant, variable, LoopVariableData, LoopNodeData, NodeConfig, LoopNodeEvent,
  ChildEvent, node_event, run_aborted, run_failed, other_event, ChildRun, LoopEvent, inner,
  LoopState, LoopOps,
}

abbrev is_loop : String → Option String → Bool
is_loop loop_node_id none = false
is_loop loop_node_id (some loop_id) = loop_id == loop_node_id

abbrev add_to_set : String → List String → List String
add_to_set x xs = if contains xs x then xs else xs ++ x ∷ []

abbrev with_node : Option String → List String → List String
with_node none ids = ids
with_node (some node_id) ids = if node_id == "" then ids else add_to_set node_id ids

-- _extract_loop_node_ids_from_config
unfoldable pub extract_loop_node_ids : List NodeConfig → String → List String → List String
extract_loop_node_ids [] loop_node_id ids = ids
extract_loop_node_ids (node ∷ nodes) loop_node_id ids =
    extract_loop_node_ids nodes loop_node_id
      (if is_loop loop_node_id node.loop_id then with_node node.id ids else ids)

abbrev or_info {ℓ} : {A : Type ℓ} → Option A → A → Option A
or_info none info = some info
or_info (some known) info = some known

abbrev is_success : {V : Type 0} → EventKind V → Bool
is_success node_succeeded = true
is_success _ = false

-- reason or _DEFAULT_CHILD_ABORT_REASON
abbrev child_abort_reason : Option String → String
child_abort_reason none = "child graph aborted"
child_abort_reason (some reason) = if reason == "" then "child graph aborted" else reason

module _ {V U : Type 0} where
  abbrev pub loop_pool : {A : Type 0} → Exec (VariablePool V) A → Exec (LoopState V U) A
  loop_pool m s =
      let (r, pool) = m s.runtime.variable_pool in
      (r, record s { runtime = record s.runtime { variable_pool = pool } })

  abbrev pub pool_of : LoopState V U → VariablePool V
  pool_of s = s.runtime.variable_pool

  -- yield
  abbrev pub emit : LoopEvent V U → Exec (LoopState V U) (Unit {0})
  emit event = modify (λ s. record s { events = s.events ++ event ∷ [] })

  -- _append_loop_info_to_event
  unfoldable pub append_loop_info : String → ℕ → LoopNodeEvent V U → LoopNodeEvent V U
  append_loop_info node_id loop_run_index e = record {
    event = record e.event { in_loop_id = some node_id };
    loop_info = or_info e.loop_info (node_id, loop_run_index);
  }

  -- The match of _run_single_loop on one event; whether it is the success of a loop end.
  unfoldable pub take_event : String → ℕ → ChildEvent V U → Exec (LoopState V U) Bool
  unfolding append_loop_info
  take_event node_id i (node_event e) =
      if e.event.node_type == "loop-start"
      then pure false
      else emit (inner (append_loop_info node_id i e))
        >> pure (is_success e.event.kind && e.event.node_type == "loop-end")
  take_event node_id i (run_aborted reason) = raise (runtime_error (child_abort_reason reason))
  take_event node_id i (run_failed error) = raise (runtime_error error)
  take_event node_id i other_event = pure false

  -- The loop over the events of the engine, with loop_state["reach_break_node"].
  unfoldable pub take_events : String → ℕ → List (ChildEvent V U) → Bool → Exec (LoopState V U) Bool
  unfolding take_event
  take_events node_id i [] reached = pure reached
  take_events node_id i (e ∷ es) reached =
      take_event node_id i e >>= λ b. take_events node_id i es (if b then true else reached)

  -- _clear_loop_subgraph_variables
  unfoldable pub clear_loop_subgraph_variables : List String → Exec (LoopState V U) (Unit {0})
  clear_loop_subgraph_variables = for_each (λ n. loop_pool (modify (λ p. remove p (n ∷ []))))

module _ {V U F O : Type 0} (ops : LoopOps V U F O) (node_id : String)
    (node_data : LoopNodeData V F O) (config : List NodeConfig) where
  -- The segment of a selector in the variable pool.
  abbrev get_segment : List String → Exec (LoopState V U) (Option V)
  get_segment selector s = (Nested.get ops.segments (pool_of s) selector, s)

  -- segment.value if segment else None
  abbrev value_or_none : Option V → V
  value_or_none none = ops.none_value
  value_or_none (some segment) = ops.value_of segment

  abbrev some_segment : Result V → Result (Option V)
  some_segment (ok segment) = ok (some segment)
  some_segment (err e) = err e

  abbrev processed_segment : String → LoopValue V → Exec (LoopState V U) (Option V)
  processed_segment var_type (constant value) =
      from_result (some_segment (ops.segment_for_constant var_type value))
  processed_segment var_type (variable (some selector)) = get_segment selector
  processed_segment var_type (variable none) = pure none

  abbrev found_segment : String → Option V → Exec (LoopState V U) V
  found_segment label none =
      raise (value_error (str_append "Invalid value for loop variable " label))
  found_segment label (some segment) = pure segment

  -- A round of _initialize_loop_variables, with the inputs so far.
  abbrev initialize_loop_variable : LoopVariableData V → Dict V → Exec (LoopState V U) (Dict V)
  initialize_loop_variable v inputs = do
    processed ← processed_segment v.var_type v.value
    segment ← found_segment v.label processed
    loop_variable ← from_result (ops.factory.segment_to_variable segment (node_id ∷ v.label ∷ []))
    loop_pool (add ops.factory (node_id ∷ v.label ∷ []) (ops.value_of loop_variable))
    pure (Dict.put inputs v.label (ops.value_of segment))

  unfoldable pub initialize_loop_variables :
      List (LoopVariableData V) → Dict V → Exec (LoopState V U) (Dict V)
  initialize_loop_variables [] inputs = pure inputs
  initialize_loop_variables (v ∷ vs) inputs =
      initialize_loop_variable v inputs >>= initialize_loop_variables vs

  -- One output of a round: the value of a loop variable.
  abbrev update_output : LoopVariableData V → Exec (LoopState V U) (Unit {0})
  update_output v = do
    segment ← get_segment (node_id ∷ v.label ∷ [])
    modify (λ s. record s { outputs = Dict.put s.outputs v.label (value_or_none segment) })

  -- _run_single_loop, over the run of the round's engine
  unfoldable pub run_single_loop : ℕ → ChildRun V U → Exec (LoopState V U) Bool
  unfolding take_events
  run_single_loop i child = do
    reached ← take_events node_id i child.events false
    from_result child.ending
    for_each update_output node_data.loop_variables
    modify (λ s. record s { outputs = Dict.put s.outputs "loop_round" (ops.number (pos (suc i))) })
    pure reached

  -- try and finally around _run_single_loop
  abbrev with_usage : ChildRun V U → Exec (LoopState V U) Bool → Exec (LoopState V U) Bool
  with_usage child body s =
      let (r, s') = body s in (r, record s' { iteration_usage = some child.llm_usage })

  abbrev collect_value : Dict V → LoopVariableData V → Exec (LoopState V U) (Dict V)
  collect_value values v = do
    segment ← get_segment (node_id ∷ v.label ∷ [])
    pure (Dict.put values v.label (value_or_none segment))

  unfoldable pub collect_loop_variable_values :
      List (LoopVariableData V) → Dict V → Exec (LoopState V U) (Dict V)
  collect_loop_variable_values [] values = pure values
  collect_loop_variable_values (v ∷ vs) values =
      collect_value values v >>= collect_loop_variable_values vs

  -- _execute_loop_iteration, then what _record_iteration_state writes and returns.
  unfoldable pub execute_loop_iteration : ℕ → String → Exec (LoopState V U) Bool
  unfolding extract_loop_node_ids clear_loop_subgraph_variables run_single_loop
      collect_loop_variable_values
  execute_loop_iteration i root_node_id = do
    clear_loop_subgraph_variables (extract_loop_node_ids config node_id [])
    runtime ← gets (λ s. s.runtime)
    child ← from_result (ops.run_child i root_node_id runtime)
    loop_pool (λ p. (ok tt, child.variable_pool))
    reached ← with_usage child (run_single_loop i child)
    modify (λ s. record s { runtime = merge_response_outputs ops.values child.outputs s.runtime })
    values ← collect_loop_variable_values node_data.loop_variables []
    modify (λ s. record s {
      single_loop_variable_map = Dict.put s.single_loop_variable_map (decimal i) values;
    })
    pure reached
