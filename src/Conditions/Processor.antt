-- ===== src/Conditions/Processor.antt =====
-- utils/condition/processor.py: conditions over the variables of the pool.
use graphon.Prelude.{
  Bool, ◌&&◌, ◌||◌, map, Option, none, some, List, [], ◌∷◌, ◌++◌, any, all, if◌then◌else◌,
}
use graphon.Exec.{Result, ok, err, value_error, type_error}
use graphon.Conditions.{Value, null, boolean, integer, string, array, items, PyOps, is_truthy}
use graphon.Conditions.Evaluators.{
  Operator, and_then, result_map, is_text, is_boolean, evaluate_condition,
}
use graphon.Conditions.Entities.{
  Logic, FileAttribute, file_attribute, is_extension, is_file_operator, is_existence, has_not,
  Variable, SubCondition, SubVariableCondition, Condition, Pool, InputCondition,
  ConditionCheckResult, result_list, of_items, combine, decides, with_dot, is_boolean_kind,
  is_array_file,
}

module _ {F O : Type 0} (py : PyOps F O) (pool : Pool F O) where
  abbrev of_loaded : Value F O → Result Bool
  of_loaded (integer z) = ok (is_truthy py (integer z))
  of_loaded (boolean b) = ok b
  of_loaded _ = err (type_error "unexpected value")

  unfoldable pub convert_to_bool : Value F O → Result Bool
  convert_to_bool (integer z) = ok (is_truthy py (integer z))
  convert_to_bool (boolean b) = ok b
  convert_to_bool (string s) = and_then (py.loads s) of_loaded
  convert_to_bool _ = err (type_error "unexpected value")

  abbrev normalized : Value F O → Result (Value F O)
  normalized (string s) = result_map string (pool.convert_template s)
  normalized v = ok v

  abbrev as_booleans : Value F O → Result (Value F O)
  as_booleans null = ok null
  as_booleans (array vs) =
      result_map (λ bs. array (of_items bs))
        (result_list (λ v. result_map boolean (convert_to_bool v)) (items vs))
  as_booleans v = result_map boolean (convert_to_bool v)

  abbrev as_expected : Value F O → Result (Value F O)
  as_expected null = ok null
  as_expected (string s) = ok (string s)
  as_expected (boolean b) = ok (boolean b)
  as_expected (array vs) =
      if all is_text (items vs) || all is_boolean (items vs)
      then ok (array vs)
      else err (type_error "unexpected expected value")
  as_expected _ = err (type_error "unexpected expected value")

  unfoldable pub prepare_expected_value : Variable F O → Value F O → Result (Value F O)
  unfolding convert_to_bool result_list
  prepare_expected_value variable expected_value =
      and_then (normalized expected_value)
        (if is_boolean_kind variable.kind then as_booleans else as_expected)

  abbrev dotted : Value F O → Value F O
  dotted (string s) = string (with_dot s)
  dotted v = v

  abbrev expected_extension : Value F O → Result (Value F O)
  expected_extension (string s) = ok (string (with_dot s))
  expected_extension _ =
      err (type_error "Expected value must be a string when key is FileAttribute.EXTENSION")

  abbrev prepare_attribute :
      FileAttribute → Value F O → List (Value F O) → Result (Value F O × List (Value F O))
  prepare_attribute key expected values =
      if is_extension key
      then result_map (λ e. (e, map dotted values)) (expected_extension expected)
      else ok (expected, values)

  abbrev over_files : Operator → List Bool → Bool
  over_files operator results =
      if has_not operator then all (λ b. b) results else any (λ b. b) results

  -- One round of the loop over the sub-conditions.
  unfoldable pub process_sub_condition : List (Value F O) → SubCondition F O → Result Bool
  unfolding evaluate_condition result_list
  process_sub_condition files condition = and_then (file_attribute condition.key) λ key.
      and_then (result_list (λ file. pool.get_attr file key) files) λ values.
        and_then (prepare_attribute key condition.value values) λ (expected, prepared).
          result_map (over_files condition.comparison_operator) (
            result_list
              (λ value. evaluate_condition py condition.comparison_operator value expected)
              prepared)

  abbrev files_of : Value F O → List (Value F O)
  files_of (array vs) = items vs
  files_of _ = []

  unfoldable pub process_sub_conditions : Variable F O → SubVariableCondition F O → Result Bool
  unfolding process_sub_condition
  process_sub_conditions variable sub =
      result_map (combine sub.logical_operator)
        (result_list (process_sub_condition (files_of variable.value)) sub.conditions)

  abbrev check_files :
      Variable F O → Option (SubVariableCondition F O) → Result (List (InputCondition F O) × Bool)
  check_files variable none = err (value_error "Sub variable is required")
  check_files variable (some sub) =
      result_map (λ result. ([], result)) (process_sub_conditions variable sub)

  abbrev check_value : Condition F O → Variable F O → Result (List (InputCondition F O) × Bool)
  check_value condition variable =
      and_then (prepare_expected_value variable condition.value) λ expected.
        result_map
          (λ result. (
            (record {
              actual_value = variable.value;
              expected_value = expected;
              comparison_operator = condition.comparison_operator;
            }
                ∷ []),
            result,
          ))
          (evaluate_condition py condition.comparison_operator variable.value expected)

  abbrev check : Condition F O → Option (Variable F O) → Result (List (InputCondition F O) × Bool)
  check condition none = err (value_error "Variable not found")
  check condition (some variable) =
      if is_array_file variable.kind && is_file_operator condition.comparison_operator
      then check_files variable condition.sub_variable_condition
      else if is_existence condition.comparison_operator
      then result_map (λ result. ([], result))
          (evaluate_condition py condition.comparison_operator variable.value null)
      else check_value condition variable

  -- The input to record and the result, for one condition.
  unfoldable pub check_condition : Condition F O → Result (List (InputCondition F O) × Bool)
  unfolding prepare_expected_value process_sub_conditions evaluate_condition
  check_condition condition = and_then (pool.get condition.variable_selector) (check condition)

  -- The loop of process_conditions, with the lists that it has built.
  unfoldable pub process_from :
      Logic
      → List (Condition F O)
      → List (InputCondition F O)
      → List Bool
      → Result (ConditionCheckResult F O)
  unfolding check_condition
  process_from operator [] inputs results =
      ok (record {
        inputs = inputs;
        group_results = results;
        final_result = combine operator results;
      })
  process_from operator (condition ∷ conditions) inputs results =
      and_then (check_condition condition) λ (input, result).
        let more = process_from operator conditions (inputs ++ input) (results ++ result ∷ []) in
        if decides operator result
        then ok (record {
          inputs = inputs ++ input;
          group_results = results ++ result ∷ [];
          final_result = result;
        })
        else more

  unfoldable pub process_conditions :
      Logic → List (Condition F O) → Result (ConditionCheckResult F O)
  unfolding process_from
  process_conditions operator conditions = process_from operator conditions [] []
