-- ===== src/Samples/Choices.antt =====
-- Look-ups in objects, conditions on a text variable of the pool, and an if-else node over them. Here a float is a
-- natural number.
use graphon.Prelude.{
  ℕ, String, ◌≡◌, refl, Bool, true, false, not, ◌&&◌, Option, none, some, List, [], ◌∷◌, nat_eq,
  ◌==◌, if◌then◌else◌,
}
use graphon.Exec.{ok, err, value_error, type_error}
use graphon.Dict
use graphon.Pool.{VariablePool, get_variable}
use graphon.Pool.Nested
use graphon.Pool.Nested.{
  SegmentOps, on_found, attribute, get_nested_attribute, get_nested_segment, get-append,
}
use graphon.Conditions.{string, pos, PyOps, value_eq, is_truthy}
use graphon.Conditions.Texts.{has_part}
use graphon.Conditions.Evaluators.{
  Operator, contains, not_contains, is, result_map, is_null_value, assert_contains, assert_is,
  evaluate_condition,
}
use graphon.Conditions.Opposites.{containment, opposite-evaluate_condition}
use graphon.Conditions.Entities.{
  Logic, logical_and, logical_or, other_kind, Variable, Condition, Pool, InputCondition,
  ConditionCheckResult, combine, result_list,
}
use graphon.Conditions.Processor.{
  prepare_expected_value, check_condition, process_from, process_conditions,
}
use graphon.Conditions.Circuit.{outcomes, process_conditions-combine, process_conditions-decided}
use graphon.Conditions.IfElse.{Case, IfElseNodeData, succeeded, run, run-first_case}

abbrev pub sample_py : PyOps ℕ String
sample_py = record {
  float_of_text = λ s. err (value_error s);
  float_of_integer = λ z. err (value_error "no float");
  integer_of_text = λ s. err (value_error s);
  truncate = λ n. ok (pos n);
  is_integer = λ n. true;
  float_eq = λ a b. false;
  float_lt = λ a b. false;
  float_le = λ a b. false;
  float_truth = λ n. not (nat_eq n 0);
  object_eq = λ a b. false;
  object_truth = λ o. true;
  str = λ v. "value";
  loads = λ s. err (value_error s);
}

abbrev sample_variable : List String → Option (Variable ℕ String)
sample_variable [] = none
sample_variable (x ∷ _) =
    if x == "start"
    then some (record { kind = other_kind; value = string "graph engine" })
    else none

abbrev pub sample_variables : Pool ℕ String
sample_variables = record {
  get = λ selector. ok (sample_variable selector);
  convert_template = λ s. ok s;
  get_attr = λ file key. err (type_error "no file");
}

abbrev sample_condition : String → Operator → String → Condition ℕ String
sample_condition node_id operator expected = record {
  variable_selector = node_id ∷ "text" ∷ [];
  comparison_operator = operator;
  value = string expected;
  sub_variable_condition = none;
}

opposite-evaluate_condition_example :
    evaluate_condition sample_py not_contains (string "graph engine") (string "graph") ≡ (
      if is_null_value {F = ℕ} {O = String} (string "graph engine") && false
      then ok false
      else result_map not
          (evaluate_condition sample_py contains (string "graph engine") (string "graph")))
opposite-evaluate_condition_example =
    opposite-evaluate_condition sample_py containment (string "graph engine") (string "graph")

abbrev holds : Condition ℕ String
holds = sample_condition "start" contains "graph"

abbrev fails : Condition ℕ String
fails = sample_condition "start" is "graph"

-- The variable of this one is missing.
abbrev raises : Condition ℕ String
raises = sample_condition "nowhere" is "graph"

abbrev input_of : Operator → InputCondition ℕ String
input_of operator = record {
  actual_value = string "graph engine";
  expected_value = string "graph";
  comparison_operator = operator;
}

two_checked :
    outcomes sample_py sample_variables (holds ∷ fails ∷ [])
    ≡ ok ((input_of contains ∷ [], true) ∷ (input_of is ∷ [], false) ∷ [])
unfolding result_list check_condition prepare_expected_value evaluate_condition assert_contains
    assert_is has_part is_truthy value_eq
two_checked = refl

process_conditions-combine_example :
    (outcome : ConditionCheckResult ℕ String) × (process_conditions sample_py sample_variables
        logical_and
        (holds ∷ fails ∷ [])
      ≡ ok outcome)
    × (outcome.final_result ≡ combine logical_and (true ∷ false ∷ []))
process_conditions-combine_example =
    process_conditions-combine sample_py sample_variables logical_and (holds ∷ fails ∷ []) _
      two_checked

abbrev outcome_of : Condition ℕ String → Operator → Bool → ConditionCheckResult ℕ String
outcome_of c operator result = record {
  inputs = input_of operator ∷ [];
  group_results = result ∷ [];
  final_result = result;
}

one_holds :
    (operator : Logic)
    → process_conditions sample_py sample_variables operator (holds ∷ [])
      ≡ ok (outcome_of holds contains true)
unfolding process_conditions process_from check_condition prepare_expected_value evaluate_condition
    assert_contains has_part is_truthy
one_holds logical_and = refl
one_holds logical_or = refl

one_fails :
    process_conditions sample_py sample_variables logical_and (fails ∷ [])
    ≡ ok (outcome_of fails is false)
unfolding process_conditions process_from check_condition prepare_expected_value evaluate_condition
    assert_is is_truthy value_eq
one_fails = refl

process_conditions-decided_example :
    process_conditions sample_py sample_variables logical_or (holds ∷ raises ∷ [])
    ≡ ok (outcome_of holds contains true)
process_conditions-decided_example =
    process_conditions-decided sample_py sample_variables logical_or (holds ∷ []) (raises ∷ [])
      (outcome_of holds contains true) (one_holds logical_or) refl

abbrev sample_case : String → Condition ℕ String → Case ℕ String
sample_case case_id c = record {
  case_id = case_id;
  logical_operator = logical_and;
  conditions = c ∷ [];
}

abbrev sample_node_data : IfElseNodeData ℕ String
sample_node_data = record {
  logical_operator = none;
  conditions = none;
  cases =
      some
        (sample_case "first" fails ∷ sample_case "second" holds ∷ sample_case "third" raises ∷ []);
}

run-first_case_example :
    run sample_py sample_variables sample_node_data ≡ ok (succeeded true "second" "second")
run-first_case_example =
    run-first_case sample_py sample_variables sample_node_data (sample_case "first" fails ∷ [])
      (sample_case "second" holds) (sample_case "third" raises ∷ []) refl
      (record { outcome = _; returns = one_fails; result_is = refl }, tt)
      record { outcome = _; returns = one_holds logical_and; result_is = refl }

-- An object with one attribute, which is an object again.
abbrev sample_segments : SegmentOps String
sample_segments = record {
  is_file = λ v. false;
  file_attr = λ v attr. ok v;
  object_value = λ v.
      if v == "outer"
      then some (("inner", "inner") ∷ [])
      else if v == "inner"
      then some (("leaf", "7") ∷ [])
      else none;
  build_segment = λ v. ok v;
}

abbrev sample_objects : VariablePool String
sample_objects = ("start", ("object", "outer") ∷ []) ∷ []

outer_stored : get_variable sample_objects ("start" ∷ "object" ∷ []) ≡ some "outer"
unfolding get_variable Dict.get
outer_stored = refl

get-append_example :
    (Nested.get sample_segments sample_objects ("start" ∷ "object" ∷ []) ≡ ok (some "outer"))
    × (Nested.get sample_segments sample_objects ("start" ∷ "object" ∷ "inner" ∷ "leaf" ∷ [])
        ≡ on_found
            (Nested.get sample_segments sample_objects ("start" ∷ "object" ∷ "inner" ∷ []))
            (λ value. get_nested_segment sample_segments value ("leaf" ∷ [])))
    × (Nested.get sample_segments sample_objects ("start" ∷ "object" ∷ "inner" ∷ "leaf" ∷ [])
        ≡ on_found
            (Nested.get sample_segments sample_objects ("start" ∷ "object" ∷ "inner" ∷ []))
            (λ value. attribute sample_segments value "leaf"))
get-append_example =
    get-append sample_segments sample_objects "start" "object" "outer" ("inner" ∷ []) ("leaf" ∷ [])
      "leaf" outer_stored refl

leaf_read :
    Nested.get sample_segments sample_objects ("start" ∷ "object" ∷ "inner" ∷ "leaf" ∷ [])
    ≡ ok (some "7")
unfolding Nested.get get_nested_segment get_nested_attribute Dict.get
leaf_read = refl
