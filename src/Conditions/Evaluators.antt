-- ===== src/Conditions/Evaluators.antt =====
-- utils/condition/processor.py: the evaluators of the comparison operators.
use graphon.Prelude.{
  String, Bool, true, false, not, Option, none, some, List, any, all, if◌then◌else◌,
}
use graphon.Exec.{Result, ok, err, value_error, type_error}
use graphon.Conditions.{
  ℤ, Value, null, boolean, integer, floating, string, array, items, Number, whole, real, number_of,
  PyOps, number_lt, number_le, value_eq, is_truthy,
}
use graphon.Conditions.Texts.{has_part, start_with, end_with}

-- SupportedComparisonOperator
pub data Operator : Type 0 where
  contains not_contains begins ends : Operator
  is is_not empty not_empty in_list not_in_list all_of : Operator
  equal not_equal greater less greater_or_equal less_or_equal : Operator
  is_null not_null : Operator
  exists not_exists : Operator

abbrev pub and_then {ℓ} : {A B : Type ℓ} → Result A → (A → Result B) → Result B
and_then (ok a) next = next a
and_then (err e) next = err e

abbrev pub result_map {ℓ} : {A B : Type ℓ} → (A → B) → Result A → Result B
result_map f r = and_then r (λ a. ok (f a))

module _ {F O : Type 0} where
  abbrev pub is_null_value : Value F O → Bool
  is_null_value null = true
  is_null_value _ = false

  abbrev pub is_text : Value F O → Bool
  is_text (string s) = true
  is_text _ = false

  abbrev pub is_boolean : Value F O → Bool
  is_boolean (boolean b) = true
  is_boolean _ = false

module _ {F O : Type 0} (py : PyOps F O) where
  -- value in list
  abbrev pub is_member : List (Value F O) → Value F O → Bool
  is_member vs v = any (λ w. value_eq py w v) vs

  -- str() of what is looked for in a text, unless it is one
  abbrev text_of : Value F O → String
  text_of (string s) = s
  text_of v = py.str v

  -- The match of _assert_contains and of _assert_not_contains.
  abbrev pub found_in : Value F O → Value F O → Result Bool
  found_in (string s) expected = ok (has_part s (text_of expected))
  found_in (array vs) expected = ok (is_member (items vs) expected)
  found_in _ _ = err (value_error "Invalid actual value type: string or array")

  unfoldable pub assert_contains : Value F O → Value F O → Result Bool
  assert_contains value expected = if is_truthy py value then found_in value expected else ok false

  unfoldable pub assert_not_contains : Value F O → Value F O → Result Bool
  assert_not_contains value expected =
      if is_truthy py value then result_map not (found_in value expected) else ok true

  abbrev compare_texts : (String → String → Bool) → String → Value F O → Value F O → Result Bool
  compare_texts test message (string s) (string part) = ok (test s part)
  compare_texts test message (string s) _ = err (type_error message)
  compare_texts test message _ _ = err (type_error "Invalid actual value type: string")

  unfoldable pub assert_start_with : Value F O → Value F O → Result Bool
  assert_start_with value expected =
      if is_truthy py value
      then compare_texts start_with "Expected value must be a string for startswith" value expected
      else ok false

  unfoldable pub assert_end_with : Value F O → Value F O → Result Bool
  assert_end_with value expected =
      if is_truthy py value
      then compare_texts end_with "Expected value must be a string for endswith" value expected
      else ok false

  -- value == expected for a text or a bool
  abbrev pub same_value : Value F O → Value F O → Result Bool
  same_value (string s) expected = ok (value_eq py (string s) expected)
  same_value (boolean b) expected = ok (value_eq py (boolean b) expected)
  same_value _ _ = err (value_error "Invalid actual value type: string or boolean")

  unfoldable pub assert_is : Value F O → Value F O → Result Bool
  assert_is value expected = if is_null_value value then ok false else same_value value expected

  unfoldable pub assert_is_not : Value F O → Value F O → Result Bool
  assert_is_not value expected =
      if is_null_value value then ok false else result_map not (same_value value expected)

  unfoldable pub assert_empty : Value F O → Bool
  assert_empty value = not (is_truthy py value)

  unfoldable pub assert_not_empty : Value F O → Bool
  assert_not_empty value = is_truthy py value

  abbrev pub whole_expected : ℤ → F → Result (Number F × Number F)
  whole_expected z f =
      if py.is_integer f
      then and_then (py.truncate f) (λ n. ok (whole z, whole n))
      else and_then (py.float_of_integer z) (λ v. ok (real v, real f))

  abbrev with_float : Number F → F → Result (Number F × Number F)
  with_float (whole z) f = and_then (py.float_of_integer z) (λ v. ok (real v, real f))
  with_float (real v) f = ok (real v, real f)

  abbrev with_text : Number F → F → Result (Number F × Number F)
  with_text (whole z) f = whole_expected z f
  with_text (real v) f = ok (real v, real f)

  abbrev with_number : Number F → Option (Number F) → Result (Number F × Number F)
  with_number value (some n) = ok (value, n)
  with_number value none = err (value_error "Cannot convert to number")

  -- float() of a text that is no number is a ValueError as well.
  unfoldable pub normalize_numeric_values : Number F → Value F O → Result (Number F × Number F)
  normalize_numeric_values value (string s) = and_then (py.float_of_text s) (with_text value)
  normalize_numeric_values value (floating f) = with_float value f
  normalize_numeric_values value expected = with_number value (number_of expected)

  abbrev to_float : Number F → Result F
  to_float (whole z) = py.float_of_integer z
  to_float (real f) = ok f

  abbrev to_integer : Number F → Result ℤ
  to_integer (whole z) = ok z
  to_integer (real f) = py.truncate f

  -- int(expected) and float(expected)
  abbrev integer_expected : Value F O → Option (Number F) → Result (Value F O)
  integer_expected (string s) _ = result_map integer (py.integer_of_text s)
  integer_expected _ (some n) = result_map integer (to_integer n)
  integer_expected _ none = err (value_error "Cannot convert to int")

  abbrev float_expected : Value F O → Option (Number F) → Result (Value F O)
  float_expected (string s) _ = result_map floating (py.float_of_text s)
  float_expected _ (some n) = result_map floating (to_float n)
  float_expected _ none = err (value_error "Cannot convert to float")

  abbrev boolean_expected : Value F O → Result (Value F O)
  boolean_expected (boolean b) = ok (boolean b)
  boolean_expected (integer z) = ok (boolean (is_truthy py (integer z)))
  boolean_expected (string s) = ok (boolean (is_truthy py (string s)))
  boolean_expected _ = err (value_error "Cannot convert to bool")

  unfoldable pub normalize_numeric_equality_expected : Value F O → Value F O → Result (Value F O)
  normalize_numeric_equality_expected (boolean b) expected = boolean_expected expected
  normalize_numeric_equality_expected (integer z) expected =
      integer_expected expected (number_of expected)
  normalize_numeric_equality_expected (floating f) expected =
      float_expected expected (number_of expected)
  normalize_numeric_equality_expected _ _ =
      err (value_error "Invalid actual value type: number or boolean")

  abbrev pub equals_expected : Value F O → Value F O → Result Bool
  equals_expected value expected =
      result_map (value_eq py value) (normalize_numeric_equality_expected value expected)

  unfoldable pub assert_equal : Value F O → Value F O → Result Bool
  unfolding normalize_numeric_equality_expected
  assert_equal value expected =
      if is_null_value value then ok false else equals_expected value expected

  unfoldable pub assert_not_equal : Value F O → Value F O → Result Bool
  unfolding normalize_numeric_equality_expected
  assert_not_equal value expected =
      if is_null_value value then ok false else result_map not (equals_expected value expected)

  abbrev compare_number : (Number F → Number F → Bool) → Option (Number F) → Value F O → Result Bool
  compare_number test none expected = err (value_error "Invalid actual value type: number")
  compare_number test (some n) expected =
      result_map (λ (a, b). test a b) (normalize_numeric_values n expected)

  -- The four comparisons of order.
  unfoldable pub assert_order : (Number F → Number F → Bool) → Value F O → Value F O → Result Bool
  unfolding normalize_numeric_values
  assert_order test value expected =
      if is_null_value value then ok false else compare_number test (number_of value) expected

  abbrev pub listed_in : Value F O → Value F O → Result Bool
  listed_in value (array vs) = ok (is_member (items vs) value)
  listed_in value _ = err (value_error "Invalid expected value type: array")

  unfoldable pub assert_in : Value F O → Value F O → Result Bool
  assert_in value expected = if is_truthy py value then listed_in value expected else ok false

  unfoldable pub assert_not_in : Value F O → Value F O → Result Bool
  assert_not_in value expected =
      if is_truthy py value then result_map not (listed_in value expected) else ok true

  abbrev in_text : String → Value F O → Bool
  in_text s (string part) = has_part s part
  in_text s _ = false

  -- _assert_all_of, for a list of texts
  unfoldable pub assert_all_of : Value F O → List (Value F O) → Bool
  assert_all_of (string s) expected =
      if is_truthy py (string s) then all (in_text s) expected else false
  assert_all_of (array vs) expected =
      if is_truthy py (array vs) then all (is_member (items vs)) expected else false
  assert_all_of _ _ = false

  -- _assert_all_of_bool
  unfoldable pub assert_all_of_bool : Value F O → List (Value F O) → Bool
  assert_all_of_bool (array vs) expected =
      if is_truthy py (array vs) then all (is_member (items vs)) expected else false
  assert_all_of_bool _ _ = false

  unfoldable pub evaluate_all_of_condition : Value F O → Value F O → Result Bool
  unfolding assert_all_of assert_all_of_bool
  evaluate_all_of_condition value (array vs) =
      if all is_text (items vs)
      then ok (assert_all_of value (items vs))
      else if all is_boolean (items vs)
      then ok (assert_all_of_bool value (items vs))
      else err (value_error "all of operator expects homogeneous list of strings or booleans")
  evaluate_all_of_condition value _ =
      err (value_error "all of operator expects homogeneous list of strings or booleans")

  -- _CONDITION_EVALUATOR_NAMES, with _assert_null, _assert_exists and their opposites
  unfoldable pub evaluate_condition : Operator → Value F O → Value F O → Result Bool
  unfolding assert_contains assert_not_contains assert_start_with assert_end_with assert_is
      assert_is_not assert_empty assert_not_empty assert_in assert_not_in evaluate_all_of_condition
      assert_equal assert_not_equal assert_order
  evaluate_condition contains value expected = assert_contains value expected
  evaluate_condition not_contains value expected = assert_not_contains value expected
  evaluate_condition begins value expected = assert_start_with value expected
  evaluate_condition ends value expected = assert_end_with value expected
  evaluate_condition is value expected = assert_is value expected
  evaluate_condition is_not value expected = assert_is_not value expected
  evaluate_condition empty value expected = ok (assert_empty value)
  evaluate_condition not_empty value expected = ok (assert_not_empty value)
  evaluate_condition in_list value expected = assert_in value expected
  evaluate_condition not_in_list value expected = assert_not_in value expected
  evaluate_condition all_of value expected = evaluate_all_of_condition value expected
  evaluate_condition equal value expected = assert_equal value expected
  evaluate_condition not_equal value expected = assert_not_equal value expected
  evaluate_condition greater value expected = assert_order (λ a b. number_lt py b a) value expected
  evaluate_condition less value expected = assert_order (number_lt py) value expected
  evaluate_condition greater_or_equal value expected =
      assert_order (λ a b. number_le py b a) value expected
  evaluate_condition less_or_equal value expected = assert_order (number_le py) value expected
  evaluate_condition is_null value expected = ok (is_null_value value)
  evaluate_condition not_null value expected = ok (not (is_null_value value))
  evaluate_condition exists value expected = ok (not (is_null_value value))
  evaluate_condition not_exists value expected = ok (is_null_value value)
