-- ===== src/Conditions/Opposites.antt =====
-- utils/condition/processor.py: the operators that come in pairs.
use graphon.Prelude.{◌≡◌, refl, ap, ◌∙◌, Bool, true, false, not, ◌&&◌, if◌then◌else◌}
use graphon.Exec.{Result, ok}
use graphon.Conditions.{Value, PyOps, is_truthy}
use graphon.Conditions.Evaluators.{
  Operator, contains, not_contains, is, is_not, empty, not_empty, in_list, not_in_list, equal,
  not_equal, is_null, not_null, exists, not_exists, result_map, found_in, assert_contains,
  assert_not_contains, is_null_value, same_value, assert_is, assert_is_not, assert_empty,
  assert_not_empty, equals_expected, assert_equal, assert_not_equal, listed_in, assert_in,
  assert_not_in, evaluate_condition,
}

-- An operator and the one with "not" in its name.
pub data Pair : Type 0 where
  containment identity emptiness membership equality nullness existence : Pair

abbrev pub positive : Pair → Operator
positive containment = contains
positive identity = is
positive emptiness = empty
positive membership = in_list
positive equality = equal
positive nullness = is_null
positive existence = exists

abbrev pub negative : Pair → Operator
negative containment = not_contains
negative identity = is_not
negative emptiness = not_empty
negative membership = not_in_list
negative equality = not_equal
negative nullness = not_null
negative existence = not_exists

-- The pairs that compare two values.
abbrev pub compares : Pair → Bool
compares identity = true
compares equality = true
compares _ = false

double_negation : (b : Bool) → b ≡ not (not b)
double_negation true = refl
double_negation false = refl

if-false :
    (b : Bool) (r : Result Bool)
    → (if b then result_map not r else ok true) ≡ result_map not (if b then r else ok false)
if-false true r = refl
if-false false r = refl

if-null :
    (b : Bool) (r : Result Bool)
    → (if b then ok false else result_map not r)
      ≡ (if b && true then ok false else result_map not (if b then ok false else r))
if-null true r = refl
if-null false r = refl

and_false : (b : Bool) (r : Result Bool) → r ≡ (if b && false then ok false else r)
and_false true r = refl
and_false false r = refl

module _ {F O : Type 0} (py : PyOps F O) where
  -- For each of the pairs contains, is, empty, in, =, null and exists the operator with "not" gives
  -- the opposite result, and raises just where the other does; but where the value is null, "is
  -- not" and "≠" give False, as "is" and "=" do.
  pub opposite-evaluate_condition :
      (pair : Pair) (value expected : Value F O)
      → evaluate_condition py (negative pair) value expected ≡ (
          if is_null_value value && compares pair
          then ok false
          else result_map not (evaluate_condition py (positive pair) value expected))
  unfolding evaluate_condition assert_contains assert_not_contains assert_is assert_is_not
      assert_empty assert_not_empty assert_in assert_not_in assert_equal assert_not_equal
  opposite-evaluate_condition containment value expected =
      if-false (is_truthy py value) (found_in py value expected) ∙ and_false (is_null_value value) _
  opposite-evaluate_condition identity value expected =
      if-null (is_null_value value) (same_value py value expected)
  opposite-evaluate_condition emptiness value expected =
      ap ok (double_negation (is_truthy py value)) ∙ and_false (is_null_value value) _
  opposite-evaluate_condition membership value expected =
      if-false (is_truthy py value) (listed_in py value expected)
      ∙ and_false (is_null_value value) _
  opposite-evaluate_condition equality value expected =
      if-null (is_null_value value) (equals_expected py value expected)
  opposite-evaluate_condition nullness value expected = and_false (is_null_value value) _
  opposite-evaluate_condition existence value expected =
      ap ok (double_negation (is_null_value value)) ∙ and_false (is_null_value value) _
