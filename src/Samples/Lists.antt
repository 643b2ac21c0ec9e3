-- ===== src/Samples/Lists.antt =====
-- A list operator node over texts and over files. Here a float is a natural number.
use graphon.Prelude.{
  ℕ, String, ◌≡◌, refl, true, false, not, some, [], ◌∷◌, nat_eq, ◌==◌, if◌then◌else◌,
}
use graphon.Prelude.Decimal.{decimal}
use graphon.Conditions.Texts.{has_part}
use graphon.Exec.{ok, err, value_error}
use graphon.Conditions.{
  ℤ, pos, negsuc, string, object, Number, whole, real, PyOps, integer_lt, integer_le, integer_eq,
  number_lt,
}
use graphon.ListOperator.{
  contains, desc, text, FilterCondition, ListOperatorNodeData, Object, file, Supported,
  array_string, array_number, supported, PoolOps,
}
use graphon.Sorting.{IsOrder}
use graphon.ListOperator.Cuts.{slice_to}
use graphon.ListOperator.Filtering.{keep_all, apply_filter-keep_all}
use graphon.ListOperator.Ordering.{integer-IsOrder, IsOrdered, apply_order-IsOrdered}
use graphon.ListOperator.Run.{IsLimitedPart, run-IsLimitedPart}
use graphon.ListOperator.Node.{RunResult, Outputs, succeeded, apply_filter, apply_order, run}

abbrev as_integer : Number ℕ → ℤ
as_integer (whole z) = z
as_integer (real n) = pos n

abbrev list_py : PyOps ℕ (Object String)
list_py = record {
  float_of_text = λ s. if s == "2" then ok 2 else err (value_error s);
  float_of_integer = λ z. err (value_error "no float");
  integer_of_text =
      λ s. if s == "2" then ok (pos 2) else if s == "0" then ok (pos 0) else err (value_error s);
  truncate = λ n. ok (pos n);
  is_integer = λ n. true;
  float_eq = λ a b. integer_eq (as_integer a) (as_integer b);
  float_lt = λ a b. integer_lt (as_integer a) (as_integer b);
  float_le = λ a b. integer_le (as_integer a) (as_integer b);
  float_truth = λ n. not (nat_eq n 0);
  object_eq = λ a b. false;
  object_truth = λ o. true;
  str = λ v. "value";
  loads = λ s. err (value_error s);
}

abbrev words : Supported ℕ
words = array_string ("pear" ∷ "apple" ∷ "" ∷ "pea" ∷ "grape" ∷ [])

abbrev list_pool : PoolOps ℕ String
list_pool = record {
  get = λ selector. ok (some (supported words));
  convert_template = λ s. ok s;
  to_dict = λ f. object (file f);
  type_name = λ v. "segment";
  selector_text = λ selector. "selector";
}

abbrev with_p : FilterCondition
with_p = record { key = ""; comparison_operator = contains; value = text "p" }

abbrev with_a : FilterCondition
with_a = record { key = ""; comparison_operator = contains; value = text "pea" }

abbrev first_two_sorted : ListOperatorNodeData
first_two_sorted = record {
  variable = "start" ∷ "words" ∷ [];
  filter_by = record { enabled = true; conditions = with_p ∷ [] };
  order_by = record { enabled = true; key = ""; value = desc };
  limit = record { enabled = true; size = pos 2 };
  extract_by = record { enabled = false; serial = "1" };
}

abbrev second_of : String → ListOperatorNodeData
second_of serial = record first_two_sorted {
  filter_by = record { enabled = true; conditions = with_a ∷ [] };
  extract_by = record { enabled = true; serial = serial };
}

abbrev two_words : Outputs ℕ String
two_words = record {
  result = supported (array_string ("pear" ∷ "pea" ∷ []));
  first_record = some (string "pear");
  last_record = some (string "pea");
}

filtered_twice :
    apply_filter list_py list_pool (with_p ∷ with_a ∷ []) words
    ≡ ok (array_string ("pear" ∷ "pea" ∷ []))
unfolding apply_filter has_part
filtered_twice = refl

abbrev two_result : RunResult ℕ String
two_result = record {
  status = succeeded;
  error = "";
  inputs = some (string "pear" ∷ string "apple" ∷ string "" ∷ string "pea" ∷ string "grape" ∷ []);
  process_data =
      some (string "pear" ∷ string "apple" ∷ string "" ∷ string "pea" ∷ string "grape" ∷ []);
  outputs = some two_words;
}

two_found : run list_py list_pool first_two_sorted ≡ ok two_result
unfolding run has_part
two_found = refl

-- A serial number below 1 raises a ValueError that the node does not catch.
serial_zero :
    run list_py list_pool (second_of "0")
    ≡ err (value_error "Invalid serial index: must be >= 1, got 0")
unfolding run decimal
serial_zero = refl

all_but_one : slice_to {A = ℕ} (negsuc 0) (1 ∷ 2 ∷ 3 ∷ []) ≡ 1 ∷ 2 ∷ []
unfolding slice_to
all_but_one = refl

seen : (a b : Number ℕ) → number_lt list_py a b ≡ integer_lt (as_integer a) (as_integer b)
seen (whole a) (whole b) = refl
seen (whole a) (real b) = refl
seen (real a) (whole b) = refl
seen (real a) (real b) = refl

list_py-IsOrder : IsOrder (number_lt list_py)
list_py-IsOrder = record {
  asym = λ a b. rw (seen a b, seen b a) (integer-IsOrder.asym (as_integer a) (as_integer b));
  trans = λ a b c.
      rw (seen b a, seen c b, seen c a)
        (integer-IsOrder.trans (as_integer a) (as_integer b) (as_integer c));
}

abbrev numbers : Supported ℕ
numbers = array_number (whole (pos 3) ∷ real 1 ∷ real 3 ∷ whole (negsuc 0) ∷ real 7 ∷ [])

abbrev falling : Supported ℕ
falling = array_number (real 7 ∷ whole (pos 3) ∷ real 3 ∷ real 1 ∷ whole (negsuc 0) ∷ [])

sorted_down : apply_order list_py list_pool desc "" numbers ≡ ok falling
unfolding apply_order
sorted_down = refl

apply_filter-keep_all_example :
    array_string ("pear" ∷ "pea" ∷ []) ≡ keep_all list_py list_pool (with_p ∷ with_a ∷ []) words
apply_filter-keep_all_example =
    apply_filter-keep_all list_py list_pool (with_p ∷ with_a ∷ []) words
      (array_string ("pear" ∷ "pea" ∷ [])) filtered_twice

apply_order-IsOrdered_example : IsOrdered list_py list_pool desc "" numbers falling
apply_order-IsOrdered_example =
    apply_order-IsOrdered list_py list_pool list_py-IsOrder desc "" numbers falling sorted_down

run-IsLimitedPart_example : IsLimitedPart list_py list_pool first_two_sorted words two_words
run-IsLimitedPart_example =
    run-IsLimitedPart list_py list_pool first_two_sorted words two_result two_words refl two_found
      refl
