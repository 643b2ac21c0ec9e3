-- ===== src/ListOperator/Node.antt =====
-- nodes/list_operator/node.py: the operations on the list, and the run of the node.
use Prim.Native.String.{◌++◌ as str_append}
use graphon.Prelude.{
  String, Bool, Option, none, some, List, [], ◌∷◌, map, is_nil, not, if◌then◌else◌,
}
use graphon.Exec.{list_operator_error, type_error, Result, ok, err}
use graphon.Conditions.{ℤ, Value, boolean, string, array, Number, PyOps, number_lt, is_truthy}
use graphon.Conditions.Evaluators.{and_then, result_map}
use graphon.Conditions.Entities.{of_items}
use graphon.ListOperator.{
  Order, is_desc, FilterValue, text, texts, truth, FilterCondition, ListOperatorNodeData, File,
  Object, Supported, array_file, array_number, array_string, array_boolean, Segment, supported,
  array_any, other_array, no_array, supported_values, array_values, PoolOps,
}
use graphon.Sorting.TextOrder.{text_lt}
use graphon.ListOperator.Filters.{
  Filter, filter_list, get_string_filter_func, get_number_filter_func, get_boolean_filter_func,
  get_file_filter_func,
}
use graphon.ListOperator.Cuts.{first, last, slice_to, sorted, truth_lt, order_file, serial_item}

pub data Status : Type 0 where
  succeeded failed : Status

pub record Outputs (F D : Type 0) : Type 0 where
  pub result : Segment F D
  pub first_record : Option (Value F (Object D))
  pub last_record : Option (Value F (Object D))

-- An absent payload or absent outputs are empty dictionaries.
pub record RunResult (F D : Type 0) : Type 0 where
  pub status : Status
  pub error : String
  pub inputs : Option (List (Value F (Object D)))
  pub process_data : Option (List (Value F (Object D)))
  pub outputs : Option (Outputs F D)

module _ {F D : Type 0} (py : PyOps F (Object D)) (pool : PoolOps F D) where
  -- The filter of a text or a number, of a condition whose value has to be a text.
  abbrev text_filter : {A : Type 0} → (String → Filter A) → FilterValue → Filter A
  text_filter make (text template) = and_then (pool.convert_template template) make
  text_filter make (texts values) = err (
      list_operator_error
        (str_append "Invalid filter value: " (py.str (array (of_items (map string values))))))
  text_filter make (truth b) =
      err (list_operator_error (str_append "Invalid filter value: " (py.str (boolean b))))

  abbrev pub string_filter : FilterCondition → Filter String
  string_filter c = text_filter (get_string_filter_func c.comparison_operator) c.value

  abbrev pub number_filter : FilterCondition → Filter (Number F)
  number_filter c =
      text_filter
        (λ value.
          and_then (py.float_of_text value) (get_number_filter_func py c.comparison_operator))
        c.value

  abbrev file_filter_by : FilterCondition → FilterValue → Filter File
  file_filter_by c (text template) =
      and_then (pool.convert_template template)
        (λ value. get_file_filter_func py c.key c.comparison_operator (text value))
  file_filter_by c (texts values) =
      get_file_filter_func py c.key c.comparison_operator (texts values)
  file_filter_by c (truth b) = err (type_error "File filter expects a string value")

  abbrev pub file_filter : FilterCondition → Filter File
  file_filter c = file_filter_by c c.value

  abbrev boolean_filter_by : FilterCondition → FilterValue → Filter Bool
  boolean_filter_by c (truth b) = get_boolean_filter_func c.comparison_operator b
  boolean_filter_by c _ = err (type_error "Boolean filter expects a boolean value")

  abbrev pub boolean_filter : FilterCondition → Filter Bool
  boolean_filter c = boolean_filter_by c c.value

  -- One round of the loop of _apply_filter.
  unfoldable pub filter_by_condition : FilterCondition → Supported F → Result (Supported F)
  unfolding filter_list get_string_filter_func get_number_filter_func get_boolean_filter_func
      get_file_filter_func
  filter_by_condition c (array_string xs) =
      and_then (string_filter c) (λ f. result_map array_string (filter_list f xs))
  filter_by_condition c (array_number xs) =
      and_then (number_filter c) (λ f. result_map array_number (filter_list f xs))
  filter_by_condition c (array_file xs) =
      and_then (file_filter c) (λ f. result_map array_file (filter_list f xs))
  filter_by_condition c (array_boolean xs) =
      and_then (boolean_filter c) (λ f. result_map array_boolean (filter_list f xs))

  unfoldable pub apply_filter : List FilterCondition → Supported F → Result (Supported F)
  unfolding filter_by_condition
  apply_filter [] variable = ok variable
  apply_filter (c ∷ cs) variable = and_then (filter_by_condition c variable) (apply_filter cs)

  unfoldable pub apply_order : Order → String → Supported F → Result (Supported F)
  unfolding sorted text_lt order_file
  apply_order order key (array_string xs) =
      ok (array_string (sorted text_lt (λ x. x) (is_desc order) xs))
  apply_order order key (array_number xs) =
      ok (array_number (sorted (number_lt py) (λ x. x) (is_desc order) xs))
  apply_order order key (array_boolean xs) =
      ok (array_boolean (sorted truth_lt (λ x. x) (is_desc order) xs))
  apply_order order key (array_file xs) = result_map array_file (order_file order key xs)

  unfoldable pub apply_slice : ℤ → Supported F → Result (Supported F)
  unfolding slice_to
  apply_slice size (array_string xs) = ok (array_string (slice_to size xs))
  apply_slice size (array_number xs) = ok (array_number (slice_to size xs))
  apply_slice size (array_boolean xs) = ok (array_boolean (slice_to size xs))
  apply_slice size (array_file xs) = ok (array_file (slice_to size xs))

  abbrev pub item_at : ℤ → Supported F → Result (Supported F)
  item_at value (array_string xs) = result_map array_string (serial_item value xs)
  item_at value (array_number xs) = result_map array_number (serial_item value xs)
  item_at value (array_boolean xs) = result_map array_boolean (serial_item value xs)
  item_at value (array_file xs) = result_map array_file (serial_item value xs)

  unfoldable pub extract_slice : String → Supported F → Result (Supported F)
  extract_slice serial variable =
      and_then (and_then (pool.convert_template serial) py.integer_of_text)
        (λ value. item_at value variable)

  abbrev pub when : Bool → (Supported F → Result (Supported F)) → Supported F → Result (Supported F)
  when enabled operation variable = if enabled then operation variable else ok variable

  -- The rounds of the loop of _apply_operations, from the last one on.
  abbrev pub limited : ListOperatorNodeData → Supported F → Result (Supported F)
  limited node_data = when node_data.limit.enabled (apply_slice node_data.limit.size)

  abbrev pub ordered_limited : ListOperatorNodeData → Supported F → Result (Supported F)
  ordered_limited node_data variable =
      and_then
        (when node_data.order_by.enabled
          (apply_order node_data.order_by.value node_data.order_by.key) variable)
        (limited node_data)

  abbrev pub extracted_ordered_limited : ListOperatorNodeData → Supported F → Result (Supported F)
  extracted_ordered_limited node_data variable =
      and_then
        (when node_data.extract_by.enabled (extract_slice node_data.extract_by.serial) variable)
        (ordered_limited node_data)

  unfoldable pub apply_operations : ListOperatorNodeData → Supported F → Result (Supported F)
  unfolding apply_filter apply_order apply_slice extract_slice
  apply_operations node_data variable =
      and_then
        (when node_data.filter_by.enabled (apply_filter node_data.filter_by.conditions) variable)
        (extracted_ordered_limited node_data)

  abbrev pub build_outputs : Segment F D → Outputs F D
  build_outputs variable = record {
    result = variable;
    first_record = first (array_values variable);
    last_record = last (array_values variable);
  }

  abbrev pub failed_result : String → RunResult F D
  failed_result message = record {
    status = failed;
    error = message;
    inputs = none;
    process_data = none;
    outputs = none;
  }

  -- variable.model_copy(update={"value": []}), or an empty ArrayAnySegment
  abbrev pub emptied : Segment F D → Segment F D
  emptied (supported (array_string xs)) = supported (array_string [])
  emptied (supported (array_number xs)) = supported (array_number [])
  emptied (supported (array_boolean xs)) = supported (array_boolean [])
  emptied (supported (array_file xs)) = supported (array_file [])
  emptied (array_any vs) = array_any []
  emptied (other_array name vs) = other_array name []
  emptied (no_array v) = array_any []

  abbrev pub empty_result : Segment F D → RunResult F D
  empty_result variable = record {
    status = succeeded;
    error = "";
    inputs = some [];
    process_data = some [];
    outputs = some (build_outputs (emptied variable));
  }

  abbrev pub build_input_payload : Supported F → List (Value F (Object D))
  build_input_payload (array_file fs) = map pool.to_dict fs
  build_input_payload s = supported_values s

  -- The try of _run, with `except ListOperatorError`.
  abbrev pub operated : List (Value F (Object D)) → Result (Supported F) → Result (RunResult F D)
  operated payload (ok variable) = ok (record {
    status = succeeded;
    error = "";
    inputs = some payload;
    process_data = some payload;
    outputs = some (build_outputs (supported variable));
  })
  operated payload (err (list_operator_error message)) = ok (record {
    status = failed;
    error = message;
    inputs = some payload;
    process_data = some payload;
    outputs = none;
  })
  operated payload (err e) = err e

  abbrev pub is_falsy : Segment F D → Bool
  is_falsy (no_array v) = not (is_truthy py v)
  is_falsy variable = is_nil (array_values variable)

  abbrev not_array_message : List String → Segment F D → String
  not_array_message selector variable = str_append "Variable " (
      str_append (pool.selector_text selector)
        (str_append " is not an array type, actual type: " (pool.type_name variable)))

  abbrev pub run_supported : ListOperatorNodeData → Segment F D → Result (RunResult F D)
  run_supported node_data (supported variable) =
      operated (build_input_payload variable) (apply_operations node_data variable)
  run_supported node_data variable =
      ok (failed_result (not_array_message node_data.variable variable))

  abbrev pub run_on : ListOperatorNodeData → Option (Segment F D) → Result (RunResult F D)
  run_on node_data none = ok (
      failed_result
        (str_append "Variable not found for selector: " (pool.selector_text node_data.variable)))
  run_on node_data (some variable) =
      if is_falsy variable then ok (empty_result variable) else run_supported node_data variable

  unfoldable pub run : ListOperatorNodeData → Result (RunResult F D)
  unfolding apply_operations
  run node_data = and_then (pool.get node_data.variable) (run_on node_data)
