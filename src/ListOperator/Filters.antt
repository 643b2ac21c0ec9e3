-- ===== src/ListOperator/Filters.antt =====
-- nodes/list_operator/node.py: the filters of the kinds of values, and the keys of files.
use Prim.Native.String.{◌++◌ as str_append}
use graphon.Prelude.{
  String, Bool, true, false, not, Option, none, some, List, [], ◌∷◌, contains as is_listed, ◌==◌,
  ◌||◌, if◌then◌else◌,
}
use graphon.Exec.{Result, ok, err, list_operator_error}
use graphon.Conditions.{ℤ, Number, whole, real, PyOps, number_eq, number_lt, number_le}
use graphon.Conditions.Texts.{has_part}
use graphon.Conditions.Texts
use graphon.Conditions.Evaluators.{and_then, result_map}
use graphon.ListOperator.{
  FilterOperator, contains, start_with, end_with, is, in_list, empty, not_contains, is_not, not_in,
  not_empty, equal, not_equal, less_than, greater_than, greater_than_or_equal, less_than_or_equal,
  FilterValue, text, texts, truth, File,
}

-- A filter function, or the exception of the call that should have made it.
abbrev pub Filter : Type 0 → Type 0
Filter A = Result (A → Result Bool)

-- list(filter(filter_func, values)): the function may raise at a value.
unfoldable pub filter_list : {A : Type 0} → (A → Result Bool) → List A → Result (List A)
filter_list f [] = ok []
filter_list f (x ∷ xs) =
    and_then (f x) (λ kept. result_map (λ rest. if kept then x ∷ rest else rest) (filter_list f xs))

abbrev pub pure_filter : {A : Type 0} → (A → Bool) → Filter A
pure_filter p = ok (λ x. ok (p x))

abbrev pub negation : {A : Type 0} → (A → Bool) → A → Bool
negation filter value = not (filter value)

-- file.filename or "" and the like
abbrev or_empty : Option String → String
or_empty none = ""
or_empty (some s) = s

abbrev extract_file_name : File → String
extract_file_name f = or_empty f.filename

abbrev extract_file_type : File → String
extract_file_type f = f.type

abbrev extract_file_extension : File → String
extract_file_extension f = or_empty f.extension

abbrev extract_file_mime_type : File → String
extract_file_mime_type f = or_empty f.mime_type

abbrev extract_file_transfer_method : File → String
extract_file_transfer_method f = f.transfer_method

abbrev extract_file_url : File → String
extract_file_url f = or_empty f.remote_url

abbrev extract_file_related_id : File → String
extract_file_related_id f = or_empty f.related_id

abbrev invalid_key {ℓ} : {A : Type ℓ} → String → Result A
invalid_key key = err (list_operator_error (str_append "Invalid key: " key))

-- _FILE_STRING_EXTRACTORS[key], or InvalidKeyError
abbrev pub get_file_extract_string_func : String → Result (File → String)
get_file_extract_string_func key =
    if key == "name"
    then ok extract_file_name
    else if key == "type"
    then ok extract_file_type
    else if key == "extension"
    then ok extract_file_extension
    else if key == "mime_type"
    then ok extract_file_mime_type
    else if key == "transfer_method"
    then ok extract_file_transfer_method
    else if key == "url"
    then ok extract_file_url
    else if key == "related_id"
    then ok extract_file_related_id
    else invalid_key key

abbrev pub get_file_extract_number_func : String → Result (File → ℤ)
get_file_extract_number_func key = if key == "size" then ok (λ f. f.size) else invalid_key key

-- The operator's own text, for the message.
abbrev operator_text : FilterOperator → String
operator_text contains = "contains"
operator_text start_with = "start with"
operator_text end_with = "end with"
operator_text is = "is"
operator_text in_list = "in"
operator_text empty = "empty"
operator_text not_contains = "not contains"
operator_text is_not = "is not"
operator_text not_in = "not in"
operator_text not_empty = "not empty"
operator_text equal = "="
operator_text not_equal = "≠"
operator_text less_than = "<"
operator_text greater_than = ">"
operator_text greater_than_or_equal = "≥"
operator_text less_than_or_equal = "≤"

abbrev pub invalid_condition {ℓ} : {A : Type ℓ} → FilterOperator → Result A
invalid_condition condition =
    err (list_operator_error (str_append "Invalid condition: " (operator_text condition)))

-- The functions that _contains, _startswith, _endswith, _is and _in return, at a text.
abbrev has_value : String → String → Bool
has_value value x = has_part x value

abbrev is_value : String → String → Bool
is_value value x = x == value

abbrev text_has : String → String → Bool
text_has value x = has_part value x

abbrev texts_have : List String → String → Bool
texts_have value x = is_listed value x

abbrev is_empty_text : String → Bool
is_empty_text x = x == ""

unfoldable pub get_string_filter_func : FilterOperator → String → Filter String
get_string_filter_func empty value = pure_filter is_empty_text
get_string_filter_func not_empty value = pure_filter (negation is_empty_text)
get_string_filter_func contains value = pure_filter (has_value value)
get_string_filter_func start_with value = pure_filter (λ x. Texts.start_with x value)
get_string_filter_func end_with value = pure_filter (λ x. Texts.end_with x value)
get_string_filter_func is value = pure_filter (is_value value)
get_string_filter_func in_list value = pure_filter (text_has value)
get_string_filter_func not_contains value = pure_filter (negation (has_value value))
get_string_filter_func is_not value = pure_filter (negation (is_value value))
get_string_filter_func not_in value = pure_filter (negation (text_has value))
get_string_filter_func condition value = invalid_condition condition

-- `in` of a text is about its parts, `in` of a list about its members.
abbrev in_value : FilterValue → String → Bool
in_value (text s) x = text_has s x
in_value (texts ss) x = texts_have ss x
in_value (truth b) x = false

unfoldable pub get_sequence_filter_func : FilterOperator → FilterValue → Filter String
get_sequence_filter_func in_list value = pure_filter (in_value value)
get_sequence_filter_func not_in value = pure_filter (negation (in_value value))
get_sequence_filter_func condition value = invalid_condition condition

abbrev same_truth : Bool → Bool → Bool
same_truth true b = b
same_truth false b = not b

unfoldable pub get_boolean_filter_func : FilterOperator → Bool → Filter Bool
get_boolean_filter_func is value = pure_filter (λ x. same_truth x value)
get_boolean_filter_func is_not value = pure_filter (negation (λ x. same_truth x value))
get_boolean_filter_func condition value = invalid_condition condition

module _ {F O : Type 0} (py : PyOps F O) where
  unfoldable pub get_number_filter_func : FilterOperator → F → Filter (Number F)
  get_number_filter_func equal value = pure_filter (λ x. number_eq py x (real value))
  get_number_filter_func not_equal value = pure_filter (λ x. not (number_eq py x (real value)))
  get_number_filter_func less_than value = pure_filter (λ x. number_lt py x (real value))
  get_number_filter_func less_than_or_equal value = pure_filter (λ x. number_le py x (real value))
  get_number_filter_func greater_than value = pure_filter (λ x. number_lt py (real value) x)
  get_number_filter_func greater_than_or_equal value =
      pure_filter (λ x. number_le py (real value) x)
  get_number_filter_func condition value = invalid_condition condition

  -- filter(...)(extract(file)): the filter is made anew at every file.
  abbrev at_file : {A : Type 0} → Filter A → (File → A) → File → Result Bool
  at_file filter extract f = and_then filter (λ test. test (extract f))

  abbrev text_key : String → Bool
  text_key key =
      key == "name"
      || (key == "extension" || (key == "mime_type" || (key == "url" || key == "related_id")))

  abbrev sequence_key : String → Bool
  sequence_key key = key == "type" || key == "transfer_method"

  -- The number filter of a size: float(value) may raise.
  abbrev size_filter : FilterOperator → String → Filter (Number F)
  size_filter condition value = and_then (py.float_of_text value) (get_number_filter_func condition)

  abbrev file_sequence_filter : String → FilterOperator → FilterValue → Filter File
  file_sequence_filter key condition value =
      result_map (at_file (get_sequence_filter_func condition value))
        (get_file_extract_string_func key)

  abbrev file_text_filter : String → FilterOperator → String → Filter File
  file_text_filter key condition value =
      if text_key key
      then result_map (at_file (get_string_filter_func condition value))
          (get_file_extract_string_func key)
      else if sequence_key key
      then file_sequence_filter key condition (text value)
      else if key == "size"
      then result_map (λ extract. at_file (size_filter condition value) (λ f. whole (extract f)))
          (get_file_extract_number_func key)
      else invalid_key key

  unfoldable pub get_file_filter_func : String → FilterOperator → FilterValue → Filter File
  unfolding get_string_filter_func get_sequence_filter_func get_number_filter_func
  get_file_filter_func key condition (text value) = file_text_filter key condition value
  get_file_filter_func key condition value =
      if sequence_key key then file_sequence_filter key condition value else invalid_key key
