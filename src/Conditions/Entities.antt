-- ===== src/Conditions/Entities.antt =====
-- utils/condition/entities.py, with the small tests of processor.py: conditions, and the variables
-- that they are about.
use graphon.Prelude.{
  String, Bool, true, false, not, ◌||◌, Option, List, [], ◌∷◌, any, all, ◌==◌, if◌then◌else◌,
}
use Prim.Native.String.{◌++◌ as str_append}
use graphon.Exec.{Result, ok, err, value_error}
use graphon.Conditions.{Value, Values, nil, cons}
use graphon.Conditions.Texts.{start_with}
use graphon.Conditions.Evaluators.{
  Operator, contains, not_contains, is_not, not_empty, not_in_list, all_of, not_null, exists,
  not_exists, and_then, result_map,
}

-- The logical operators "and" and "or".
pub data Logic : Type 0 where
  logical_and logical_or : Logic

pub data FileAttribute : Type 0 where
  type size name mime_type transfer_method url extension related_id : FileAttribute

-- FileAttribute(key)
abbrev pub file_attribute : String → Result FileAttribute
file_attribute key =
    if key == "type"
    then ok type
    else if key == "size"
    then ok size
    else if key == "name"
    then ok name
    else if key == "mime_type"
    then ok mime_type
    else if key == "transfer_method"
    then ok transfer_method
    else if key == "url"
    then ok url
    else if key == "extension"
    then ok extension
    else if key == "related_id"
    then ok related_id
    else err (value_error "not a valid FileAttribute")

abbrev pub is_extension : FileAttribute → Bool
is_extension extension = true
is_extension _ = false

-- _FILE_SUB_CONDITION_OPERATORS
abbrev pub is_file_operator : Operator → Bool
is_file_operator contains = true
is_file_operator not_contains = true
is_file_operator all_of = true
is_file_operator _ = false

-- _EXISTENCE_OPERATORS
abbrev pub is_existence : Operator → Bool
is_existence exists = true
is_existence not_exists = true
is_existence _ = false

-- "not" in comparison_operator
abbrev pub has_not : Operator → Bool
has_not not_contains = true
has_not is_not = true
has_not not_empty = true
has_not not_in_list = true
has_not not_null = true
has_not not_exists = true
has_not _ = false

-- The classes of segments that the conditions tell apart.
pub data SegmentKind : Type 0 where
  -- ArrayFileSegment; BooleanSegment and ArrayBooleanSegment; any other
  array_file boolean_like other_kind : SegmentKind

pub record Variable (F O : Type 0) : Type 0 where
  pub kind : SegmentKind
  pub value : Value F O

pub record SubCondition (F O : Type 0) : Type 0 where
  pub key : String
  pub comparison_operator : Operator
  -- A text, a list of texts, or null.
  pub value : Value F O

pub record SubVariableCondition (F O : Type 0) : Type 0 where
  pub logical_operator : Logic
  pub conditions : List (SubCondition F O)

pub record Condition (F O : Type 0) : Type 0 where
  pub variable_selector : List String
  pub comparison_operator : Operator
  pub value : Value F O
  pub sub_variable_condition : Option (SubVariableCondition F O)

-- The variable pool's get and convert_template(...).text, and file_manager.get_attr.
pub record Pool (F O : Type 0) : Type 0 where
  pub get : List String → Result (Option (Variable F O))
  pub convert_template : String → Result String
  pub get_attr : Value F O → FileAttribute → Result (Value F O)

pub record InputCondition (F O : Type 0) : Type 0 where
  pub actual_value : Value F O
  pub expected_value : Value F O
  pub comparison_operator : Operator

pub record ConditionCheckResult (F O : Type 0) : Type 0 where
  pub inputs : List (InputCondition F O)
  pub group_results : List Bool
  pub final_result : Bool

-- [f(x) for x in xs]
unfoldable pub result_list : {A B : Type 0} → (A → Result B) → List A → Result (List B)
result_list f [] = ok []
result_list f (x ∷ xs) = and_then (f x) (λ y. result_map (λ ys. y ∷ ys) (result_list f xs))

abbrev pub of_items : {F O : Type 0} → List (Value F O) → Values F O
of_items [] = nil
of_items (v ∷ vs) = cons v (of_items vs)

-- all(results) if operator == "and" else any(results)
abbrev pub combine : Logic → List Bool → Bool
combine logical_and results = all (λ b. b) results
combine logical_or results = any (λ b. b) results

-- (operator == "and" and not result) or (operator == "or" and result)
abbrev pub decides : Logic → Bool → Bool
decides logical_and result = not result
decides logical_or result = result

abbrev pub with_dot : String → String
with_dot s = if s == "" || start_with s "." then s else str_append "." s

abbrev pub is_boolean_kind : SegmentKind → Bool
is_boolean_kind boolean_like = true
is_boolean_kind _ = false

abbrev pub is_array_file : SegmentKind → Bool
is_array_file array_file = true
is_array_file _ = false
