-- ===== src/ListOperator.antt =====
-- nodes/list_operator/entities.py, and the segments that nodes/list_operator/node.py tells apart.
pub mod Filters
pub mod Cuts
pub mod Node
pub mod Filtering
pub mod Ordering
pub mod Partition
pub mod Outcome
pub mod Run
use graphon.Prelude.{ℕ, String, Bool, true, false, Option, none, some, List, [], ◌∷◌, map, ◌==◌}
use graphon.Exec.{Result}
use graphon.Conditions.{
  ℤ, Value, boolean, integer, floating, string, object, Number, whole, real, PyOps,
}

pub data FilterOperator : Type 0 where
  contains start_with end_with is in_list empty : FilterOperator
  not_contains is_not not_in not_empty : FilterOperator
  equal not_equal less_than greater_than greater_than_or_equal less_than_or_equal : FilterOperator

pub data Order : Type 0 where
  asc desc : Order

-- order == Order.DESC
abbrev pub is_desc : Order → Bool
is_desc asc = false
is_desc desc = true

-- A text, a list of texts or a boolean.
pub data FilterValue : Type 0 where
  text : String → FilterValue
  texts : List String → FilterValue
  truth : Bool → FilterValue

pub record FilterCondition : Type 0 where
  pub key : String
  pub comparison_operator : FilterOperator
  pub value : FilterValue

pub record FilterBy : Type 0 where
  pub enabled : Bool
  pub conditions : List FilterCondition

pub record OrderByConfig : Type 0 where
  pub enabled : Bool
  pub key : String
  pub value : Order

pub record Limit : Type 0 where
  pub enabled : Bool
  pub size : ℤ

pub record ExtractConfig : Type 0 where
  pub enabled : Bool
  pub serial : String

pub record ListOperatorNodeData : Type 0 where
  pub variable : List String
  pub filter_by : FilterBy
  pub order_by : OrderByConfig
  pub limit : Limit
  pub extract_by : ExtractConfig

pub record File : Type 0 where
  pub filename : Option String
  pub type : String
  pub extension : Option String
  pub mime_type : Option String
  pub transfer_method : String
  pub remote_url : Option String
  pub related_id : Option String
  pub size : ℤ

-- Files, and the dictionaries that other values are.
pub data Object (D : Type 0) : Type 0 where
  file : File → Object D
  dictionary : D → Object D

-- _SUPPORTED_TYPES_ALIAS
pub data Supported (F : Type 0) : Type 0 where
  array_file : List File → Supported F
  array_number : List (Number F) → Supported F
  array_string : List String → Supported F
  array_boolean : List Bool → Supported F

-- The segments of the pool.
pub data Segment (F D : Type 0) : Type 0 where
  supported : Supported F → Segment F D
  -- An ArraySegment of another class: an ArrayAnySegment, or one whose name is given.
  array_any : List (Value F (Object D)) → Segment F D
  other_array : String → List (Value F (Object D)) → Segment F D
  -- No ArraySegment.
  no_array : Value F (Object D) → Segment F D

module _ {F D : Type 0} where
  abbrev pub of_number : Number F → Value F (Object D)
  of_number (whole z) = integer z
  of_number (real f) = floating f

  abbrev pub of_file : File → Value F (Object D)
  of_file f = object (file f)

  -- variable.value
  abbrev pub supported_values : Supported F → List (Value F (Object D))
  supported_values (array_file fs) = map of_file fs
  supported_values (array_number ns) = map of_number ns
  supported_values (array_string ss) = map string ss
  supported_values (array_boolean bs) = map boolean bs

  abbrev pub array_values : Segment F D → List (Value F (Object D))
  array_values (supported s) = supported_values s
  array_values (array_any vs) = vs
  array_values (other_array name vs) = vs
  array_values (no_array v) = []

-- What the node uses of the variable pool, of files and of their types.
pub record PoolOps (F D : Type 0) : Type 0 where
  pub get : List String → Result (Option (Segment F D))
  -- convert_template(template).text
  pub convert_template : String → Result String
  pub to_dict : File → Value F (Object D)
  -- type(variable)
  pub type_name : Segment F D → String
  -- f"{selector}" of a list of texts
  pub selector_text : List String → String
