-- ===== src/Conditions.antt =====
-- utils/condition and nodes/if_else: Python's values as the conditions see them.
pub mod Texts
pub mod Evaluators
pub mod Entities
pub mod Processor
pub mod Opposites
pub mod Circuit
pub mod IfElse
use graphon.Prelude.{
  ℕ, zero, suc, String, Bool, true, false, Option, none, some, List, [], ◌∷◌, ◌&&◌, not, ltb, leb,
  nat_eq, ◌==◌,
}
use graphon.Exec.{Result, ok, err}

-- Python's int
pub data ℤ : Type 0 where
  pos : ℕ → ℤ
  -- -(n + 1)
  negsuc : ℕ → ℤ

abbrev pub integer_eq : ℤ → ℤ → Bool
integer_eq (pos a) (pos b) = nat_eq a b
integer_eq (negsuc a) (negsuc b) = nat_eq a b
integer_eq _ _ = false

abbrev pub integer_lt : ℤ → ℤ → Bool
integer_lt (pos a) (pos b) = ltb a b
integer_lt (pos a) (negsuc b) = false
integer_lt (negsuc a) (pos b) = true
integer_lt (negsuc a) (negsuc b) = ltb b a

abbrev pub integer_le : ℤ → ℤ → Bool
integer_le (pos a) (pos b) = leb a b
integer_le (pos a) (negsuc b) = false
integer_le (negsuc a) (pos b) = true
integer_le (negsuc a) (negsuc b) = leb b a

-- The values of segments. `F` is the type of floats; `O` that of files and dictionaries.
mutual
  pub data Value (F O : Type 0) : Type 0 where
    null : Value F O
    boolean : Bool → Value F O
    integer : ℤ → Value F O
    floating : F → Value F O
    string : String → Value F O
    array : Values F O → Value F O
    object : O → Value F O

  pub data Values (F O : Type 0) : Type 0 where
    nil : Values F O
    cons : Value F O → Values F O → Values F O

-- An int or a float. A bool is an int.
pub data Number (F : Type 0) : Type 0 where
  whole : ℤ → Number F
  real : F → Number F

module _ {F O : Type 0} where
  abbrev pub items : Values F O → List (Value F O)
  items nil = []
  items (cons v vs) = v ∷ items vs

  abbrev pub number_of : Value F O → Option (Number F)
  number_of (boolean false) = some (whole (pos 0))
  number_of (boolean true) = some (whole (pos 1))
  number_of (integer z) = some (whole z)
  number_of (floating f) = some (real f)
  number_of null = none
  number_of (string s) = none
  number_of (array vs) = none
  number_of (object o) = none

-- Floats, files and dictionaries, and the conversions of Python's standard library.
pub record PyOps (F O : Type 0) : Type 0 where
  -- float(s), float(n), int(s) and int(f)
  pub float_of_text : String → Result F
  pub float_of_integer : ℤ → Result F
  pub integer_of_text : String → Result ℤ
  pub truncate : F → Result ℤ
  pub is_integer : F → Bool
  -- The comparisons of two numbers of which one is a float.
  pub float_eq : Number F → Number F → Bool
  pub float_lt : Number F → Number F → Bool
  pub float_le : Number F → Number F → Bool
  pub float_truth : F → Bool
  pub object_eq : O → O → Bool
  pub object_truth : O → Bool
  -- str(value) and json.loads(s)
  pub str : Value F O → String
  pub loads : String → Result (Value F O)

module _ {F O : Type 0} (py : PyOps F O) where
  abbrev pub number_eq : Number F → Number F → Bool
  number_eq (whole a) (whole b) = integer_eq a b
  number_eq a b = py.float_eq a b

  abbrev pub number_lt : Number F → Number F → Bool
  number_lt (whole a) (whole b) = integer_lt a b
  number_lt a b = py.float_lt a b

  abbrev pub number_le : Number F → Number F → Bool
  number_le (whole a) (whole b) = integer_le a b
  number_le a b = py.float_le a b

  abbrev both_numbers : Option (Number F) → Option (Number F) → Bool
  both_numbers (some a) (some b) = number_eq a b
  both_numbers _ _ = false

  -- value == other. Lists compare their members, and a number equals no other kind of value.
  unfoldable mutual
    pub value_eq : Value F O → Value F O → Bool
    value_eq null null = true
    value_eq (string s) (string t) = s == t
    value_eq (array xs) (array ys) = values_eq xs ys
    value_eq (object o) (object p) = py.object_eq o p
    value_eq v w = both_numbers (number_of v) (number_of w)

    pub values_eq : Values F O → Values F O → Bool
    values_eq nil nil = true
    values_eq (cons v vs) (cons w ws) = value_eq v w && values_eq vs ws
    values_eq _ _ = false

  -- bool(value)
  unfoldable pub is_truthy : Value F O → Bool
  is_truthy null = false
  is_truthy (boolean b) = b
  is_truthy (integer z) = not (integer_eq z (pos 0))
  is_truthy (floating f) = py.float_truth f
  is_truthy (string s) = not (s == "")
  is_truthy (array nil) = false
  is_truthy (array (cons _ _)) = true
  is_truthy (object o) = py.object_truth o
