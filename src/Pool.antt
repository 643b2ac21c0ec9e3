-- ===== src/Pool.antt =====
-- runtime/variable_pool.py: the two-level dictionary of variables, by node id and by name. The
-- conversion of values to variables (variables/factory.py) is a parameter.
pub mod Laws
pub mod Nested
use graphon.Prelude.{
  ℕ, String, ◌≡◌, Bool, true, false, Option, none, some, List, [], ◌∷◌, if◌then◌else◌,
}
use graphon.Exec.{Result, ok, err, Exception, value_error, Exec, raise, pure, modify, ◌>>=◌}
use graphon.Dict
use graphon.Dict.{Dict}

-- `isinstance(value, Segment)`, `build_segment` and `segment_to_variable`.
pub record SegmentFactory (V : Type 0) : Type 0 where
  pub is_segment : V → Bool
  pub build_segment : V → Result V
  pub segment_to_variable : V → List String → Result V

abbrev pub VariablePool : Type 0 → Type 0
VariablePool V = Dict (Dict V)

module _ {V : Type 0} where
  -- variable_dictionary[node_id], where the `defaultdict` makes an empty dictionary
  unfoldable pub node_map : VariablePool V → String → Dict V
  node_map pool node_id = Dict.get_or pool node_id []

  -- self.variable_dictionary[node_id][name] = variable
  unfoldable pub store : VariablePool V → String → String → V → VariablePool V
  unfolding node_map
  store pool node_id name v = Dict.put pool node_id (Dict.put (node_map pool node_id) name v)

  -- node_map.get(name) if node_map is not None else None
  abbrev pub read : Option (Dict V) → String → Option V
  read none name = none
  read (some variables) name = Dict.get variables name

  -- The variable of a selector of two elements.
  unfoldable pub get_variable : VariablePool V → List String → Option V
  get_variable pool (node_id ∷ name ∷ []) = read (Dict.get pool node_id) name
  get_variable pool _ = none

  unfoldable pub remove : VariablePool V → List String → VariablePool V
  unfolding node_map
  remove pool [] = pool
  remove pool (node_id ∷ []) = Dict.put pool node_id []
  remove pool (node_id ∷ name ∷ _) =
      Dict.put pool node_id (Dict.remove (node_map pool node_id) name)

  unfoldable pub get_by_prefix : VariablePool V → String → Dict V
  get_by_prefix pool prefix = Dict.get_or pool prefix []

  module _ (factory : SegmentFactory V) where
    -- `match value` of `add`
    unfoldable pub to_variable : V → List String → Result V
    to_variable value selector =
        if factory.is_segment value
        then factory.segment_to_variable value selector
        else elim (factory.build_segment value) [
          | ok segment ↦ factory.segment_to_variable segment selector
          | err e ↦ err e
        ]

    unfoldable pub store_result :
        VariablePool V → String → String → Result V → Result (Unit {0}) × VariablePool V
    unfolding store
    store_result pool node_id name (ok v) = (ok tt, store pool node_id name v)
    store_result pool node_id name (err e) = (err e, pool)

    unfoldable pub add : List String → V → Exec (VariablePool V) Unit
    unfolding store_result to_variable
    add (node_id ∷ name ∷ []) value pool =
        store_result pool node_id name (to_variable value (node_id ∷ name ∷ []))
    add _ value pool = (err (value_error "Invalid selector"), pool)
