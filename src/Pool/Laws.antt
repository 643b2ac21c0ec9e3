-- ===== src/Pool/Laws.antt =====
-- Writing, reading and removing variables by selectors of two elements.
use graphon.Prelude.{
  String, ◌≡◌, refl, ◌&&◌, inl, inr, none, some, List, [], ◌∷◌, arith, ◌==◌, eq_iff, Option-cases,
  Bool-cases, if◌then◌else◌,
}
use graphon.Exec.{ok}
use graphon.Dict
use graphon.Dict.{Dict, get-put, get-remove}
use graphon.Pool.{SegmentFactory, VariablePool, store, get_variable, remove, to_variable, add}

abbrev pub pair : String → String → List String
pair n x = n ∷ x ∷ []

module _ {V : Type 0} where
  -- A write shows at its own selector and nowhere else.
  get_variable-store :
      (pool : VariablePool V) (n x m y : String) (v : V)
      → get_variable (store pool n x v) (pair m y)
        ≡ (if n == m && x == y then some v else get_variable pool (pair m y))
  unfolding get_variable store Dict.get_or
  get_variable-store pool n x m y v = simp get-put (elim (Bool-cases (n == m)) [
    | inl same ↦ rw same (elim (Option-cases (Dict.get pool n)) [
      | inl absent ↦ rw (← (eq_iff n m).0 same) (rw absent (simp get-put (unfold Dict.get in refl)))
      | inr (variables, found) ↦ rw (← (eq_iff n m).0 same) (rw found (simp get-put))
    ])
    | inr other ↦ rw other
  ])

-- `add` at a selector of two elements returns if the value can be converted, and then the new
-- variable is read back at that selector while every other one reads as before.
pub get_variable-add :
    {V : Type 0} (factory : SegmentFactory V) (pool : VariablePool V) (n x : String) (value v : V)
    → to_variable factory value (pair n x) ≡ ok v
    → ((add factory (pair n x) value pool).0 ≡ ok tt)
      × ((m y : String)
          → get_variable (add factory (pair n x) value pool).1 (pair m y)
            ≡ (if n == m && x == y then some v else get_variable pool (pair m y)))
unfolding add
get_variable-add factory pool n x value v converted =
    rw converted (refl, λ m y. get_variable-store pool n x m y v)

-- After `remove` of a selector of two elements nothing is read there, and every other selector of
-- two elements reads as before.
pub get_variable-remove :
    {V : Type 0} (pool : VariablePool V) (n x m y : String)
    → get_variable (remove pool (pair n x)) (pair m y)
      ≡ (if n == m && x == y then none else get_variable pool (pair m y))
unfolding get_variable remove Dict.get_or
get_variable-remove pool n x m y = simp get-put (elim (Bool-cases (n == m)) [
  | inl same ↦ rw same (elim (Option-cases (Dict.get pool n)) [
    | inl absent ↦
        rw (← (eq_iff n m).0 same) (rw absent (simp get-remove (unfold Dict.get in ground arith)))
    | inr (variables, found) ↦ rw (← (eq_iff n m).0 same) (rw found (simp get-remove))
  ])
  | inr other ↦ rw other
])
