-- ===== src/ListOperator/Run.antt =====
-- nodes/list_operator/node.py, _run: the result of the node.
use mathlib.Core.List.Perm
use graphon.Prelude.{
  ◌≤◌, ◌≡◌, refl, ap, ◌∙◌, subst, inl, inr, Option, some, none, List, [], length, arith, Bool-cases,
}
use graphon.Exec.{
  key_error, value_error, runtime_error, not_implemented_error, type_error, assertion_error,
  list_operator_error, empty_error, recursion_error, Result, ok, err,
}
use graphon.Conditions.{Value, PyOps}
use graphon.ListOperator.{
  ListOperatorNodeData, Object, Supported, array_file, array_number, array_string, array_boolean,
  supported, supported_values, array_values, PoolOps,
}
use graphon.ListOperator.Filtering.{ok_inj}
use graphon.ListOperator.Partition.{IsPart}
use graphon.ListOperator.Outcome.{limit_bound, apply_operations-Within}
use graphon.ListOperator.Node.{
  RunResult, Outputs, build_outputs, emptied, build_input_payload, operated, is_falsy,
  apply_operations, run,
}

some_inj : {A : Type 0} {a b : A} → some a ≡ some b → a ≡ b
some_inj {A} {a} e = ap get e
  where
    get : Option A → A
    get (some x) = x
    get none = a

module _ {F D : Type 0} (py : PyOps F (Object D)) (pool : PoolOps F D) where
  -- What comes out is a part of the list, and not more than the limit lets through.
  abbrev pub IsLimitedPart : ListOperatorNodeData → Supported F → Outputs F D → Type 0
  IsLimitedPart d v o =
      IsPart (array_values o.result) (supported_values v)
      × length (array_values o.result)
        ≤ limit_bound py pool d.limit (length (supported_values {D = D} v))

  operated-outputs :
      (payload : List (Value F (Object D))) (result : Result (Supported F)) (r : RunResult F D)
      (o : Outputs F D)
      → operated py pool payload result ≡ ok r
      → r.outputs ≡ some o
      → (w : Supported F) × (result ≡ ok w) × (supported w ≡ o.result)
  operated-outputs payload (ok w) r o e out =
      (w, refl, ap (λ x. x.result) (some_inj (ap (λ x. x.outputs) (ok_inj e) ∙ out)))
  operated-outputs payload (err (list_operator_error m)) r o e out =
      absurd (let clash = ap (λ x. x.outputs) (ok_inj e) ∙ out in cc)
  operated-outputs payload (err (key_error m)) r o e out = cc
  operated-outputs payload (err (value_error m)) r o e out = cc
  operated-outputs payload (err (runtime_error m)) r o e out = cc
  operated-outputs payload (err (not_implemented_error m)) r o e out = cc
  operated-outputs payload (err (type_error m)) r o e out = cc
  operated-outputs payload (err (assertion_error m)) r o e out = cc
  operated-outputs payload (err empty_error) r o e out = cc
  operated-outputs payload (err recursion_error) r o e out = cc

  emptied-nil : (v : Supported F) → array_values (emptied py pool (supported v)) ≡ []
  emptied-nil (array_string xs) = refl
  emptied-nil (array_number xs) = refl
  emptied-nil (array_boolean xs) = refl
  emptied-nil (array_file xs) = refl

  empty_part :
      (d : ListOperatorNodeData) (v : Supported F)
      → IsLimitedPart d v (build_outputs py pool (emptied py pool (supported v)))
  empty_part d v =
      rw (emptied-nil v) (record { others = supported_values v; together = Perm.rfl }, omega arith)

  -- A run on a list of texts, numbers, booleans or files that has outputs gives a part of the list:
  -- with further values the result is the list up to their order. And it has no more values than an
  -- enabled limit lets through: its size, or, if the size is negative, as many as are left of the
  -- list's length without as many.
  pub run-IsLimitedPart :
      (d : ListOperatorNodeData) (v : Supported F) (r : RunResult F D) (o : Outputs F D)
      → pool.get d.variable ≡ ok (some (supported v))
      → run py pool d ≡ ok r
      → r.outputs ≡ some o
      → IsLimitedPart d v o
  unfolding run
  run-IsLimitedPart d v r o found e out = elim (Bool-cases (is_falsy py pool (supported v))) [
    | inl falsy ↦
        subst (IsLimitedPart d v)
          (some_inj (ap (λ x. x.outputs) (ok_inj (rw falsy at (rw found at e))) ∙ out))
          (empty_part d v)
    | inr full ↦
        let (w, is_w, shown) =
          operated-outputs (build_input_payload py pool v) (apply_operations py pool d v) r o
            (rw full at (rw found at e)) out in
        subst
          (λ u.
            IsPart (array_values u) (supported_values v)
            × length (array_values u)
              ≤ limit_bound py pool d.limit (length (supported_values {D = D} v)))
          shown (apply_operations-Within py pool d v w is_w)
  ]
