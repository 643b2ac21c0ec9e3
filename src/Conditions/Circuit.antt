-- ===== src/Conditions/Circuit.antt =====
-- utils/condition/processor.py, process_conditions: the short circuit.
use graphon.Prelude.{
  ◌≡◌, refl, sym, ap, subst, ◌∙◌, inl, inr, Bool, true, false, List, [], ◌∷◌, ◌++◌, map, any,
  any-append, Bool-cases, arith, if◌then◌else◌,
}
use mathlib.Core.List.{append_assoc, append-nil}
use graphon.Exec.{Result, ok, err}
use graphon.Conditions.{PyOps}
use graphon.Conditions.Evaluators.{and_then, result_map}
use graphon.Conditions.Entities.{
  Logic, logical_and, logical_or, Condition, Pool, InputCondition, ConditionCheckResult,
  result_list, combine, decides,
}
use graphon.Conditions.Processor.{check_condition, process_from, process_conditions}

-- A result that decides is what the whole comes to.
combine-decided :
    (operator : Logic) (xs : List Bool) (x : Bool) (ys : List Bool)
    → decides operator x ≡ true
    → combine operator (xs ++ x ∷ ys) ≡ x
combine-decided logical_and [] true ys h = absurd (let clash : false ≡ true = h in cc)
combine-decided logical_and [] false ys h = refl
combine-decided logical_and (b ∷ xs) x ys h = ground (arith, combine-decided logical_and xs x ys h)
combine-decided logical_or [] true ys h = refl
combine-decided logical_or [] false ys h = absurd (let clash : false ≡ true = h in cc)
combine-decided logical_or (b ∷ xs) x ys h = ground (arith, combine-decided logical_or xs x ys h)

module _ {F O : Type 0} (py : PyOps F O) (pool : Pool F O) where
  abbrev pub Checked : Type 0
  Checked = List (InputCondition F O) × Bool

  -- The results of all conditions, without a short circuit.
  abbrev pub outcomes : List (Condition F O) → Result (List Checked)
  outcomes conditions = result_list (check_condition py pool) conditions

  abbrev result_of : Checked → Bool
  result_of (inputs, result) = result

  abbrev listed : List Checked → Result (List Checked) → List Checked
  listed default (ok xs) = xs
  listed default (err e) = default

  -- A list of results begins with that of the first.
  record Split (first : Result Checked) (rest : Result (List Checked)) (all_checked : List Checked)
      : Type 0 where
    head : Checked
    tail : List Checked
    first_is : first ≡ ok head
    rest_is : rest ≡ ok tail
    together : head ∷ tail ≡ all_checked

  split :
      (first : Result Checked) (rest : Result (List Checked)) (all_checked : List Checked)
      → and_then first (λ y. result_map (λ ys. y ∷ ys) rest) ≡ ok all_checked
      → Split first rest all_checked
  split (ok x) (ok xs) all_checked e = record {
    head = x;
    tail = xs;
    first_is = refl;
    rest_is = refl;
    together = ap (listed []) e;
  }
  split (ok x) (err f) all_checked e = cc
  split (err f) rest all_checked e = cc

  -- The loop comes to what all results together come to.
  record Comes (r : Result (ConditionCheckResult F O)) (final : Bool) : Type 0 where
    outcome : ConditionCheckResult F O
    returns : r ≡ ok outcome
    final_is : outcome.final_result ≡ final

  process_from-Comes :
      (operator : Logic) (conditions : List (Condition F O)) (inputs : List (InputCondition F O))
      (results : List Bool) (checked : List Checked)
      → outcomes conditions ≡ ok checked
      → Comes
          (process_from py pool operator conditions inputs results)
          (combine operator (results ++ map result_of checked))
  unfolding process_from result_list
  process_from-Comes operator [] inputs results checked e = record {
    outcome = _;
    returns = refl;
    final_is =
        ap (combine operator)
          (sym (append-nil results) ∙ ap (λ xs. results ++ map result_of xs) (ap (listed []) e));
  }
  process_from-Comes operator (condition ∷ conditions) inputs results checked e =
      let s = split (check_condition py pool condition) (outcomes conditions) checked e in
      subst
        (λ xs.
          Comes (process_from py pool operator (condition ∷ conditions) inputs results)
            (combine operator (results ++ map result_of xs)))
        s.together
        (rw s.first_is (
          go s.head s.tail (decides operator s.head.1) refl (
            process_from-Comes operator conditions (inputs ++ s.head.0) (results ++ s.head.1 ∷ [])
              s.tail s.rest_is)))
    where
      go :
          (head : Checked) (tail : List Checked) (b : Bool)
          → decides operator head.1 ≡ b
          → Comes
              (process_from py pool operator conditions (inputs ++ head.0) (results ++ head.1 ∷ []))
              (combine operator ((results ++ head.1 ∷ []) ++ map result_of tail))
          → Comes
              (if b
                then ok (record {
                  inputs = inputs ++ head.0;
                  group_results = results ++ head.1 ∷ [];
                  final_result = head.1;
                })
                else process_from py pool operator conditions
                    (inputs ++ head.0)
                    (results ++ head.1 ∷ []))
              (combine operator (results ++ map result_of (head ∷ tail)))
      go (input, result) tail true decided more = record {
        outcome = _;
        returns = refl;
        final_is = sym (combine-decided operator results result (map result_of tail) decided);
      }
      go (input, result) tail false open_still more = record {
        outcome = more.outcome;
        returns = more.returns;
        final_is =
            more.final_is
            ∙ ap (combine operator) (append_assoc results (result ∷ []) (map result_of tail));
      }

  -- When each of the conditions can be evaluated, process_conditions returns, and its final result
  -- is that of all of them together: the conjunction of their results for "and", the disjunction
  -- for "or".
  pub process_conditions-combine :
      (operator : Logic) (conditions : List (Condition F O))
      (checked : List (List (InputCondition F O) × Bool))
      → outcomes conditions ≡ ok checked
      → (outcome : ConditionCheckResult F O) × (process_conditions py pool operator conditions
          ≡ ok outcome)
        × (outcome.final_result ≡ combine operator (map (λ c. c.1) checked))
  unfolding process_conditions
  process_conditions-combine operator conditions checked e =
      let c = process_from-Comes operator conditions [] [] checked e in
      (c.outcome, c.returns, c.final_is)

  abbrev groups_of : List Bool → Result (ConditionCheckResult F O) → List Bool
  groups_of default (ok outcome) = outcome.group_results
  groups_of default (err e) = default

  -- The loop behind a checked condition.
  abbrev onward :
      Logic
      → List (Condition F O)
      → List (InputCondition F O)
      → List Bool
      → Checked
      → Result (ConditionCheckResult F O)
  onward operator conditions inputs results (input, result) =
      if decides operator result
      then ok (record {
        inputs = inputs ++ input;
        group_results = results ++ result ∷ [];
        final_result = result;
      })
      else process_from py pool operator conditions (inputs ++ input) (results ++ result ∷ [])

  process_from-decided :
      (operator : Logic) (conditions others : List (Condition F O))
      (inputs : List (InputCondition F O)) (results : List Bool)
      (outcome : ConditionCheckResult F O)
      → process_from py pool operator conditions inputs results ≡ ok outcome
      → any (decides operator) results ≡ false
      → any (decides operator) outcome.group_results ≡ true
      → process_from py pool operator (conditions ++ others) inputs results ≡ ok outcome
  unfolding process_from
  process_from-decided operator [] others inputs results outcome e undecided decided = absurd (
      let clash : false ≡ true =
        sym undecided ∙ (ap (any (decides operator)) (ap (groups_of []) e) ∙ decided) in
      cc)
  process_from-decided operator (condition ∷ conditions) others inputs results outcome e undecided
        decided =
      go (check_condition py pool condition) e (λ input result.
        process_from-decided operator conditions others (inputs ++ input) (results ++ result ∷ [])
          outcome)
    where
      go :
          (r : Result Checked)
          → and_then r (onward operator conditions inputs results) ≡ ok outcome
          → ((input : List (InputCondition F O)) (result : Bool)
              → process_from py pool operator conditions (inputs ++ input) (results ++ result ∷ [])
                ≡ ok outcome
              → any (decides operator) (results ++ result ∷ []) ≡ false
              → any (decides operator) outcome.group_results ≡ true
              → process_from py pool operator
                  (conditions ++ others)
                  (inputs ++ input)
                  (results ++ result ∷ [])
                ≡ ok outcome)
          → and_then r (onward operator (conditions ++ others) inputs results) ≡ ok outcome
      go (err x) is later = cc
      go (ok (input, result)) is later = elim (Bool-cases (decides operator result)) [
        | inl stops ↦ rw stops (rw stops at is)
        | inr goes ↦ rw goes (
            later input result (rw goes at is)
              (any-append (decides operator) results (result ∷ []) ∙ rw (undecided, goes) refl)
              decided)
      ]

  -- Once a condition has decided, the conditions behind it are not looked at: whatever they are,
  -- also such as raise an exception, the outcome is the same.
  pub process_conditions-decided :
      (operator : Logic) (conditions others : List (Condition F O))
      (outcome : ConditionCheckResult F O)
      → process_conditions py pool operator conditions ≡ ok outcome
      → any (decides operator) outcome.group_results ≡ true
      → process_conditions py pool operator (conditions ++ others) ≡ ok outcome
  unfolding process_conditions
  process_conditions-decided operator conditions others outcome e decided =
      process_from-decided operator conditions others [] [] outcome e refl decided
