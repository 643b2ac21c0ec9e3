-- ===== src/Conditions/IfElse.antt =====
-- nodes/if_else/if_else_node.py and entities.py: the choice of a case.
use graphon.Prelude.{
  String, ◌≡◌, refl, ap, ◌∙◌, Bool, true, false, Option, none, some, List, [], ◌∷◌, ◌++◌, All, ◌==◌,
  if◌then◌else◌,
}
use graphon.Exec.{
  Exception, value_error, type_error, key_error, runtime_error, not_implemented_error,
  assertion_error, empty_error, recursion_error, list_operator_error, Result, ok, err,
}
use graphon.Conditions.{PyOps}
use graphon.Conditions.Entities.{Logic, logical_and, Condition, Pool, ConditionCheckResult}
use graphon.Conditions.Processor.{process_conditions}

pub record Case (F O : Type 0) : Type 0 where
  pub case_id : String
  pub logical_operator : Logic
  pub conditions : List (Condition F O)

pub record IfElseNodeData (F O : Type 0) : Type 0 where
  pub logical_operator : Option Logic
  pub conditions : Option (List (Condition F O))
  pub cases : Option (List (Case F O))

-- The result of the node: FAILED with an error, or SUCCEEDED with its outputs and the source handle
-- of the edges to take.
pub data CaseResult : Type 0 where
  failed : Exception → CaseResult
  succeeded : (result : Bool) (selected_case_id edge_source_handle : String) → CaseResult

abbrev or_and : Option Logic → Logic
or_and none = logical_and
or_and (some operator) = operator

abbrev or_none {ℓ} : {A : Type ℓ} → Option (List A) → List A
or_none none = []
or_none (some xs) = xs

-- `except (TypeError, ValueError)`
abbrev caught : Exception → Result CaseResult
caught (value_error m) = ok (failed (value_error m))
caught (list_operator_error m) = ok (failed (list_operator_error m))
caught (type_error m) = ok (failed (type_error m))
caught (key_error m) = err (key_error m)
caught (runtime_error m) = err (runtime_error m)
caught (not_implemented_error m) = err (not_implemented_error m)
caught (assertion_error m) = err (assertion_error m)
caught empty_error = err empty_error
caught recursion_error = err recursion_error

-- selected_case_id or "false"
abbrev pub or_false : String → String
or_false s = if s == "" then "false" else s

abbrev pub chosen : Bool → String → CaseResult
chosen result selected = succeeded result selected (or_false selected)

-- self.node_data.cases is None
abbrev is_absent {ℓ} : {A : Type ℓ} → Option A → Bool
is_absent none = true
is_absent (some _) = false

-- Without cases, the one of the deprecated fields.
unfoldable pub iter_cases :
    {F O : Type 0} → IfElseNodeData F O → Option (List (Case F O)) → List (Case F O)
iter_cases node_data (some cases) = cases
iter_cases node_data none =
    record {
      case_id = "true";
      logical_operator = or_and node_data.logical_operator;
      conditions = or_none node_data.conditions;
    }
    ∷ []

module _ {F O : Type 0} (py : PyOps F O) (pool : Pool F O) where
  abbrev pub check_case : Case F O → Result (ConditionCheckResult F O)
  check_case c = process_conditions py pool c.logical_operator c.conditions

  abbrev after_case :
      Result CaseResult → Bool → Case F O → Result (ConditionCheckResult F O) → Result CaseResult
  after_case next legacy c (err e) = caught e
  after_case next legacy c (ok outcome) =
      if outcome.final_result
      then ok (chosen outcome.final_result (if legacy then "true" else c.case_id))
      else next

  -- The loop over the cases. None has passed before, so that final_result is False at its end.
  unfoldable pub choose : Bool → List (Case F O) → Result CaseResult
  choose legacy [] = ok (chosen false "false")
  choose legacy (c ∷ cases) = after_case (choose legacy cases) legacy c (check_case c)

  -- IfElseNode._run
  unfoldable pub run : IfElseNodeData F O → Result CaseResult
  unfolding choose iter_cases
  run node_data = choose (is_absent node_data.cases) (iter_cases node_data node_data.cases)

  -- The conditions of the case can be evaluated, to this.
  pub record Gives (result : Bool) (c : Case F O) : Type 0 where
    pub outcome : ConditionCheckResult F O
    pub returns : check_case c ≡ ok outcome
    pub result_is : outcome.final_result ≡ result

  choose-first :
      (before : List (Case F O)) (c : Case F O) (behind : List (Case F O))
      → All (Gives false) before
      → Gives true c
      → choose false (before ++ c ∷ behind) ≡ ok (chosen true c.case_id)
  unfolding choose
  choose-first [] c behind none_before here =
      here_passes (check_case c) here.outcome here.returns here.result_is
    where
      here_passes :
          (r : Result (ConditionCheckResult F O)) (outcome : ConditionCheckResult F O)
          → r ≡ ok outcome
          → outcome.final_result ≡ true
          → after_case (choose false behind) false c r ≡ ok (chosen true c.case_id)
      here_passes r outcome e passes = rw e (rw passes refl)
  choose-first (b ∷ before) c behind (fails, none_before) here =
      passed_over (check_case b) fails.outcome fails.returns fails.result_is
      ∙ choose-first before c behind none_before here
    where
      passed_over :
          (r : Result (ConditionCheckResult F O)) (outcome : ConditionCheckResult F O)
          → r ≡ ok outcome
          → outcome.final_result ≡ false
          → after_case (choose false (before ++ c ∷ behind)) false b r
            ≡ choose false (before ++ c ∷ behind)
      passed_over r outcome e fails' = rw e (rw fails' refl)

  -- The node succeeds with the id of the first case whose conditions hold, when the conditions of
  -- the cases before can be evaluated; the cases behind are not looked at, also when they would
  -- raise. The edges of that case's id are taken, or those of "false" when the id is empty.
  pub run-first_case :
      (node_data : IfElseNodeData F O) (before : List (Case F O)) (c : Case F O)
      (behind : List (Case F O))
      → node_data.cases ≡ some (before ++ c ∷ behind)
      → All (Gives false) before
      → Gives true c
      → run node_data ≡ ok (succeeded true c.case_id (or_false c.case_id))
  unfolding run iter_cases
  run-first_case node_data before c behind e none_before here =
      ap (λ cases. choose (is_absent cases) (iter_cases node_data cases)) e
      ∙ choose-first before c behind none_before here
