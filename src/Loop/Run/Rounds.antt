-- ===== src/Loop/Run/Rounds.antt =====
-- nodes/loop/loop_node.py: how the rounds are numbered, and how many there are.
use mathlib.Core.List.{append_assoc, append-nil}
use graphon.Prelude.{
  ℕ, zero, suc, ◌≤◌, String, ◌≡◌, refl, sym, ap, ◌∙◌, Bool, true, false, none, List, [], ◌∷◌, ◌++◌,
  arith, ◌==◌, if◌then◌else◌,
}
use graphon.Exec.{Exec, Result, ok, err, pure, gets, continue, ◌>>=◌, ◌>>◌}
use graphon.Exec.Triple.{
  Keeps, Keeps-bind, Keeps-pure, Keeps-raise, Keeps-gets, Keeps-if, Keeps-for_each,
}
use graphon.Dict.{Dict}
use graphon.Runtime.{RuntimeState, merged, set_output, merge_response_outputs}
use graphon.Loop.{
  LoopNodeData, NodeConfig, ChildEvent, node_event, run_aborted, run_failed, other_event, ChildRun,
  LoopVariableData, LoopEvent, inner, loop_started, loop_next, loop_succeeded, loop_failed,
  completed_succeeded, completed_failed, LoopState, LoopOps,
}
use graphon.Loop.Iteration.{
  emit, append_loop_info, take_event, take_events, clear_loop_subgraph_variables, run_single_loop,
  collect_loop_variable_values, execute_loop_iteration,
}
use graphon.Loop.Run.{run_iteration, iterate, evaluate_break_conditions}

module _ {V U : Type 0} where
  -- The numbers of the rounds that are announced.
  abbrev pub next_indices : List (LoopEvent V U) → List ℕ
  next_indices [] = []
  next_indices (loop_next index output ∷ es) = index ∷ next_indices es
  next_indices (loop_started _ _ ∷ es) = next_indices es
  next_indices (inner _ ∷ es) = next_indices es
  next_indices (loop_succeeded _ _ _ ∷ es) = next_indices es
  next_indices (loop_failed _ _ _ _ ∷ es) = next_indices es
  next_indices (completed_succeeded _ ∷ es) = next_indices es
  next_indices (completed_failed _ _ ∷ es) = next_indices es

  pub next_indices-append :
      (xs ys : List (LoopEvent V U)) → next_indices (xs ++ ys) ≡ next_indices xs ++ next_indices ys
  next_indices-append [] ys = refl
  next_indices-append (loop_next index output ∷ es) ys = ap (◌∷◌ index) (next_indices-append es ys)
  next_indices-append (loop_started _ _ ∷ es) ys = next_indices-append es ys
  next_indices-append (inner _ ∷ es) ys = next_indices-append es ys
  next_indices-append (loop_succeeded _ _ _ ∷ es) ys = next_indices-append es ys
  next_indices-append (loop_failed _ _ _ _ ∷ es) ys = next_indices-append es ys
  next_indices-append (completed_succeeded _ ∷ es) ys = next_indices-append es ys
  next_indices-append (completed_failed _ _ ∷ es) ys = next_indices-append es ys

-- i + 1, …, i + k
abbrev pub up_from : ℕ → ℕ → List ℕ
up_from i zero = []
up_from i (suc k) = suc i ∷ up_from (suc i) k

module _ {V U F O : Type 0} (ops : LoopOps V U F O) (node_id : String)
    (node_data : LoopNodeData V F O) (config : List NodeConfig) (xs : List ℕ) (u : U) where
  -- These rounds have been announced, and the usage of the runtime state is this one.
  abbrev pub Announced : LoopState V U → Type 0
  Announced s = (next_indices s.events ≡ xs) × (s.runtime.llm_usage ≡ u)

  outputs-usage :
      (outputs : Dict V) (r : RuntimeState V U)
      → (merge_response_outputs ops.values outputs r).llm_usage ≡ r.llm_usage
  unfolding merge_response_outputs set_output
  outputs-usage [] r = refl
  outputs-usage ((key, value) ∷ rest) r =
      outputs-usage rest (set_output key (merged ops.values r.outputs key value) r)

  event-Announced : (i : ℕ) (e : ChildEvent V U) → Keeps Announced (take_event node_id i e)
  unfolding take_event
  event-Announced i (node_event e) =
      Keeps-if (e.event.node_type == "loop-start") _ _ (Keeps-pure false) (
        Keeps-bind _ _
          (record {
            at = λ s h. (
              next_indices-append s.events (inner (append_loop_info node_id i e) ∷ [])
                  ∙ append-nil (next_indices s.events)
                  ∙ h.0,
              h.1,
            );
          })
          λ _. Keeps-pure _)
  event-Announced i (run_aborted reason) = Keeps-raise _
  event-Announced i (run_failed error) = Keeps-raise _
  event-Announced i other_event = Keeps-pure false

  events-Announced :
      (i : ℕ) (es : List (ChildEvent V U)) (reached : Bool)
      → Keeps Announced (take_events node_id i es reached)
  unfolding take_events
  events-Announced i [] reached = Keeps-pure reached
  events-Announced i (e ∷ es) reached =
      Keeps-bind _ _ (event-Announced i e) λ b. events-Announced i es (if b then true else reached)

  single-Announced :
      (i : ℕ) (child : ChildRun V U)
      → Keeps Announced (run_single_loop ops node_id node_data config i child)
  unfolding run_single_loop
  single-Announced i child = Keeps-bind _ _ (events-Announced i child.events false) λ reached.
      Keeps-bind _ _ (record { at = λ s h. h })
        λ _.
          Keeps-bind _ _
            (Keeps-for_each _ node_data.loop_variables
              λ v. Keeps-bind _ _ (record { at = λ s h. h }) λ segment. record { at = λ s h. h })
            λ _. Keeps-bind _ _ (record { at = λ s h. h }) λ _. Keeps-pure reached

  values-Announced :
      (vs : List (LoopVariableData V)) (values : Dict V)
      → Keeps Announced (collect_loop_variable_values ops node_id node_data config vs values)
  unfolding collect_loop_variable_values
  values-Announced [] values = Keeps-pure values
  values-Announced (v ∷ vs) values =
      Keeps-bind _ _ (Keeps-bind _ _ (record { at = λ s h. h }) λ segment. Keeps-pure _)
        (values-Announced vs)

  iteration-Announced :
      (i : ℕ) (root : String)
      → Keeps Announced (execute_loop_iteration ops node_id node_data config i root)
  unfolding execute_loop_iteration clear_loop_subgraph_variables
  iteration-Announced i root =
      Keeps-bind _ _ (Keeps-for_each _ _ λ n. record { at = λ s h. h }) λ _.
        Keeps-bind _ _ (Keeps-gets _) λ runtime.
          Keeps-bind _ _ (record { at = λ s h. h })
            λ child.
              Keeps-bind _ _ (record { at = λ s h. h })
                λ _.
                  Keeps-bind _ _ (record { at = λ s h. (single-Announced i child).at s h })
                    λ reached.
                      Keeps-bind _ _
                        (record { at = λ s h. (h.0, outputs-usage child.outputs s.runtime ∙ h.1) })
                        λ _. Keeps-bind _ _ (values-Announced node_data.loop_variables []) λ values.
                          Keeps-bind _ _ (record { at = λ s h. h }) λ _. Keeps-pure reached

  run_iteration-Announced :
      (i : ℕ) (root : String) → Keeps Announced (run_iteration ops node_id node_data config i root)
  unfolding run_iteration
  run_iteration-Announced i root = record {
    at = λ s h. (iteration-Announced i root).at (record s { iteration_usage = none }) h;
  }

module _ {V U F O : Type 0} (ops : LoopOps V U F O) (node_id : String)
    (node_data : LoopNodeData V F O) (config : List NodeConfig) where
  -- From the announced rounds `xs` on, at most `left` further ones are announced, one by one behind
  -- the index `i`; the usage of the runtime state is still `u`.
  pub record IsNumbered (xs : List ℕ) (u : U) (i left : ℕ) (s : LoopState V U) : Type 0 where
    pub announced : ℕ
    pub bounded : announced ≤ left
    pub numbers : next_indices s.events ≡ xs ++ up_from i announced
    pub usage : s.runtime.llm_usage ≡ u

  pub stopped :
      (xs : List ℕ) (u : U) (i left : ℕ) (s : LoopState V U)
      → Announced ops node_id node_data config xs u s
      → IsNumbered xs u i left s
  stopped xs u i left s h = record {
    announced = 0;
    bounded = omega arith;
    numbers = h.0 ∙ sym (append-nil xs);
    usage = h.1;
  }

  one_more :
      (xs : List ℕ) (u : U) (i left : ℕ) (s : LoopState V U)
      → IsNumbered (xs ++ suc i ∷ []) u (suc i) left s
      → IsNumbered xs u i (suc left) s
  one_more xs u i left s h = record {
    announced = suc h.announced;
    bounded = omega (arith, h.bounded);
    numbers = h.numbers ∙ append_assoc xs (suc i ∷ []) (up_from (suc i) h.announced);
    usage = h.usage;
  }

  abbrev pub announce : ℕ → ℕ → String → Exec (LoopState V U) Bool
  announce left i root = do
    outputs ← gets (λ s. s.outputs)
    emit (loop_next (suc i) outputs)
    iterate ops node_id node_data config left (suc i) root

  -- What stands behind an iteration.
  abbrev behind : ℕ → ℕ → String → Bool → Exec (LoopState V U) Bool
  behind left i root reached_node = if reached_node then pure false else (do
    reached ← evaluate_break_conditions ops node_id node_data config
    if reached then pure true else announce left i root)

  pub iterate-IsNumbered :
      (left i : ℕ) (root : String) (xs : List ℕ) (u : U) (s : LoopState V U)
      → Announced ops node_id node_data config xs u s
      → IsNumbered xs u i left (iterate ops node_id node_data config left i root s).1
  unfolding iterate evaluate_break_conditions ◌>>=◌
  iterate-IsNumbered zero i root xs u s h = stopped xs u i 0 s h
  iterate-IsNumbered (suc left) i root xs u s h =
      let (r, s1) = run_iteration ops node_id node_data config i root s in
      go r s1 ((run_iteration-Announced ops node_id node_data config xs u i root).at s h)
        (λ s2 k. iterate-IsNumbered left (suc i) root (xs ++ suc i ∷ []) u s2 k)
    where
      further :
          (r : Result Bool) (s1 : LoopState V U)
          → Announced ops node_id node_data config xs u s1
          → ((s2 : LoopState V U)
              → Announced ops node_id node_data config (xs ++ suc i ∷ []) u s2
              → IsNumbered
                  (xs ++ suc i ∷ [])
                  u
                  (suc i)
                  left
                  (iterate ops node_id node_data config left (suc i) root s2).1)
          → IsNumbered xs u i
              (suc left)
              (continue r (λ reached. if reached then pure true else announce left i root) s1).1
      further (err e) s1 k later = stopped xs u i (suc left) s1 k
      further (ok true) s1 k later = stopped xs u i (suc left) s1 k
      further (ok false) s1 k later = one_more xs u i left _ (
          later (record s1 { events = s1.events ++ loop_next (suc i) s1.outputs ∷ [] })
            (
              next_indices-append s1.events (loop_next (suc i) s1.outputs ∷ [])
                  ∙ ap (λ l. l ++ suc i ∷ []) k.0,
              k.1,
            ))

      go :
          (r : Result Bool) (s1 : LoopState V U)
          → Announced ops node_id node_data config xs u s1
          → ((s2 : LoopState V U)
              → Announced ops node_id node_data config (xs ++ suc i ∷ []) u s2
              → IsNumbered
                  (xs ++ suc i ∷ [])
                  u
                  (suc i)
                  left
                  (iterate ops node_id node_data config left (suc i) root s2).1)
          → IsNumbered xs u i (suc left) (continue r (behind left i root) s1).1
      go (err e) s1 k later = stopped xs u i (suc left) s1 k
      go (ok true) s1 k later = stopped xs u i (suc left) s1 k
      go (ok false) s1 k later =
          further (evaluate_break_conditions ops node_id node_data config s1).0 s1 k later
