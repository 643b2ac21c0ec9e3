-- ===== src/Loop/Run/Ends.antt =====
-- nodes/loop/loop_node.py, _run: how the loop ends, with the first look at the break conditions.
use mathlib.Core.List.{append_assoc, append-nil}
use graphon.Prelude.{ℕ, ◌≤◌, String, ◌≡◌, refl, ap, ◌∙◌, Bool, true, false, List, [], ◌∷◌, ◌++◌}
use graphon.Exec.{Exception, Result, ok, err, ◌>>=◌}
use graphon.Dict.{Dict}
use graphon.Conditions.{ℤ}
use graphon.Loop.{
  LoopNodeData, NodeConfig, LoopCompletedReason, Metadata, Report, LoopEvent, loop_succeeded,
  loop_failed, completed_succeeded, completed_failed, LoopState, LoopOps,
}
use graphon.Loop.Run.{
  rounds, accumulated, reason_of, metadata_of, report_of, end_loop, count_after, rounds_after,
  run_rounds, evaluate_suppressed,
}
use graphon.Loop.Run.Rounds.{
  next_indices, next_indices-append, up_from, IsNumbered, iterate-IsNumbered, stopped,
}

-- The last two events tell the same end, with the usage of the loop, and the inputs and outputs
-- where they have these.
pub data IsEnded {V U : Type 0} (inputs : Dict V) (s : LoopState V U) : Type 0 where
  ended_well :
      (earlier : List (LoopEvent V U)) (steps : ℤ) (reason : LoopCompletedReason)
      (report : Report V U)
      → report.inputs ≡ inputs
      → report.outputs ≡ s.outputs
      → report.metadata ≡ metadata_of s
      → s.events ≡ earlier ++ loop_succeeded steps reason report ∷ completed_succeeded report ∷ []
      → IsEnded inputs s
  ended_badly :
      (earlier : List (LoopEvent V U)) (steps : ℤ) (error : Exception) (metadata : Metadata V U)
      → metadata ≡ metadata_of s
      → s.events
        ≡ earlier ++ loop_failed inputs steps metadata error ∷ completed_failed error metadata ∷ []
      → IsEnded inputs s

quiet :
    {V U : Type 0} (xs es : List (LoopEvent V U))
    → next_indices es ≡ []
    → next_indices (xs ++ es) ≡ next_indices xs
quiet xs es e = next_indices-append xs es ∙ rw e (append-nil (next_indices xs))

module _ {V U F O : Type 0} (ops : LoopOps V U F O) (node_id : String)
    (node_data : LoopNodeData V F O) (config : List NodeConfig) where
  rounds_after-IsNumbered :
      (root : String) (first : Result Bool) (s : LoopState V U)
      → IsNumbered ops node_id node_data config
          (next_indices s.events)
          s.runtime.llm_usage
          0
          (rounds (count_after ops node_id node_data config first))
          (rounds_after ops node_id node_data config root first s).1
  rounds_after-IsNumbered root (err e) s =
      stopped ops node_id node_data config _ _ 0 _ s (refl, refl)
  rounds_after-IsNumbered root (ok true) s =
      stopped ops node_id node_data config _ _ 0 _ s (refl, refl)
  rounds_after-IsNumbered root (ok false) s =
      iterate-IsNumbered ops node_id node_data config (rounds node_data.loop_count) 0 root _ _ s
        (refl, refl)

  end_loop-next_indices :
      (steps : ℤ) (inputs : Dict V) (r : Result Bool) (s : LoopState V U)
      → next_indices (end_loop ops node_id node_data config steps inputs r s).1.events
        ≡ next_indices s.events
  unfolding ◌>>=◌
  end_loop-next_indices steps inputs (ok reached) s =
      ap next_indices (append_assoc s.events _ _) ∙ quiet s.events _ refl
  end_loop-next_indices steps inputs (err e) s =
      ap next_indices (append_assoc s.events _ _) ∙ quiet s.events _ refl

  end_loop-IsEnded :
      (steps : ℤ) (inputs : Dict V) (r : Result Bool) (s : LoopState V U) (u : U)
      → s.runtime.llm_usage ≡ u
      → let t = (end_loop ops node_id node_data config steps inputs r s).1 in
        ((end_loop ops node_id node_data config steps inputs r s).0 ≡ ok tt)
        × IsEnded inputs t
        × (t.runtime.llm_usage ≡ accumulated ops.usage u t.loop_usage)
  unfolding ◌>>=◌
  end_loop-IsEnded steps inputs (ok reached) s u same = (
    refl,
    ended_well s.events steps (reason_of reached) (report_of inputs s) refl refl refl
        (append_assoc s.events _ _),
    ap (λ v. accumulated ops.usage v s.loop_usage) same,
  )
  end_loop-IsEnded steps inputs (err e) s u same = (
    refl,
    ended_badly s.events steps e (metadata_of s) refl (append_assoc s.events _ _),
    ap (λ v. accumulated ops.usage v s.loop_usage) same,
  )

  -- The rounds that the loop node announces are numbered one by one from 1 on. They are at most as
  -- many as the loop count, where a negative count is none, and none if the break conditions hold
  -- at first.
  pub run_rounds-IsNumbered :
      (root : String) (inputs : Dict V) (s : LoopState V U)
      → let count =
          count_after ops node_id node_data config
            (evaluate_suppressed ops node_id node_data config s).0 in
        let t = (run_rounds ops node_id node_data config root inputs s).1 in
        (k : ℕ) × (k ≤ rounds count)
        × (next_indices t.events ≡ next_indices s.events ++ up_from 0 k)
  unfolding run_rounds evaluate_suppressed
  run_rounds-IsNumbered root inputs s =
      let first = (evaluate_suppressed ops node_id node_data config s).0 in
      let (r, s2) = rounds_after ops node_id node_data config root first s in
      let h = rounds_after-IsNumbered root first s in
      (
        h.announced,
        h.bounded,
        end_loop-next_indices (count_after ops node_id node_data config first) inputs r s2
            ∙ h.numbers,
      )

  -- The try of the loop node returns, whatever its rounds raise. Its last two events tell the same
  -- end: a success, both with the inputs, the outputs and the metadata, or a failure, the first
  -- with the inputs and both with the same error and the metadata. The metadata have the usage and
  -- the variables of the loop, and just this usage has been added to that of the runtime state, in
  -- both cases.
  pub run_rounds-IsEnded :
      (root : String) (inputs : Dict V) (s : LoopState V U)
      → let t = (run_rounds ops node_id node_data config root inputs s).1 in
        ((run_rounds ops node_id node_data config root inputs s).0 ≡ ok tt)
        × IsEnded inputs t
        × (t.runtime.llm_usage ≡ accumulated ops.usage s.runtime.llm_usage t.loop_usage)
  unfolding run_rounds evaluate_suppressed
  run_rounds-IsEnded root inputs s =
      let first = (evaluate_suppressed ops node_id node_data config s).0 in
      let (r, s2) = rounds_after ops node_id node_data config root first s in
      end_loop-IsEnded (count_after ops node_id node_data config first) inputs r s2
        s.runtime.llm_usage (rounds_after-IsNumbered root first s).usage
