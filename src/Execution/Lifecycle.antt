-- ===== src/Execution/Lifecycle.antt =====
-- The life of an execution: its methods, called in any order, and what holds between two calls.
use Prim.Native.String.{◌++◌ as str_append}
use graphon.Prelude.{
  String, ◌≡◌, ◌≢◌, ◌⊎◌, refl, sym, ◌∙◌, subst, Bool, true, false, not, ◌||◌, List, [], ◌∷◌, ◌++◌,
  All, any, ◌==◌, arith, if◌then◌else◌,
}
use graphon.Exec.{Exception, value_error, Result, ok, err, Exec, raise, modify}
use graphon.Execution
use graphon.Execution.{
  PauseReason, NodeExecution, GraphExecution, new_execution, change_node_execution,
  record_node_failure, is_running, has_error,
}
use graphon.Execution.Snapshot.{
  GraphExecutionState, SnapshotOps, state_of, restored, load_state, load_execution,
}
use graphon.Execution.Restored.{some_error}

-- The beginning of GraphEngine.run: it starts the execution or resumes it.
unfoldable pub begin_run : Exec GraphExecution Unit
unfolding Execution.start
begin_run x =
    if x.started
    then modify (λ y. record y { paused = false; pause_reasons = [] }) x
    else Execution.start x

-- A call of one method that changes the execution, or the beginning of a run of the engine. An
-- exception is handled by the caller, and the execution goes on.
pub data Call : Type 0 where
  start complete record_failure run : Call
  abort : (reason : String) → Call
  pause : (reason : PauseReason) → Call
  fail : (error : Exception) → Call
  change : (node_id : String) (f : NodeExecution → NodeExecution) → Call
  loads : (data_text : String) → Call

unfoldable pub perform : SnapshotOps → Call → GraphExecution → Result (Unit {0}) × GraphExecution
unfolding begin_run
perform ops Call.start = Execution.start
perform ops Call.complete = Execution.complete
perform ops Call.record_failure = record_node_failure
perform ops Call.run = begin_run
perform ops (Call.abort reason) = Execution.abort reason
perform ops (Call.pause reason) = Execution.pause reason
perform ops (Call.fail error) = Execution.fail error
perform ops (Call.change node_id f) = change_node_execution node_id f
perform ops (Call.loads data_text) = load_execution ops data_text

unfoldable pub perform_all : SnapshotOps → List Call → GraphExecution → GraphExecution
unfolding perform
perform_all ops [] x = x
perform_all ops (c ∷ calls) x = perform_all ops calls (perform ops c x).1

-- What the flags say of one another.
pub record IsConsistent (x : GraphExecution) : Type 0 where
  pub completed_after : x.completed ≡ true → (x.started ≡ true) ⊎ (has_error x ≡ true)
  pub aborted_error : x.aborted ≡ true → has_error x ≡ true
  pub paused_reason : x.paused ≡ true → x.pause_reasons ≢ []

append-ne-nil : (xs : List PauseReason) (r : PauseReason) → (xs ++ r ∷ []) ≢ []
append-ne-nil [] r e = cc
append-ne-nil (x ∷ xs) r e = cc

new-IsConsistent : (w : String) → IsConsistent (new_execution w)
new-IsConsistent w = record {
  completed_after = λ e. cc;
  aborted_error = λ e. cc;
  paused_reason = λ e. cc;
}

-- A text that is loaded is no saved state, or it is that of a consistent execution.
abbrev pub IsSound : SnapshotOps → Call → Type 0
IsSound ops (Call.loads data_text) =
    (state : GraphExecutionState)
    → ops.model_validate_json data_text ≡ ok state
    → (y : GraphExecution) × IsConsistent y × (state ≡ state_of ops y)
IsSound ops _ = Unit

abbrev pub is_load : Call → Bool
is_load (Call.loads _) = true
is_load _ = false

abbrev pub is_run : Call → Bool
is_run Call.run = true
is_run _ = false

-- Completed or aborted, and not only paused.
abbrev pub is_over : GraphExecution → Bool
is_over x = x.completed || x.aborted

module _ (ops : SnapshotOps) where
  restored-IsConsistent :
      (x y : GraphExecution) → IsConsistent y → IsConsistent (restored ops (state_of ops y) x)
  unfolding state_of has_error
  restored-IsConsistent x y h =
      let same : has_error (restored ops (state_of ops y) x) ≡ has_error y =
        some_error ops y.error in
      record {
        completed_after = ground (arith, h.completed_after, same);
        aborted_error = λ e. same ∙ h.aborted_error e;
        paused_reason = h.paused_reason;
      }

  load_state-IsConsistent :
      (r : Result GraphExecutionState) (x : GraphExecution)
      → ((state : GraphExecutionState)
          → r ≡ ok state
          → (y : GraphExecution) × IsConsistent y × (state ≡ state_of ops y))
      → IsConsistent x
      → IsConsistent (load_state ops r x).1
  load_state-IsConsistent (err e) x sound h = h
  load_state-IsConsistent (ok state) x sound h =
      go (not (state.type_name == "GraphExecution")) (not (state.version == "1.0"))
        (not (x.workflow_id == state.workflow_id))
    where
      loaded : IsConsistent (restored ops state x)
      loaded =
          let (y, consistent, is) = sound state refl in
          subst (λ t. IsConsistent (restored ops t x)) (sym is)
            (restored-IsConsistent x y consistent)

      go :
          (a b c : Bool)
          → IsConsistent
              (if a
                then raise
                    (value_error (str_append "Invalid serialized data type: " state.type_name))
                    x
                else if b
                then raise
                    (value_error (str_append "Unsupported serialized version: " state.version))
                    x
                else if c
                then raise
                    (value_error "Serialized workflow_id does not match aggregate identity")
                    x
                else (ok tt, restored ops state x)).1
      go true b c = h
      go false true c = h
      go false false true = h
      go false false false = loaded

  perform-IsConsistent :
      (c : Call) (x : GraphExecution)
      → IsSound ops c
      → IsConsistent x
      → IsConsistent (perform ops c x).1
  unfolding perform begin_run Execution.start Execution.complete Execution.abort Execution.pause
      Execution.fail change_node_execution record_node_failure has_error load_execution
  perform-IsConsistent (Call.loads data_text) x sound h =
      load_state-IsConsistent (ops.model_validate_json data_text) x sound h
  perform-IsConsistent (Call.pause reason) x sound h = record {
    completed_after = ground (arith, h.completed_after);
    aborted_error = ground (arith, h.aborted_error);
    paused_reason = ground (arith, h.paused_reason, append-ne-nil x.pause_reasons reason);
  }
  perform-IsConsistent _ x sound h = record {
    completed_after = ground (arith, h.completed_after);
    aborted_error = ground (arith, h.aborted_error);
    paused_reason = ground (arith, h.paused_reason);
  }

  perform_all-IsConsistent :
      (calls : List Call) (x : GraphExecution)
      → All (IsSound ops) calls
      → IsConsistent x
      → IsConsistent (perform_all ops calls x)
  unfolding perform_all
  perform_all-IsConsistent [] x sound h = h
  perform_all-IsConsistent (c ∷ calls) x sound h =
      perform_all-IsConsistent calls (perform ops c x).1 sound.1
        (perform-IsConsistent c x sound.0 h)

  -- If every text that is loaded is no saved state, or the saved state of a consistent execution,
  -- then whatever methods that change it are called on a new execution, loading and the resuming of
  -- the engine included: a completed one was started or has an error, an aborted one has an error,
  -- and a paused one has a reason.
  pub calls-IsConsistent :
      (workflow_id : String) (calls : List Call)
      → All (IsSound ops) calls
      → IsConsistent (perform_all ops calls (new_execution workflow_id))
  calls-IsConsistent w calls sound =
      perform_all-IsConsistent calls (new_execution w) sound (new-IsConsistent w)

  perform-stopped :
      (c : Call) (x : GraphExecution)
      → is_load c ≡ false
      → (not (is_run c) || is_over x) ≡ true
      → (x.started ≡ true) × (is_running x ≡ false)
      → ((perform ops c x).1.started ≡ true)
        × (is_running (perform ops c x).1 ≡ false)
        × ((not (is_over x) || is_over (perform ops c x).1) ≡ true)
  unfolding perform begin_run Execution.start Execution.complete Execution.abort Execution.pause
      Execution.fail change_node_execution record_node_failure is_running
  perform-stopped (Call.loads data_text) x l r h = cc
  perform-stopped _ x l r h = ground arith

  -- A started execution that runs no more, because it is completed, aborted or paused, does not run
  -- again whatever methods are called, as long as no saved state is loaded into it and, if it is
  -- neither completed nor aborted, the engine is not run again.
  pub stopped_stays :
      (x : GraphExecution) (calls : List Call)
      → x.started ≡ true
      → is_running x ≡ false
      → any is_load calls ≡ false
      → (not (any is_run calls) || is_over x) ≡ true
      → is_running (perform_all ops calls x) ≡ false
  unfolding perform_all
  stopped_stays x calls s stopped loaded resumed = go calls x loaded resumed (s, stopped)
    where
      go :
          (calls : List Call) (x : GraphExecution)
          → any is_load calls ≡ false
          → (not (any is_run calls) || is_over x) ≡ true
          → (x.started ≡ true) × (is_running x ≡ false)
          → is_running (perform_all ops calls x) ≡ false
      go [] x l r h = h.1
      go (c ∷ rest) x l r h =
          let (begun, off, over) = perform-stopped c x (ground arith) (ground arith) h in
          go rest (perform ops c x).1 (ground arith) (ground (arith, over)) (begun, off)
