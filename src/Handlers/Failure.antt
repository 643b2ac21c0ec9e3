-- ===== src/Handlers/Failure.antt =====
-- event_management/event_handlers.py and error_handler.py: what becomes of a node's failure.
use graphon.Prelude.{
  ℕ, ◌+◌, ◌≤◌, ◌<◌, String, ◌≡◌, refl, Bool, true, false, none, some, [], ◌∷◌, ◌++◌, lt→ltb,
  le→ltb-false, append-not-nil, length, length-append, zero, suc, ap, ◌∙◌, arith, ◌&&◌, List,
  contains, contains-append, Bool-cases, inl, inr, eq_refl,
}
use graphon.Exec.{ok, runtime_error, ◌>>=◌}
use graphon.Dict
use graphon.Dict.{get_or-put_self}
use graphon.Graph.{Graph, Node}
use graphon.StateManager.{
  enqueue_node, start_execution, finish_execution, is_execution_complete, set_discard, set_add,
  is_executing,
}
use graphon.Execution.{
  node_execution, get_or_create_node_execution, change_node_execution, record_node_failure, fail,
}
use graphon.Events.{Event}
use graphon.Engine.{Collaborators, Engine, collect}
use graphon.ErrorHandler.{handle_node_failure, decide, apply_strategy}
use graphon.Handlers.{handle_failed, after_failure, handle_retry_event}

and-false : (b : Bool) → (b && false) ≡ false
and-false true = refl
and-false false = refl

set_add-contains : (x : String) (xs : List String) → contains (set_add x xs) x ≡ true
set_add-contains x xs = elim (Bool-cases (contains xs x)) [
  | inl h ↦ rw h h
  | inr h ↦ rw h (contains-append xs (x ∷ []) x ∙ rw (h, eq_refl x) refl)
]

module _ {V U C : Type 0} (env : Collaborators V U C) (graph : Graph V) (depth : ℕ) where
  -- While a node of the graph has retries left, the handler of its failure returns, puts it at the
  -- end of the queue and among the executing nodes, counts the failure and the retry, and neither
  -- completes the execution nor lets it look done.
  pub failure_retried :
      (event : Event V U) (error : String) (node : Node V) (s : Engine V U C)
      → Dict.get graph.nodes event.node_id ≡ some node
      → node.retry ≡ true
      → (node_execution s.execution event.node_id).retry_count < node.max_retries
      → let t = (handle_failed env graph depth event error s).1 in
        ((handle_failed env graph depth event error s).0 ≡ ok tt)
        × (t.manager.ready_queue ≡ s.manager.ready_queue ++ event.node_id ∷ [])
        × (is_executing t.manager event.node_id ≡ true)
        × (is_execution_complete t.manager ≡ false)
        × (t.execution.completed ≡ s.execution.completed)
        × (t.execution.exceptions_count ≡ s.execution.exceptions_count + 1)
        × ((node_execution t.execution event.node_id).retry_count
            ≡ (node_execution s.execution event.node_id).retry_count + 1)
  unfolding handle_failed handle_node_failure handle_retry_event ◌>>=◌ get_or_create_node_execution
      change_node_execution record_node_failure enqueue_node start_execution finish_execution
      collect node_execution decide after_failure is_execution_complete is_executing
  failure_retried event error node s found may room =
      simp (found, get_or-put_self, may, lt→ltb _ _ room, append-not-nil)
        (
          refl,
          refl,
          set_add-contains event.node_id (set_discard event.node_id s.manager.executing_nodes),
          refl,
          refl,
          refl,
          refl,
        )

  -- With no retry left and no error strategy, the handler of a failure of a node of the graph returns, completes the
  -- execution with the node's error, puts nothing into the queue, takes the node from the
  -- executing ones, and collects the event.
  pub failure_aborts :
      (event : Event V U) (error : String) (node : Node V) (s : Engine V U C)
      → Dict.get graph.nodes event.node_id ≡ some node
      → node.max_retries ≤ (node_execution s.execution event.node_id).retry_count
      → node.error_strategy ≡ none
      → let t = (handle_failed env graph depth event error s).1 in
        ((handle_failed env graph depth event error s).0 ≡ ok tt)
        × (t.execution.completed ≡ true)
        × (t.execution.error ≡ some (runtime_error error))
        × (t.manager.ready_queue ≡ s.manager.ready_queue)
        × (t.manager.executing_nodes ≡ set_discard event.node_id s.manager.executing_nodes)
        × (t.events ≡ s.events ++ event ∷ [])
  unfolding handle_failed handle_node_failure ◌>>=◌ get_or_create_node_execution
      change_node_execution record_node_failure finish_execution collect node_execution decide
      apply_strategy after_failure fail
  failure_aborts event error node s found spent abort =
      simp (found, get_or-put_self, le→ltb-false _ _ spent, and-false, abort)
        (refl, refl, refl, refl, refl, refl)

  -- The same failure, handled a number of times.
  pub fail_times : Event V U → String → ℕ → Engine V U C → Engine V U C
  fail_times event error zero s = s
  fail_times event error (suc n) s =
      fail_times event error n (handle_failed env graph depth event error s).1

  fail_times-retries :
      (event : Event V U) (error : String) (node : Node V) (n : ℕ) (s : Engine V U C)
      → Dict.get graph.nodes event.node_id ≡ some node
      → node.retry ≡ true
      → (node_execution s.execution event.node_id).retry_count + n ≤ node.max_retries
      → ((fail_times event error n s).execution.completed ≡ s.execution.completed)
        × ((node_execution (fail_times event error n s).execution event.node_id).retry_count
            ≡ (node_execution s.execution event.node_id).retry_count + n)
        × (length (fail_times event error n s).manager.ready_queue
            ≡ length s.manager.ready_queue + n)
  unfolding fail_times
  fail_times-retries event error node zero s found may room = (refl, omega arith, omega arith)
  fail_times-retries event error node (suc n) s found may room =
      let (_, queued, _, _, completed, _, counted) =
        failure_retried event error node s found may (omega arith) in
      let (completed', counted', queued') =
        fail_times-retries event error node n (handle_failed env graph depth event error s).1 found
          may (omega (arith, counted)) in
      (
        completed' ∙ completed,
        omega (arith, counted, counted'),
        omega (
          arith,
          queued',
          ap length queued,
          length-append s.manager.ready_queue (event.node_id ∷ []),
        ),
      )

  fail_times-snoc :
      (event : Event V U) (error : String) (n : ℕ) (s : Engine V U C)
      → fail_times event error (suc n) s
        ≡ (handle_failed env graph depth event error (fail_times event error n s)).1
  unfolding fail_times
  fail_times-snoc event error zero s = refl
  fail_times-snoc event error (suc n) s =
      fail_times-snoc event error n (handle_failed env graph depth event error s).1

  -- In an execution that is not completed, a node of the graph that was never retried, may be
  -- retried and has no error strategy fails a number of times. After n failures, n at most
  -- `max_retries`, the execution is not completed and the ready queue has n entries more; after
  -- `max_retries` + 1 failures the execution is completed.
  pub failure_after_retries :
      (event : Event V U) (error : String) (node : Node V) (n : ℕ) (s : Engine V U C)
      → Dict.get graph.nodes event.node_id ≡ some node
      → node.retry ≡ true
      → node.error_strategy ≡ none
      → (node_execution s.execution event.node_id).retry_count ≡ 0
      → s.execution.completed ≡ false
      → n ≤ node.max_retries
      → ((fail_times event error n s).execution.completed ≡ false)
        × (length (fail_times event error n s).manager.ready_queue
            ≡ length s.manager.ready_queue + n)
        × ((fail_times event error (suc node.max_retries) s).execution.completed ≡ true)
  failure_after_retries event error node n s found may abort fresh running room =
      let (c, _, q) = fail_times-retries event error node n s found may (omega arith) in
      let (_, counted, _) =
        fail_times-retries event error node node.max_retries s found may (omega arith) in
      (
        c ∙ running,
        q,
        rw (fail_times-snoc event error node.max_retries s)
            (failure_aborts event error node (fail_times event error node.max_retries s) found
              (omega (arith, counted)) abort).1,
      )
