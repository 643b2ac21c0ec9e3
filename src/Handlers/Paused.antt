-- ===== src/Handlers/Paused.antt =====
-- event_handlers.py: what becomes ready during a pause.
use graphon.Prelude.{
  ℕ, String, ◌≡◌, refl, Bool, true, false, none, some, List, [], ◌∷◌, if◌then◌else◌,
}
use graphon.Exec.{for_each}
use graphon.Exec.Triple.{
  Keeps, Keeps-bind, Keeps-pure, Keeps-if, Keeps-require, Keeps-require_found, Keeps-for_each,
  Keeps-raise,
}
use graphon.Dict
use graphon.Dict.{Dict}
use graphon.Enums.{is_branch, is_response}
use graphon.Graph.{Graph, Node, Edge, get_outgoing_edges}
use graphon.StateManager.{mark_edge_taken, is_node_ready, finish_execution}
use graphon.Execution.{is_paused, change_node_execution}
use graphon.Events.{Event}
use graphon.Runtime.{register_deferred_node}
use graphon.Engine.{Collaborators, Engine, on_runtime, collect}
use graphon.Traversal.Edges.{
  process_taken_edge, process_taken_edges, process_non_branch_node_edges, process_branch_node_edges,
  process_node_success,
}
use graphon.Handlers.{
  store_node_outputs, enqueue_ready, schedule_ready, handle_succeeded, note_completion, intercept,
}

module _ {V U C : Type 0} (env : Collaborators V U C) (graph : Graph V) (depth : ℕ)
    (queue : List String) where
  -- Paused, and with this ready queue.
  abbrev IsHeld : Engine V U C → Type 0
  IsHeld s = (s.manager.ready_queue ≡ queue) × (s.execution.paused ≡ true)

  collect-IsHeld : (e : Event V U) → Keeps IsHeld (collect e)
  unfolding collect
  collect-IsHeld e = record { at = λ s h. h }

  collect_all-IsHeld : (es : List (Event V U)) → Keeps IsHeld (for_each collect es)
  collect_all-IsHeld es = Keeps-for_each _ es collect-IsHeld

  store-IsHeld :
      (n : String) (outputs : Dict V) → Keeps IsHeld (store_node_outputs env graph depth n outputs)
  unfolding store_node_outputs
  store-IsHeld n outputs = Keeps-for_each _ outputs λ o. record { at = λ s h. h }

  mark_taken-Queue : (x : String) → Keeps (λ m. m.ready_queue ≡ queue) (mark_edge_taken graph x)
  unfolding mark_edge_taken
  mark_taken-Queue x =
      Keeps-bind _ _ (Keeps-require x (Dict.get graph.edges x)) λ e. record { at = λ m h. h }

  taken_edge-IsHeld : (e : Edge) → Keeps IsHeld (process_taken_edge graph env.coordinator e)
  unfolding process_taken_edge is_node_ready
  taken_edge-IsHeld e =
      Keeps-bind _ _ (record { at = λ s h. ((mark_taken-Queue e.id).at s.manager h.0, h.1) })
        λ _.
          Keeps-bind _ _ (record { at = λ s h. h })
            λ events. Keeps-bind _ _ (record { at = λ s h. h }) λ ready. Keeps-pure _

  taken_edges-IsHeld :
      (es : List Edge) → Keeps IsHeld (process_taken_edges graph env.coordinator es)
  unfolding process_taken_edges
  taken_edges-IsHeld [] = Keeps-pure _
  taken_edges-IsHeld (e ∷ es) =
      Keeps-bind _ _ (taken_edge-IsHeld e)
        λ p. Keeps-bind _ _ (taken_edges-IsHeld es) λ q. Keeps-pure _

  success-IsHeld : (n : String) → Keeps IsHeld (process_node_success graph env.coordinator n none)
  unfolding process_node_success process_branch_node_edges process_non_branch_node_edges
  success-IsHeld n = Keeps-bind _ _ (Keeps-require n (Dict.get graph.nodes n)) λ node.
      Keeps-if (is_branch node.execution_type) _ _ (Keeps-raise _)
        (taken_edges-IsHeld (get_outgoing_edges graph n))

  deferred-IsHeld :
      (ns : List String)
      → Keeps IsHeld (for_each (λ n. on_runtime {C = C} (register_deferred_node n)) ns)
  deferred-IsHeld ns = Keeps-for_each _ ns (λ n. record { at = λ t k. k })

  schedule-IsHeld : (ns : List String) → Keeps IsHeld (schedule_ready env graph depth ns)
  unfolding schedule_ready is_paused
  schedule-IsHeld ns = record { at = λ s h. go s h s.execution.paused h.1 }
    where
      go :
          (s : Engine V U C)
          → IsHeld s
          → (b : Bool) → b ≡ true
          → IsHeld
              (if b
                then for_each (λ n. on_runtime (register_deferred_node n)) ns s
                else enqueue_ready env graph depth ns s).1
      go s h true e = (deferred-IsHeld ns).at s h
      go s h false e = cc

  intercept-IsHeld : (event : Event V U) → Keeps IsHeld (intercept env graph depth event)
  intercept-IsHeld event = record { at = λ s h. h }

  note-IsHeld : (event : Event V U) → Keeps IsHeld (note_completion env graph depth event)
  unfolding change_node_execution
  note-IsHeld event =
      Keeps-bind _ _ (record { at = λ s h. h })
        λ _.
          Keeps-bind _ _ (record { at = λ s h. h })
            λ _. store-IsHeld event.node_id event.node_run_result.outputs

  succeeded-IsHeld :
      (event : Event V U) (node : Node V)
      → Dict.get graph.nodes event.node_id ≡ some node
      → is_branch node.execution_type ≡ false
      → Keeps IsHeld (handle_succeeded env graph depth event)
  unfolding handle_succeeded finish_execution
  succeeded-IsHeld event node found plain = Keeps-bind _ _ (note-IsHeld event) λ _.
      Keeps-bind _ _ (intercept-IsHeld event) λ events.
        Keeps-bind _ _ (collect_all-IsHeld events) λ _. Keeps-require_found _ _ node _ found (
          Keeps-bind _ _ (rw plain (success-IsHeld event.node_id)) λ (nodes, more).
            Keeps-bind _ _ (collect_all-IsHeld more) λ _.
              Keeps-bind _ _ (schedule-IsHeld nodes) λ _.
                Keeps-bind _ _ (record { at = λ s h. h })
                  λ _.
                    Keeps-bind _ _
                      (Keeps-if (is_response node.execution_type) _ _ (record { at = λ s h. h })
                        (Keeps-pure tt))
                      λ _. collect-IsHeld event)

-- While the execution is paused, the success of a node of the graph that is no branch leaves the
-- ready queue as it was and the execution paused, whatever becomes ready and wherever the handler
-- stops.
pub paused-success :
    {V U C : Type 0} (env : Collaborators V U C) (graph : Graph V) (depth : ℕ) (event : Event V U)
    (node : Node V) (s : Engine V U C)
    → Dict.get graph.nodes event.node_id ≡ some node
    → is_branch node.execution_type ≡ false
    → s.execution.paused ≡ true
    → let t = (handle_succeeded env graph depth event s).1 in
      (t.manager.ready_queue ≡ s.manager.ready_queue) × (t.execution.paused ≡ true)
paused-success env graph depth event node s found plain paused =
    (succeeded-IsHeld env graph depth s.manager.ready_queue event node found plain).at s
      (refl, paused)
