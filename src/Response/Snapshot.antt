-- ===== src/Response/Snapshot.antt =====
-- response_coordinator/coordinator.py: the active and the waiting sessions in dumps and loads.
use graphon.Prelude.{ℕ, String, ◌≡◌, refl, ap, ◌∙◌, Option, none, some, List, [], ◌∷◌, map, All}
use graphon.Exec.{Result, ok, err, value_error, type_error}
use graphon.Dict
use graphon.Graph.{Graph, Node}
use graphon.Response.{TemplateSegment, ResponseSession, ResponseOps}

pub record ResponseSessionState : Type 0 where
  pub node_id : String
  pub index : ℕ

-- _serialize_session of a session
unfoldable pub serialize_session : ResponseSession → ResponseSessionState
serialize_session s = record { node_id = s.node_id; index = s.index }

-- The active session in dumps.
abbrev pub dump_active : Option ResponseSession → Option ResponseSessionState
dump_active none = none
dump_active (some s) = some (serialize_session s)

module _ {V : Type 0} (ops : ResponseOps V) (graph : Graph V) where
  abbrev from_template :
      ResponseSessionState → Node V → Option (List TemplateSegment) → Result ResponseSession
  from_template state node none =
      err
        (type_error "ResponseSession.from_node requires get_streaming_template() on response nodes")
  from_template state node (some template) =
      ok (record { node_id = node.id; template = template; index = state.index })

  abbrev from_found : ResponseSessionState → Option (Node V) → Result ResponseSession
  from_found state none = err (value_error "Unknown response node in serialized state")
  from_found state (some node) = from_template state node (ops.get_streaming_template node)

  unfoldable pub session_from_state : ResponseSessionState → Result ResponseSession
  session_from_state state = from_found state (Dict.get graph.nodes state.node_id)

  abbrev with_rest :
      Result ResponseSession → Result (List ResponseSession) → Result (List ResponseSession)
  with_rest (err e) rest = err e
  with_rest (ok s) (err e) = err e
  with_rest (ok s) (ok rest) = ok (s ∷ rest)

  -- The waiting sessions of loads, oldest first.
  unfoldable pub load_waiting : List ResponseSessionState → Result (List ResponseSession)
  unfolding session_from_state
  load_waiting [] = ok []
  load_waiting (state ∷ states) = with_rest (session_from_state state) (load_waiting states)

  abbrev some_session : Result ResponseSession → Result (Option ResponseSession)
  some_session (ok s) = ok (some s)
  some_session (err e) = err e

  -- The active session of loads.
  unfoldable pub load_active : Option ResponseSessionState → Result (Option ResponseSession)
  unfolding session_from_state
  load_active none = ok none
  load_active (some state) = some_session (session_from_state state)

  -- The session is that of a node of the graph, with the node's template.
  abbrev pub IsOfNode : ResponseSession → Type 0
  IsOfNode s =
      (node : Node V) × (Dict.get graph.nodes s.node_id ≡ some node)
      × (node.id ≡ s.node_id)
      × (ops.get_streaming_template node ≡ some s.template)

  session_from_state-serialize_session :
      (s : ResponseSession) → IsOfNode s → session_from_state (serialize_session s) ≡ ok s
  unfolding session_from_state serialize_session
  session_from_state-serialize_session s (node, found, same, its_template) =
      ap (from_found (serialize_session s)) found
      ∙ (ap (from_template (serialize_session s) node) its_template
          ∙ ap (λ id. ok (record { node_id = id; template = s.template; index = s.index })) same)

  load_waiting-map :
      (waiting : List ResponseSession)
      → All IsOfNode waiting
      → load_waiting (map serialize_session waiting) ≡ ok waiting
  unfolding load_waiting
  load_waiting-map [] h = refl
  load_waiting-map (s ∷ waiting) h =
      ap (λ r. with_rest r (load_waiting (map serialize_session waiting)))
        (session_from_state-serialize_session s h.0)
      ∙ ap (with_rest (ok s)) (load_waiting-map waiting h.1)

  active_loaded :
      (active : Option ResponseSession)
      → ((s : ResponseSession) → active ≡ some s → IsOfNode s)
      → load_active (dump_active active) ≡ ok active
  unfolding load_active
  active_loaded none h = refl
  active_loaded (some s) h = ap some_session (session_from_state-serialize_session s (h s refl))

  -- When the active session and the waiting ones are those of nodes of the graph, loading what was
  -- saved of them restores the active session and the queue of the waiting ones in their order,
  -- each at its position in its template.
  pub load-dump :
      (active : Option ResponseSession) (waiting : List ResponseSession)
      → ((s : ResponseSession) → active ≡ some s → IsOfNode s)
      → All IsOfNode waiting
      → (load_active (dump_active active) ≡ ok active)
        × (load_waiting (map serialize_session waiting) ≡ ok waiting)
  load-dump active waiting active_known waiting_known =
      (active_loaded active active_known, load_waiting-map waiting waiting_known)
