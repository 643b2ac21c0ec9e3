-- ===== src/Response/Flush/Segments.antt =====
-- response_coordinator/coordinator.py: one text or one variable of a template.
use graphon.Prelude.{
  String, ◌≡◌, refl, ap, ◌∙◌, inl, inr, Bool, true, false, Option, none, some, List, [], ◌∷◌, ◌++◌,
  Bool-cases, if◌then◌else◌,
}
use graphon.Exec.{Result, ok, pure, from_result, ◌>>=◌}
use graphon.Exec.Returns.{
  Returns, Returns-pure, Returns-bind, Returns-after_gets, Returns-after_known,
  Returns-after_require, Returns-after_result,
}
use graphon.Dict
use graphon.Graph.{Graph, Node, States}
use graphon.Pool.{VariablePool}
use graphon.Response.{StreamChunk, ResponseSession, ResponseOps}
use graphon.Response.Streams.{has_unread_stream, is_stream_closed, read_all}
use graphon.Response.Streams.Reading.{read_all-unread}
use graphon.Response.Flush.{
  Coordinator, prefix_of, get_or_create_execution_id, create_stream_chunk_event, scalar_value,
  process_variable_segment, on_streams, special_node, attributed, readdress, text_of, with_id,
}
use graphon.Response.Flush.Sessions.{Stands, IsKnown, IsReadable, Waits}

module _ {V : Type 0} (ops : ResponseOps V) (graph : Graph V) (states : States)
    (pool : VariablePool V) where
  pub with_id-Returns :
      (node_id : String) (active : Option ResponseSession) (ws : List ResponseSession)
      (c : Coordinator) (known : Option String)
      → Stands active ws c
      → Returns (with_id ops known node_id) c (λ _. Stands active ws)
  with_id-Returns node_id active ws c none h = record {
    value = _;
    is_ok = refl;
    after = record { is_active = h.is_active; is_waiting = h.is_waiting };
  }
  with_id-Returns node_id active ws c (some x) h = Returns-pure x c h

  pub execution_id-Returns :
      (node_id : String) (active : Option ResponseSession) (ws : List ResponseSession)
      (c : Coordinator)
      → Stands active ws c
      → Returns (get_or_create_execution_id ops node_id) c (λ _. Stands active ws)
  unfolding get_or_create_execution_id
  execution_id-Returns node_id active ws c h =
      let made = with_id-Returns node_id active ws c (Dict.get c.node_execution_ids node_id) h in
      record { value = made.value; is_ok = made.is_ok; after = made.after }

  pub owner-found :
      (s : ResponseSession) (node_id : String) (selector : List String)
      → IsKnown graph s
      → Dict.has graph.nodes node_id ≡ true
      → let owner =
          attributed (special_node graph (some s) (prefix_of selector)) selector node_id in
        (node : Node V) × (Dict.get graph.nodes owner ≡ some node)
  owner-found s node_id [] (node, known, _) has = go (Dict.has graph.nodes "")
    where
      go :
          (b : Bool)
          → let owner = attributed (if b then none else some s.node_id) [] node_id in
            (node : Node V) × (Dict.get graph.nodes owner ≡ some node)
      go true = Dict.get_of_has graph.nodes node_id has
      go false = Dict.get_of_has graph.nodes node_id has
  owner-found s node_id (x ∷ selector) (node, known, _) has = go (Dict.has graph.nodes x)
    where
      go :
          (b : Bool)
          → let owner = attributed (if b then none else some s.node_id) (x ∷ selector) node_id in
            (node : Node V) × (Dict.get graph.nodes owner ≡ some node)
      go true = Dict.get_of_has graph.nodes node_id has
      go false = (node, known)

  pub active_owner-found :
      (active : Option ResponseSession) (s : ResponseSession) (node_id : String)
      (selector : List String)
      → active ≡ some s
      → IsKnown graph s
      → Dict.has graph.nodes node_id ≡ true
      → let owner = attributed (special_node graph active (prefix_of selector)) selector node_id in
        (node : Node V) × (Dict.get graph.nodes owner ≡ some node)
  active_owner-found active s node_id selector e known has =
      rw e (owner-found s node_id selector known has)

  -- An event can be made for a session's node, and for a node of the graph.
  pub event-Returns :
      (s : ResponseSession) (ws : List ResponseSession) (c : Coordinator)
      (node_id execution_id : String) (selector : List String) (chunk : String) (is_final : Bool)
      → IsKnown graph s
      → Dict.has graph.nodes node_id ≡ true
      → Stands (some s) ws c
      → Returns
          (create_stream_chunk_event graph node_id execution_id selector chunk is_final)
          c
          (λ _. Stands (some s) ws)
  unfolding create_stream_chunk_event
  event-Returns s ws c node_id execution_id selector chunk is_final known has h =
      let (node, found) =
        active_owner-found c.active_session s node_id selector h.is_active known has in
      Returns-after_gets _ c _ (Returns-after_require _ c _ _ node found (Returns-pure _ c h))

  pub known-has : (s : ResponseSession) → IsKnown graph s → Dict.has graph.nodes s.node_id ≡ true
  known-has s (node, found, _) = Dict.has-get graph.nodes s.node_id ∙ rw found refl

  pub text-Returns :
      (s : ResponseSession) (ws : List ResponseSession) (c : Coordinator)
      (active : Option ResponseSession) (text : String)
      → active ≡ some s
      → IsKnown graph s
      → Stands (some s) ws c
      → Returns (text_of ops graph active text) c (λ _. Stands (some s) ws)
  text-Returns s ws c active text e (node, found, same) h = rw e (
      Returns-after_require _ c _ _ node found (
        Returns-bind _ _ c (execution_id-Returns node.id (some s) ws c h) λ execution_id c' h'.
          Returns-after_require _ c' _ _ node (ap (Dict.get graph.nodes) same ∙ found) (
            Returns-bind _ _ c'
              (event-Returns s ws c' node.id execution_id _ text _ (node, found, same)
                (rw same (known-has s (node, found, same))) h')
              λ event c'' h''. Returns-pure _ c'' h'')))

  pub special_node-known :
      (s : ResponseSession) (prefix : String)
      → IsKnown graph s
      → Dict.has graph.nodes (Dict.or_else (special_node graph (some s) prefix) prefix) ≡ true
  special_node-known s prefix known = elim (Bool-cases (Dict.has graph.nodes prefix)) [
    | inl found ↦ rw found found
    | inr missing ↦ rw missing (known-has s known)
  ]

  pub readdress-Returns :
      (s : ResponseSession) (prefix execution_id : String) (events : List StreamChunk)
      (c : Coordinator) (Q : List StreamChunk → Coordinator → Type 0)
      → IsKnown graph s
      → ((sent : List StreamChunk) → Q sent c)
      → Returns (readdress graph (special_node graph (some s) prefix) execution_id events) c Q
  readdress-Returns s prefix execution_id events c Q (node, found, _) h =
      go (Dict.has graph.nodes prefix) events
    where
      go :
          (b : Bool) (xs : List StreamChunk)
          → Returns (readdress graph (if b then none else some s.node_id) execution_id xs) c Q
      go true xs = Returns-pure xs c (h xs)
      go false [] = Returns-pure [] c (h [])
      go false (x ∷ xs) = Returns-after_require _ c _ _ node found (Returns-pure _ c (h _))

  -- Where a variable's segment ends: complete, or waiting.
  abbrev pub Handled :
      ResponseSession
      → List ResponseSession
      → List String
      → List StreamChunk × Bool
      → Coordinator
      → Type 0
  Handled s ws selector result c =
      Stands (some s) ws c × (result.1 ≡ false → Waits ops pool selector c)

  pub value-Returns :
      (s : ResponseSession) (ws : List ResponseSession) (c : Coordinator) (value : Option V)
      (node_id execution_id : String) (selector : List String) (events : List StreamChunk)
      → IsKnown graph s
      → Dict.has graph.nodes node_id ≡ true
      → Stands (some s) ws c
      → (value ≡ none → Waits ops pool selector c)
      → Returns
          (scalar_value ops graph value node_id execution_id selector events)
          c
          (Handled s ws selector)
  value-Returns s ws c none node_id execution_id selector events known has h waits =
      Returns-pure (events, false) c (h, λ _. waits refl)
  value-Returns s ws c (some value) node_id execution_id selector events known has h waits =
      Returns-after_gets _ c _ (
        Returns-bind _ _ c (event-Returns s ws c node_id execution_id selector _ _ known has h)
          λ event c' h'. Returns-pure (events ++ event ∷ [], true) c' (h', λ e. cc))

  -- The end of a variable's segment, once its chunks are read.
  pub closing-Returns :
      (s : ResponseSession) (ws : List ResponseSession) (c : Coordinator) (closed : Bool)
      (node_id execution_id : String) (selector : List String) (events : List StreamChunk)
      → IsReadable ops pool
      → IsKnown graph s
      → Dict.has graph.nodes node_id ≡ true
      → Stands (some s) ws c
      → is_stream_closed c.streams selector ≡ closed
      → has_unread_stream c.streams selector ≡ false
      → Returns
          (from_result (if closed then Result.ok none else ops.get pool selector) >>= λ value.
            if closed
            then pure (events, true)
            else scalar_value ops graph value node_id execution_id selector events)
          c
          (Handled s ws selector)
  closing-Returns s ws c true node_id execution_id selector events readable known has h closed
        unread =
      Returns-after_result _ c _ none refl (Returns-pure (events, true) c (h, λ e. cc))
  closing-Returns s ws c false node_id execution_id selector events readable known has h closed
        unread =
      let (value, is_value) = readable selector in
      Returns-after_result _ c _ value is_value (
        value-Returns s ws c value node_id execution_id selector events known has h λ nothing.
          record {
            open_stream = closed;
            nothing_unread = unread;
            no_value = is_value ∙ ap ok nothing;
          })

  abbrev pub Drained :
      Option ResponseSession → List ResponseSession → List String → Coordinator → Type 0
  Drained active ws selector c = Stands active ws c × (has_unread_stream c.streams selector ≡ false)

  pub reading-Returns :
      (active : Option ResponseSession) (ws : List ResponseSession) (c : Coordinator)
      (selector : List String)
      → Stands active ws c
      → Returns
          (λ c. let (chunks, c') = on_streams (read_all selector) c in (Result.ok chunks, c'))
          c
          (λ _. Drained active ws selector)
  reading-Returns active ws c selector h = record {
    value = _;
    is_ok = refl;
    after = (
      record { is_active = h.is_active; is_waiting = h.is_waiting },
      read_all-unread selector c.streams,
    );
  }

  pub variable-Returns :
      (s : ResponseSession) (ws : List ResponseSession) (c : Coordinator) (selector : List String)
      → IsReadable ops pool
      → IsKnown graph s
      → Stands (some s) ws c
      → Returns (process_variable_segment ops graph states pool selector) c (Handled s ws selector)
  unfolding process_variable_segment
  variable-Returns s ws c selector readable known h =
      let has = special_node-known s (prefix_of selector) known in
      Returns-after_known _ c _ (some s) h.is_active (
        Returns-bind _ _ c (execution_id-Returns _ (some s) ws c h) λ execution_id c' h'.
          Returns-bind _ _ c' (reading-Returns (some s) ws c' selector h') λ unread c'' h''.
            Returns-bind {Q = λ _ c. Drained (some s) ws selector c} _ _ c''
              (readdress-Returns s (prefix_of selector) execution_id unread c''
                (λ _ c. Drained (some s) ws selector c) known (λ _. h''))
              λ events c3 h3. Returns-after_gets _ c3 _ (
                closing-Returns s ws c3 _ _ execution_id selector events readable known has h3.0
                  refl h3.1))
