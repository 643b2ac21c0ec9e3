-- ===== src/Response/Flush.antt =====
-- response_coordinator/coordinator.py: the sessions, and the flush of the active session's template.
-- `depth` is the depth of recursion that the interpreter allows: the end of a session starts the
-- next one from within.
pub mod Sessions
pub mod Segments
pub mod Rounds
pub mod Settled
pub mod Kept
pub mod Filled
pub mod Rendered
pub mod Template
use graphon.Prelude.{
  ℕ, zero, suc, ◌+◌, String, Bool, true, false, ◌&&◌, not, Option, none, some, List, [], ◌∷◌, ◌++◌,
  length, nat_eq, ◌==◌, if◌then◌else◌,
}
use graphon.Exec.{
  Exec, Result, runtime_error, recursion_error, pure, raise, require, gets, modify, from_result,
  ◌>>=◌, ◌>>◌,
}
use graphon.Dict
use graphon.Dict.{Dict}
use graphon.Enums.{is_skipped}
use graphon.Graph.{Graph, Node, States}
use graphon.Pool.{VariablePool}
use graphon.Response.{
  TemplateSegment, text_segment, variable_segment, StreamChunk, ResponseSession, is_complete, drop,
  ResponseOps,
}
use graphon.Response.Streams.{Streams, no_streams, read_all, is_stream_closed}

pub record Coordinator : Type 0 where
  pub active_session : Option ResponseSession
  pub waiting_sessions : List ResponseSession
  pub streams : Streams
  pub response_nodes : List String
  -- For each response node its paths: the blocking edges that have not been taken.
  pub paths_maps : Dict (List (List String))
  pub node_execution_ids : Dict String
  pub response_sessions : Dict ResponseSession
  -- How many ids uuid4 has made.
  pub created_ids : ℕ

abbrev pub Method : Type 0 → Type 0
Method = Exec Coordinator

-- selector[0] if selector else ""
abbrev pub prefix_of : List String → String
prefix_of [] = ""
prefix_of (x ∷ _) = x

abbrev pub is_some {ℓ} : {A : Type ℓ} → Option A → Bool
is_some none = false
is_some (some _) = true

abbrev pub on_streams : {A : Type 0} → (Streams → A × Streams) → Coordinator → A × Coordinator
on_streams m c = let (a, s) = m c.streams in (a, record c { streams = s })

-- self._active_session.index += 1
abbrev pub advanced : Option ResponseSession → Option ResponseSession
advanced none = none
advanced (some s) = some (record s { index = suc s.index })

unfoldable pub advance : Method Unit
advance = modify (λ c. record c { active_session = advanced c.active_session })

-- index == len(template.segments) - 1
abbrev pub is_last_segment : Option ResponseSession → Bool
is_last_segment none = false
is_last_segment (some s) = nat_eq (suc s.index) (length s.template)

abbrev pub remaining : ResponseSession → List TemplateSegment
remaining s = drop s.index s.template

abbrev pub is_active_complete : Option ResponseSession → Bool
is_active_complete none = false
is_active_complete (some s) = is_complete s

abbrev pub begin_next : Method (List StreamChunk) → List ResponseSession → Method (List StreamChunk)
begin_next flush [] c = pure [] (record c { active_session = none })
begin_next flush (next ∷ waiting) c =
    flush (record c { active_session = some next; waiting_sessions = waiting })

abbrev pub ends : Option ResponseSession → String → Bool
ends none node_id = false
ends (some s) node_id = s.node_id == node_id

-- `flush` is the call of try_flush.
unfoldable pub end_session : Method (List StreamChunk) → String → Method (List StreamChunk)
end_session flush node_id c =
    if ends c.active_session node_id then begin_next flush c.waiting_sessions c else pure [] c

-- The node that a chunk is attributed to.
abbrev pub attributed : Option String → List String → String → String
attributed (some response_node) (_ ∷ _) node_id = response_node
attributed _ _ node_id = node_id

module _ {V : Type 0} where
  abbrev pub chunk_event : Node V → String → List String → String → Bool → StreamChunk
  chunk_event node execution_id selector chunk is_final = record {
    id = execution_id;
    node_id = node.id;
    node_type = node.node_type;
    in_iteration_id = none;
    in_loop_id = none;
    selector = selector;
    chunk = chunk;
    is_final = is_final;
  }

  -- The chunks that were read, as events of the response node where the selector is special.
  abbrev pub readdressed : Node V → String → List StreamChunk → List StreamChunk
  readdressed node execution_id [] = []
  readdressed node execution_id (event ∷ events) =
      chunk_event node execution_id event.selector event.chunk event.is_final
      ∷ readdressed node execution_id events

  abbrev pub text_selector : Node V → Option (List String) → List String
  text_selector node (some selector) = selector
  text_selector node none = node.id ∷ "answer" ∷ []

module _ {V : Type 0} (graph : Graph V) where
  -- `if self._active_session and prefix not in self._graph.nodes`: the active session's node
  abbrev pub special_node : Option ResponseSession → String → Option String
  special_node none prefix = none
  special_node (some s) prefix = if Dict.has graph.nodes prefix then none else some s.node_id

  unfoldable pub create_stream_chunk_event :
      String → String → List String → String → Bool → Method StreamChunk
  create_stream_chunk_event node_id execution_id selector chunk is_final = do
    active ← gets (λ c. c.active_session)
    let owner = attributed (special_node active (prefix_of selector)) selector node_id
    node ← require owner (Dict.get graph.nodes owner)
    pure (chunk_event node execution_id selector chunk is_final)

  abbrev pub readdress : Option String → String → List StreamChunk → Method (List StreamChunk)
  readdress none execution_id events = pure events
  readdress (some node_id) execution_id [] = pure []
  readdress (some node_id) execution_id (event ∷ events) = do
    node ← require node_id (Dict.get graph.nodes node_id)
    pure (readdressed node execution_id (event ∷ events))

module _ {V : Type 0} (ops : ResponseOps V) where
  abbrev pub with_id : Option String → String → Method String
  with_id (some execution_id) node_id c = pure execution_id c
  with_id none node_id c =
      let execution_id = ops.uuid4 c.created_ids in
      (
        Result.ok execution_id,
        record c {
          node_execution_ids = Dict.put c.node_execution_ids node_id execution_id;
          created_ids = suc c.created_ids;
        },
      )

  unfoldable pub get_or_create_execution_id : String → Method String
  get_or_create_execution_id node_id c = with_id (Dict.get c.node_execution_ids node_id) node_id c

module _ {V : Type 0} (ops : ResponseOps V) (graph : Graph V) where
  -- `elif value := self._variable_pool.get(...)`
  abbrev pub scalar_value :
      Option V → String → String → List String → List StreamChunk → Method (List StreamChunk × Bool)
  scalar_value none node_id execution_id selector events = pure (events, false)
  scalar_value (some value) node_id execution_id selector events = do
    last ← gets (λ c. is_last_segment c.active_session)
    event ← create_stream_chunk_event graph node_id execution_id selector (ops.markdown value) last
    pure (events ++ event ∷ [], true)

  abbrev pub text_of : Option ResponseSession → String → Method (List StreamChunk)
  text_of none text =
      raise (runtime_error "Cannot process a text segment without an active response session.")
  text_of (some s) text = do
    node ← require s.node_id (Dict.get graph.nodes s.node_id)
    execution_id ← get_or_create_execution_id ops node.id
    require node.id (Dict.get graph.nodes node.id)
    event ←
        create_stream_chunk_event graph node.id execution_id
          (text_selector node (ops.get_streaming_text_selector node)) text
          (is_last_segment (some s))
    pure (event ∷ [])

  unfoldable pub process_text_segment : String → Method (List StreamChunk)
  unfolding get_or_create_execution_id create_stream_chunk_event
  process_text_segment text c = text_of c.active_session text c

-- The source node of a variable is skipped.
unfoldable pub is_source_skipped : {V : Type 0} → Graph V → States → List String → Bool
is_source_skipped graph states selector =
    Dict.has graph.nodes (prefix_of selector) && is_skipped (states.node_state (prefix_of selector))

module _ {V : Type 0} (ops : ResponseOps V) (graph : Graph V) (states : States)
    (pool : VariablePool V) where
  unfoldable pub process_variable_segment : List String → Method (List StreamChunk × Bool)
  unfolding get_or_create_execution_id create_stream_chunk_event
  process_variable_segment selector = do
    active ← gets (λ c. c.active_session)
    let special = special_node graph active (prefix_of selector)
    let output_node_id = Dict.or_else special (prefix_of selector)
    execution_id ← get_or_create_execution_id ops output_node_id
    unread ← λ c. let (chunks, c') = on_streams (read_all selector) c in (Result.ok chunks, c')
    events ← readdress graph special execution_id unread
    closed ← gets (λ c. is_stream_closed c.streams selector)
    value ← from_result (if closed then Result.ok none else ops.get pool selector)
    if closed
        then pure (events, true)
        else scalar_value ops graph value output_node_id execution_id selector events

  -- The loop of try_flush over the segments from the session's index on.
  unfoldable pub flush_segments : List TemplateSegment → Method (List StreamChunk)
  unfolding process_variable_segment process_text_segment is_source_skipped advance
  flush_segments [] = pure []
  flush_segments (text_segment text ∷ rest) = do
    events ← process_text_segment ops graph text
    advance
    more ← flush_segments rest
    pure (events ++ more)
  flush_segments (variable_segment selector ∷ rest) =
      let next = advance >> flush_segments rest in
      if is_source_skipped graph states selector
      then next
      else process_variable_segment selector >>= λ (events, complete).
          if complete then (next >>= (λ more. pure (events ++ more))) else pure events

  abbrev pub flush_active :
      Method (List StreamChunk) → Option ResponseSession → Method (List StreamChunk)
  flush_active flush none = pure []
  flush_active flush (some s) = do
    events ← flush_segments (remaining s)
    complete ← gets (λ c. is_active_complete c.active_session)
    if complete
        then (end_session flush s.node_id >>= (λ more. pure (events ++ more)))
        else pure events

  unfoldable pub try_flush : ℕ → Method (List StreamChunk)
  unfolding flush_segments end_session
  try_flush zero c = raise recursion_error c
  try_flush (suc depth) c = flush_active (try_flush depth) c.active_session c
