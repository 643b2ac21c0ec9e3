-- ===== src/Samples/Responses.antt =====
-- The response stream coordinator on the small graph: sessions of the node "end", whose template
-- has a text and a variable of the node "left".
use graphon.Prelude.{
  ◌≤◌, String, ◌≡◌, refl, ap, subst, Bool, true, false, ◌↔◌, inr, Option, none, some, List, [], ◌∷◌,
  ◌++◌, map, length, any, All, contains, arith,
}
use mathlib.Core.List.{Memᴰ}
use graphon.Exec.{ok, ◌>>=◌}
use graphon.Dict
use graphon.Dict.{Dict}
use graphon.Graph.{Edge, initial_states, edges_of, with_found, get_outgoing_edges}
use graphon.Graph.Build.{build_edges, edge_id, append_to}
use graphon.Pool.{VariablePool, get_variable}
use graphon.Response.{
  text_segment, variable_segment, StreamChunk, ResponseSession, is_complete, drop, ResponseOps,
}
use graphon.Response.Streams.{no_streams, buffer_of, is_stream_closed, read_all}
use graphon.Response.Streams.Queue.{
  StreamCall, append, pop, close, follow_all, empty_log, stream-IsQueue,
}
use graphon.Response.Flush.{Coordinator, try_flush, is_source_skipped}
use graphon.Response.Flush.Sessions.{IsKnown, IsReadable}
use graphon.Response.Flush.Settled.{IsReady, IsSettled, try_flush-IsSettled}
use graphon.Response.Flush.Filled.{view, rendering, IsAvailable}
use graphon.Response.Flush.Template.{try_flush-rendering}
use graphon.Response.Snapshot.{
  IsOfNode, load_active, dump_active, load_waiting, serialize_session, load-dump,
}
use graphon.Response.Paths.{find_all_paths}
use graphon.Response.Paths.Simple.{IsSimplePath, find_all_paths-IsSimplePath}
use graphon.Response.Paths.Depth.{LeadsToNodes, find_all_paths-returns}
use graphon.Response.Events.{take_edge, on_edge_taken}
use graphon.Response.Events.Taken.{take_edges, is_covered, take_edge-is_reachable}
use graphon.Samples.{sample_graph}

abbrev sample_chunk : String → Bool → StreamChunk
sample_chunk text is_final = record {
  id = "run-1";
  node_id = "left";
  node_type = "code";
  in_iteration_id = none;
  in_loop_id = none;
  selector = "left" ∷ "text" ∷ [];
  chunk = text;
  is_final = is_final;
}

abbrev sample_selector : List String
sample_selector = "left" ∷ "text" ∷ []

-- The third chunk comes when the stream is closed.
abbrev sample_calls : List StreamCall
sample_calls =
    append sample_selector (sample_chunk "a" false)
    ∷ append sample_selector (sample_chunk "b" true)
    ∷ pop sample_selector
    ∷ close sample_selector
    ∷ append sample_selector (sample_chunk "c" false)
    ∷ []

stream-IsQueue_example :
    let (log, s) = follow_all sample_selector sample_calls (empty_log, no_streams) in
    (log.read ++ drop (s.stream_positions sample_selector) (buffer_of s sample_selector)
      ≡ log.accepted)
    × (s.stream_positions sample_selector ≤ length (buffer_of s sample_selector))
stream-IsQueue_example = stream-IsQueue sample_selector sample_calls

abbrev sample_ops : ResponseOps String
sample_ops = record {
  get_streaming_template =
      λ node. some (text_segment "Answer: " ∷ variable_segment sample_selector ∷ []);
  get_streaming_text_selector = λ node. none;
  blocks_variable_output = λ node selectors. false;
  markdown = λ v. v;
  uuid4 = λ n. "uuid";
  get = λ pool selector. ok (get_variable pool selector);
}

sample_ops-IsReadable : (pool : VariablePool String) → IsReadable sample_ops pool
sample_ops-IsReadable pool selector = (get_variable pool selector, refl)

abbrev sample_session : ResponseSession
sample_session = record {
  node_id = "end";
  template = text_segment "Answer: " ∷ variable_segment sample_selector ∷ [];
  index = 0;
}

sample_session-IsKnown : IsKnown sample_graph sample_session
unfolding sample_graph Dict.get
sample_session-IsKnown = (_, refl, refl)

-- One session is active, and a session of the same template waits.
abbrev sample_streaming : List ResponseSession → Coordinator
sample_streaming waiting = record {
  active_session = some sample_session;
  waiting_sessions = waiting;
  streams = no_streams;
  response_nodes = "end" ∷ [];
  paths_maps = ("end", []) ∷ [];
  node_execution_ids = [];
  response_sessions = [];
  created_ids = 0;
}

streaming-IsReady : IsReady sample_graph (sample_streaming (sample_session ∷ []))
streaming-IsReady = record {
  active_known = λ s e.
      subst (IsKnown sample_graph) (ap (λ o. Dict.or_else o sample_session) e)
        sample_session-IsKnown;
  waiting_known = (sample_session-IsKnown, tt);
  none_waits = λ e. absurd (let clash : some sample_session ≡ none = e in cc);
}

try_flush-IsSettled_example :
    let (r, c) =
      try_flush sample_ops sample_graph initial_states [] 2
        (sample_streaming (sample_session ∷ [])) in
    (events : List StreamChunk) × (r ≡ ok events)
    × IsSettled sample_ops sample_graph initial_states [] c
try_flush-IsSettled_example =
    try_flush-IsSettled sample_ops sample_graph initial_states [] 2
      (sample_streaming (sample_session ∷ [])) (sample_ops-IsReadable []) streaming-IsReady
      (omega arith)

abbrev sample_pool : VariablePool String
sample_pool = ("left", ("text", "42") ∷ []) ∷ []

variable-IsAvailable : IsAvailable sample_ops sample_pool no_streams sample_selector
unfolding get_variable Dict.get
variable-IsAvailable = record {
  value = "42";
  has_value = refl;
  no_buffer = refl;
  still_open = refl;
}

try_flush-rendering_example :
    let (r, c) =
      try_flush sample_ops sample_graph initial_states sample_pool 1 (sample_streaming []) in
    (events : List StreamChunk) × (r ≡ ok events)
    × (map view events
        ≡ rendering sample_ops sample_graph initial_states sample_pool 2 0 sample_session.template)
    × (c.active_session ≡ none)
try_flush-rendering_example =
    try_flush-rendering sample_ops sample_graph initial_states sample_pool 0 sample_session
      (sample_streaming []) refl refl sample_session-IsKnown (tt, (inr variable-IsAvailable, tt))
      (omega arith)

-- What a reader sees of that template.
sample_rendering :
    rendering sample_ops sample_graph initial_states sample_pool 2 0 sample_session.template
    ≡ ("Answer: ", false) ∷ ("42", true) ∷ []
unfolding get_variable Dict.get Dict.has is_source_skipped sample_graph
sample_rendering = refl

abbrev found_paths : List (List String)
found_paths = ("edge_0" ∷ "edge_1" ∷ "edge_3" ∷ []) ∷ ("edge_0" ∷ "edge_2" ∷ "edge_4" ∷ []) ∷ []

paths_found : find_all_paths sample_graph 6 "start" "end" [] [] ≡ ok found_paths
unfolding find_all_paths sample_graph build_edges edge_id get_outgoing_edges edges_of Dict.get
    Dict.get_or Dict.put Dict.values append_to
paths_found = refl

find_all_paths-IsSimplePath_example :
    Memᴰ ("edge_0" ∷ "edge_1" ∷ "edge_3" ∷ []) found_paths
    ↔ IsSimplePath sample_graph "start" ("edge_0" ∷ "edge_1" ∷ "edge_3" ∷ []) "end"
find_all_paths-IsSimplePath_example =
    find_all_paths-IsSimplePath sample_graph 6 "start" "end" found_paths
      ("edge_0" ∷ "edge_1" ∷ "edge_3" ∷ []) paths_found

edges_of-All :
    (P : Edge → Type 0) (edges : Dict Edge) (ids : List String)
    → All P (Dict.values edges)
    → All P (edges_of edges ids)
unfolding edges_of
edges_of-All P edges [] h = tt
edges_of-All P edges (x ∷ ids) h =
    go (Dict.get edges x) (λ e found. Dict.get-All P edges x e h found) (edges_of-All P edges ids h)
  where
    go :
        (o : Option Edge)
        → ((e : Edge) → o ≡ some e → P e)
        → All P (edges_of edges ids)
        → All P (with_found o (edges_of edges ids))
    go none here rest = rest
    go (some e) here rest = (here e refl, rest)

sample_graph-leads : LeadsToNodes sample_graph
unfolding sample_graph build_edges edge_id get_outgoing_edges Dict.values Dict.keys Dict.put
sample_graph-leads n =
    edges_of-All (λ (edge : Edge). contains (Dict.keys sample_graph.nodes) edge.head ≡ true)
      sample_graph.edges (Dict.get_or sample_graph.out_edges n [])
      (refl, (refl, (refl, (refl, (refl, tt)))))

find_all_paths-returns_example :
    (paths : List (List String)) × (find_all_paths sample_graph 6 "start" "end" [] [] ≡ ok paths)
unfolding sample_graph Dict.keys
find_all_paths-returns_example =
    find_all_paths-returns sample_graph 6 "start" "end" sample_graph-leads refl (omega arith)

-- Two paths, of which the second is free once "edge_2" has been taken.
abbrev sample_paths : List (List String)
sample_paths = ("edge_0" ∷ "edge_1" ∷ []) ∷ ("edge_2" ∷ []) ∷ []

take_edge-is_reachable_example :
    (take_edge "edge_0" (take_edges ("edge_1" ∷ []) sample_paths)).1
    ≡ any (is_covered ("edge_1" ∷ "edge_0" ∷ [])) sample_paths
take_edge-is_reachable_example =
    take_edge-is_reachable ("edge_1" ∷ []) "edge_0" sample_paths
      ((refl, (refl, tt)), ((refl, tt), tt))

-- The session of "end" has not begun.
abbrev sample_registered : Coordinator
sample_registered = record {
  active_session = none;
  waiting_sessions = [];
  streams = no_streams;
  response_nodes = "end" ∷ [];
  paths_maps = ("end", sample_paths) ∷ [];
  node_execution_ids = [];
  response_sessions = ("end", sample_session) ∷ [];
  created_ids = 0;
}

-- The edge makes the node reachable, and its session begins.
session_begins :
    (on_edge_taken sample_ops sample_graph initial_states [] 2 "edge_2"
      sample_registered).1.response_sessions
    ≡ []
unfolding on_edge_taken sample_graph Dict.get Dict.has Dict.put Dict.remove get_variable
    is_source_skipped ◌>>=◌ is_stream_closed read_all is_complete
session_begins = refl

session_of_end : IsOfNode sample_ops sample_graph sample_session
unfolding sample_graph Dict.get
session_of_end = (_, refl, refl, refl)

load-dump_example :
    (load_active sample_ops sample_graph (dump_active (some sample_session))
      ≡ ok (some sample_session))
    × (load_waiting sample_ops sample_graph (map serialize_session (sample_session ∷ []))
        ≡ ok (sample_session ∷ []))
load-dump_example =
    load-dump sample_ops sample_graph (some sample_session) (sample_session ∷ [])
      (λ s e.
        subst (IsOfNode sample_ops sample_graph) (ap (λ o. Dict.or_else o sample_session) e)
          session_of_end)
      (session_of_end, tt)
