-- ===== src/Response/Flush/Kept.antt =====
-- response_coordinator/coordinator.py: what a flush leaves as it is.
use mathlib.Core.List.{append_assoc, append-nil, map-append}
use graphon.Prelude.{
  refl, ap, sym, subst, ◌∙◌, map, ◌++◌, ℕ, zero, suc, String, ◌≡◌, Bool, true, false, Option, none,
  some, List, [], ◌∷◌, if◌then◌else◌,
}
use graphon.Exec.{Result, pure}
use graphon.Exec.Triple.{
  Keeps, Keeps-pure, Keeps-raise, Keeps-require, Keeps-gets, Keeps-if, Keeps-bind,
}
use graphon.Dict
use graphon.Dict.{Dict}
use graphon.Graph.{Graph, States}
use graphon.Pool.{VariablePool}
use graphon.Response.{
  TemplateSegment, text_segment, variable_segment, StreamChunk, ResponseSession, ResponseOps,
}
use graphon.Response.Streams.{read_all}
use graphon.Response.Flush.{
  Coordinator, Method, advance, get_or_create_execution_id, create_stream_chunk_event, scalar_value,
  process_variable_segment, process_text_segment, is_source_skipped, flush_segments, remaining,
  end_session, begin_next, ends, flush_active, try_flush, on_streams, readdress, text_of, with_id,
  advanced,
}

abbrev pub ids_of : Option ResponseSession → List String
ids_of none = []
ids_of (some s) = s.node_id ∷ []

-- The nodes of the active session and of the waiting ones, in order.
abbrev pub queue_of : Coordinator → List String
queue_of c = ids_of c.active_session ++ map (λ s. s.node_id) c.waiting_sessions

abbrev pub IsEndOf : List String → List String → Type 0
IsEndOf xs queue = (front : List String) × (front ++ xs ≡ queue)

tail-IsEndOf : (xs ys queue : List String) → IsEndOf (xs ++ ys) queue → IsEndOf ys queue
tail-IsEndOf xs ys queue (front, is) = (front ++ xs, append_assoc front xs ys ∙ is)

ids_of-advanced : (active : Option ResponseSession) → ids_of (advanced active) ≡ ids_of active
ids_of-advanced none = refl
ids_of-advanced (some s) = refl

pub stays-IsEndOf : (xs : List String) → IsEndOf xs (xs ++ [])
stays-IsEndOf xs = ([], sym (append-nil xs))

-- A session joins the queue at its end.
pub queue_of-queued :
    (session : ResponseSession) (c : Coordinator)
    → queue_of (record c { waiting_sessions = c.waiting_sessions ++ session ∷ [] })
      ≡ queue_of c ++ session.node_id ∷ []
queue_of-queued session c =
    ap (λ ids. ids_of c.active_session ++ ids) (map-append _ c.waiting_sessions (session ∷ []))
    ∙ sym (append_assoc (ids_of c.active_session) _ (session.node_id ∷ []))

pub queue_of-begun :
    (session : ResponseSession) (c : Coordinator)
    → c.active_session ≡ none
    → c.waiting_sessions ≡ []
    → queue_of (record c { active_session = some session }) ≡ queue_of c ++ session.node_id ∷ []
queue_of-begun session c idle empty = rw (idle, empty) refl

-- The registered nodes, their paths and the sessions that have not begun are these, and what is left
-- of a queue of sessions is its end.
pub record Registered (nodes : List String) (paths : Dict (List (List String)))
    (sessions : Dict ResponseSession) (queue : List String) (c : Coordinator) : Type 0 where
  pub the_nodes : c.response_nodes ≡ nodes
  pub the_paths : c.paths_maps ≡ paths
  pub the_sessions : c.response_sessions ≡ sessions
  pub the_queue : IsEndOf (queue_of c) queue

module _ (nodes : List String) (paths : Dict (List (List String))) (sessions : Dict ResponseSession)
    (queue : List String) {V : Type 0} (ops : ResponseOps V) (graph : Graph V) (states : States)
    (pool : VariablePool V) where
  abbrev Kept : {A : Type 0} → Method A → Type 0
  Kept m = Keeps (Registered nodes paths sessions queue) m

  with_id-Kept : (known : Option String) (node_id : String) → Kept (with_id ops known node_id)
  with_id-Kept (some x) node_id = record { at = λ c h. h }
  with_id-Kept none node_id = record {
    at = λ c h. record {
      the_nodes = h.the_nodes;
      the_paths = h.the_paths;
      the_sessions = h.the_sessions;
      the_queue = h.the_queue;
    };
  }

  id-Kept : (node_id : String) → Kept (get_or_create_execution_id ops node_id)
  unfolding get_or_create_execution_id
  id-Kept node_id = record {
    at = λ c h. (with_id-Kept (Dict.get c.node_execution_ids node_id) node_id).at c h;
  }

  event-Kept :
      (node_id execution_id : String) (selector : List String) (chunk : String) (is_final : Bool)
      → Kept (create_stream_chunk_event graph node_id execution_id selector chunk is_final)
  unfolding create_stream_chunk_event
  event-Kept node_id execution_id selector chunk is_final =
      Keeps-bind _ _ (Keeps-gets _)
        λ active. Keeps-bind _ _ (Keeps-require _ _) λ node. Keeps-pure _

  scalar-Kept :
      (value : Option V) (node_id execution_id : String) (selector : List String)
      (events : List StreamChunk)
      → Kept (scalar_value ops graph value node_id execution_id selector events)
  scalar-Kept none node_id execution_id selector events = Keeps-pure _
  scalar-Kept (some value) node_id execution_id selector events =
      Keeps-bind _ _ (Keeps-gets _) λ last.
        Keeps-bind _ _ (event-Kept node_id execution_id selector _ last) λ event. Keeps-pure _

  readdress-Kept :
      (special : Option String) (execution_id : String) (events : List StreamChunk)
      → Kept (readdress graph special execution_id events)
  readdress-Kept none execution_id events = Keeps-pure events
  readdress-Kept (some node_id) execution_id [] = Keeps-pure []
  readdress-Kept (some node_id) execution_id (event ∷ events) =
      Keeps-bind _ _ (Keeps-require _ _) λ node. Keeps-pure _

  variable-Kept :
      (selector : List String) → Kept (process_variable_segment ops graph states pool selector)
  unfolding process_variable_segment
  variable-Kept selector = Keeps-bind _ _ (Keeps-gets _) λ active.
      Keeps-bind _ _ (id-Kept _) λ execution_id. Keeps-bind _ _ reading λ unread.
        Keeps-bind _ _ (readdress-Kept _ execution_id unread) λ events.
          Keeps-bind _ _ (Keeps-gets _) λ closed.
            Keeps-bind _ _ (record { at = λ c h. h })
              λ value.
                Keeps-if closed _ _ (Keeps-pure _)
                  (scalar-Kept value _ execution_id selector events)
    where
      reading :
          Kept (λ c. let (chunks, c') = on_streams (read_all selector) c in (Result.ok chunks, c'))
      reading = record {
        at = λ c h. record {
          the_nodes = h.the_nodes;
          the_paths = h.the_paths;
          the_sessions = h.the_sessions;
          the_queue = h.the_queue;
        };
      }

  text-Kept :
      (active : Option ResponseSession) (text : String) → Kept (text_of ops graph active text)
  text-Kept none text = Keeps-raise _
  text-Kept (some s) text = Keeps-bind _ _ (Keeps-require _ _) λ node.
      Keeps-bind _ _ (id-Kept _) λ execution_id.
        Keeps-bind _ _ (Keeps-require _ _)
          λ _. Keeps-bind _ _ (event-Kept _ execution_id _ text _) λ event. Keeps-pure _

  advance-Kept : Kept advance
  unfolding advance
  advance-Kept = record {
    at = λ c h. record {
      the_nodes = h.the_nodes;
      the_paths = h.the_paths;
      the_sessions = h.the_sessions;
      the_queue =
          subst (λ ids. IsEndOf (ids ++ map (λ s. s.node_id) c.waiting_sessions) queue)
            (sym (ids_of-advanced c.active_session)) h.the_queue;
    };
  }

  segments-Kept :
      (segments : List TemplateSegment) → Kept (flush_segments ops graph states pool segments)
  unfolding flush_segments process_text_segment
  segments-Kept [] = Keeps-pure []
  segments-Kept (text_segment text ∷ rest) =
      Keeps-bind _ _ (record { at = λ c h. (text-Kept c.active_session text).at c h })
        λ events.
          Keeps-bind _ _ advance-Kept λ _. Keeps-bind _ _ (segments-Kept rest) λ more. Keeps-pure _
  segments-Kept (variable_segment selector ∷ rest) =
      let next = Keeps-bind _ _ advance-Kept (λ _. segments-Kept rest) in
      Keeps-if (is_source_skipped graph states selector) _ _ next (
        Keeps-bind _ _ (variable-Kept selector) λ (events, complete).
          Keeps-if complete _ _ (Keeps-bind _ _ next λ more. Keeps-pure _) (Keeps-pure _))

  begin-Kept :
      (flush : Method (List StreamChunk)) (waiting : List ResponseSession) (c : Coordinator)
      → Kept flush
      → c.waiting_sessions ≡ waiting
      → Registered nodes paths sessions queue c
      → Registered nodes paths sessions queue (begin_next flush waiting c).1
  begin-Kept flush [] c kept is h = record {
    the_nodes = h.the_nodes;
    the_paths = h.the_paths;
    the_sessions = h.the_sessions;
    the_queue = tail-IsEndOf (ids_of c.active_session) _ queue h.the_queue;
  }
  begin-Kept flush (next ∷ waiting) c kept is h =
      kept.at (record c { active_session = some next; waiting_sessions = waiting })
        record {
          the_nodes = h.the_nodes;
          the_paths = h.the_paths;
          the_sessions = h.the_sessions;
          the_queue =
              subst (λ later. IsEndOf (map (λ s. s.node_id) later) queue) is
                (tail-IsEndOf (ids_of c.active_session) _ queue h.the_queue);
        }

  end_session-Kept :
      (flush : Method (List StreamChunk)) (node_id : String)
      → Kept flush
      → Kept (end_session flush node_id)
  unfolding end_session
  end_session-Kept flush node_id kept = record {
    at = λ c h. go c h (ends c.active_session node_id);
  }
    where
      go :
          (c : Coordinator)
          → Registered nodes paths sessions queue c
          → (b : Bool)
          → Registered nodes paths sessions queue
              (if b then begin_next flush c.waiting_sessions c else pure [] c).1
      go c h true = begin-Kept flush c.waiting_sessions c kept refl h
      go c h false = h

  active-Kept :
      (flush : Method (List StreamChunk)) (active : Option ResponseSession)
      → Kept flush
      → Kept (flush_active ops graph states pool flush active)
  active-Kept flush none kept = Keeps-pure []
  active-Kept flush (some s) kept = Keeps-bind _ _ (segments-Kept (remaining s)) λ events.
      Keeps-bind _ _ (Keeps-gets _) λ complete.
        Keeps-if complete _ _
          (Keeps-bind _ _ (end_session-Kept flush s.node_id kept) λ more. Keeps-pure _)
          (Keeps-pure _)

  pub try_flush-Kept : (depth : ℕ) → Kept (try_flush ops graph states pool depth)
  unfolding try_flush
  try_flush-Kept zero = record { at = λ c h. h }
  try_flush-Kept (suc depth) = record {
    at = λ c h.
        (active-Kept (try_flush ops graph states pool depth) c.active_session
            (try_flush-Kept depth)).at
          c h;
  }
