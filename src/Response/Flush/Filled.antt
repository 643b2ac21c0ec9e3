-- ===== src/Response/Flush/Filled.antt =====
-- response_coordinator/coordinator.py: the chunks of texts, and of variables that have a value.
use graphon.Prelude.{
  ℕ, suc, String, ◌≡◌, refl, sym, ap, ◌∙◌, ◌⊎◌, Bool, true, false, Option, none, some, List, [],
  ◌∷◌, map, length, nat_eq, if◌then◌else◌,
}
use graphon.Exec.{Result, ok}
use graphon.Exec.Returns.{
  Returns, Returns-pure, Returns-bind, Returns-after_gets, Returns-after_known,
  Returns-after_require, Returns-after_result,
}
use graphon.Dict
use graphon.Graph.{Graph, States}
use graphon.Pool.{VariablePool}
use graphon.Response.{
  TemplateSegment, text_segment, variable_segment, StreamChunk, ResponseSession, ResponseOps,
}
use graphon.Response.Streams.{Streams, buffered, is_stream_closed, read_all, read_stream}
use graphon.Response.Flush.{
  Coordinator, prefix_of, is_last_segment, get_or_create_execution_id, create_stream_chunk_event,
  process_variable_segment, is_source_skipped, on_streams, readdress, text_of, with_id,
}
use graphon.Response.Flush.Sessions.{IsKnown}
use graphon.Response.Flush.Segments.{active_owner-found, known-has, special_node-known}

-- What a reader sees of a chunk: its text, and whether it is the last.
abbrev pub view : StreamChunk → String × Bool
view event = (event.chunk, event.is_final)

-- The session at the end of the loop.
abbrev pub ended : ResponseSession → ResponseSession
ended s = record s { index = length s.template }

-- The active session and the streams are these, and no session waits.
pub record Holds (active : Option ResponseSession) (streams : Streams) (c : Coordinator)
    : Type 0 where
  pub is_active : c.active_session ≡ active
  pub is_streams : c.streams ≡ streams
  pub is_alone : c.waiting_sessions ≡ []

module _ {V : Type 0} (ops : ResponseOps V) (pool : VariablePool V) where
  -- The variable's value is in the pool, and nothing has been streamed for it.
  pub record IsAvailable (streams : Streams) (selector : List String) : Type 0 where
    pub value : V
    pub has_value : ops.get pool selector ≡ ok (some value)
    pub no_buffer : streams.stream_buffers selector ≡ none
    pub still_open : streams.closed_streams selector ≡ false

  abbrev markdown_of : Result (Option V) → String
  markdown_of (ok (some value)) = ops.markdown value
  markdown_of _ = ""

  abbrev pub shown : TemplateSegment → String
  shown (text_segment text) = text
  shown (variable_segment selector) = markdown_of (ops.get pool selector)

module _ {V : Type 0} (ops : ResponseOps V) (graph : Graph V) (states : States)
    (pool : VariablePool V) where
  -- The template from the segment `n` on as a reader should see it: the segments of skipped
  -- sources are left out, and the last one of the template is final.
  abbrev pub rendering : ℕ → ℕ → List TemplateSegment → List (String × Bool)
  rendering size n [] = []
  rendering size n (text_segment text ∷ rest) =
      (text, nat_eq (suc n) size) ∷ rendering size (suc n) rest
  rendering size n (variable_segment selector ∷ rest) =
      let later = rendering size (suc n) rest in
      if is_source_skipped graph states selector
      then later
      else (shown ops pool (variable_segment selector), nat_eq (suc n) size) ∷ later

  abbrev pub IsFilled : Streams → TemplateSegment → Type 0
  IsFilled streams (text_segment text) = Unit
  IsFilled streams (variable_segment selector) =
      (is_source_skipped graph states selector ≡ true) ⊎ IsAvailable ops pool streams selector

  event-Holds :
      (s : ResponseSession) (streams : Streams) (c : Coordinator) (node_id execution_id : String)
      (selector : List String) (chunk : String) (is_final : Bool)
      → IsKnown graph s
      → Dict.has graph.nodes node_id ≡ true
      → Holds (some s) streams c
      → Returns
          (create_stream_chunk_event graph node_id execution_id selector chunk is_final)
          c
          (λ event c'. (view event ≡ (chunk, is_final)) × Holds (some s) streams c')
  unfolding create_stream_chunk_event
  event-Holds s streams c node_id execution_id selector chunk is_final known has h =
      let (node, found) =
        active_owner-found ops graph states pool c.active_session s node_id selector h.is_active
          known has in
      Returns-after_gets _ c _
        (Returns-after_require _ c _ _ node found (Returns-pure _ c (refl, h)))

  id-Holds :
      (node_id : String) (active : Option ResponseSession) (streams : Streams) (c : Coordinator)
      → Holds active streams c
      → Returns (get_or_create_execution_id ops node_id) c (λ _. Holds active streams)
  unfolding get_or_create_execution_id
  id-Holds node_id active streams c h =
      let made = go (Dict.get c.node_execution_ids node_id) in
      record { value = made.value; is_ok = made.is_ok; after = made.after }
    where
      go :
          (known : Option String)
          → Returns (with_id ops known node_id) c (λ _. Holds active streams)
      go none = record {
        value = _;
        is_ok = refl;
        after = record {
          is_active = h.is_active;
          is_streams = h.is_streams;
          is_alone = h.is_alone;
        };
      }
      go (some x) = Returns-pure x c h

  -- What a step sends, and what it keeps.
  abbrev pub Sends :
      List (String × Bool)
      → Option ResponseSession
      → Streams
      → List StreamChunk
      → Coordinator
      → Type 0
  Sends seen active streams events c = (map view events ≡ seen) × Holds active streams c

  pub text-Sends :
      (s : ResponseSession) (streams : Streams) (c : Coordinator) (active : Option ResponseSession)
      (text : String)
      → active ≡ some s
      → IsKnown graph s
      → Holds (some s) streams c
      → Returns
          (text_of ops graph active text)
          c
          (Sends ((text, nat_eq (suc s.index) (length s.template)) ∷ []) (some s) streams)
  text-Sends s streams c active text e (node, found, same) h = rw e (
      Returns-after_require _ c _ _ node found (
        Returns-bind _ _ c (id-Holds node.id (some s) streams c h) λ execution_id c' h'.
          Returns-after_require _ c' _ _ node (ap (Dict.get graph.nodes) same ∙ found) (
            Returns-bind _ _ c'
              (event-Holds s streams c' node.id execution_id _ text _ (node, found, same)
                (rw same (known-has ops graph states pool s (node, found, same))) h')
              λ event c'' (seen, h''). Returns-pure _ c'' (ap (λ v. v ∷ []) seen, h''))))

  read-Holds :
      (active : Option ResponseSession) (streams : Streams) (c : Coordinator)
      (selector : List String)
      → streams.stream_buffers selector ≡ none
      → Holds active streams c
      → Returns
          (λ c. let (chunks, c') = on_streams (read_all selector) c in (Result.ok chunks, c'))
          c
          (λ chunks c'. (chunks ≡ []) × Holds active streams c')
  unfolding read_all read_stream
  read-Holds active streams c selector none_there h =
      let nothing : c.streams.stream_buffers selector ≡ none =
        ap (λ s. s.stream_buffers selector) h.is_streams ∙ none_there in
      let read : read_all selector c.streams ≡ ([], c.streams) =
        ap (λ b. read_stream (length (buffered b)) selector c.streams) nothing in
      record {
        value = _;
        is_ok = refl;
        after = (
          ap (λ r. r.0) read,
          record {
            is_active = h.is_active;
            is_streams = ap (λ r. r.1) read ∙ h.is_streams;
            is_alone = h.is_alone;
          },
        );
      }

  nothing-readdressed :
      (special : Option String) (execution_id : String) (active : Option ResponseSession)
      (streams : Streams) (c : Coordinator)
      → Holds active streams c
      → Returns
          (readdress graph special execution_id [])
          c
          (λ events c'. (events ≡ []) × Holds active streams c')
  nothing-readdressed none execution_id active streams c h = Returns-pure [] c (refl, h)
  nothing-readdressed (some node_id) execution_id active streams c h = Returns-pure [] c (refl, h)

  pub variable-Sends :
      (s : ResponseSession) (streams : Streams) (c : Coordinator) (selector : List String)
      → IsAvailable ops pool streams selector
      → IsKnown graph s
      → Holds (some s) streams c
      → Returns (process_variable_segment ops graph states pool selector) c (λ result c'.
        (result.1 ≡ true)
        × Sends
            ((shown ops pool (variable_segment selector), nat_eq (suc s.index) (length s.template))
              ∷ [])
            (some s)
            streams
            result.0
            c')
  unfolding process_variable_segment is_stream_closed
  variable-Sends s streams c selector here known h =
      let has = special_node-known ops graph states pool s (prefix_of selector) known in
      Returns-after_known _ c _ (some s) h.is_active (
        Returns-bind _ _ c (id-Holds _ (some s) streams c h) λ execution_id c' h'.
          Returns-bind _ _ c' (read-Holds (some s) streams c' selector here.no_buffer h')
            λ unread c'' (nothing, h'').
              Returns-bind {Q = λ events c. (events ≡ []) × Holds (some s) streams c} _ _ c''
                (rw nothing (nothing-readdressed _ execution_id (some s) streams c'' h''))
                λ events c3 (none_sent, h3).
                  Returns-after_known _ c3 _ false
                    (ap (λ x. x.closed_streams selector) h3.is_streams ∙ here.still_open)
                    (Returns-after_result _ c3 _ (some here.value) here.has_value (
                      Returns-after_known _ c3 _ (nat_eq (suc s.index) (length s.template))
                        (ap is_last_segment h3.is_active)
                        (Returns-bind _ _ c3
                          (event-Holds s streams c3 _ execution_id selector _ _ known has h3)
                          λ event c4 (seen, h4). Returns-pure _ c4 (
                            refl,
                            (
                              rw none_sent (
                                  ap (λ v. v ∷ [])
                                    (seen
                                      ∙ ap
                                          (λ r. (
                                            markdown_of ops pool r,
                                            nat_eq (suc s.index) (length s.template),
                                          ))
                                          (sym here.has_value))),
                              h4,
                            ),
                          )))))
