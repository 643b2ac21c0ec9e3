-- ===== src/Response/Flush/Rounds.antt =====
-- response_coordinator/coordinator.py: the loop of try_flush over the segments of the active
-- session, and where it ends.
use graphon.Prelude.{
  String, ◌≡◌, refl, ap, ◌⊎◌, inl, inr, Bool, true, false, some, List, [], ◌∷◌, ◌++◌, Bool-cases,
  if◌then◌else◌,
}
use graphon.Exec.{pure, ◌>>=◌, ◌>>◌}
use graphon.Exec.Returns.{Returns, Returns-pure, Returns-bind, Returns-map}
use graphon.Graph.{Graph, States}
use graphon.Pool.{VariablePool}
use graphon.Response.{
  TemplateSegment, text_segment, variable_segment, StreamChunk, ResponseSession, is_complete,
  ResponseOps,
}
use graphon.Response.Flush.{
  Coordinator, Method, advance, process_text_segment, is_source_skipped, flush_segments, remaining,
  advanced,
}
use graphon.Response.Flush.Sessions.{
  Stands, IsKnown, IsReadable, Stuck, drop-nil, drop-suc, next_segment,
}
use graphon.Response.Flush.Segments.{text-Returns, Handled, variable-Returns}

module _ {V : Type 0} (ops : ResponseOps V) (graph : Graph V) (states : States)
    (pool : VariablePool V) where
  -- The loop has run for the session `s`: it is at the end, or it stands at a variable that waits.
  pub record Flushed (s : ResponseSession) (ws : List ResponseSession) (c : Coordinator)
      : Type 0 where
    pub session : ResponseSession
    pub stands : Stands (some session) ws c
    pub same_node : session.node_id ≡ s.node_id
    pub at_end : (is_complete session ≡ true) ⊎ Stuck ops graph states pool session c

  advance-Returns :
      (s : ResponseSession) (ws : List ResponseSession) (c : Coordinator)
      → Stands (some s) ws c
      → Returns advance c (λ _. Stands (some (next_segment s)) ws)
  unfolding advance
  advance-Returns s ws c h = record {
    value = tt;
    is_ok = refl;
    after = record { is_active = ap advanced h.is_active; is_waiting = h.is_waiting };
  }

  of_next :
      (s : ResponseSession) (ws : List ResponseSession) (c : Coordinator)
      → Flushed (next_segment s) ws c
      → Flushed s ws c
  of_next s ws c f = record {
    session = f.session;
    stands = f.stands;
    same_node = f.same_node;
    at_end = f.at_end;
  }

  -- What the rest of the loop does behind a finished segment.
  next-Returns :
      (s : ResponseSession) (ws : List ResponseSession) (c : Coordinator)
      (m : Method (List StreamChunk))
      → ((c' : Coordinator)
          → Stands (some (next_segment s)) ws c'
          → Returns m c' (λ _. Flushed (next_segment s) ws))
      → Stands (some s) ws c
      → Returns (advance >> m) c (λ _. Flushed s ws)
  next-Returns s ws c m later h =
      Returns-bind advance _ c (advance-Returns s ws c h)
        λ _ c' h'. Returns-map m c' (later c' h') (λ _ c''. of_next s ws c'')

  -- The end of a variable's round, by whether its segment is complete.
  round-Returns :
      (s : ResponseSession) (ws : List ResponseSession) (c : Coordinator) (selector : List String)
      (rest : List TemplateSegment) (m : Method (List StreamChunk)) (events : List StreamChunk)
      (complete : Bool)
      → ((c' : Coordinator) → Stands (some s) ws c' → Returns m c' (λ _. Flushed s ws))
      → remaining s ≡ variable_segment selector ∷ rest
      → is_source_skipped graph states selector ≡ false
      → Handled ops graph states pool s ws selector (events, complete) c
      → Returns
          (if complete then (m >>= (λ more. pure (events ++ more))) else pure events)
          c
          (λ _. Flushed s ws)
  round-Returns s ws c selector rest m events true later left kept (h, waits) =
      Returns-bind m _ c (later c h) λ more c' f. Returns-pure _ c' f
  round-Returns s ws c selector rest m events false later left kept (h, waits) =
      Returns-pure _ c record {
        session = s;
        stands = h;
        same_node = refl;
        at_end = inr record {
          selector = selector;
          rest = rest;
          at_variable = left;
          not_skipped = kept;
          waits = waits refl;
        };
      }

  pub flush_segments-Returns :
      (segments : List TemplateSegment) (s : ResponseSession) (ws : List ResponseSession)
      (c : Coordinator)
      → IsReadable ops pool
      → IsKnown graph s
      → remaining s ≡ segments
      → Stands (some s) ws c
      → Returns (flush_segments ops graph states pool segments) c (λ _. Flushed s ws)
  unfolding flush_segments process_text_segment is_complete
  flush_segments-Returns [] s ws c readable known left h = Returns-pure [] c record {
    session = s;
    stands = h;
    same_node = refl;
    at_end = inl (drop-nil s.index s.template left);
  }
  flush_segments-Returns (text_segment text ∷ rest) s ws c readable known left h =
      let later : (c' : Coordinator)
          → Stands (some (next_segment s)) ws c'
          → Returns (flush_segments ops graph states pool rest) c'
              (λ _. Flushed (next_segment s) ws) =
        λ c'.
          flush_segments-Returns rest (next_segment s) ws c' readable known
            (drop-suc s.index s.template _ rest left) in
      let text_sent : Returns (process_text_segment ops graph text) c (λ _. Stands (some s) ws) =
        let done =
          text-Returns ops graph states pool s ws c c.active_session text h.is_active known h in
        record { value = done.value; is_ok = done.is_ok; after = done.after } in
      Returns-bind _ _ c text_sent λ events c' h'.
        Returns-bind advance _ c' (advance-Returns s ws c' h') λ _ c'' h''.
          Returns-bind _ _ c'' (later c'' h'') λ more c3 f. Returns-pure _ c3 (of_next s ws c3 f)
  flush_segments-Returns (variable_segment selector ∷ rest) s ws c readable known left h =
      let later : (c' : Coordinator)
          → Stands (some (next_segment s)) ws c'
          → Returns (flush_segments ops graph states pool rest) c'
              (λ _. Flushed (next_segment s) ws) =
        λ c'.
          flush_segments-Returns rest (next_segment s) ws c' readable known
            (drop-suc s.index s.template _ rest left) in
      let next : (c' : Coordinator)
          → Stands (some s) ws c'
          → Returns (advance >> flush_segments ops graph states pool rest) c' (λ _. Flushed s ws) =
        λ c'. next-Returns s ws c' _ later in
      elim (Bool-cases (is_source_skipped graph states selector)) [
        | inl is ↦ rw is (next c h)
        | inr kept ↦ rw kept (
            Returns-bind _ _ c
              (variable-Returns ops graph states pool s ws c selector readable known h)
              λ (events, complete) c' handled.
                round-Returns s ws c' selector rest _ events complete next left kept handled)
      ]
