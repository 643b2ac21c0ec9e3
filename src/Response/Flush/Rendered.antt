-- ===== src/Response/Flush/Rendered.antt =====
-- response_coordinator/coordinator.py: the chunks of a template whose variables are all in the pool.
use graphon.Prelude.{
  suc, ◌+◌, String, ◌≡◌, refl, sym, ap, ◌∙◌, inl, inr, Bool, true, false, some, List, [], ◌∷◌, ◌++◌,
  map, length, nat_eq, All, Bool-cases, arith,
}
use mathlib.Core.List.{map-append}
use graphon.Exec.{◌>>◌}
use graphon.Exec.Returns.{Returns, Returns-pure, Returns-bind}
use graphon.Graph.{Graph, States}
use graphon.Pool.{VariablePool}
use graphon.Response.{
  TemplateSegment, text_segment, variable_segment, StreamChunk, ResponseSession, is_complete,
  ResponseOps,
}
use graphon.Response.Streams.{Streams}
use graphon.Response.Flush.{
  Coordinator, advance, advanced, process_text_segment, is_source_skipped, flush_segments,
}
use graphon.Response.Flush.Sessions.{IsKnown, next_segment}
use graphon.Response.Flush.Filled.{
  view, Holds, IsAvailable, rendering, IsFilled, Sends, ended, text-Sends, variable-Sends,
}

module _ {V : Type 0} (ops : ResponseOps V) (graph : Graph V) (states : States)
    (pool : VariablePool V) where
  advance-Holds :
      (s : ResponseSession) (streams : Streams) (c : Coordinator)
      → Holds (some s) streams c
      → Returns advance c (λ _. Holds (some (next_segment s)) streams)
  unfolding advance
  advance-Holds s streams c h = record {
    value = tt;
    is_ok = refl;
    after = record {
      is_active = ap advanced h.is_active;
      is_streams = h.is_streams;
      is_alone = h.is_alone;
    };
  }

  joined-view :
      (events more : List StreamChunk) (x : String × Bool) (seen : List (String × Bool))
      → map view events ≡ x ∷ []
      → map view more ≡ seen
      → map view (events ++ more) ≡ x ∷ seen
  joined-view events more x seen e f = map-append view events more ∙ rw (e, f) refl

  abbrev Later : ResponseSession → Streams → List TemplateSegment → Type 0
  Later s streams rest =
      (c : Coordinator)
      → Holds (some (next_segment s)) streams c
      → Returns (flush_segments ops graph states pool rest) c (
          Sends ops graph states pool
            (rendering ops graph states pool (length s.template) (suc s.index) rest)
            (some (ended s)) streams)

  -- The index moves on, and the rest of the loop runs.
  next-Sends :
      (s : ResponseSession) (streams : Streams) (rest : List TemplateSegment) (c : Coordinator)
      → Later s streams rest
      → Holds (some s) streams c
      → Returns (advance >> flush_segments ops graph states pool rest) c (
          Sends ops graph states pool
            (rendering ops graph states pool (length s.template) (suc s.index) rest)
            (some (ended s))
            streams)
  next-Sends s streams rest c later h =
      Returns-bind advance _ c (advance-Holds s streams c h) λ _ c' h'. later c' h'

  -- The loop from the segment at the index on.
  pub segments-Sends :
      (segments : List TemplateSegment) (s : ResponseSession) (streams : Streams) (c : Coordinator)
      → IsKnown graph s
      → All (IsFilled ops graph states pool streams) segments
      → s.index + length segments ≡ length s.template
      → Holds (some s) streams c
      → Returns (flush_segments ops graph states pool segments) c (
          Sends ops graph states pool
            (rendering ops graph states pool (length s.template) s.index segments)
            (some (ended s))
            streams)
  unfolding flush_segments process_text_segment
  segments-Sends [] s streams c known filled size h = Returns-pure [] c (
    refl,
    record {
      is_active = h.is_active ∙ ap (λ n. some (record s { index = n })) (omega (arith, size));
      is_streams = h.is_streams;
      is_alone = h.is_alone;
    },
  )
  segments-Sends (text_segment text ∷ rest) s streams c known filled size h =
      let later : Later s streams rest = λ c'.
        segments-Sends rest (next_segment s) streams c' known filled.1 (omega (arith, size)) in
      let text_sent : Returns (process_text_segment ops graph text) c (
          Sends ops graph states pool ((text, nat_eq (suc s.index) (length s.template)) ∷ [])
            (some s) streams) =
        let done =
          text-Sends ops graph states pool s streams c c.active_session text h.is_active known h in
        record { value = done.value; is_ok = done.is_ok; after = done.after } in
      Returns-bind _ _ c text_sent λ events c' (seen, h').
        Returns-bind advance _ c' (advance-Holds s streams c' h') λ _ c'' h''.
          Returns-bind _ _ c'' (later c'' h'')
            λ more c3 (others, h3). Returns-pure _ c3 (joined-view events more _ _ seen others, h3)
  segments-Sends (variable_segment selector ∷ rest) s streams c known filled size h =
      let later : Later s streams rest = λ c'.
        segments-Sends rest (next_segment s) streams c' known filled.1 (omega (arith, size)) in
      elim (Bool-cases (is_source_skipped graph states selector)) [
        | inl is ↦ rw is (next-Sends s streams rest c later h)
        | inr kept ↦ rw kept (
            Returns-bind _ _ c
              (variable-Sends ops graph states pool s streams c selector (available filled.0 kept)
                known h)
              λ (events, complete) c' (is_complete, (seen, h')). rw is_complete (
                Returns-bind _ _ c' (next-Sends s streams rest c' later h') λ more c3 (others, h3).
                  Returns-pure _ c3 (joined-view events more _ _ seen others, h3)))
      ]
    where
      available :
          IsFilled ops graph states pool streams (variable_segment selector)
          → is_source_skipped graph states selector ≡ false
          → IsAvailable ops pool streams selector
      available (inl skipped) kept = absurd (let clash : true ≡ false = sym skipped ∙ kept in cc)
      available (inr here) kept = here
