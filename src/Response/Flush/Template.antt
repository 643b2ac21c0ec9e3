-- ===== src/Response/Flush/Template.antt =====
-- response_coordinator/coordinator.py: the flush of a whole template.
use graphon.Prelude.{
  ℕ, zero, suc, ◌+◌, ◌≤◌, ◌≡◌, refl, ap, ◌∙◌, true, Option, none, some, List, [], ◌∷◌, ◌++◌, map,
  length, leb, All, eq_refl, if◌then◌else◌, arith,
}
use mathlib.Core.List.{append-nil}
use graphon.Exec.{ok, pure}
use graphon.Exec.Returns.{Returns, Returns-pure, Returns-same, Returns-bind, Returns-after_known}
use graphon.Graph.{Graph, States}
use graphon.Pool.{VariablePool}
use graphon.Response.{StreamChunk, ResponseSession, is_complete, drop, ResponseOps}
use graphon.Response.Flush.{
  Coordinator, Method, remaining, is_active_complete, end_session, ends, begin_next, flush_active,
  try_flush,
}
use graphon.Response.Flush.Sessions.{IsKnown}
use graphon.Response.Flush.Filled.{view, Holds, rendering, IsFilled, ended}
use graphon.Response.Flush.Rendered.{segments-Sends}

length-drop :
    {A : Type 0} (n : ℕ) (xs : List A) → n ≤ length xs → n + length (drop n xs) ≡ length xs
length-drop zero xs h = omega arith
length-drop (suc n) [] h = omega arith
length-drop (suc n) (x ∷ xs) h = let below = length-drop n xs (omega arith) in omega arith

leb_refl : (n : ℕ) → leb n n ≡ true
leb_refl n = ground arith

module _ {V : Type 0} (ops : ResponseOps V) (graph : Graph V) (states : States)
    (pool : VariablePool V) where
  -- The session's template is sent, and the session is over.
  record Sent (s : ResponseSession) (events : List StreamChunk) (c : Coordinator) : Type 0 where
    seen :
        map view events ≡ rendering ops graph states pool (length s.template) s.index (remaining s)
    over : c.active_session ≡ none

  ending-Sent :
      (flush : Method (List StreamChunk)) (s : ResponseSession) (events : List StreamChunk)
      (c : Coordinator)
      → map view events ≡ rendering ops graph states pool (length s.template) s.index (remaining s)
      → Holds (some (ended s)) c.streams c
      → Returns (end_session flush s.node_id) c (λ more c'. Sent s (events ++ more) c')
  unfolding end_session
  ending-Sent flush s events c seen h =
      let ends_here : ends c.active_session s.node_id ≡ true =
        ap (λ o. ends o s.node_id) h.is_active ∙ eq_refl s.node_id in
      Returns-same _ (λ c. pure [] (record c { active_session = none })) c
        (ap (λ b. if b then begin_next flush c.waiting_sessions c else pure [] c) ends_here
          ∙ ap (λ later. begin_next flush later c) h.is_alone)
        record {
          value = [];
          is_ok = refl;
          after = record { seen = ap (map view) (append-nil events) ∙ seen; over = refl };
        }

  active-Sent :
      (flush : Method (List StreamChunk)) (s : ResponseSession) (c : Coordinator)
      (active : Option ResponseSession)
      → active ≡ some s
      → IsKnown graph s
      → All (IsFilled ops graph states pool c.streams) (remaining s)
      → s.index ≤ length s.template
      → Holds (some s) c.streams c
      → Returns (flush_active ops graph states pool flush active) c (Sent s)
  unfolding is_complete
  active-Sent flush s c active is_active known filled inside h = rw is_active (
      Returns-bind _ _ c
        (segments-Sends ops graph states pool (remaining s) s c.streams c known filled
          (length-drop s.index s.template inside) h)
        λ events c' (seen, h').
          Returns-after_known _ c' _ true
            (ap is_active_complete h'.is_active ∙ leb_refl (length s.template))
            (Returns-bind _ _ c'
              (ending-Sent flush s events c' seen
                record { is_active = h'.is_active; is_streams = refl; is_alone = h'.is_alone })
              λ more c'' sent. Returns-pure _ c'' sent))

-- When the active session stands within its template, no session waits, and every variable that is
-- left is either of a skipped node or has a value in the pool and no stream, try_flush returns the
-- chunks of what is left of the template, in order: the texts and the values of the variables that
-- are not skipped, of which the one of the template's last segment is final. No session is active
-- then.
pub try_flush-rendering :
    {V : Type 0} (ops : ResponseOps V) (graph : Graph V) (states : States) (pool : VariablePool V)
    (depth : ℕ) (s : ResponseSession) (c : Coordinator)
    → c.active_session ≡ some s
    → c.waiting_sessions ≡ []
    → IsKnown graph s
    → All (IsFilled ops graph states pool c.streams) (remaining s)
    → s.index ≤ length s.template
    → (events : List StreamChunk) × ((try_flush ops graph states pool (suc depth) c).0 ≡ ok events)
      × (map view events
          ≡ rendering ops graph states pool (length s.template) s.index (remaining s))
      × ((try_flush ops graph states pool (suc depth) c).1.active_session ≡ none)
unfolding try_flush
try_flush-rendering ops graph states pool depth s c is_active alone known filled inside =
    let done =
      active-Sent ops graph states pool (try_flush ops graph states pool depth) s c c.active_session
        is_active known filled inside
        record { is_active = is_active; is_streams = refl; is_alone = alone } in
    (done.value, done.is_ok, done.after.seen, done.after.over)
