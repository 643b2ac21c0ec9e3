-- ===== src/Response/Events/Settling.antt =====
-- response_coordinator/coordinator.py: a coordinator that was not flushed, or flushed to the end.
use graphon.Prelude.{◌⊎◌, inl, inr, ◌≡◌, ◌∙◌, none, []}
use graphon.Graph.{Graph, States}
use graphon.Pool.{VariablePool}
use graphon.Response.{ResponseOps}
use graphon.Response.Flush.{Coordinator}
use graphon.Response.Flush.Settled.{IsSettled, idle, stuck}

-- The active session and the streams are as before, and without an active session the waiting ones
-- are, too.
pub record IsUntouched (c c' : Coordinator) : Type 0 where
  pub active : c'.active_session ≡ c.active_session
  pub streams : c'.streams ≡ c.streams
  pub waiting : c.active_session ≡ none → c'.waiting_sessions ≡ c.waiting_sessions

module _ {V : Type 0} (ops : ResponseOps V) (graph : Graph V) (states : States)
    (pool : VariablePool V) where
  -- A change that leaves the active session and the streams leaves what is settled.
  pub IsSettled-move :
      (c c' : Coordinator)
      → c'.active_session ≡ c.active_session
      → c'.streams ≡ c.streams
      → (c.active_session ≡ none → c.waiting_sessions ≡ [] → c'.waiting_sessions ≡ [])
      → IsSettled ops graph states pool c
      → IsSettled ops graph states pool c'
  IsSettled-move c c' active streams waiting (idle e w) = idle (active ∙ e) (waiting e w)
  IsSettled-move c c' active streams waiting (stuck s e at) = stuck s (active ∙ e) record {
    selector = at.selector;
    rest = at.rest;
    at_variable = at.at_variable;
    not_skipped = at.not_skipped;
    waits = record {
      open_stream = rw streams at.waits.open_stream;
      nothing_unread = rw streams at.waits.nothing_unread;
      no_value = at.waits.no_value;
    };
  }

  pub flushed_trans :
      (c c1 c2 : Coordinator)
      → IsUntouched c c1 ⊎ IsSettled ops graph states pool c1
      → IsUntouched c1 c2 ⊎ IsSettled ops graph states pool c2
      → IsUntouched c c2 ⊎ IsSettled ops graph states pool c2
  flushed_trans c c1 c2 first (inr h) = inr h
  flushed_trans c c1 c2 (inr h) (inl u) =
      inr (IsSettled-move c1 c2 u.active u.streams (λ e w. u.waiting e ∙ w) h)
  flushed_trans c c1 c2 (inl u) (inl v) = inl record {
    active = v.active ∙ u.active;
    streams = v.streams ∙ u.streams;
    waiting = λ e. v.waiting (u.active ∙ e) ∙ u.waiting e;
  }
