-- ===== src/Response/Flush/Sessions.antt =====
-- response_coordinator/coordinator.py: what is said of the sessions of a coordinator.
use graphon.Prelude.{
  ℕ, zero, suc, String, ◌≡◌, refl, ap, true, false, Option, none, some, List, [], ◌∷◌, length, leb,
  arith,
}
use graphon.Exec.{ok}
use graphon.Dict
use graphon.Graph.{Graph, Node, States}
use graphon.Pool.{VariablePool}
use graphon.Response.{TemplateSegment, variable_segment, ResponseSession, drop, ResponseOps}
use graphon.Response.Streams.{has_unread_stream, is_stream_closed}
use graphon.Response.Flush.{Coordinator, is_source_skipped, remaining}

-- The active session and the queue are these.
pub record Stands (active : Option ResponseSession) (waiting : List ResponseSession)
    (c : Coordinator) : Type 0 where
  pub is_active : c.active_session ≡ active
  pub is_waiting : c.waiting_sessions ≡ waiting

pub drop-nil : {A : Type 0} (n : ℕ) (xs : List A) → drop n xs ≡ [] → leb (length xs) n ≡ true
drop-nil zero [] h = refl
drop-nil zero (x ∷ xs) h = cc
drop-nil (suc n) [] h = ground arith
drop-nil (suc n) (x ∷ xs) h = ground (arith, drop-nil n xs h)

pub drop-suc :
    {A : Type 0} (n : ℕ) (xs : List A) (x : A) (rest : List A)
    → drop n xs ≡ x ∷ rest
    → drop (suc n) xs ≡ rest
drop-suc zero [] x rest h = cc
drop-suc zero (y ∷ xs) x rest h = ap (drop 1) h
drop-suc (suc n) [] x rest h = cc
drop-suc (suc n) (y ∷ xs) x rest h = drop-suc n xs x rest h

abbrev pub next_segment : ResponseSession → ResponseSession
next_segment s = record s { index = suc s.index }

module _ {V : Type 0} (graph : Graph V) where
  -- The node of a session is one of the graph's.
  abbrev pub IsKnown : ResponseSession → Type 0
  IsKnown s = (node : Node V) × (Dict.get graph.nodes s.node_id ≡ some node) × (node.id ≡ s.node_id)

module _ {V : Type 0} (ops : ResponseOps V) (pool : VariablePool V) where
  -- The lookup of a variable does not raise.
  abbrev pub IsReadable : Type 0
  IsReadable = (selector : List String) → (value : Option V) × (ops.get pool selector ≡ ok value)

  -- Nothing can be sent for the variable: its stream is open, all of it is sent, and the pool has
  -- no value.
  pub record Waits (selector : List String) (c : Coordinator) : Type 0 where
    pub open_stream : is_stream_closed c.streams selector ≡ false
    pub nothing_unread : has_unread_stream c.streams selector ≡ false
    pub no_value : ops.get pool selector ≡ ok none

module _ {V : Type 0} (ops : ResponseOps V) (graph : Graph V) (states : States)
    (pool : VariablePool V) where
  -- The session stands at a variable that waits, of a node that is not skipped.
  pub record Stuck (s : ResponseSession) (c : Coordinator) : Type 0 where
    pub selector : List String
    pub rest : List TemplateSegment
    pub at_variable : remaining s ≡ variable_segment selector ∷ rest
    pub not_skipped : is_source_skipped graph states selector ≡ false
    pub waits : Waits ops pool selector c
