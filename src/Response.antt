-- ===== src/Response.antt =====
-- graph_engine/response_coordinator, with nodes/base/template.py: the data of the coordinator that
-- streams the texts of answer and end nodes, and what it asks of the nodes.
pub mod Streams
pub mod Paths
pub mod Flush
pub mod Events
pub mod Snapshot
use graphon.Prelude.{
  ℕ, zero, suc, String, Bool, true, false, ◌&&◌, Option, none, some, List, [], ◌∷◌, ◌==◌, leb,
  length, all,
}
use graphon.Exec.{Result}
use graphon.Dict.{Dict}
use graphon.Graph.{Node}
use graphon.Pool.{VariablePool}

-- The elements of a template.
pub data TemplateSegment : Type 0 where
  text_segment : (text : String) → TemplateSegment
  variable_segment : (selector : List String) → TemplateSegment

-- NodeRunStreamChunkEvent: the fields that every event of a node has, and its own.
pub record StreamChunk : Type 0 where
  pub id : String
  pub node_id : String
  pub node_type : String
  pub in_iteration_id : Option String
  pub in_loop_id : Option String
  pub selector : List String
  pub chunk : String
  pub is_final : Bool

pub record ResponseSession : Type 0 where
  pub node_id : String
  pub template : List TemplateSegment
  -- The position in the template.
  pub index : ℕ

unfoldable pub is_complete : ResponseSession → Bool
is_complete s = leb (length s.template) s.index

-- Equality of two tuples of texts.
abbrev pub same_selector : List String → List String → Bool
same_selector [] [] = true
same_selector (x ∷ xs) (y ∷ ys) = x == y && same_selector xs ys
same_selector _ _ = false

-- xs[n:]
abbrev pub drop {ℓ} : {A : Type ℓ} → ℕ → List A → List A
drop zero xs = xs
drop (suc n) [] = []
drop (suc n) (x ∷ xs) = drop n xs

-- What the classes of nodes implement each in its own way, and `str(uuid4())`, the n-th call.
pub record ResponseOps (V : Type 0) : Type 0 where
  pub get_streaming_template : Node V → Option (List TemplateSegment)
  pub get_streaming_text_selector : Node V → Option (List String)
  pub blocks_variable_output : Node V → List (List String) → Bool
  pub markdown : V → String
  pub uuid4 : ℕ → String
  -- VariablePool.get
  pub get : VariablePool V → List String → Result (Option V)
