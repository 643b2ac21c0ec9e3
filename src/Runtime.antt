-- ===== src/Runtime.antt =====
-- runtime/graph_runtime_state.py: the data that an execution owns besides the graph, and the nodes
-- that a pause holds back.
use graphon.Prelude.{ℕ, ◌+◌, String, Bool, List, [], ◌∷◌, ◌==◌, if◌then◌else◌, nat_eq}
use graphon.Dict
use graphon.Dict.{Dict}
use graphon.Pool.{VariablePool}
use graphon.StateManager.{set_add}

-- LLMUsage (model_runtime/entities/llm_entities.py) as the engine sees it.
pub record UsageOps (U : Type 0) : Type 0 where
  pub total_tokens : U → ℕ
  pub plus : U → U → U
  pub empty_usage : U

-- What the engine does with values: the text of an f-string, and `bool(value)`.
pub record ValueOps (V : Type 0) : Type 0 where
  pub text : String → V
  pub is_truthy : V → Bool
  pub format_pair : V → V → V

pub record RuntimeState (V U : Type 0) : Type 0 where
  pub variable_pool : VariablePool V
  pub total_tokens : ℕ
  pub llm_usage : U
  pub outputs : Dict V
  pub node_run_steps : ℕ
  pub paused_nodes : List String
  pub deferred_nodes : List String

-- The new value of one output: an answer is appended to the answer that is there.
unfoldable pub merged : {V : Type 0} → ValueOps V → Dict V → String → V → V
merged ops outputs key value =
    if key == "answer"
    then (let existing = Dict.get_or outputs "answer" (ops.text "") in
        if ops.is_truthy existing then ops.format_pair existing value else value)
    else value

module _ {V U : Type 0} where
  unfoldable pub increment_node_run_steps : RuntimeState V U → RuntimeState V U
  increment_node_run_steps r = record r { node_run_steps = r.node_run_steps + 1 }

  -- A negative number is refused by the source; here it is a natural number.
  unfoldable pub add_tokens : ℕ → RuntimeState V U → RuntimeState V U
  add_tokens tokens r = record r { total_tokens = r.total_tokens + tokens }

  unfoldable pub register_paused_node : String → RuntimeState V U → RuntimeState V U
  register_paused_node node_id r = record r { paused_nodes = set_add node_id r.paused_nodes }

  unfoldable pub consume_paused_nodes : RuntimeState V U → List String × RuntimeState V U
  consume_paused_nodes r = (r.paused_nodes, record r { paused_nodes = [] })

  unfoldable pub register_deferred_node : String → RuntimeState V U → RuntimeState V U
  register_deferred_node node_id r = record r { deferred_nodes = set_add node_id r.deferred_nodes }

  unfoldable pub consume_deferred_nodes : RuntimeState V U → List String × RuntimeState V U
  consume_deferred_nodes r = (r.deferred_nodes, record r { deferred_nodes = [] })

  unfoldable pub set_output : String → V → RuntimeState V U → RuntimeState V U
  set_output key value r = record r { outputs = Dict.put r.outputs key value }

  module _ (ops : ValueOps V) where
    unfoldable pub merge_response_outputs : Dict V → RuntimeState V U → RuntimeState V U
    unfolding merged set_output
    merge_response_outputs [] r = r
    merge_response_outputs ((key, value) ∷ rest) r =
        merge_response_outputs rest (set_output key (merged ops r.outputs key value) r)

  module _ (usage : UsageOps U) where
    -- EventHandler._accumulate_node_usage
    unfoldable pub accumulate_node_usage : U → RuntimeState V U → RuntimeState V U
    unfolding add_tokens
    accumulate_node_usage u r =
        let tokens = usage.total_tokens u in
        if nat_eq tokens 0
        then r
        else let counted = add_tokens tokens r in
          if nat_eq (usage.total_tokens r.llm_usage) 0
          then record counted { llm_usage = u }
          else record counted { llm_usage = usage.plus r.llm_usage u }
