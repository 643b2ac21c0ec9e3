-- ===== src/ReadyQueue.antt =====
-- graph_engine/ready_queue: the queue of node ids over Python's queue.Queue, and its serialized
-- form. The JSON conversion (pydantic) is a parameter.
pub mod RoundTrip
use graphon.Prelude.{
  ℕ, zero, suc, ◌+◌, ◌-◌, String, ◌≡◌, Bool, Option, none, some, List, [], ◌∷◌, ◌++◌, length,
  is_nil, ◌==◌, not, if◌then◌else◌,
}
use graphon.Exec.{
  Result, ok, err, Exec, pure, raise, gets, modify, from_result, value_error, empty_error, for_each,
  ◌>>=◌, ◌>>◌,
}

pub record ReadyQueueState : Type 0 where
  pub type_name : String
  pub version : String
  pub items : List String

-- model_dump_json and model_validate_json
pub record StateCodec : Type 0 where
  pub model_dump_json : ReadyQueueState → String
  pub model_validate_json : String → Result ReadyQueueState

-- The items of the queue.Queue, oldest first, and the count that `task_done` lowers.
pub record InMemoryReadyQueue : Type 0 where
  pub items : List String
  pub unfinished_tasks : ℕ

abbrev pub new_queue : InMemoryReadyQueue
new_queue = record { items = []; unfinished_tasks = 0 }

abbrev pub Method : Type 0 → Type 0
Method = Exec InMemoryReadyQueue

unfoldable pub put : String → Method Unit
put item =
    modify (λ q. record { items = q.items ++ item ∷ []; unfinished_tasks = suc q.unfinished_tasks })

abbrev taken_from : List String → InMemoryReadyQueue → Result String × InMemoryReadyQueue
taken_from [] q = (err empty_error, q)
taken_from (item ∷ rest) q = (ok item, record q { items = rest })

-- With a timeout, an empty queue raises queue.Empty.
unfoldable pub get : Method String
get q = taken_from q.items q

abbrev one_less : ℕ → InMemoryReadyQueue → Result (Unit {0}) × InMemoryReadyQueue
one_less zero q = (err (value_error "task_done() called too many times"), q)
one_less (suc n) q = (ok tt, record q { unfinished_tasks = n })

unfoldable pub task_done : Method Unit
task_done q = one_less q.unfinished_tasks q

unfoldable pub empty : InMemoryReadyQueue → Bool
empty q = is_nil q.items

unfoldable pub qsize : InMemoryReadyQueue → ℕ
qsize q = length q.items

-- `while not self._queue.empty(): get_nowait()`: the items in their order, and the queue drained.
unfoldable pub drain : Method (List String)
drain q = (ok q.items, record q { items = [] })

module _ (codec : StateCodec) where
  unfoldable pub dumps : Method String
  unfolding drain put
  dumps = do
    items ← drain
    for_each put items
    pure (
        codec.model_dump_json
          (record { type_name = "InMemoryReadyQueue"; version = "1.0"; items = items }))

  unfoldable pub loads : String → Method Unit
  unfolding drain put
  loads saved = do
    state ← from_result (codec.model_validate_json saved)
    if not (state.type_name == "InMemoryReadyQueue")
        then raise (value_error "Invalid serialized data type")
        else if not (state.version == "1.0")
        then raise (value_error "Unsupported version")
        else drain >>= λ _. for_each put state.items

  -- factory.py
  unfoldable pub create_ready_queue_from_state :
      ReadyQueueState → Result (Unit {0}) × InMemoryReadyQueue
  unfolding loads
  create_ready_queue_from_state state =
      if not (state.type_name == "InMemoryReadyQueue")
      then (err (value_error "Unknown ready queue type"), new_queue)
      else if not (state.version == "1.0")
      then (err (value_error "Unsupported version"), new_queue)
      else loads (codec.model_dump_json state) new_queue
