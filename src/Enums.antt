-- ===== src/Enums.antt =====
-- enums.py: the states, execution types and error strategies that the engine branches on.
use graphon.Prelude.{Bool, true, false}

-- State of a node or of an edge during an execution.
pub data NodeState : Type 0 where
  unknown taken skipped : NodeState

pub data NodeExecutionType : Type 0 where
  executable response branch container root : NodeExecutionType

pub data ErrorStrategy : Type 0 where
  fail_branch default_value : ErrorStrategy

abbrev pub is_unknown : NodeState → Bool
is_unknown unknown = true
is_unknown _ = false

abbrev pub is_taken : NodeState → Bool
is_taken taken = true
is_taken _ = false

abbrev pub is_skipped : NodeState → Bool
is_skipped skipped = true
is_skipped _ = false

abbrev pub is_branch : NodeExecutionType → Bool
is_branch branch = true
is_branch _ = false

abbrev pub is_response : NodeExecutionType → Bool
is_response response = true
is_response _ = false

abbrev pub is_root : NodeExecutionType → Bool
is_root root = true
is_root _ = false
