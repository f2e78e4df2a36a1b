-- ===== src/Executor/Adapters.antt =====
-- `ToolAdapterRegistry` of app/decision_intelligence/tool_adapters.py. An adapter acts on a world,
-- the sandbox, whose type is a parameter, and each of its calls returns or raises; the check that it
-- has callable methods holds by type.
use mr_enderson.Base.{
  ℕ, String, Bool, not, ◌&&◌, none, some, List, Dict, lookup, insert, keys, string_eq, is_some,
  Outcome, ok, raise, raise_if, ◌>>◌,
}
use mr_enderson.Schemas.{Action, ExecutionResult, VerificationResult}

-- What `execute` and `verify` get of `ExecutionContext`; its root is part of the adapter here.
pub record ExecutionContext : Type 0 where
  pub now : ℕ
  pub attempt_id : String

-- What a call of an adapter raises, by the name of its class and its text.
pub record AdapterException : Type 0 where
  pub error_type : String
  pub message : String

-- The subclasses of `ToolAdapterRegistrationError`.
pub data AdapterError : Type 0 where
  duplicate_adapter unknown_adapter : String → AdapterError

module _ (World : Type 0) where
  pub record ToolAdapter : Type 0 where
    pub execute :
        Action → ExecutionContext → World → World × Outcome AdapterException ExecutionResult
    pub verify :
        Action
        → ExecutionResult
        → ExecutionContext
        → World
        → World × Outcome AdapterException VerificationResult

  -- `self._adapters`
  abbrev pub Adapters : Type 0
  Adapters = Dict String ToolAdapter

module _ {World : Type 0} where
  unfoldable pub has_adapter : Adapters World → String → Bool
  has_adapter adapters tool_name = is_some (lookup tool_name adapters)

  unfoldable pub register_adapter :
      Adapters World → String → ToolAdapter World → Bool → Outcome AdapterError (Adapters World)
  unfolding has_adapter
  register_adapter adapters tool_name adapter replace = do
    raise_if (has_adapter adapters tool_name && not replace) (duplicate_adapter tool_name)
    ok (insert tool_name adapter adapters)

  unfoldable pub get_adapter : Adapters World → String → Outcome AdapterError (ToolAdapter World)
  get_adapter adapters tool_name = elim (lookup tool_name adapters) [
    | none ↦ raise (unknown_adapter tool_name)
    | some adapter ↦ ok adapter
  ]

  abbrev pub list_tool_names : Adapters World → List String
  list_tool_names adapters = keys adapters
