-- ===== src/ToolRegistry/Operations.antt =====
-- `ToolDefinition` and `ToolRegistry` of app/decision_intelligence/tool_registry.py. The check
-- that `register` is given a ToolDefinition holds here by typing.
use mr_enderson.Base.{
  String, Bool, ◌&&◌, not, none, some, List, string_eq, Outcome, ok, raise, raise_if, ◌>>=◌, ◌>>◌,
  is_empty, is_some, all, contains, Dict, lookup, insert, erase, values,
}
use mr_enderson.Authority.Identifiers.{codes}
use mr_enderson.Schemas.{PermissionLevel, RiskLevel, Json}
use mr_enderson.ToolRegistry.Names.{name_pattern, action_type_pattern}

pub record ToolDefinition : Type 0 where
  pub name : String
  pub description : String
  pub supported_action_types : List String
  pub default_permission_level : PermissionLevel
  pub default_risk_level : RiskLevel
  pub has_side_effects : Bool
  pub supports_dry_run : Bool
  pub input_schema : Json
  pub output_schema : Json
  pub verification_strategy : String
  pub enabled : Bool

-- The subclasses of `ToolRegistrationError`.
pub data ToolError : Type 0 where
  invalid_definition : ToolError
  duplicate : String → ToolError
  unknown_tool : String → ToolError
  disabled : String → ToolError
  unsupported : String → String → ToolError

-- `self._tools`
abbrev pub Tools : Type 0
Tools = Dict String ToolDefinition

-- `_validate_definition` finds nothing to complain of.
unfoldable pub well_formed : ToolDefinition → Bool
well_formed tool =
    name_pattern (codes tool.name)
    && (not (is_empty tool.supported_action_types)
        && all (λ t. action_type_pattern (codes t)) tool.supported_action_types)

unfoldable pub validate_definition : ToolDefinition → Outcome ToolError (Unit {0})
unfolding well_formed
validate_definition tool = raise_if (not (well_formed tool)) invalid_definition

unfoldable pub has_tool : Tools → String → Bool
has_tool tools name = is_some (lookup name tools)

unfoldable pub register : Tools → ToolDefinition → Bool → Outcome ToolError Tools
register tools tool replace = do
  validate_definition tool
  raise_if (has_tool tools tool.name && not replace) (duplicate tool.name)
  ok (insert tool.name tool tools)

unfoldable pub unregister : Tools → String → Outcome ToolError Tools
unregister tools name = do
  raise_if (not (has_tool tools name)) (unknown_tool name)
  ok (erase name tools)

-- `ToolRegistry.get`
unfoldable pub get_tool : Tools → String → Outcome ToolError ToolDefinition
get_tool tools name = elim (lookup name tools) [
  | none ↦ raise (unknown_tool name)
  | some tool ↦ ok tool
]

abbrev pub list_definitions : Tools → List ToolDefinition
list_definitions tools = values tools

unfoldable pub resolve : Tools → String → String → Outcome ToolError ToolDefinition
unfolding get_tool
resolve tools name action_type = do
  tool ← get_tool tools name
  raise_if (not tool.enabled) (disabled name)
  raise_if (not (contains action_type tool.supported_action_types)) (unsupported name action_type)
  ok tool
