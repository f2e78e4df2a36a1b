-- ===== src/PermissionEngine/Levels.antt =====
-- Orders and tables of app/decision_intelligence/permission_engine.py, and `requires_tool` of
-- app/decision_intelligence/plan_validation.py.
use mr_enderson.Base.{
  ℕ, String, Bool, not, Option, List, [], ◌∷◌, string_eq, contains, leb, Dict, lookup,
  if◌then◌else◌, Eq, eq_of_discrete,
}
use mr_enderson.Schemas.{PermissionLevel, RiskLevel}

pub data PermissionOutcome : Type 0 where
  allow allow_with_audit require_approval block : PermissionOutcome

abbrev pub PermissionOutcome-discrete : Discrete PermissionOutcome
PermissionOutcome-discrete = hlevel

instance abbrev pub permission_outcome_eq : Eq PermissionOutcome
permission_outcome_eq = eq_of_discrete PermissionOutcome-discrete

-- `PermissionOutcome.value`
unfoldable pub outcome_value : PermissionOutcome → String
outcome_value allow = "ALLOW"
outcome_value allow_with_audit = "ALLOW_WITH_AUDIT"
outcome_value require_approval = "REQUIRE_APPROVAL"
outcome_value block = "BLOCK"

-- `_permission_rank`: the place in `_PERMISSION_ORDER`.
unfoldable pub permission_rank : PermissionLevel → ℕ
permission_rank PermissionLevel.read = 0
permission_rank PermissionLevel.write = 1
permission_rank PermissionLevel.external_action = 2
permission_rank PermissionLevel.financial_action = 3
permission_rank PermissionLevel.admin = 4

-- `_risk_rank`: the place in `_RISK_ORDER`.
unfoldable pub risk_rank : RiskLevel → ℕ
risk_rank RiskLevel.low = 0
risk_rank RiskLevel.medium = 1
risk_rank RiskLevel.high = 2
risk_rank RiskLevel.critical = 3

unfoldable pub max_permission : PermissionLevel → PermissionLevel → PermissionLevel
unfolding permission_rank
max_permission a b = if leb (permission_rank b) (permission_rank a) then a else b

unfoldable pub max_risk : RiskLevel → RiskLevel → RiskLevel
unfolding risk_rank
max_risk a b = if leb (risk_rank b) (risk_rank a) then a else b

-- `_ACTION_TYPE_FLOOR`
unfoldable pub action_type_floor : Dict String (PermissionLevel × RiskLevel)
action_type_floor =
    ("read", (PermissionLevel.read, RiskLevel.low))
    ∷ ("internal_create", (PermissionLevel.write, RiskLevel.low))
    ∷ ("sandbox_create", (PermissionLevel.write, RiskLevel.low))
    ∷ ("external_modify", (PermissionLevel.external_action, RiskLevel.medium))
    ∷ ("send", (PermissionLevel.external_action, RiskLevel.high))
    ∷ ("publish", (PermissionLevel.external_action, RiskLevel.high))
    ∷ ("delete", (PermissionLevel.external_action, RiskLevel.high))
    ∷ ("financial", (PermissionLevel.financial_action, RiskLevel.critical))
    ∷ ("install", (PermissionLevel.admin, RiskLevel.critical))
    ∷ ("privileged", (PermissionLevel.admin, RiskLevel.critical))
    ∷ []

-- `_ACTION_TYPE_FLOOR.get(action_type)`
unfoldable pub floor_of : String → Option (PermissionLevel × RiskLevel)
unfolding action_type_floor
floor_of action_type = lookup action_type action_type_floor

-- `_OUTCOME_BY_PERMISSION`
unfoldable pub outcome_by_permission : PermissionLevel → PermissionOutcome
outcome_by_permission PermissionLevel.read = allow
outcome_by_permission PermissionLevel.write = allow_with_audit
outcome_by_permission PermissionLevel.external_action = require_approval
outcome_by_permission PermissionLevel.financial_action = require_approval
outcome_by_permission PermissionLevel.admin = block

-- `_NO_TOOL_ACTION_TYPES`
unfoldable pub no_tool_action_types : List String
no_tool_action_types = "internal" ∷ "no_op" ∷ "manual" ∷ "decision_only" ∷ []

unfoldable pub requires_tool : String → Bool
unfolding no_tool_action_types
requires_tool action_type = not (contains action_type no_tool_action_types)
