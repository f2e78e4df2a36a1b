-- ===== src/PermissionEngine/Decisions.antt =====
-- `evaluate_permission` and `apply_permission_decision` of
-- app/decision_intelligence/permission_engine.py. The texts of `explanation` are left out.
use mr_enderson.Base.{
  ℕ, String, Bool, false, ◌&&◌, ◌||◌, not, Option, none, some, List, [], ◌∷◌, ◌++◌, ◌==◌, string_eq,
  Outcome, ok, raise, ◌>>◌, ltb, if◌then◌else◌,
}
use mr_enderson.Schemas.{PermissionLevel, RiskLevel, risk_level_eq, ActionStatus, Action}
use mr_enderson.StateMachines.{TransitionError}
use mr_enderson.StateMachines.Action.{assert_transition}
use mr_enderson.ToolRegistry.Operations.{
  ToolDefinition, Tools, ToolError, invalid_definition, duplicate, unknown_tool, disabled,
  unsupported, resolve,
}
use mr_enderson.PermissionEngine.Levels.{
  PermissionOutcome, allow, allow_with_audit, require_approval, block, permission_outcome_eq,
  permission_rank, risk_rank, max_permission, max_risk, floor_of, outcome_by_permission,
  requires_tool,
}

pub data ReasonCode : Type 0 where
  tool_allowed audit_required approval_is_required policy_block forbidden_capability : ReasonCode
  unsupported_action_type missing_tool unknown_tool_name tool_disabled : ReasonCode
  permission_escalated risk_escalated high_risk : ReasonCode

pub record PermissionDecision : Type 0 where
  pub action_id : String
  pub outcome : PermissionOutcome
  pub permission_level : PermissionLevel
  pub risk_level : RiskLevel
  pub approval_required : Bool
  pub reason_codes : List ReasonCode
  pub evaluated_at : ℕ
  pub tool_name : Option String
  pub dry_run_recommended : Bool

-- What `_append_escalation_reasons` appends.
unfoldable pub escalation_reasons : Action → PermissionLevel → RiskLevel → List ReasonCode
escalation_reasons action p r =
    (if ltb (permission_rank action.permission_level) (permission_rank p)
      then permission_escalated ∷ []
      else [])
    ++ (if ltb (risk_rank action.risk_level) (risk_rank r) then risk_escalated ∷ [] else [])

-- The codes that `_evaluate_with_tool` inserts in front for each outcome.
abbrev pub outcome_reasons : PermissionOutcome → List ReasonCode
outcome_reasons allow = tool_allowed ∷ []
outcome_reasons allow_with_audit = tool_allowed ∷ audit_required ∷ []
outcome_reasons require_approval = approval_is_required ∷ []
outcome_reasons block = forbidden_capability ∷ policy_block ∷ []

-- The clock is read when a decision is made.
module _ (now : ℕ) where
  -- `_block`
  abbrev pub block_decision :
      Action → PermissionLevel → RiskLevel → List ReasonCode → Option String → PermissionDecision
  block_decision action p r reasons tool = record {
    action_id = action.id;
    outcome = block;
    permission_level = p;
    risk_level = r;
    approval_required = false;
    reason_codes = reasons;
    evaluated_at = now;
    tool_name = tool;
    dry_run_recommended = false;
  }

  -- An action type that needs no tool.
  unfoldable pub allow_without_tool : Action → PermissionDecision
  unfolding escalation_reasons
  allow_without_tool action = record {
    action_id = action.id;
    outcome = allow;
    permission_level = PermissionLevel.read;
    risk_level = RiskLevel.low;
    approval_required = false;
    reason_codes = tool_allowed ∷ escalation_reasons action PermissionLevel.read RiskLevel.low;
    evaluated_at = now;
    tool_name = none;
    dry_run_recommended = false;
  }

  -- `_evaluate_with_tool`, given the floor of the action type.
  unfoldable pub evaluate_with_tool :
      Action → PermissionLevel → RiskLevel → ToolDefinition → PermissionDecision
  evaluate_with_tool action p r tool =
      let permission = max_permission p tool.default_permission_level in
      let risk = max_risk r tool.default_risk_level in
      let outcome = outcome_by_permission permission in
      record {
        action_id = action.id;
        outcome = outcome;
        permission_level = permission;
        risk_level = risk;
        approval_required = outcome == require_approval;
        reason_codes =
            outcome_reasons outcome
            ++ (escalation_reasons action permission risk
                ++ (if risk == RiskLevel.high || risk == RiskLevel.critical
                    then high_risk ∷ []
                    else []));
        evaluated_at = now;
        tool_name = some tool.name;
        dry_run_recommended = tool.supports_dry_run && not (outcome == allow);
      }

  -- The `except` clauses round `registry.resolve`; the last two errors are never raised there.
  abbrev pub refused : ToolError → List ReasonCode
  refused (unknown_tool _) = unknown_tool_name ∷ policy_block ∷ []
  refused (disabled _) = tool_disabled ∷ policy_block ∷ []
  refused (unsupported _ _) = unsupported_action_type ∷ policy_block ∷ []
  refused invalid_definition = policy_block ∷ []
  refused (duplicate _) = policy_block ∷ []

  -- An action type with a floor and a declared tool.
  unfoldable pub evaluate_resolved :
      Action → PermissionLevel → RiskLevel → Outcome ToolError ToolDefinition → PermissionDecision
  evaluate_resolved action p r (ok tool) = evaluate_with_tool action p r tool
  evaluate_resolved action p r (raise e) = block_decision action p r (refused e) action.tool_name

  unfoldable pub evaluate_named :
      Action → Tools → PermissionLevel → RiskLevel → Option String → PermissionDecision
  unfolding evaluate_resolved
  evaluate_named action registry p r none =
      block_decision action p r (missing_tool ∷ policy_block ∷ []) none
  evaluate_named action registry p r (some name) =
      if name == ""
      then block_decision action p r (missing_tool ∷ policy_block ∷ []) none
      else evaluate_resolved action p r (resolve registry name action.action_type)

  unfoldable pub evaluate_floored :
      Action → Tools → Option (PermissionLevel × RiskLevel) → PermissionDecision
  unfolding evaluate_named
  evaluate_floored action registry none =
      block_decision action PermissionLevel.admin RiskLevel.critical
        (unsupported_action_type ∷ policy_block ∷ []) action.tool_name
  evaluate_floored action registry (some (p, r)) =
      evaluate_named action registry p r action.tool_name

  unfoldable pub evaluate_permission : Action → Tools → PermissionDecision
  unfolding evaluate_floored
  evaluate_permission action registry =
      if not (requires_tool action.action_type)
      then allow_without_tool action
      else evaluate_floored action registry (floor_of action.action_type)

-- The status to which a decision takes an action.
abbrev pub decision_target : PermissionDecision → ActionStatus
decision_target decision =
    if decision.outcome == block then ActionStatus.blocked else ActionStatus.permission_checked

unfoldable pub apply_permission_decision :
    Action → PermissionDecision → Outcome (TransitionError ActionStatus) Action
apply_permission_decision action decision = do
  assert_transition action.status (decision_target decision)
  ok (record action {
    status = decision_target decision;
    permission_level = decision.permission_level;
    risk_level = decision.risk_level;
    approval_required = decision.approval_required;
  })
