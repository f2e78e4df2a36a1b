-- ===== src/Examples/Permissions.antt =====
-- The permission engine at a concrete action and registry.
use mr_enderson.Base.{◌≡◌, refl, ◌≢◌, ◌⊎◌, inl, false, [], ◌∷◌, ok, string_eq, none}
use mr_enderson.Schemas.{Action, ActionStatus, action_status_eq, PermissionLevel, RiskLevel}
use mr_enderson.StateMachines.{follow}
use mr_enderson.StateMachines.Action.{assert_transition}
use mr_enderson.ToolRegistry.Operations.{resolve}
use mr_enderson.PermissionEngine.Levels.{
  allow, require_approval, block, requires_tool, floor_of, outcome_by_permission, max_permission,
}
use mr_enderson.PermissionEngine.Decisions.{
  PermissionDecision, evaluate_permission, decision_target, apply_permission_decision,
  evaluate_with_tool,
}
use mr_enderson.PermissionEngine.Floors.{
  MeetsFloors, Consistent, unblocked-MeetsFloors, outcome_fits_level,
}
use mr_enderson.PermissionEngine.Gate.{apply_accepts, blocked_never_executes}
use mr_enderson.Examples.Samples.{registry, email_action}

abbrev decided : PermissionDecision
decided = evaluate_permission 100 email_action registry

email_asks : decided.outcome ≡ require_approval
unfolding evaluate_permission resolve requires_tool floor_of evaluate_with_tool
    outcome_by_permission max_permission
email_asks = refl

email_not_blocked : decided.outcome ≢ block
email_not_blocked e = cc (email_asks)

unblocked-MeetsFloors_example :
    ((requires_tool "send" ≡ false)
      × ((evaluate_permission 100 email_action registry).outcome ≡ allow)
      × ((evaluate_permission 100 email_action registry).permission_level ≡ PermissionLevel.read)
      × ((evaluate_permission 100 email_action registry).risk_level ≡ RiskLevel.low))
    ⊎ MeetsFloors email_action registry (evaluate_permission 100 email_action registry)
unblocked-MeetsFloors_example = unblocked-MeetsFloors 100 email_action registry email_not_blocked

outcome_fits_level_example : Consistent (evaluate_permission 100 email_action registry)
outcome_fits_level_example = outcome_fits_level 100 email_action registry

-- The same action without a tool name is blocked.
abbrev nameless : Action
nameless = record email_action { tool_name = none }

abbrev refusal : PermissionDecision
refusal = evaluate_permission 100 nameless registry

refusal-blocks : refusal.outcome ≡ block
unfolding evaluate_permission requires_tool floor_of
refusal-blocks = refl

abbrev halted : Action
halted = record nameless {
  status = decision_target refusal;
  permission_level = refusal.permission_level;
  risk_level = refusal.risk_level;
  approval_required = refusal.approval_required;
}

nameless-halted : apply_permission_decision nameless refusal ≡ ok halted
nameless-halted = (apply_accepts nameless refusal).0 (inl (refusal-blocks, refl))

halted_path :
    follow assert_transition halted.status (ActionStatus.cancelled ∷ []) ≡ ok ActionStatus.cancelled
unfolding follow assert_transition evaluate_permission requires_tool floor_of
halted_path = refl

blocked_never_executes_example :
    (ActionStatus.cancelled ≡ ActionStatus.blocked)
    ⊎ (ActionStatus.cancelled ≡ ActionStatus.cancelled)
blocked_never_executes_example =
    blocked_never_executes nameless halted refusal (ActionStatus.cancelled ∷ [])
      ActionStatus.cancelled refusal-blocks nameless-halted halted_path
