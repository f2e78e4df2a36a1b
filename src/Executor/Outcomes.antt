-- ===== src/Executor/Outcomes.antt =====
-- The results of the executor, and how it refuses (app/decision_intelligence/action_executor.py).
use mr_enderson.Base.{
  ℕ, String, false, Option, none, some, List, [], string_eq, Outcome, ok, raise, if◌then◌else◌,
}
use mr_enderson.Schemas.{
  Action, ActionStatus, action_status_eq, ExecutionResult, VerificationResult, ExecutorFailureCode,
  executor_failure_category, failure_code_value,
}
use mr_enderson.StateMachines.{TransitionError}
use mr_enderson.StateMachines.Action.{can_transition, assert_transition}
use mr_enderson.ToolRegistry.Operations.{ToolError}
use mr_enderson.PermissionEngine.Levels.{permission_outcome_eq}
use mr_enderson.ApprovalEngine.Requests.{ApprovalError}
use mr_enderson.ApprovalEngine.Validity.{ValidityReason}
use mr_enderson.Executor.Adapters.{AdapterError, AdapterException}
use mr_enderson.Executor.Approvals.{Approvals}

pub data ExecutorError : Type 0 where
  action_decision_mismatch : (action_id decision_action_id : String) → ExecutorError
  invalid_transition : TransitionError ActionStatus → ExecutorError
  no_adapter : AdapterError → ExecutorError
  adapter_raised : AdapterException → ExecutorError

pub record ExecutionOutcome : Type 0 where
  pub action : Action
  pub execution_result : Option ExecutionResult
  pub verification_result : Option VerificationResult

-- The failure code and the message of a refusal.
pub record Refusal : Type 0 where
  pub code : ExecutorFailureCode
  pub message : String

-- `_FAIL_TARGET_BY_SOURCE`
unfoldable pub fail_target_by_source : ActionStatus → Option ActionStatus
fail_target_by_source ActionStatus.planned = some ActionStatus.failed
fail_target_by_source ActionStatus.validated = some ActionStatus.failed
fail_target_by_source ActionStatus.permission_checked = some ActionStatus.failed
fail_target_by_source ActionStatus.approved = some ActionStatus.cancelled
fail_target_by_source ActionStatus.waiting_for_approval = some ActionStatus.cancelled
fail_target_by_source _ = none

unfoldable pub refused_result : Action → Refusal → ℕ → ExecutionResult
refused_result action refusal now = record {
  action_id = action.id;
  tool_name = action.tool_name;
  started_at = now;
  completed_at = now;
  success = false;
  provider_status = none;
  output = none;
  side_effects = [];
  cost = none;
  error_type = some (executor_failure_category refusal.code);
  error_message = some refusal.message;
  execution_attempt_id = none;
  error_code = some (failure_code_value refusal.code);
  side_effect_occurred = false;
  adapter_version = none;
}

-- The action that a refusal leaves: untouched where there is nothing legal to do.
unfoldable pub failed_to : Option ActionStatus → Action → String → ℕ → Action
failed_to none action message now = action
failed_to (some target) action message now =
    if can_transition action.status target
    then record action { status = target; completed_at = some now; error = some message }
    else action

unfoldable pub failed_action : Action → String → ℕ → Action
unfolding failed_to
failed_action action message now =
    failed_to (fail_target_by_source action.status) action message now

unfoldable pub fail_outcome : Action → Refusal → ℕ → ExecutionOutcome
fail_outcome action refusal now = record {
  action = failed_action action refusal.message now;
  execution_result = some (refused_result action refusal now);
  verification_result = none;
}

-- The texts that are formatted from values.
pub record Texts : Type 0 where
  pub invalid_approval : List ValidityReason → String
  pub approval_error : ApprovalError → String
  pub tool_error : ToolError → String
  pub missing_adapter : String → String
  pub joined : List String → String

-- The readings of the clock.
pub record Readings : Type 0 where
  pub failing : ℕ
  pub validating : ℕ
  pub consuming : ℕ
  pub starting : ℕ
  pub in_context : ℕ

-- A status change that the executor asserts first.
abbrev pub move : Action → ActionStatus → Outcome ExecutorError Action
move action target = elim (assert_transition action.status target) [
  | ok _ ↦ ok (record action { status = target })
  | raise e ↦ raise (invalid_transition e)
]

-- The durable rows, where the executor has a repository, and the world of the adapters.
pub record State (World : Type 0) : Type 0 where
  pub approvals : Option Approvals
  pub world : World
