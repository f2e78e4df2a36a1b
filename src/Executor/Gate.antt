-- ===== src/Executor/Gate.antt =====
-- The permission gate, the approval gate and the lookup of the tool, in `execute_action` of
-- app/decision_intelligence/action_executor.py. What other callers do to the durable approvals
-- between the loading of a row and its consumption is a parameter.
use mr_enderson.Base.{
  String, not, Option, none, some, ◌==◌, string_eq, Outcome, ok, raise, ◌>>◌, if◌then◌else◌,
}
use mr_enderson.Schemas.{
  Action, ActionStatus, action_status_eq, ApprovalRequest, ExecutorFailureCode,
}
use mr_enderson.ToolRegistry.Operations.{Tools, ToolError, resolve}
use mr_enderson.PermissionEngine.Levels.{block, require_approval, permission_outcome_eq}
use mr_enderson.PermissionEngine.Decisions.{PermissionDecision}
use mr_enderson.ApprovalEngine.Hash.{Digest}
use mr_enderson.ApprovalEngine.Validity.{validate_approval_for_action, consume_approval}
use mr_enderson.Executor.Approvals.{Approvals, load_approval_request, consume_if_valid}
use mr_enderson.Executor.Outcomes.{Refusal, Texts, Readings}

abbrev pub refuse {ℓ} : {A : Type ℓ} → ExecutorFailureCode → String → Outcome Refusal A
refuse code message = raise (record { code = code; message = message })

abbrev pub approval_failure : String → Outcome Refusal (Unit {0})
approval_failure message = refuse ExecutorFailureCode.approval_failure message

-- The name of the registered tool; a missing one is an unknown tool.
unfoldable pub resolve_tool : Texts → Tools → Action → Outcome Refusal String
resolve_tool texts tools action = elim action.tool_name [
  | none ↦
      refuse ExecutorFailureCode.adapter_not_found (texts.tool_error (ToolError.unknown_tool ""))
  | some name ↦ elim (resolve tools name action.action_type) [
    | ok _ ↦ ok name
    | raise e ↦ refuse ExecutorFailureCode.adapter_not_found (texts.tool_error e)
  ]
]

module _ (digest : Digest) (texts : Texts) (at : Readings) (others : Approvals → Approvals) where
  -- The validity check, now, of the request that counts.
  unfoldable pub check_validity : ApprovalRequest → Action → Outcome Refusal (Unit {0})
  check_validity request action =
      let validity = validate_approval_for_action digest request action at.validating in
      if validity.valid
      then ok tt
      else approval_failure (texts.invalid_approval validity.reason_codes)

  -- With no repository the request in memory is consumed, and the changed copy is dropped.
  unfoldable pub consume_in_memory : ApprovalRequest → Action → Outcome Refusal (Unit {0})
  consume_in_memory request action =
      elim (consume_approval digest request (some action) at.consuming) [
        | ok _ ↦ ok tt
        | raise e ↦ approval_failure (texts.approval_error e)
      ]

  -- The conditional update of the row, which is committed at once.
  unfoldable pub consume_row :
      Approvals → ApprovalRequest → Action → Option Approvals × Outcome Refusal (Unit {0})
  consume_row rows current action =
      let (rows', consumed_ok) =
        consume_if_valid (others rows) current.id action.id current.action_hash at.consuming in
      (
        some rows',
        if consumed_ok
            then ok tt
            else approval_failure
                "Approval could not be atomically consumed (already consumed, or no longer valid)",
      )

  unfoldable pub use_row :
      Approvals → Option ApprovalRequest → Action → Option Approvals × Outcome Refusal (Unit {0})
  unfolding check_validity consume_row
  use_row rows none action = (some rows, approval_failure "durable ApprovalRequest row not found")
  use_row rows (some current) action = elim (check_validity current action) [
    | raise refusal ↦ (some rows, raise refusal)
    | ok _ ↦ consume_row rows current action
  ]

  -- The approval gate, for an action that is APPROVED.
  unfoldable pub use_approval :
      Option Approvals
      → Option ApprovalRequest
      → Action
      → Option Approvals × Outcome Refusal (Unit {0})
  unfolding consume_in_memory use_row
  use_approval repo none action =
      (repo, approval_failure "No ApprovalRequest supplied for an approval-gated action")
  use_approval none (some request) action =
      (none, check_validity request action >> consume_in_memory request action)
  use_approval (some rows) (some request) action =
      use_row rows (load_approval_request rows request.id) action

  -- The permission gate and the approval gate.
  unfoldable pub gates :
      Option Approvals
      → Option ApprovalRequest
      → Action
      → PermissionDecision
      → Option Approvals × Outcome Refusal (Unit {0})
  gates repo request action decision =
      if decision.outcome == block
      then (
        repo,
        refuse ExecutorFailureCode.permission_failure "PermissionDecision is BLOCK; cannot execute",
      )
      else if decision.outcome == require_approval
      then (if not (action.status == ActionStatus.approved)
          then (repo, approval_failure "Action requires approval but is not ActionStatus.APPROVED")
          else use_approval repo request action)
      else if not (action.status == ActionStatus.permission_checked)
      then (
        repo,
        refuse ExecutorFailureCode.validation_failure
            "Action is not ActionStatus.PERMISSION_CHECKED",
      )
      else (repo, ok tt)
