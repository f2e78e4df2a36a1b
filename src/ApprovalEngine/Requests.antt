-- ===== src/ApprovalEngine/Requests.antt =====
-- Creating, deciding and expiring approval requests (app/decision_intelligence/approval_engine.py).
-- Where the source reads the clock, the time is an argument.
use mr_enderson.Base.{
  ℕ, ◌+◌, ◌*◌, String, Bool, true, false, ◌&&◌, ◌||◌, not, Option, none, some, ◌==◌, string_eq,
  Outcome, ok, raise, raise_if, ◌>>◌, leb, map, is_some, if◌then◌else◌,
}
use mr_enderson.Schemas.{
  permission_level_eq, risk_level_eq, ActionStatus, action_status_eq, ApprovalRequestStatus,
  approval_request_status_eq, Action, ApprovalRequest,
}
use mr_enderson.StateMachines.{TransitionError}
use mr_enderson.StateMachines.Action.{assert_transition}
use mr_enderson.PermissionEngine.Levels.{require_approval, permission_outcome_eq, outcome_value}
use mr_enderson.PermissionEngine.Decisions.{PermissionDecision, ReasonCode}
use mr_enderson.ApprovalEngine.Hash.{Digest, compute_action_hash}

-- The subclasses of `ApprovalEngineError`, and the transition error that passes through.
pub data ApprovalError : Type 0 where
  action_mismatch permission_not_require_approval invalid_action_state : ApprovalError
  unauthoritative_action_state trusted_identity_required : ApprovalError
  already_decided self_approval action_id_mismatch hash_mismatch not_approved : ApprovalError
  outcome_not_final already_consumed not_expirable not_yet_expired expired : ApprovalError
  invalid_transition : TransitionError ActionStatus → ApprovalError

-- 24 hours, in microseconds.
abbrev pub default_approval_ttl : ℕ
default_approval_ttl = 24 * 3600 * 1000000

-- `ApprovalDecisionKind`; any other text is refused by the type, where the source raises
-- `InvalidApprovalDecisionError`.
pub data DecisionKind : Type 0 where
  approve reject cancel : DecisionKind

-- `_DECISION_TARGET_STATUS`
unfoldable pub decision_target_status : DecisionKind → ApprovalRequestStatus
decision_target_status approve = ApprovalRequestStatus.approved
decision_target_status reject = ApprovalRequestStatus.rejected
decision_target_status cancel = ApprovalRequestStatus.cancelled

abbrev pub is_approve : DecisionKind → Bool
is_approve approve = true
is_approve _ = false

-- `_TERMINAL_ACTION_TARGET`
unfoldable pub terminal_action_target : ApprovalRequestStatus → Option ActionStatus
terminal_action_target ApprovalRequestStatus.rejected = some ActionStatus.rejected
terminal_action_target ApprovalRequestStatus.cancelled = some ActionStatus.cancelled
terminal_action_target ApprovalRequestStatus.expired = some ActionStatus.cancelled
terminal_action_target _ = none

-- `a or b` on texts
abbrev pub or_text : String → String → String
or_text a b = if a == "" then b else a

-- `expires_at if expires_at is not None else now + ttl`
abbrev pub or_ttl : Option ℕ → ℕ → ℕ
or_ttl none now = now + default_approval_ttl
or_ttl (some t) now = t

-- What identifies the new request: its fresh id, and the names of the reason codes.
module _ (digest : Digest) (code_name : ReasonCode → String) where
  unfoldable pub create_approval_request :
      (now : ℕ) (fresh : String)
      → Action
      → PermissionDecision
      → (requested_by reason : String) → (expires_at : Option ℕ)
      → Outcome ApprovalError ApprovalRequest
  create_approval_request now fresh action decision requested_by reason expires_at = do
    raise_if (not (decision.action_id == action.id)) action_mismatch
    raise_if (not (decision.outcome == require_approval) || not decision.approval_required)
        permission_not_require_approval
    raise_if (not (action.status == ActionStatus.permission_checked)) invalid_action_state
    raise_if
        (not (action.permission_level == decision.permission_level)
          || not (action.risk_level == decision.risk_level))
        unauthoritative_action_state
    raise_if (requested_by == "") trusted_identity_required
    ok (record {
      id = fresh;
      action_id = action.id;
      requested_by = requested_by;
      reason = reason;
      action_summary = or_text action.title action.action_type;
      risk_summary = record {
        risk_level = decision.risk_level;
        outcome = outcome_value decision.outcome;
        reasons = map code_name decision.reason_codes;
      };
      permission_level = decision.permission_level;
      estimated_cost = action.estimated_cost;
      proposed_inputs = action.inputs;
      expected_effect = action.expected_result;
      action_hash = compute_action_hash digest action;
      status = ApprovalRequestStatus.pending;
      requested_at = now;
      decided_at = none;
      decided_by = none;
      expires_at = some (or_ttl expires_at now);
      consumed = false;
      consumed_at = none;
    })

-- A transition of the action table, inside the approval engine.
abbrev pub transition : ActionStatus → ActionStatus → Outcome ApprovalError (Unit {0})
transition current target = elim (assert_transition current target) [
  | ok done ↦ ok done
  | raise e ↦ raise (invalid_transition e)
]

unfoldable pub advance_to_waiting_for_approval : Action → Outcome ApprovalError Action
advance_to_waiting_for_approval action = do
  transition action.status ActionStatus.waiting_for_approval
  ok (record action { status = ActionStatus.waiting_for_approval })

unfoldable pub decide_approval :
    (now : ℕ)
    → ApprovalRequest
    → DecisionKind
    → (decided_by : String) → Outcome ApprovalError ApprovalRequest
unfolding decision_target_status
decide_approval now request decision decided_by = do
  raise_if (decided_by == "") trusted_identity_required
  raise_if (not (request.status == ApprovalRequestStatus.pending)) already_decided
  raise_if (is_approve decision && decided_by == request.requested_by) self_approval
  ok (record request {
    status = decision_target_status decision;
    decided_at = some now;
    decided_by = some decided_by;
  })

-- `expires_at is not None and now >= expires_at`: the request has reached its expiry.
unfoldable pub is_expired : ApprovalRequest → ℕ → Bool
is_expired request now = elim request.expires_at [ none ↦ false | some t ↦ leb t now ]

unfoldable pub expire_approval_request : ApprovalRequest → ℕ → Outcome ApprovalError ApprovalRequest
expire_approval_request request now = do
  raise_if (not (request.status == ApprovalRequestStatus.pending)) already_decided
  raise_if (not (is_some request.expires_at)) not_expirable
  raise_if (not (is_expired request now)) not_yet_expired
  ok (record request {
    status = ApprovalRequestStatus.expired;
    decided_at = some now;
    decided_by = some "system:expiration_policy";
  })
