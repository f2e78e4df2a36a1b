-- ===== src/Examples/Approvals.antt =====
-- One approval from its request to its consumption.
use mr_enderson.Base.{
  ◌≡◌, refl, ◌≤◌, ◌<◌, ◌↔◌, ◌≢◌, inr, String, true, false, [], ◌∷◌, arith, ok, none, some,
  string_eq,
}
use mr_enderson.Schemas.{
  Action, ActionStatus, object, no_fields, action_status_eq, permission_level_eq, risk_level_eq,
  ApprovalRequest, ApprovalRequestStatus, approval_request_status_eq, PermissionLevel, RiskLevel,
}
use mr_enderson.PermissionEngine.Levels.{require_approval, outcome_value}
use mr_enderson.PermissionEngine.Decisions.{PermissionDecision, ReasonCode}
use mr_enderson.ApprovalEngine.Hash.{Digest, canonical_action_payload, compute_action_hash}
use mr_enderson.ApprovalEngine.Requests.{
  approve, create_approval_request, decide_approval, is_expired,
}
use mr_enderson.ApprovalEngine.Validity.{authorize_action, consume_approval}
use mr_enderson.ApprovalEngine.Lifecycle.{IsUsable, IsFor, authorize_iff}
use mr_enderson.ApprovalEngine.SingleUse.{successes, consumed_at_most_once, lapsed_never_serves}
use mr_enderson.ApprovalEngine.Provenance.{authorized_was_approved}
use mr_enderson.Examples.Samples.{email_action}

-- A digest that shows the expected result.
abbrev pub digest : Digest
digest p = p.expected_result

abbrev code_name : ReasonCode → String
code_name _ = "reason"

abbrev owner : String
owner = "owner"

abbrev planner : String
planner = "planner"

abbrev pub decision : PermissionDecision
decision = record {
  action_id = "a1";
  outcome = require_approval;
  permission_level = PermissionLevel.external_action;
  risk_level = RiskLevel.high;
  approval_required = true;
  reason_codes = [];
  evaluated_at = 100;
  tool_name = some "communication.send_email";
  dry_run_recommended = true;
}

-- The checked action, the same one waiting, and approved.
abbrev pub checked : Action
checked = record email_action {
  status = ActionStatus.permission_checked;
  permission_level = PermissionLevel.external_action;
  risk_level = RiskLevel.high;
  approval_required = true;
}

abbrev waiting : Action
waiting = record checked { status = ActionStatus.waiting_for_approval }

abbrev pub cleared : Action
cleared = record checked { status = ActionStatus.approved }

abbrev pending : ApprovalRequest
pending = record {
  id = "r1";
  action_id = "a1";
  requested_by = "planner";
  reason = "a mail goes out";
  action_summary = "Mail the report";
  risk_summary = record { risk_level = RiskLevel.high; outcome = "REQUIRE_APPROVAL"; reasons = [] };
  permission_level = PermissionLevel.external_action;
  estimated_cost = none;
  proposed_inputs = object no_fields;
  expected_effect = "sent";
  action_hash = "sent";
  status = ApprovalRequestStatus.pending;
  requested_at = 100;
  decided_at = none;
  decided_by = none;
  expires_at = some 500;
  consumed = false;
  consumed_at = none;
}

abbrev pub granted : ApprovalRequest
granted = record pending {
  status = ApprovalRequestStatus.approved;
  decided_at = some 200;
  decided_by = some "owner";
}

created :
    create_approval_request digest code_name 100 "r1" checked decision "planner" "a mail goes out"
      (some 500)
    ≡ ok pending
unfolding create_approval_request compute_action_hash canonical_action_payload outcome_value
created = refl

chosen : decide_approval 200 pending approve "owner" ≡ ok granted
unfolding decide_approval
chosen = refl

granted-IsUsable : IsUsable granted 300
unfolding is_expired
granted-IsUsable = record { approved = refl; unused = refl; current = refl }

granted-IsFor : IsFor digest granted waiting
unfolding compute_action_hash canonical_action_payload
granted-IsFor = record { same_action = refl; same_payload = refl }

authorized : authorize_action digest waiting granted 300 ≡ ok cleared
authorized =
    (authorize_iff digest granted 300 waiting cleared).1
      (granted-IsUsable, granted-IsFor, refl, refl)

authorized_was_approved_example :
    (decision.outcome ≡ require_approval)
    × (approve ≡ approve)
    × (owner ≢ "")
    × (owner ≢ planner)
    × (waiting.id ≡ checked.id)
    × (canonical_action_payload waiting ≡ canonical_action_payload checked)
    × (300 < 500)
authorized_was_approved_example =
    authorized_was_approved digest code_name 100 200 300 "r1" "planner" "a mail goes out" "owner"
      (some 500) checked waiting cleared decision approve pending granted
      (λ _. unfold canonical_action_payload in refl) created chosen authorized

consumed_at_most_once_example :
    successes digest granted ((some waiting, 300) ∷ (none, 400) ∷ []) ≤ 1
consumed_at_most_once_example =
    consumed_at_most_once digest ((some waiting, 300) ∷ (none, 400) ∷ []) granted

lapsed_never_serves_example :
    (authorize_action digest waiting granted 600 ≢ ok cleared)
    × (consume_approval digest granted none 600 ≢ ok granted)
lapsed_never_serves_example =
    lapsed_never_serves digest granted waiting cleared none granted 500 600
      (inr (unfold is_expired in refl)) (omega arith)

authorize_iff_example : (authorize_action digest waiting granted 300 ≡ ok cleared) ↔ (
    IsUsable granted 300
    × IsFor digest granted waiting
    × (ActionStatus.waiting_for_approval ≡ ActionStatus.waiting_for_approval)
    × (cleared ≡ record waiting { status = ActionStatus.approved }))
authorize_iff_example = authorize_iff digest granted 300 waiting cleared
