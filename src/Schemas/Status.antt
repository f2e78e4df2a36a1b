-- ===== src/Schemas/Status.antt =====
-- The status enums of the decision and action layer (app/decision_intelligence/schemas.py) and
-- of the tasks and budgets (app/database/models.py).
use mr_enderson.Base.{Eq, eq_of_discrete}

pub data DecisionStatus : Type 0 where
  proposed insufficient_evidence ready_for_action approval_required : DecisionStatus
  approved rejected superseded : DecisionStatus

pub data ActionPlanStatus : Type 0 where
  draft validating ready waiting_for_approval executing : ActionPlanStatus
  partially_completed completed failed cancelled : ActionPlanStatus

pub data ActionStatus : Type 0 where
  planned validated permission_checked waiting_for_approval approved : ActionStatus
  executing execution_succeeded verifying verified verification_failed : ActionStatus
  completed failed rejected cancelled blocked : ActionStatus

pub data ApprovalRequestStatus : Type 0 where
  pending approved rejected expired cancelled : ApprovalRequestStatus

pub data TaskStatus : Type 0 where
  pending planned ready running waiting needs_approval completed failed cancelled : TaskStatus

abbrev pub DecisionStatus-discrete : Discrete DecisionStatus
DecisionStatus-discrete = hlevel

abbrev pub ActionPlanStatus-discrete : Discrete ActionPlanStatus
ActionPlanStatus-discrete = hlevel

abbrev pub ActionStatus-discrete : Discrete ActionStatus
ActionStatus-discrete = hlevel

abbrev pub ApprovalRequestStatus-discrete : Discrete ApprovalRequestStatus
ApprovalRequestStatus-discrete = hlevel

abbrev pub TaskStatus-discrete : Discrete TaskStatus
TaskStatus-discrete = hlevel

instance abbrev pub decision_status_eq : Eq DecisionStatus
decision_status_eq = eq_of_discrete DecisionStatus-discrete

instance abbrev pub action_plan_status_eq : Eq ActionPlanStatus
action_plan_status_eq = eq_of_discrete ActionPlanStatus-discrete

instance abbrev pub action_status_eq : Eq ActionStatus
action_status_eq = eq_of_discrete ActionStatus-discrete

instance abbrev pub approval_request_status_eq : Eq ApprovalRequestStatus
approval_request_status_eq = eq_of_discrete ApprovalRequestStatus-discrete

instance abbrev pub task_status_eq : Eq TaskStatus
task_status_eq = eq_of_discrete TaskStatus-discrete
