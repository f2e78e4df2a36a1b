-- ===== src/Examples/Machines.antt =====
-- The transition tables at concrete paths.
use mr_enderson.Base.{◌≡◌, refl, ◌≤◌, List, [], ◌∷◌, In, ok, length}
use mr_enderson.Schemas.{
  ActionStatus, action_status_eq, ActionPlanStatus, action_plan_status_eq, TaskStatus,
  task_status_eq,
}
use mr_enderson.StateMachines.{follow}
use mr_enderson.StateMachines.Action
use mr_enderson.StateMachines.ActionPlan
use mr_enderson.StateMachines.TaskBoard
use mr_enderson.StateMachines.ActionPaths.{completed_visits, transitions_le_ten}
use mr_enderson.StateMachines.PlanPaths.{completed_visits_ready}
use mr_enderson.StateMachines.TaskPaths.{completed_visits_running}

abbrev lifecycle : List ActionStatus
lifecycle =
    ActionStatus.validated ∷ ActionStatus.permission_checked ∷ ActionStatus.executing
    ∷ ActionStatus.execution_succeeded ∷ ActionStatus.verifying ∷ ActionStatus.verified
    ∷ ActionStatus.completed ∷ []

lifecycle_accepted :
    follow Action.assert_transition ActionStatus.planned lifecycle ≡ ok ActionStatus.completed
unfolding follow Action.assert_transition
lifecycle_accepted = refl

completed_visits_example :
    In ActionStatus.permission_checked lifecycle
    × In ActionStatus.executing lifecycle
    × In ActionStatus.execution_succeeded lifecycle
    × In ActionStatus.verifying lifecycle
    × In ActionStatus.verified lifecycle
completed_visits_example = completed_visits lifecycle lifecycle_accepted

abbrev after_wait : List ActionStatus
after_wait = ActionStatus.approved ∷ ActionStatus.executing ∷ []

after_wait_accepted :
    follow Action.assert_transition ActionStatus.waiting_for_approval after_wait
    ≡ ok ActionStatus.executing
unfolding follow Action.assert_transition
after_wait_accepted = refl

transitions_le_ten_example : length lifecycle ≤ 10
transitions_le_ten_example =
    transitions_le_ten ActionStatus.planned ActionStatus.completed lifecycle lifecycle_accepted

abbrev plan_life : List ActionPlanStatus
plan_life =
    ActionPlanStatus.validating ∷ ActionPlanStatus.ready ∷ ActionPlanStatus.executing
    ∷ ActionPlanStatus.waiting_for_approval ∷ ActionPlanStatus.executing
    ∷ ActionPlanStatus.completed ∷ []

plan_life_accepted :
    follow ActionPlan.assert_transition ActionPlanStatus.draft plan_life
    ≡ ok ActionPlanStatus.completed
unfolding follow ActionPlan.assert_transition
plan_life_accepted = refl

completed_visits_ready_example :
    In ActionPlanStatus.ready plan_life × In ActionPlanStatus.executing plan_life
completed_visits_ready_example = completed_visits_ready plan_life plan_life_accepted

abbrev task_life : List TaskStatus
task_life =
    TaskStatus.planned ∷ TaskStatus.ready ∷ TaskStatus.running ∷ TaskStatus.failed
    ∷ TaskStatus.ready ∷ TaskStatus.running ∷ TaskStatus.completed ∷ []

task_life_accepted :
    follow TaskBoard.assert_transition TaskStatus.pending task_life ≡ ok TaskStatus.completed
unfolding follow TaskBoard.assert_transition
task_life_accepted = refl

completed_visits_running_example : In TaskStatus.ready task_life × In TaskStatus.running task_life
completed_visits_running_example = completed_visits_running task_life task_life_accepted

abbrev retry_path : List TaskStatus
retry_path = TaskStatus.ready ∷ TaskStatus.running ∷ []

retry_path_accepted :
    follow TaskBoard.assert_transition TaskStatus.failed retry_path ≡ ok TaskStatus.running
unfolding follow TaskBoard.assert_transition
retry_path_accepted = refl
