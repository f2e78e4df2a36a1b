-- ===== src/Examples/Plans.antt =====
-- Readiness at a concrete plan.
use mr_enderson.Base.{◌≡◌, refl, true, false, [], ◌∷◌, some, none, is_empty}
use mr_enderson.Schemas.{Action, ActionPlan, ActionPlanStatus}
use mr_enderson.PlanValidation.Cycles.{
  detect_dependency_cycle, search, graph_of, visit, visit_all, edges, from_node, pop, enter, leave,
}
use mr_enderson.PlanValidation.Checks.{
  evaluate_plan_readiness, duplicate_action_ids, duplicates_loop, unknown_dependency_ids,
  self_dependencies, forward_only_dependency_violations, is_blank, action_blockers, blockers_of,
  cycle_blockers,
}
use mr_enderson.PlanValidation.Runnable.{IsRunnable, ready-IsRunnable}
use mr_enderson.Authority.Identifiers.{strip, rstrip, lstrip}
use mr_enderson.PermissionEngine.Levels.{requires_tool}
use mr_enderson.Examples.Samples.{email_action, ascii}

abbrev first_step : Action
first_step = record email_action {
  expected_result = "sent";
  success_criteria = "sent";
  verification_method = "log";
  tool_name = some "email.send";
}

abbrev second_step : Action
second_step = record first_step { id = "a2"; sequence = 2; dependencies = "a1" ∷ [] }

abbrev looped_step : Action
looped_step = record first_step { dependencies = "a2" ∷ [] }

abbrev pub two_steps : ActionPlan
two_steps = record {
  id = "p1";
  decision_id = "d1";
  project_id = none;
  title = "Report";
  description = "";
  actions = first_step ∷ second_step ∷ [];
  estimated_cost = none;
  estimated_model_calls = none;
  success_criteria = "sent";
  failure_policy = "stop";
  status = ActionPlanStatus.draft;
  created_by = "planner";
  created_at = 0;
  revision = 1;
}

cycle-found :
    detect_dependency_cycle (looped_step ∷ second_step ∷ []) ≡ some ("a1" ∷ "a2" ∷ "a1" ∷ [])
unfolding detect_dependency_cycle search graph_of visit visit_all edges from_node pop enter leave
cycle-found = refl

two_steps-ready : (evaluate_plan_readiness ascii two_steps).ready ≡ true
unfolding evaluate_plan_readiness duplicate_action_ids duplicates_loop unknown_dependency_ids
    self_dependencies forward_only_dependency_violations is_blank action_blockers blockers_of
    cycle_blockers detect_dependency_cycle search graph_of visit visit_all edges from_node pop enter
    leave strip rstrip lstrip requires_tool
two_steps-ready = refl

ready-IsRunnable_example : (is_empty two_steps.actions ≡ false) × IsRunnable two_steps.actions
ready-IsRunnable_example = ready-IsRunnable ascii two_steps two_steps-ready
