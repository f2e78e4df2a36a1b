-- ===== src/StateMachines/ActionPlan.antt =====
-- app/decision_intelligence/action_plan_state_machine.py
use mr_enderson.Base.{Bool, List, [], ◌∷◌, contains, Outcome, raise_if, not}
use mr_enderson.Schemas.{ActionPlanStatus, action_plan_status_eq}
use mr_enderson.StateMachines.{TransitionError}

-- `_VALID_TRANSITIONS`
unfoldable pub valid_transitions : ActionPlanStatus → List ActionPlanStatus
valid_transitions ActionPlanStatus.draft =
    ActionPlanStatus.validating ∷ ActionPlanStatus.failed ∷ ActionPlanStatus.cancelled ∷ []
valid_transitions ActionPlanStatus.validating =
    ActionPlanStatus.ready ∷ ActionPlanStatus.failed ∷ ActionPlanStatus.cancelled ∷ []
valid_transitions ActionPlanStatus.ready =
    ActionPlanStatus.executing ∷ ActionPlanStatus.cancelled ∷ []
valid_transitions ActionPlanStatus.executing =
    ActionPlanStatus.waiting_for_approval ∷ ActionPlanStatus.partially_completed
    ∷ ActionPlanStatus.completed ∷ ActionPlanStatus.failed ∷ ActionPlanStatus.cancelled ∷ []
valid_transitions ActionPlanStatus.waiting_for_approval =
    ActionPlanStatus.executing ∷ ActionPlanStatus.partially_completed ∷ ActionPlanStatus.failed
    ∷ ActionPlanStatus.cancelled ∷ []
valid_transitions ActionPlanStatus.partially_completed =
    ActionPlanStatus.executing ∷ ActionPlanStatus.waiting_for_approval ∷ ActionPlanStatus.completed
    ∷ ActionPlanStatus.failed ∷ ActionPlanStatus.cancelled ∷ []
valid_transitions ActionPlanStatus.completed = []
valid_transitions ActionPlanStatus.failed = []
valid_transitions ActionPlanStatus.cancelled = []

unfoldable pub can_transition : ActionPlanStatus → ActionPlanStatus → Bool
unfolding valid_transitions
can_transition current target = contains target (valid_transitions current)

unfoldable pub assert_transition :
    ActionPlanStatus → ActionPlanStatus → Outcome (TransitionError ActionPlanStatus) (Unit {0})
unfolding can_transition
assert_transition current target =
    raise_if (not (can_transition current target)) (record { current = current; target = target })
