-- ===== src/StateMachines/Action.antt =====
-- app/decision_intelligence/action_state_machine.py
use mr_enderson.Base.{Bool, List, [], ◌∷◌, contains, Outcome, raise_if, not}
use mr_enderson.Schemas.{ActionStatus, action_status_eq}
use mr_enderson.StateMachines.{TransitionError}

-- `_VALID_TRANSITIONS`
unfoldable pub valid_transitions : ActionStatus → List ActionStatus
valid_transitions ActionStatus.planned =
    ActionStatus.validated ∷ ActionStatus.rejected ∷ ActionStatus.cancelled ∷ ActionStatus.blocked
    ∷ ActionStatus.failed ∷ []
valid_transitions ActionStatus.validated =
    ActionStatus.permission_checked ∷ ActionStatus.rejected ∷ ActionStatus.cancelled
    ∷ ActionStatus.blocked ∷ ActionStatus.failed ∷ []
valid_transitions ActionStatus.permission_checked =
    ActionStatus.waiting_for_approval ∷ ActionStatus.executing ∷ ActionStatus.rejected
    ∷ ActionStatus.cancelled ∷ ActionStatus.blocked ∷ ActionStatus.failed ∷ []
valid_transitions ActionStatus.waiting_for_approval =
    ActionStatus.approved ∷ ActionStatus.rejected ∷ ActionStatus.cancelled ∷ []
valid_transitions ActionStatus.approved = ActionStatus.executing ∷ ActionStatus.cancelled ∷ []
valid_transitions ActionStatus.executing =
    ActionStatus.execution_succeeded ∷ ActionStatus.failed ∷ ActionStatus.cancelled ∷ []
valid_transitions ActionStatus.execution_succeeded = ActionStatus.verifying ∷ []
valid_transitions ActionStatus.verifying =
    ActionStatus.verified ∷ ActionStatus.verification_failed ∷ []
valid_transitions ActionStatus.verified = ActionStatus.completed ∷ []
valid_transitions ActionStatus.verification_failed = ActionStatus.failed ∷ ActionStatus.blocked ∷ []
valid_transitions ActionStatus.blocked = ActionStatus.cancelled ∷ []
valid_transitions ActionStatus.completed = []
valid_transitions ActionStatus.failed = []
valid_transitions ActionStatus.rejected = []
valid_transitions ActionStatus.cancelled = []

unfoldable pub can_transition : ActionStatus → ActionStatus → Bool
unfolding valid_transitions
can_transition current target = contains target (valid_transitions current)

unfoldable pub assert_transition :
    ActionStatus → ActionStatus → Outcome (TransitionError ActionStatus) (Unit {0})
unfolding can_transition
assert_transition current target =
    raise_if (not (can_transition current target)) (record { current = current; target = target })
