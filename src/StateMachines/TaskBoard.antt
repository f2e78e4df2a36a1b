-- ===== src/StateMachines/TaskBoard.antt =====
-- app/orchestration/state_machine.py
use mr_enderson.Base.{Bool, List, [], ◌∷◌, contains, Outcome, raise_if, not}
use mr_enderson.Schemas.{TaskStatus, task_status_eq}
use mr_enderson.StateMachines.{TransitionError}

-- `_VALID_TRANSITIONS`
unfoldable pub valid_transitions : TaskStatus → List TaskStatus
valid_transitions TaskStatus.pending = TaskStatus.planned ∷ TaskStatus.cancelled ∷ []
valid_transitions TaskStatus.planned = TaskStatus.ready ∷ TaskStatus.cancelled ∷ []
valid_transitions TaskStatus.ready = TaskStatus.running ∷ TaskStatus.cancelled ∷ []
valid_transitions TaskStatus.running =
    TaskStatus.waiting ∷ TaskStatus.needs_approval ∷ TaskStatus.completed ∷ TaskStatus.failed
    ∷ TaskStatus.cancelled ∷ []
valid_transitions TaskStatus.waiting = TaskStatus.running ∷ TaskStatus.cancelled ∷ []
valid_transitions TaskStatus.needs_approval =
    TaskStatus.ready ∷ TaskStatus.cancelled ∷ TaskStatus.failed ∷ []
valid_transitions TaskStatus.failed = TaskStatus.ready ∷ TaskStatus.cancelled ∷ []
valid_transitions TaskStatus.completed = []
valid_transitions TaskStatus.cancelled = []

unfoldable pub can_transition : TaskStatus → TaskStatus → Bool
unfolding valid_transitions
can_transition current target = contains target (valid_transitions current)

unfoldable pub assert_transition :
    TaskStatus → TaskStatus → Outcome (TransitionError TaskStatus) (Unit {0})
unfolding can_transition
assert_transition current target =
    raise_if (not (can_transition current target)) (record { current = current; target = target })
