-- ===== src/Eligibility/Evaluate.antt =====
-- `evaluate_action_eligibility` of app/decision_intelligence/action_eligibility.py.
use mr_enderson.Base.{
  Eq, eq_of_discrete, String, not, Option, none, some, List, [], ◌∷◌, ◌==◌, string_eq, contains,
  Dict, lookup, if◌then◌else◌,
}
use mr_enderson.Schemas.{Action, ActionStatus, action_status_eq}

pub data ActionEligibility : Type 0 where
  ready already_completed waiting_for_dependencies waiting_for_approval : ActionEligibility
  blocked_by_failed_dependency blocked_by_rejected_dependency reconciliation_required :
      ActionEligibility
  currently_executing terminal_failed cancelled security_blocked : ActionEligibility

abbrev pub ActionEligibility-discrete : Discrete ActionEligibility
ActionEligibility-discrete = hlevel

instance abbrev pub action_eligibility_eq : Eq ActionEligibility
action_eligibility_eq = eq_of_discrete ActionEligibility-discrete

-- `_IN_PROGRESS_STATUSES`
abbrev pub in_progress_statuses : List ActionStatus
in_progress_statuses =
    ActionStatus.executing ∷ ActionStatus.execution_succeeded ∷ ActionStatus.verifying
    ∷ ActionStatus.verified ∷ []

-- The body of the loop for a dependency that is there; none where the loop goes on.
unfoldable pub dependency_verdict : ActionStatus → Option ActionEligibility
dependency_verdict status =
    if status == ActionStatus.rejected
    then some blocked_by_rejected_dependency
    else if contains status
        (ActionStatus.failed ∷ ActionStatus.cancelled ∷ ActionStatus.blocked ∷ [])
    then some blocked_by_failed_dependency
    else if not (status == ActionStatus.completed)
    then some waiting_for_dependencies
    else none

-- One round of the loop; `otherwise` is the verdict on the remaining dependencies.
unfoldable pub dependency_step : Option Action → ActionEligibility → ActionEligibility
unfolding dependency_verdict
dependency_step none otherwise = reconciliation_required
dependency_step (some dep) otherwise = elim (dependency_verdict dep.status) [
  | none ↦ otherwise
  | some verdict ↦ verdict
]

-- The loop over the dependencies.
unfoldable pub evaluate_dependencies : List String → Dict String Action → ActionEligibility
evaluate_dependencies [] actions_by_id = ready
evaluate_dependencies (dep_id ∷ rest) actions_by_id =
    dependency_step (lookup dep_id actions_by_id) (evaluate_dependencies rest actions_by_id)

-- The returns before the loop; `otherwise` is the verdict of the loop.
unfoldable pub by_status : ActionStatus → ActionEligibility → ActionEligibility
by_status status otherwise =
    if status == ActionStatus.completed
    then already_completed
    else if status == ActionStatus.failed
    then terminal_failed
    else if status == ActionStatus.rejected
    then terminal_failed
    else if status == ActionStatus.cancelled
    then cancelled
    else if status == ActionStatus.blocked
    then security_blocked
    else if status == ActionStatus.waiting_for_approval
    then waiting_for_approval
    else if contains status in_progress_statuses
    then currently_executing
    else otherwise

unfoldable pub evaluate_action_eligibility : Action → Dict String Action → ActionEligibility
unfolding by_status
evaluate_action_eligibility action actions_by_id =
    by_status action.status (evaluate_dependencies action.dependencies actions_by_id)
