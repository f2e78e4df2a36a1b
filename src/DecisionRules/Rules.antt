-- ===== src/DecisionRules/Rules.antt =====
-- `_VALID_TRANSITIONS` and the functions of app/decision_intelligence/decision_rules.py.
use mr_enderson.Base.{
  Bool, ◌&&◌, ◌||◌, not, List, [], ◌∷◌, ◌==◌, Outcome, ok, raise_if, ◌>>◌, is_ok, contains,
}
use mr_enderson.Schemas.{Decision, DecisionStatus, decision_status_eq}
use mr_enderson.StateMachines.{TransitionError}

unfoldable pub valid_transitions : DecisionStatus → List DecisionStatus
valid_transitions DecisionStatus.proposed =
    DecisionStatus.insufficient_evidence ∷ DecisionStatus.ready_for_action ∷ DecisionStatus.rejected
    ∷ DecisionStatus.superseded ∷ []
valid_transitions DecisionStatus.insufficient_evidence =
    DecisionStatus.proposed ∷ DecisionStatus.rejected ∷ DecisionStatus.superseded ∷ []
valid_transitions DecisionStatus.ready_for_action =
    DecisionStatus.approval_required ∷ DecisionStatus.approved ∷ DecisionStatus.rejected
    ∷ DecisionStatus.superseded ∷ []
valid_transitions DecisionStatus.approval_required =
    DecisionStatus.approved ∷ DecisionStatus.rejected ∷ DecisionStatus.superseded ∷ []
valid_transitions DecisionStatus.approved = DecisionStatus.superseded ∷ []
valid_transitions DecisionStatus.rejected = []
valid_transitions DecisionStatus.superseded = []

unfoldable pub can_transition : DecisionStatus → DecisionStatus → Bool
unfolding valid_transitions
can_transition current target = contains target (valid_transitions current)

-- `DecisionTransitionError`, `DecisionInvariantViolation` and `DecisionPlanBoundaryError`
pub data DecisionError : Type 0 where
  invalid_transition : TransitionError DecisionStatus → DecisionError
  invariant_violation plan_boundary : DecisionError

unfoldable pub assert_transition :
    DecisionStatus → DecisionStatus → Outcome DecisionError (Unit {0})
unfolding can_transition
assert_transition current target =
    raise_if (not (can_transition current target))
      (invalid_transition (record { current = current; target = target }))

unfoldable pub apply_decision_transition :
    Decision → DecisionStatus → Outcome DecisionError Decision
unfolding assert_transition
apply_decision_transition decision target = do
  assert_transition decision.status target
  raise_if (target == DecisionStatus.ready_for_action && not decision.comparison_ready)
      invariant_violation
  ok (record decision { status = target })

unfoldable pub compute_actionable : Decision → Bool
compute_actionable decision =
    decision.status == DecisionStatus.ready_for_action && decision.comparison_ready

unfoldable pub enforce_actionable_flag : Decision → Decision
unfolding compute_actionable
enforce_actionable_flag decision = record decision { actionable = compute_actionable decision }

unfoldable pub assert_can_produce_plan : Decision → Outcome DecisionError (Unit {0})
assert_can_produce_plan decision = do
  raise_if (decision.status == DecisionStatus.insufficient_evidence) plan_boundary
  raise_if (not decision.comparison_ready) plan_boundary
  raise_if
      (decision.status == DecisionStatus.rejected || decision.status == DecisionStatus.superseded)
      plan_boundary
  ok tt

unfoldable pub can_produce_plan : Decision → Bool
unfolding assert_can_produce_plan
can_produce_plan decision = is_ok (assert_can_produce_plan decision)
