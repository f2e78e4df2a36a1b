-- ===== src/StateMachines/PlanPaths.antt =====
-- What the table of app/decision_intelligence/action_plan_state_machine.py lets a plan do.
use mr_enderson.Base.{◌≡◌, refl, ◌⊎◌, true, false, List, [], ◌∷◌, arith, contains, In, ok, ◌↔◌}
use mr_enderson.Schemas.{ActionPlanStatus, action_plan_status_eq}
use mr_enderson.StateMachines.{follow, follow-gate}
use mr_enderson.StateMachines.ActionPlan.{can_transition, assert_transition}

abbrev before_ready : List ActionPlanStatus
before_ready =
    ActionPlanStatus.draft ∷ ActionPlanStatus.validating ∷ ActionPlanStatus.failed
    ∷ ActionPlanStatus.cancelled ∷ []

abbrev before_execution : List ActionPlanStatus
before_execution = ActionPlanStatus.ready ∷ before_ready

abbrev pub terminal : List ActionPlanStatus
terminal = ActionPlanStatus.completed ∷ ActionPlanStatus.failed ∷ ActionPlanStatus.cancelled ∷ []

abbrev IsGate : List ActionPlanStatus → ActionPlanStatus → Type 0
IsGate region gate =
    (s t : ActionPlanStatus)
    → contains s region ≡ true
    → assert_transition s t ≡ ok tt
    → (contains t region ≡ true) ⊎ (gate ≡ t)

ready-IsGate : IsGate before_ready ActionPlanStatus.ready
unfolding assert_transition
ready-IsGate s t inside step = ground arith

execution-IsGate : IsGate before_execution ActionPlanStatus.executing
unfolding assert_transition
execution-IsGate s t inside step = ground arith

-- A plan that goes by accepted transitions from DRAFT to COMPLETED visits READY and EXECUTING.
pub completed_visits_ready :
    (ts : List ActionPlanStatus)
    → follow assert_transition ActionPlanStatus.draft ts ≡ ok ActionPlanStatus.completed
    → In ActionPlanStatus.ready ts × In ActionPlanStatus.executing ts
completed_visits_ready ts path = (
  follow-gate assert_transition (λ x. contains x before_ready) _ ready-IsGate _ _ ts refl refl path,
  follow-gate assert_transition (λ x. contains x before_execution) _ execution-IsGate _ _ ts refl
      refl path,
)

-- A plan can be cancelled exactly when it is not COMPLETED, FAILED or CANCELLED, and from these
-- three no transition at all is accepted.
pub cancel_iff_not_terminal :
    (s : ActionPlanStatus)
    → (can_transition s ActionPlanStatus.cancelled ≡ true ↔ contains s terminal ≡ false)
      × ((t : ActionPlanStatus) → contains s terminal ≡ true → can_transition s t ≡ false)
unfolding can_transition
cancel_iff_not_terminal s = (ground arith, λ t h. ground arith)
