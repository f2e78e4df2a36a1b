-- ===== src/StateMachines/ActionPaths.antt =====
-- What the table of app/decision_intelligence/action_state_machine.py lets an action do.
use mr_enderson.Base.{
  ℕ, ◌≤◌, ◌<◌, ◌≡◌, refl, ◌⊎◌, true, false, List, [], ◌∷◌, arith, length, contains, In, ok,
}
use mr_enderson.Schemas.{ActionStatus, action_status_eq}
use mr_enderson.StateMachines.{follow, follow-gate, follow-rank}
use mr_enderson.StateMachines.Action.{assert_transition}

abbrev given_up : List ActionStatus
given_up =
    ActionStatus.rejected ∷ ActionStatus.cancelled ∷ ActionStatus.blocked ∷ ActionStatus.failed ∷ []

abbrev before_permission : List ActionStatus
before_permission = ActionStatus.planned ∷ ActionStatus.validated ∷ given_up

abbrev before_execution : List ActionStatus
before_execution =
    ActionStatus.permission_checked ∷ ActionStatus.waiting_for_approval ∷ ActionStatus.approved
    ∷ before_permission

abbrev before_success : List ActionStatus
before_success = ActionStatus.executing ∷ before_execution

abbrev before_verification : List ActionStatus
before_verification = ActionStatus.execution_succeeded ∷ before_success

abbrev before_verdict : List ActionStatus
before_verdict = ActionStatus.verifying ∷ ActionStatus.verification_failed ∷ before_verification

abbrev pub awaiting : List ActionStatus
awaiting = ActionStatus.waiting_for_approval ∷ ActionStatus.rejected ∷ ActionStatus.cancelled ∷ []

-- A step out of the region lands on the gate.
abbrev IsGate : List ActionStatus → ActionStatus → Type 0
IsGate region gate =
    (s t : ActionStatus)
    → contains s region ≡ true
    → assert_transition s t ≡ ok tt
    → (contains t region ≡ true) ⊎ (gate ≡ t)

permission-IsGate : IsGate before_permission ActionStatus.permission_checked
unfolding assert_transition
permission-IsGate s t inside step = ground arith

execution-IsGate : IsGate before_execution ActionStatus.executing
unfolding assert_transition
execution-IsGate s t inside step = ground arith

success-IsGate : IsGate before_success ActionStatus.execution_succeeded
unfolding assert_transition
success-IsGate s t inside step = ground arith

verification-IsGate : IsGate before_verification ActionStatus.verifying
unfolding assert_transition
verification-IsGate s t inside step = ground arith

verdict-IsGate : IsGate before_verdict ActionStatus.verified
unfolding assert_transition
verdict-IsGate s t inside step = ground arith

approval-IsGate : IsGate awaiting ActionStatus.approved
unfolding assert_transition
approval-IsGate s t inside step = ground arith

-- A path out of a region visits its gate.
gate-visited :
    (region : List ActionStatus) (gate : ActionStatus)
    → IsGate region gate
    → (s u : ActionStatus) (ts : List ActionStatus) → contains s region ≡ true
    → contains u region ≡ false
    → follow assert_transition s ts ≡ ok u
    → In gate ts
gate-visited region gate closed s u ts inside outside path =
    follow-gate assert_transition (λ x. contains x region) gate closed s u ts inside outside path

-- An action that goes by accepted transitions from PLANNED to COMPLETED visits
-- PERMISSION_CHECKED, EXECUTING, EXECUTION_SUCCEEDED, VERIFYING and VERIFIED on the way.
pub completed_visits :
    (ts : List ActionStatus)
    → follow assert_transition ActionStatus.planned ts ≡ ok ActionStatus.completed
    → In ActionStatus.permission_checked ts
      × In ActionStatus.executing ts
      × In ActionStatus.execution_succeeded ts
      × In ActionStatus.verifying ts
      × In ActionStatus.verified ts
completed_visits ts path = (
  gate-visited before_permission _ permission-IsGate _ _ ts refl refl path,
  gate-visited before_execution _ execution-IsGate _ _ ts refl refl path,
  gate-visited before_success _ success-IsGate _ _ ts refl refl path,
  gate-visited before_verification _ verification-IsGate _ _ ts refl refl path,
  gate-visited before_verdict _ verdict-IsGate _ _ ts refl refl path,
)

-- From WAITING_FOR_APPROVAL, accepted transitions that end anywhere but in
-- WAITING_FOR_APPROVAL, REJECTED or CANCELLED visit APPROVED.
pub waiting_visits_approved :
    (ts : List ActionStatus) (u : ActionStatus)
    → contains u awaiting ≡ false
    → follow assert_transition ActionStatus.waiting_for_approval ts ≡ ok u
    → In ActionStatus.approved ts
waiting_visits_approved ts u outside path =
    gate-visited awaiting _ approval-IsGate _ u ts refl outside path

-- How many transitions an action in this status can still make.
steps_left : ActionStatus → ℕ
steps_left ActionStatus.planned = 10
steps_left ActionStatus.validated = 9
steps_left ActionStatus.permission_checked = 8
steps_left ActionStatus.waiting_for_approval = 7
steps_left ActionStatus.approved = 6
steps_left ActionStatus.executing = 5
steps_left ActionStatus.execution_succeeded = 4
steps_left ActionStatus.verifying = 3
steps_left ActionStatus.verified = 1
steps_left ActionStatus.verification_failed = 2
steps_left ActionStatus.blocked = 1
steps_left _ = 0

steps_left-lt : (s t : ActionStatus) → assert_transition s t ≡ ok tt → steps_left t < steps_left s
unfolding assert_transition steps_left
steps_left-lt s t step = ground arith

steps_left-le : (s : ActionStatus) → steps_left s ≤ 10
unfolding steps_left
steps_left-le s = ground arith

-- No action makes more than ten accepted transitions, whatever its first status: the table has
-- no cycle.
pub transitions_le_ten :
    (s u : ActionStatus) (ts : List ActionStatus)
    → follow assert_transition s ts ≡ ok u
    → length ts ≤ 10
transitions_le_ten s u ts path =
    omega
      (arith, follow-rank assert_transition steps_left steps_left-lt s u ts path, steps_left-le s)
