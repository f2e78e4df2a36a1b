-- ===== src/Eligibility/Ready.antt =====
-- An action is ready only after its dependencies have completed.
use mr_enderson.Base.{
  ◌≡◌, refl, ◌↔◌, String, true, Option, none, some, List, [], ◌∷◌, arith, string_eq, contains, Dict,
  lookup,
}
use mr_enderson.Schemas.{Action, ActionStatus, action_status_eq}
use mr_enderson.Eligibility.Evaluate.{
  ActionEligibility, ready, dependency_verdict, dependency_step, evaluate_dependencies, by_status,
  evaluate_action_eligibility,
}

-- Every dependency is an action that is COMPLETED.
pub AllCompleted : List String → Dict String Action → Type 0
AllCompleted [] actions = Unit
AllCompleted (dep ∷ rest) actions =
    ((a : Action) × (lookup dep actions ≡ some a) × (a.status ≡ ActionStatus.completed))
    × AllCompleted rest actions

step-ready :
    (found : Option Action) (otherwise : ActionEligibility)
    → (dependency_step found otherwise ≡ ready) ↔ (
        ((a : Action) × (found ≡ some a) × (a.status ≡ ActionStatus.completed))
        × (otherwise ≡ ready))
unfolding dependency_step
step-ready none otherwise = (λ h. absurd (cc h), λ ((a, e, _), _). absurd (cc e))
step-ready (some dep) otherwise = (
  λ h. let (done, rest) = forward dep.status h in ((dep, refl, done), rest),
  λ ((a, e, done), rest). let same : dep ≡ a = cc e in backward dep.status (rw same done) rest,
)
  where
    forward :
        (s : ActionStatus)
        → (elim (dependency_verdict s) [ none ↦ otherwise | some verdict ↦ verdict ]) ≡ ready
        → (s ≡ ActionStatus.completed) × (otherwise ≡ ready)
    forward s h = unfold dependency_verdict in ground arith

    backward :
        (s : ActionStatus)
        → s ≡ ActionStatus.completed
        → otherwise ≡ ready
        → (elim (dependency_verdict s) [ none ↦ otherwise | some verdict ↦ verdict ]) ≡ ready
    backward s e h = unfold dependency_verdict in ground arith

dependencies-ready :
    (deps : List String) (actions : Dict String Action)
    → (evaluate_dependencies deps actions ≡ ready) ↔ AllCompleted deps actions
unfolding evaluate_dependencies AllCompleted
dependencies-ready [] actions = (λ _. tt, λ _. refl)
dependencies-ready (dep ∷ rest) actions =
    let step = step-ready (lookup dep actions) (evaluate_dependencies rest actions) in
    let ih = dependencies-ready rest actions in
    (
      λ h. let (here, there) = step.0 h in (here, ih.0 there),
      λ (here, there). step.1 (here, ih.1 there),
    )

by_status-ready :
    (s : ActionStatus) (otherwise : ActionEligibility)
    → (by_status s otherwise ≡ ready) ↔ (
        (contains s (
            ActionStatus.planned ∷ ActionStatus.validated ∷ ActionStatus.permission_checked
            ∷ ActionStatus.approved ∷ ActionStatus.verification_failed ∷ [])
          ≡ true)
        × (otherwise ≡ ready))
unfolding by_status
by_status-ready s otherwise = ground arith

-- An action is READY exactly when it is PLANNED, VALIDATED, PERMISSION_CHECKED, APPROVED or
-- VERIFICATION_FAILED and each of its dependencies is an action of the plan that is COMPLETED.
pub ready_iff :
    (a : Action) (actions : Dict String Action)
    → (evaluate_action_eligibility a actions ≡ ready) ↔ (
        (contains a.status (
            ActionStatus.planned ∷ ActionStatus.validated ∷ ActionStatus.permission_checked
            ∷ ActionStatus.approved ∷ ActionStatus.verification_failed ∷ [])
          ≡ true)
        × AllCompleted a.dependencies actions)
unfolding evaluate_action_eligibility
ready_iff a actions =
    let status = by_status-ready a.status (evaluate_dependencies a.dependencies actions) in
    let deps = dependencies-ready a.dependencies actions in
    (
      λ h. let (before, rest) = status.0 h in (before, deps.0 rest),
      λ (before, rest). status.1 (before, deps.1 rest),
    )
