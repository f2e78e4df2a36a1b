-- ===== src/Examples/Eligible.antt =====
-- Eligibility at a concrete plan.
use mr_enderson.Base.{◌≡◌, refl, ◌↔◌, true, String, [], ◌∷◌, Dict, contains, string_eq}
use mr_enderson.Schemas.{Action, ActionStatus, action_status_eq}
use mr_enderson.Eligibility.Evaluate.{
  evaluate_action_eligibility, evaluate_dependencies, dependency_step, dependency_verdict,
  by_status, ready,
}
use mr_enderson.Eligibility.Ready.{AllCompleted, ready_iff}
use mr_enderson.Examples.Samples.{email_action}

abbrev done : Action
done = record email_action { status = ActionStatus.completed }

abbrev next : Action
next = record email_action { id = "a2"; dependencies = "a1" ∷ [] }

abbrev plan : Dict String Action
plan = ("a1", done) ∷ ("a2", next) ∷ []

next-ready : evaluate_action_eligibility next plan ≡ ready
unfolding evaluate_action_eligibility evaluate_dependencies dependency_step dependency_verdict
    by_status
next-ready = refl

ready_iff_example : (evaluate_action_eligibility next plan ≡ ready) ↔ (
    (contains ActionStatus.validated (
        ActionStatus.planned ∷ ActionStatus.validated ∷ ActionStatus.permission_checked
        ∷ ActionStatus.approved ∷ ActionStatus.verification_failed ∷ [])
      ≡ true)
    × AllCompleted ("a1" ∷ []) plan)
ready_iff_example = ready_iff next plan
