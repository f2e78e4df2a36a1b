-- ===== src/PermissionEngine/Gate.antt =====
-- Applying a decision to an action, and what a blocked action can still do.
use mr_enderson.Base.{◌≡◌, ◌≢◌, ◌↔◌, ◌⊎◌, true, List, [], ◌∷◌, arith, contains, ok}
use mr_enderson.Schemas.{ActionStatus, action_status_eq, Action}
use mr_enderson.StateMachines.{follow, follow-uncons}
use mr_enderson.StateMachines.Action.{assert_transition}
use mr_enderson.PermissionEngine.Levels.{block, permission_outcome_eq}
use mr_enderson.PermissionEngine.Decisions.{
  PermissionDecision, decision_target, apply_permission_decision,
}

-- A decision is applied exactly to the actions whose status allows it: BLOCK to PLANNED,
-- VALIDATED, PERMISSION_CHECKED and VERIFICATION_FAILED actions, any other outcome to VALIDATED
-- actions only. The action then carries the decision's levels and approval flag.
pub apply_accepts :
    (a : Action) (d : PermissionDecision)
    → ((d.outcome ≡ block
          × (contains a.status (
                ActionStatus.planned ∷ ActionStatus.validated ∷ ActionStatus.permission_checked
                ∷ ActionStatus.verification_failed ∷ [])
              ≡ true))
        ⊎ ((d.outcome ≢ block) × (a.status ≡ ActionStatus.validated)))
      ↔ (apply_permission_decision a d
          ≡ ok (record a {
            status = decision_target d;
            permission_level = d.permission_level;
            risk_level = d.risk_level;
            approval_required = d.approval_required;
          }))
unfolding apply_permission_decision assert_transition
apply_accepts a d = ground arith

abbrev stopped : List ActionStatus
stopped = ActionStatus.blocked ∷ ActionStatus.cancelled ∷ []

stopped-closed :
    (s t : ActionStatus)
    → contains s stopped ≡ true
    → assert_transition s t ≡ ok tt
    → contains t stopped ≡ true
unfolding assert_transition
stopped-closed s t inside step = ground arith

stopped-follow :
    (s u : ActionStatus) (ts : List ActionStatus)
    → contains s stopped ≡ true
    → follow assert_transition s ts ≡ ok u
    → contains u stopped ≡ true
unfolding follow
stopped-follow s u [] inside path = ground arith
stopped-follow s u (t ∷ ts) inside path =
    let (step, rest) = follow-uncons assert_transition s t u ts path in
    stopped-follow t u ts (stopped-closed s t inside step) rest

apply_block-status :
    (a b : Action) (d : PermissionDecision)
    → d.outcome ≡ block
    → apply_permission_decision a d ≡ ok b
    → contains b.status stopped ≡ true
unfolding apply_permission_decision assert_transition
apply_block-status a b d blocked e = ground arith

-- Once a BLOCK decision has been applied to an action, no sequence of accepted transitions takes
-- it anywhere but to BLOCKED and CANCELLED, so it is never executed.
pub blocked_never_executes :
    (a b : Action) (d : PermissionDecision) (ts : List ActionStatus) (u : ActionStatus)
    → d.outcome ≡ block
    → apply_permission_decision a d ≡ ok b
    → follow assert_transition b.status ts ≡ ok u
    → (u ≡ ActionStatus.blocked) ⊎ (u ≡ ActionStatus.cancelled)
blocked_never_executes a b d ts u blocked applied path =
    ground (arith, stopped-follow b.status u ts (apply_block-status a b d blocked applied) path)
