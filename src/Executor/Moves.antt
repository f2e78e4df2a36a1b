-- ===== src/Executor/Moves.antt =====
-- The status changes of a run, none of which the transition table forbids.
use mr_enderson.Base.{
  ◌≡◌, refl, inl, inr, true, none, some, string_eq, ok, Bool-cases, if◌then◌else◌,
}
use mr_enderson.Schemas.{
  Action, ActionStatus, action_status_eq, ExecutionResult, VerificationResult,
}
use mr_enderson.StateMachines.Action.{assert_transition, can_transition, valid_transitions}
use mr_enderson.PermissionEngine.Levels.{permission_outcome_eq}
use mr_enderson.Executor.Outcomes.{ExecutionOutcome, Texts, move}
use mr_enderson.Executor.Execute.{after_failure, before_verification, after_verification}

-- A status change that the table allows.
pub move_ok :
    (action : Action) (target : ActionStatus)
    → can_transition action.status target ≡ true
    → move action target ≡ ok (record action { status = target })
unfolding assert_transition
move_ok action target h = rw (move, h) refl

-- What a failed call of the adapter leaves.
abbrev pub failed_run : Action → ExecutionResult → ExecutionOutcome
failed_run executing result = record {
  action = record executing {
    status = ActionStatus.failed;
    completed_at = some result.completed_at;
    error = result.error_message;
    result = result.output;
  };
  execution_result = some result;
  verification_result = none;
}

abbrev pub verifying_action : Action → ExecutionResult → Action
verifying_action executing result = record executing {
  status = ActionStatus.verifying;
  completed_at = some result.completed_at;
  result = result.output;
}

-- What the verdict of the adapter leaves.
abbrev pub judged_run : Texts → Action → ExecutionResult → VerificationResult → ExecutionOutcome
judged_run texts verifying result verdict = record {
  action =
      if verdict.passed
      then record verifying { status = ActionStatus.completed }
      else record verifying {
        status = ActionStatus.failed;
        error = some (texts.joined verdict.issues);
      };
  execution_result = some result;
  verification_result = some verdict;
}

pub after_failure_ok :
    (executing : Action) (result : ExecutionResult)
    → executing.status ≡ ActionStatus.executing
    → after_failure executing result ≡ ok (failed_run executing result)
unfolding after_failure assert_transition can_transition valid_transitions
after_failure_ok executing result h = rw h refl

pub before_verification_ok :
    (executing : Action) (result : ExecutionResult)
    → executing.status ≡ ActionStatus.executing
    → before_verification executing result ≡ ok (verifying_action executing result)
unfolding before_verification assert_transition can_transition valid_transitions
before_verification_ok executing result h = rw h refl

pub after_verification_ok :
    (texts : Texts) (verifying : Action) (result : ExecutionResult) (verdict : VerificationResult)
    → verifying.status ≡ ActionStatus.verifying
    → after_verification texts verifying result verdict
      ≡ ok (judged_run texts verifying result verdict)
unfolding after_verification assert_transition can_transition valid_transitions
after_verification_ok texts verifying result verdict h = elim (Bool-cases verdict.passed) [
  | inl e ↦ rw (e, h) refl
  | inr e ↦ rw (e, h) refl
]
